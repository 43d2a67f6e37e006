-- ===== src/Sstable/Entries.antt =====
-- Table entries, sorted lists of them, and the entry of a key.
use lsm_tree.Prelude.{◌≡◌, refl, true, Option, none, some, List, [], ◌∷◌, arith, if◌then◌else◌}
use lsm_tree.Keys.{Key, key_lt, key_eq, key_lt_trans, key_lt→ne, key_eq_sym}

-- SSTable::Entry; `none` is a tombstone.
pub record Entry : Type 0 where
  pub key : Key
  pub value : Option Key

-- Every key of the entries is above `k`.
abbrev pub AllAbove : Key → List Entry → Type 0
AllAbove k [] = Unit {0}
AllAbove k (e ∷ es) = (key_lt k e.key ≡ true) × AllAbove k es

-- Sorted by key, with no key twice: what SSTable::write demands of its input.
abbrev pub Ascending : List Entry → Type 0
Ascending [] = Unit {0}
Ascending (e ∷ es) = AllAbove e.key es × Ascending es

-- The entry of a key in a list of entries: `none` if the list has no such key.
unfoldable pub entry_lookup : Key → List Entry → Option (Option Key)
entry_lookup k [] = none
entry_lookup k (e ∷ es) = if key_eq e.key k then some e.value else entry_lookup k es

pub AllAbove-trans :
    (j k : Key) (es : List Entry) → key_lt j k ≡ true → AllAbove k es → AllAbove j es
AllAbove-trans j k [] h a = tt
AllAbove-trans j k (e ∷ es) h a = (key_lt_trans j k e.key h a.0, AllAbove-trans j k es h a.1)

pub lookup-AllAbove : (k : Key) (es : List Entry) → AllAbove k es → entry_lookup k es ≡ none
unfolding entry_lookup
lookup-AllAbove k [] a = refl
lookup-AllAbove k (e ∷ es) a =
    ground (arith, lookup-AllAbove k es, key_lt→ne k e.key, key_eq_sym k e.key)
