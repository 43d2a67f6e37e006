-- ===== src/Memtable/Insert.antt =====
-- SkipList::insert as an insert into a sorted list.
use lsm_tree.Prelude.{
  ℕ, suc, ◌+◌, ◌-◌, ◌≤◌, ◌<◌, ◌≡◌, inl, inr, refl, sym, ap, ◌∙◌, true, Option, some, List, [], ◌∷◌,
  ◌++◌, arith, Bool-cases, if◌then◌else◌, length, take,
}
use lsm_tree.Keys.{
  Key, key_lt, key_eq, key_lt_antisym, key_eq→eq, key_lt→ne, key_eq_sym, key_eq_refl,
}
use lsm_tree.Sstable.Entries.{AllAbove, Ascending, entry_lookup, lookup-AllAbove}
use lsm_tree.Sstable.Iterate.{skip_below}
use lsm_tree.Memtable.{Tower, is_key, value_size, insert_at, replaced_bytes, found_value, entries}
use lsm_tree.Memtable.Find.{IsSkipList, TowersAbove, TowersAbove-trans, from}

unfoldable pub insert_in : Key → Option Key → ℕ → List Tower → List Tower
insert_in key value height [] = insert_at key value height []
insert_in key value height (n ∷ ns) =
    if key_lt n.key key
    then n ∷ insert_in key value height ns
    else insert_at key value height (n ∷ ns)

length-from : (key : Key) (ns : List Tower) → length (from key ns) ≤ length ns
unfolding from
length-from key [] = omega arith
length-from key (n ∷ ns) = ground (arith, length-from key ns)

take_next :
    (a : ℕ) (n : Tower) (ns rest : List Tower) (b : ℕ)
    → b ≤ a
    → take (suc a - b) (n ∷ ns) ++ rest ≡ n ∷ (take (a - b) ns ++ rest)
take_next a n ns rest b l = ap (λ i. take i (n ∷ ns) ++ rest) (the_next)
  where
    the_next : suc a - b ≡ suc (a - b)
    the_next = omega arith

-- The nodes before succs[0] stay, and the rest changes.
pub insert-insert_in :
    (key : Key) (value : Option Key) (height : ℕ) (ns : List Tower)
    → take (length ns - length (from key ns)) ns ++ insert_at key value height (from key ns)
      ≡ insert_in key value height ns
unfolding from insert_in
insert-insert_in key value height [] = refl
insert-insert_in key value height (n ∷ ns) = elim (Bool-cases (key_lt n.key key)) [
  | inl t ↦ rw t (
      take_next (length ns) n ns (insert_at key value height (from key ns)) (length (from key ns))
        (length-from key ns)
      ∙ ap (◌∷◌ n) (insert-insert_in key value height ns))
  | inr f ↦ let z : suc (length ns) - suc (length ns) ≡ 0 = omega arith in rw (f, z)
]

TowersAbove-insert_in :
    (k key : Key) (value : Option Key) (height : ℕ) (ns : List Tower)
    → key_lt k key ≡ true
    → TowersAbove k ns
    → TowersAbove k (insert_in key value height ns)
unfolding insert_in insert_at
TowersAbove-insert_in k key value height [] l a = (l, tt)
TowersAbove-insert_in k key value height (n ∷ ns) l a = elim (Bool-cases (key_lt n.key key)) [
  | inl t ↦ rw t (a.0, TowersAbove-insert_in k key value height ns l a.1)
  | inr f ↦ elim (Bool-cases (key_eq n.key key)) [
    | inl e ↦ rw (f, e) (a.0, a.1)
    | inr u ↦ rw (f, u) (l, (a.0, a.1))
  ]
]

pub insert_in-IsSkipList :
    (key : Key) (value : Option Key) (height : ℕ) (ns : List Tower)
    → 0 < height
    → IsSkipList ns
    → IsSkipList (insert_in key value height ns)
unfolding insert_in insert_at
insert_in-IsSkipList key value height [] h s = (tt, (h, tt))
insert_in-IsSkipList key value height (n ∷ ns) h s = elim (Bool-cases (key_lt n.key key)) [
  | inl t ↦ rw t (
    TowersAbove-insert_in n.key key value height ns t s.0,
    (s.1.0, insert_in-IsSkipList key value height ns h s.1.1),
  )
  | inr f ↦ elim (Bool-cases (key_eq n.key key)) [
    | inl e ↦ rw (f, e) (s.0, (s.1.0, s.1.1))
    | inr u ↦
        let up : key_lt key n.key ≡ true = ground (arith, key_lt_antisym n.key key) in
        rw (f, u) ((up, TowersAbove-trans key n.key ns up s.0), (h, s))
  ]
]

pub lookup-insert_in :
    (j key : Key) (value : Option Key) (height : ℕ) (ns : List Tower)
    → IsSkipList ns
    → entry_lookup j (entries (insert_in key value height ns))
      ≡ (if key_eq key j then some value else entry_lookup j (entries ns))
unfolding insert_in insert_at entries entry_lookup
lookup-insert_in j key value height [] s = refl
lookup-insert_in j key value height (n ∷ ns) s = elim (Bool-cases (key_lt n.key key)) [
  | inl t ↦
      rw (t, lookup-insert_in j key value height ns s.1.1)
        (ground (
          arith,
          key_lt→ne n.key key t,
          key_eq→eq key j,
          key_eq→eq n.key j,
          key_eq_refl j,
          key_eq_sym n.key key,
        ))
  | inr f ↦ elim (Bool-cases (key_eq n.key key)) [
    | inl e ↦ let same = key_eq→eq n.key key e in rw (f, e, same) (ground arith)
    | inr u ↦ rw (f, u)
  ]
]

-- The bytes that a memtable counts for its nodes.
unfoldable pub tally : List Tower → ℕ
tally [] = 0
tally (n ∷ ns) = length n.key + value_size n.value + 8 + tally ns

pub tally-insert_in :
    (key : Key) (value : Option Key) (height : ℕ) (ns : List Tower)
    → tally (insert_in key value height ns) + replaced_bytes key (from key ns)
      ≡ tally ns
        + (if is_key key (from key ns) then value_size value else length key + value_size value + 8)
unfolding insert_in insert_at tally replaced_bytes is_key from
tally-insert_in key value height [] = omega arith
tally-insert_in key value height (n ∷ ns) = elim (Bool-cases (key_lt n.key key)) [
  | inl t ↦ let rest = tally-insert_in key value height ns in rw t (omega arith)
  | inr f ↦ elim (Bool-cases (key_eq n.key key)) [
    | inl e ↦ rw (f, e) (omega arith)
    | inr u ↦ rw (f, u) (omega arith)
  ]
]

pub length-insert_in :
    (key : Key) (value : Option Key) (height : ℕ) (ns : List Tower)
    → length (insert_in key value height ns)
      ≡ length ns + (if is_key key (from key ns) then 0 else 1)
unfolding insert_in insert_at is_key from
length-insert_in key value height [] = refl
length-insert_in key value height (n ∷ ns) = elim (Bool-cases (key_lt n.key key)) [
  | inl t ↦ let rest = length-insert_in key value height ns in rw t (omega arith)
  | inr f ↦ elim (Bool-cases (key_eq n.key key)) [
    | inl e ↦ rw (f, e) (omega arith)
    | inr u ↦ rw (f, u) (omega arith)
  ]
]

pub entries-from :
    (key : Key) (ns : List Tower) → entries (from key ns) ≡ skip_below key (entries ns)
unfolding from entries skip_below
entries-from key [] = refl
entries-from key (n ∷ ns) = ground (arith, entries-from key ns)

AllAbove-entries : (k : Key) (ns : List Tower) → TowersAbove k ns → AllAbove k (entries ns)
unfolding entries
AllAbove-entries k [] a = tt
AllAbove-entries k (n ∷ ns) a = (a.0, AllAbove-entries k ns a.1)

pub Ascending-entries : (ns : List Tower) → IsSkipList ns → Ascending (entries ns)
unfolding entries
Ascending-entries [] s = tt
Ascending-entries (n ∷ ns) s = (AllAbove-entries n.key ns s.0, Ascending-entries ns s.1.1)

pub found-lookup :
    (key : Key) (ns : List Tower)
    → IsSkipList ns
    → found_value key (from key ns) ≡ entry_lookup key (entries ns)
unfolding from entries entry_lookup found_value
found-lookup key [] s = refl
found-lookup key (n ∷ ns) s = elim (Bool-cases (key_lt n.key key)) [
  | inl t ↦ rw (t, key_lt→ne n.key key t) (found-lookup key ns s.1.1)
  | inr f ↦ elim (Bool-cases (key_eq n.key key)) [
    | inl e ↦ rw (f, e)
    | inr u ↦
        let up : key_lt key n.key ≡ true = ground (arith, key_lt_antisym n.key key) in
        rw (f, u)
          (sym (
            lookup-AllAbove key (entries ns)
              (AllAbove-entries key ns (TowersAbove-trans key n.key ns up s.0))))
  ]
]
