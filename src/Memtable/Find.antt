-- ===== src/Memtable/Find.antt =====
-- The search through the levels ends where a search of level 0 alone ends.
use lsm_tree.Prelude.{
  ℕ, zero, suc, ◌<◌, ◌≡◌, ◌⊎◌, inl, inr, refl, sym, ◌∙◌, true, false, List, [], ◌∷◌, arith,
  Bool-cases, ltb, if◌then◌else◌,
}
use lsm_tree.Keys.{Key, key_lt, key_lt_trans}
use lsm_tree.Memtable.{Tower, walk, descend, find}

abbrev pub TowersAbove : Key → List Tower → Type 0
TowersAbove k [] = Unit {0}
TowersAbove k (n ∷ ns) = (key_lt k n.key ≡ true) × TowersAbove k ns

-- The keys of the nodes strictly increase, and every node has a link on level 0.
abbrev pub IsSkipList : List Tower → Type 0
IsSkipList [] = Unit {0}
IsSkipList (n ∷ ns) = TowersAbove n.key ns × ((0 < n.height) × IsSkipList ns)

pub TowersAbove-trans :
    (j k : Key) (ns : List Tower) → key_lt j k ≡ true → TowersAbove k ns → TowersAbove j ns
TowersAbove-trans j k [] l a = tt
TowersAbove-trans j k (n ∷ ns) l a = (key_lt_trans j k n.key l a.0, TowersAbove-trans j k ns l a.1)

-- The nodes from the first whose key is not below the key.
unfoldable pub from : Key → List Tower → List Tower
from key [] = []
from key (n ∷ ns) = if key_lt n.key key then from key ns else n ∷ ns

abbrev NoneBelow : Key → List Tower → Type 0
NoneBelow key [] = Unit {0}
NoneBelow key (n ∷ ns) = (key_lt n.key key ≡ false) × NoneBelow key ns

NoneBelow-above :
    (key : Key) (k : Key) (ns : List Tower)
    → key_lt k key ≡ false
    → TowersAbove k ns
    → NoneBelow key ns
NoneBelow-above key k [] f a = tt
NoneBelow-above key k (n ∷ ns) f a =
    (ground (arith, key_lt_trans k n.key key, a.0), NoneBelow-above key k ns f a.1)

from-walk :
    (level : ℕ) (key : Key) (after rest : List Tower)
    → IsSkipList rest
    → (from key after ≡ from key rest) ⊎ NoneBelow key rest
    → from key (walk level key after rest) ≡ from key after
unfolding walk from
from-walk level key after [] s h = refl
from-walk level key after (n ∷ ns) s (inl e) = elim (Bool-cases (key_lt n.key key)) [
  | inl t ↦ elim (Bool-cases (ltb level n.height)) [
    | inl u ↦ rw (u, t) (from-walk level key ns ns s.1.1 (inl refl) ∙ sym (e ∙ rw t))
    | inr v ↦ rw v (from-walk level key after ns s.1.1 (inl (e ∙ rw t)))
  ]
  | inr f ↦ elim (Bool-cases (ltb level n.height)) [
    | inl u ↦ rw (u, f)
    | inr v ↦ rw v (from-walk level key after ns s.1.1 (inr (NoneBelow-above key n.key ns f s.0)))
  ]
]
from-walk level key after (n ∷ ns) s (inr f) = elim (Bool-cases (ltb level n.height)) [
  | inl u ↦ rw (u, f.0)
  | inr v ↦ rw v (from-walk level key after ns s.1.1 (inr f.1))
]

walk-IsSkipList :
    (level : ℕ) (key : Key) (after rest : List Tower)
    → IsSkipList after
    → IsSkipList rest
    → IsSkipList (walk level key after rest)
unfolding walk
walk-IsSkipList level key after [] a s = a
walk-IsSkipList level key after (n ∷ ns) a s = elim (Bool-cases (ltb level n.height)) [
  | inl u ↦ elim (Bool-cases (key_lt n.key key)) [
    | inl t ↦ rw (u, t) (walk-IsSkipList level key ns ns s.1.1 s.1.1)
    | inr f ↦ rw (u, f) a
  ]
  | inr v ↦ rw v (walk-IsSkipList level key after ns a s.1.1)
]

-- On level 0 the walk stops at no node too early.
walk-from : (key : Key) (ns : List Tower) → IsSkipList ns → walk 0 key ns ns ≡ from key ns
unfolding walk from
walk-from key [] s = refl
walk-from key (n ∷ ns) s =
    let linked : ltb 0 n.height ≡ true = (let h = s.1.0 in ground arith) in
    elim (Bool-cases (key_lt n.key key)) [
      | inl t ↦ rw (linked, t) (walk-from key ns s.1.1)
      | inr f ↦ rw (linked, f)
    ]

descend-from :
    (level : ℕ) (key : Key) (ns : List Tower)
    → IsSkipList ns
    → descend (suc level) key ns ≡ from key ns
unfolding descend
descend-from zero key ns s = walk-from key ns s
descend-from (suc level) key ns s =
    descend-from level key (walk (suc level) key ns ns) (walk-IsSkipList (suc level) key ns ns s s)
    ∙ from-walk (suc level) key ns ns s (inl refl)

-- Whatever the heights of its nodes, a skip list is searched as its level 0 is.
pub find-from : (key : Key) (ns : List Tower) → IsSkipList ns → find key ns ≡ from key ns
unfolding find
find-from key ns s = descend-from 11 key ns s
