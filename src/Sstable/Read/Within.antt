-- ===== src/Sstable/Read/Within.antt =====
-- Lookups in a sorted list that is cut into blocks.
use lsm_tree.Prelude.{
  ℕ, ◌+◌, ◌-◌, ◌<◌, ◌≡◌, ◌⊎◌, inl, inr, refl, sym, ap, ◌∙◌, true, false, List, [], ◌∷◌, ◌++◌, arith,
  length, concat, append_assoc, append-nil, length-append, Bool-cases,
}
use lsm_tree.Keys.{Key, key_lt, key_eq, key_eq→eq}
use lsm_tree.Sstable.Entries.{
  Entry, AllAbove, Ascending, entry_lookup, AllAbove-trans, lookup-AllAbove,
}
use lsm_tree.Sstable.Format.{fits_length_field}
use lsm_tree.Sstable.Format.RoundTrip.{AllFit}
use lsm_tree.Sstable.Build.{is_sorted_unique, all_writable}
use lsm_tree.Sstable.Build.Blocks.{first_key, index_from, NoneEmpty}
use lsm_tree.Sstable.Search.{key_at}
use lsm_tree.Sstable.Read.{scan_block}
use lsm_tree.Sstable.Read.Slots.{length-index_from, index_at}

-- What the two checks of `write` accept.
pub is_sorted_unique-Ascending : (es : List Entry) → is_sorted_unique es ≡ true → Ascending es
unfolding is_sorted_unique
is_sorted_unique-Ascending [] h = tt
is_sorted_unique-Ascending (a ∷ []) h = (tt, tt)
is_sorted_unique-Ascending (a ∷ b ∷ es) h = elim (Bool-cases (key_lt a.key b.key)) [
  | inl t ↦
      let rest = is_sorted_unique-Ascending (b ∷ es) (rw t at h) in
      ((t, AllAbove-trans a.key b.key es t rest.0), rest)
  | inr f ↦ absurd (ground arith)
]

pub all_writable-AllFit : (es : List Entry) → all_writable es ≡ true → AllFit es
unfolding all_writable fits_length_field
all_writable-AllFit [] h = tt
all_writable-AllFit (e ∷ es) h =
    ((ground arith, ground arith), all_writable-AllFit es (ground arith))

-- The early end of the scan loses nothing in a sorted block.
pub scan_block-lookup :
    (k : Key) (es : List Entry) → Ascending es → scan_block k es ≡ entry_lookup k es
unfolding scan_block entry_lookup
scan_block-lookup k [] a = refl
scan_block-lookup k (e ∷ es) a = elim (Bool-cases (key_lt k e.key)) [
  | inl t ↦ ground (arith, t, lookup-AllAbove k es (AllAbove-trans k e.key es t a.0))
  | inr f ↦ ground (arith, f, scan_block-lookup k es a.1)
]

pub AllAbove-at :
    (k : Key) (xs : List Entry) (e : Entry) (ys : List Entry)
    → AllAbove k (xs ++ e ∷ ys)
    → key_lt k e.key ≡ true
AllAbove-at k [] e ys a = a.0
AllAbove-at k (x ∷ xs) e ys a = AllAbove-at k xs e ys a.1

-- Entries that stand before one that is not above `k` do not hold `k`.
lookup_before :
    (k : Key) (xs : List Entry) (e : Entry) (ys : List Entry)
    → Ascending (xs ++ e ∷ ys)
    → key_lt k e.key ≡ false
    → entry_lookup k (xs ++ e ∷ ys) ≡ entry_lookup k (e ∷ ys)
unfolding entry_lookup
lookup_before k [] e ys a n = refl
lookup_before k (x ∷ xs) e ys a n =
    let up : key_lt x.key e.key ≡ true = AllAbove-at x.key xs e ys a.0 in
    let other : key_eq x.key k ≡ false = elim (Bool-cases (key_eq x.key k)) [
      | inl q ↦ absurd (ground (arith, key_eq→eq x.key k))
      | inr d ↦ d
    ] in
    rw other (lookup_before k xs e ys a.1 n)

lookup_behind :
    (k : Key) (xs : List Entry) (e : Entry) (ys : List Entry)
    → Ascending (xs ++ e ∷ ys)
    → key_lt k e.key ≡ true
    → entry_lookup k (xs ++ e ∷ ys) ≡ entry_lookup k xs
unfolding entry_lookup
lookup_behind k [] e ys a t = lookup-AllAbove k (e ∷ ys) (t, AllAbove-trans k e.key ys t a.0)
lookup_behind k (x ∷ xs) e ys a t = ground (arith, lookup_behind k xs e ys a.1 t)

-- Within blocks, a key is found in the last block whose first key is not above it.
pub block_before :
    (k : Key) (pre : List (List Entry)) (b rest : List Entry)
    → 0 < length b
    → Ascending (concat pre ++ (b ++ rest))
    → (length pre ≡ 0) ⊎ (key_lt k (first_key b) ≡ false)
    → entry_lookup k (concat pre ++ (b ++ rest)) ≡ entry_lookup k (b ++ rest)
block_before k pre [] rest p a h = elim p [ ]
block_before k [] (e ∷ b) rest p a h = refl
block_before k (q ∷ pre) (e ∷ b) rest p a (inl z) = absurd (omega arith)
block_before k (q ∷ pre) (e ∷ b) rest p a (inr n) =
    lookup_before k (q ++ concat pre) e (b ++ rest) a n

abbrev pub head_key : List (List Entry) → Key
head_key [] = []
head_key (p ∷ ps) = first_key p

abbrev pub EndsBelow : Key → List (List Entry) → Type 0
EndsBelow k post = (length post ≡ 0) ⊎ (key_lt k (head_key post) ≡ true)

pub block_behind :
    (k : Key) (b : List Entry) (post : List (List Entry))
    → NoneEmpty post
    → Ascending (b ++ concat post)
    → EndsBelow k post
    → entry_lookup k (b ++ concat post) ≡ entry_lookup k b
block_behind k b [] f a h = ap (entry_lookup k) (append-nil b)
block_behind k b ([] ∷ post) f a h = absurd (omega arith)
block_behind k b ((e ∷ p) ∷ post) f a (inl z) = absurd (omega arith)
block_behind k b ((e ∷ p) ∷ post) f a (inr t) = lookup_behind k b e (p ++ concat post) a t

pub Ascending-right : (xs ys : List Entry) → Ascending (xs ++ ys) → Ascending ys
Ascending-right [] ys a = a
Ascending-right (e ∷ xs) ys a = Ascending-right xs ys a.1

AllAbove-left : (k : Key) (xs ys : List Entry) → AllAbove k (xs ++ ys) → AllAbove k xs
AllAbove-left k [] ys a = tt
AllAbove-left k (e ∷ xs) ys a = (a.0, AllAbove-left k xs ys a.1)

pub Ascending-left : (xs ys : List Entry) → Ascending (xs ++ ys) → Ascending xs
Ascending-left [] ys a = tt
Ascending-left (e ∷ xs) ys a = (AllAbove-left e.key xs ys a.0, Ascending-left xs ys a.1)

pub AllFit-right : (xs ys : List Entry) → AllFit (xs ++ ys) → AllFit ys
AllFit-right [] ys a = a
AllFit-right (e ∷ xs) ys a = AllFit-right xs ys a.1

pub AllFit-left : (xs ys : List Entry) → AllFit (xs ++ ys) → AllFit xs
AllFit-left [] ys a = tt
AllFit-left (e ∷ xs) ys a = (a.0, AllFit-left xs ys a.1)

pub NoneEmpty-right : (xs ys : List (List Entry)) → NoneEmpty (xs ++ ys) → NoneEmpty ys
NoneEmpty-right [] ys a = a
NoneEmpty-right (x ∷ xs) ys a = NoneEmpty-right xs ys a.1

pub key_at_next :
    (k : Key) (pre : List (List Entry)) (b : List Entry) (post : List (List Entry))
    → (length pre ≡ length (index_from 0 (pre ++ b ∷ post)) - 1)
      ⊎ (key_lt k (key_at (index_from 0 (pre ++ b ∷ post)) (length pre + 1)) ≡ true)
    → EndsBelow k post
key_at_next k pre b [] h = inl refl
key_at_next k pre b (p ∷ ps) (inl e) =
    absurd (omega (arith, length-index_from 0 (pre ++ b ∷ p ∷ ps), length-append pre (b ∷ p ∷ ps)))
key_at_next k pre b (p ∷ ps) (inr t) =
    let line : key_at (index_from 0 (pre ++ b ∷ p ∷ ps)) (length pre + 1) ≡ first_key p =
      ap (λ n. key_at (index_from 0 (pre ++ b ∷ p ∷ ps)) n) (sym (length-append pre (b ∷ [])))
      ∙ ap (λ l. key_at (index_from 0 l) (length (pre ++ b ∷ [])))
          (sym (append_assoc pre (b ∷ []) (p ∷ ps)))
      ∙ ap (λ (x : Key × ℕ). x.0) (index_at 0 (pre ++ b ∷ []) p ps ([], 0)) in
    inr (rw (← line) t)
