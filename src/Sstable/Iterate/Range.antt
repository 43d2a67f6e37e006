-- ===== src/Sstable/Iterate/Range.antt =====
-- What the iterators of a written table and its key range say of a key.
use lsm_tree.Prelude.{
  ℕ, ◌≡◌, refl, sym, ap, ◌∙◌, true, false, Option, none, some, List, [], ◌∷◌, arith, Bool-cases,
  inl, inr, length, concat, leb, if◌then◌else◌,
}
use lsm_tree.Keys.{Key, key_lt, key_eq→eq, key_lt_trans, key_lt_antisym, key_lt_irrefl}
use lsm_tree.Sstable.Entries.{Entry, Ascending, AllAbove-trans, entry_lookup, lookup-AllAbove}
use lsm_tree.Sstable.Build.{Table, write}
use lsm_tree.Sstable.Build.Blocks.{first_key}
use lsm_tree.Sstable.Read.{get}
use lsm_tree.Sstable.Read.Get.{IsWritten, get-IsWritten, write-some}
use lsm_tree.Sstable.Iterate.{create_iterator, skip_below, smallest_key, largest_key}
use lsm_tree.Sstable.Iterate.Written.{create_iterator-IsWritten}
use lsm_tree.Sstable.Iterate.KeyRange.{
  largest_key-IsWritten, smallest_key-IsWritten, skip_below-last,
}

pub lookup-skip_below :
    (k start : Key) (es : List Entry)
    → key_lt k start ≡ false
    → entry_lookup k (skip_below start es) ≡ entry_lookup k es
unfolding skip_below entry_lookup
lookup-skip_below k start [] n = refl
lookup-skip_below k start (e ∷ es) n =
    ground (arith, lookup-skip_below k start es n, key_eq→eq e.key k)

pub lookup_under_start :
    (k start : Key) (es : List Entry)
    → Ascending es
    → key_lt k start ≡ true
    → entry_lookup k (skip_below start es) ≡ none
unfolding skip_below
lookup_under_start k start [] a l = unfold entry_lookup in refl
lookup_under_start k start (e ∷ es) a l = elim (Bool-cases (key_lt e.key start)) [
  | inl t ↦ rw t (lookup_under_start k start es a.1 l)
  | inr f ↦
      let up : key_lt k e.key ≡ true =
        ground
          (arith, key_lt_trans k start e.key, key_lt_antisym e.key start, key_eq→eq e.key start) in
      rw f (lookup-AllAbove k (e ∷ es) (up, AllAbove-trans k e.key es up a.0))
]

pub Ascending-skip_below :
    (start : Key) (es : List Entry) → Ascending es → Ascending (skip_below start es)
unfolding skip_below
Ascending-skip_below start [] a = tt
Ascending-skip_below start (e ∷ es) a = elim (Bool-cases (key_lt e.key start)) [
  | inl t ↦ rw t (Ascending-skip_below start es a.1)
  | inr f ↦ rw f a
]

pub lookup_before_first :
    (k : Key) (es : List Entry)
    → Ascending es
    → key_lt k (first_key es) ≡ true
    → entry_lookup k es ≡ none
lookup_before_first k [] a l = unfold entry_lookup in refl
lookup_before_first k (e ∷ es) a l = lookup-AllAbove k (e ∷ es) (l, AllAbove-trans k e.key es l a.0)

pub lookup_no_blocks :
    (bs : List (List Entry)) (es : List Entry) (k : Key)
    → length bs ≡ 0
    → concat bs ≡ es
    → entry_lookup k es ≡ none
unfolding entry_lookup
lookup_no_blocks [] es k z whole = rw (← whole)
lookup_no_blocks (b ∷ bs) es k z whole = absurd (omega arith)

-- The iterator that createIterator(start) gives of a table that `write` returned.
pub record IsTail (t : Table) (start : Key) (es : List Entry) : Type 0 where
  pub sorted : Ascending es
  pub reads : (k : Key) → entry_lookup k es ≡ (if key_lt k start then none else get t k)

-- The iterator that a table which `write` returned creates for a start key hands out, in
-- increasing order, the entry that a point read finds for each key from the start key on, and no
-- other entry.
pub create_iterator-IsTail :
    (total_bits : ℕ → ℕ) (es : List Entry) (t : Table) (start : Key)
    → write total_bits es ≡ some t
    → IsTail t start (create_iterator t start)
create_iterator-IsTail total_bits es t start wrote =
    let w = write-some total_bits es t wrote in
    rw (create_iterator-IsWritten start es t w) (record {
      sorted = Ascending-skip_below start es w.sorted;
      reads = λ k. elim (Bool-cases (key_lt k start)) [
        | inl l ↦ rw l (lookup_under_start k start es w.sorted l)
        | inr n ↦ rw (n, get-IsWritten k es t w) (lookup-skip_below k start es n)
      ];
    })

largest-below :
    (k : Key) (es : List Entry) (t : Table)
    → IsWritten es t
    → key_lt (largest_key t) k ≡ true
    → entry_lookup k es ≡ none
largest-below k es t w l = elim (Bool-cases (leb (length w.blocks) 0)) [
  | inl z ↦ lookup_no_blocks w.blocks es k (ground arith) w.whole
  | inr n ↦
      sym (lookup-skip_below k k es (key_lt_irrefl k))
      ∙ ap (entry_lookup k)
          (skip_below-last [] k es w.sorted (rw (← largest_key-IsWritten es t w (ground arith)) l))
      ∙ unfold entry_lookup in refl
]

-- Every key that a point read of a table which `write` returned finds, with a value or a
-- tombstone, lies between the smallest and the largest key of the table.
pub get-key_range :
    (total_bits : ℕ → ℕ) (es : List Entry) (t : Table) (k : Key) (v : Option Key)
    → write total_bits es ≡ some t
    → get t k ≡ some v
    → (key_lt k (smallest_key t) ≡ false) × (key_lt (largest_key t) k ≡ false)
get-key_range total_bits es t k v wrote g =
    let w = write-some total_bits es t wrote in
    let there : entry_lookup k es ≡ some v = sym (get-IsWritten k es t w) ∙ g in
    (
      elim (Bool-cases (key_lt k (smallest_key t))) [
        | inr n ↦ n
        | inl l ↦
            let gone = lookup_before_first k es w.sorted (rw (← smallest_key-IsWritten es t w) l) in
            absurd (ground (arith, gone, there))
      ],
      elim (Bool-cases (key_lt (largest_key t) k)) [
        | inr n ↦ n
        | inl l ↦ let gone = largest-below k es t w l in absurd (ground (arith, gone, there))
      ],
    )
