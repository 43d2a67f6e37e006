-- ===== src/Engine/Skipped.antt =====
-- The tables that a scan leaves out have nothing in the range.
use lsm_tree.Prelude.{
  ℕ, ◌<◌, ◌≡◌, refl, sym, ap, ◌∙◌, true, false, Option, none, some, List, [], ◌∷◌, ◌++◌, arith,
  Bool-cases, inl, inr, ◌==◌, if◌then◌else◌, length,
}
use lsm_tree.Keys.{Key, key_lt, key_lt_trans, key_lt_antisym, key_eq→eq}
use lsm_tree.Sstable.Entries.{Entry, entry_lookup}
use lsm_tree.Sstable.Build.{Table}
use lsm_tree.Sstable.Read.{get}
use lsm_tree.Sstable.Read.Slots.{length-index_from}
use lsm_tree.Sstable.Read.Get.{IsWritten, get-IsWritten, write-some}
use lsm_tree.Sstable.Iterate.{create_iterator, smallest_key, largest_key}
use lsm_tree.Sstable.Iterate.Written.{create_iterator-IsWritten}
use lsm_tree.Sstable.Iterate.KeyRange.{
  largest_key-IsWritten, smallest_key-IsWritten, skip_below-last,
}
use lsm_tree.Sstable.Iterate.Range.{
  lookup_before_first, lookup_no_blocks, lookup-skip_below, lookup_under_start,
  Ascending-skip_below,
}
use lsm_tree.Merge.Open.{AllAscending, or_else-none}
use lsm_tree.Engine.{get_tables, past_end, out_of_range, table_sources}
use lsm_tree.Engine.Sources.{first, first-append, AllWritten}

pub past_end_lt :
    (end : Option Key) (j k : Key)
    → past_end end j ≡ true
    → past_end end k ≡ false
    → key_lt k j ≡ true
unfolding past_end
past_end_lt none j k p q = absurd (ground arith)
past_end_lt (some e) j k p q = ground (arith, key_lt_trans k e j, key_lt_antisym j e, key_eq→eq j e)

pub past_end_trans :
    (end : Option Key) (j k : Key)
    → past_end end j ≡ true
    → key_lt j k ≡ true
    → past_end end k ≡ true
unfolding past_end
past_end_trans none j k p q = absurd (ground arith)
past_end_trans (some e) j k p q = ground (arith, key_lt_trans j k e)

module _ (start : Key) (end : Option Key) (k : Key) (from : key_lt k start ≡ false)
    (to : past_end end k ≡ false) where
  out_of_range-none :
      (es : List Entry) (t : Table)
      → IsWritten es t
      → out_of_range start end t ≡ true
      → entry_lookup k es ≡ none
  unfolding out_of_range
  out_of_range-none es t w o =
      let lines : length t.index ≡ length w.blocks =
        ap length w.index ∙ length-index_from 0 w.blocks in
      elim (Bool-cases (length t.index == 0)) [
        | inl z ↦ lookup_no_blocks w.blocks es k (ground arith) w.whole
        | inr n ↦
            let some_block : 0 < length w.blocks = ground arith in
            elim (Bool-cases (key_lt (largest_key t) start)) [
              | inl l ↦
                  sym (lookup-skip_below k start es from)
                  ∙ ap (entry_lookup k) (
                      skip_below-last [] start es w.sorted
                        (rw (← largest_key-IsWritten es t w some_block) l))
                  ∙ unfold entry_lookup in refl
              | inr g ↦ lookup_before_first k es w.sorted (
                  rw (← smallest_key-IsWritten es t w)
                    (past_end_lt end (smallest_key t) k (ground arith) to))
            ]
      ]

  first-source :
      (es : List Entry) (t : Table)
      → IsWritten es t
      → first k (if out_of_range start end t then [] else create_iterator t start ∷ []) ≡ get t k
  unfolding first
  first-source es t w = elim (Bool-cases (out_of_range start end t)) [
    | inl o ↦ rw o (sym (get-IsWritten k es t w ∙ out_of_range-none es t w o))
    | inr n ↦
        rw (n, create_iterator-IsWritten start es t w, or_else-none)
          (lookup-skip_below k start es from ∙ sym (get-IsWritten k es t w))
  ]

  -- For a key in the range the sources answer as the tables do.
  pub first-table_sources :
      (total_bits : ℕ → ℕ) (ts : List Table)
      → AllWritten total_bits ts
      → first k (table_sources start end ts) ≡ get_tables ts k
  unfolding table_sources get_tables
  first-table_sources total_bits [] a = unfold first in refl
  first-table_sources total_bits (t ∷ ts) a =
      rw
        (
          first-append k (table_sources start end ts)
              (if out_of_range start end t then [] else create_iterator t start ∷ []),
          first-table_sources total_bits ts a.1,
          first-source a.0.entries t (write-some total_bits a.0.entries t a.0.wrote),
        )
        (ground arith)

AllAscending-append :
    (xs ys : List (List Entry)) → AllAscending xs → AllAscending ys → AllAscending (xs ++ ys)
AllAscending-append [] ys a b = b
AllAscending-append (x ∷ xs) ys a b = (a.0, AllAscending-append xs ys a.1 b)

source-Ascending :
    (start : Key) (end : Option Key) (es : List Entry) (t : Table)
    → IsWritten es t
    → AllAscending (if out_of_range start end t then [] else create_iterator t start ∷ [])
source-Ascending start end es t w = elim (Bool-cases (out_of_range start end t)) [
  | inl o ↦ rw o tt
  | inr n ↦
      rw (n, create_iterator-IsWritten start es t w) (Ascending-skip_below start es w.sorted, tt)
]

pub table_sources-Ascending :
    (start : Key) (end : Option Key) (total_bits : ℕ → ℕ) (ts : List Table)
    → AllWritten total_bits ts
    → AllAscending (table_sources start end ts)
unfolding table_sources
table_sources-Ascending start end total_bits [] a = tt
table_sources-Ascending start end total_bits (t ∷ ts) a =
    AllAscending-append (table_sources start end ts) _
      (table_sources-Ascending start end total_bits ts a.1)
      (source-Ascending start end a.0.entries t (write-some total_bits a.0.entries t a.0.wrote))

-- Below the start of the range the sources hold nothing.
pub first-under_start :
    (start : Key) (end : Option Key) (total_bits : ℕ → ℕ) (ts : List Table) (k : Key)
    → AllWritten total_bits ts
    → key_lt k start ≡ true
    → first k (table_sources start end ts) ≡ none
unfolding table_sources
first-under_start start end total_bits [] k a l = unfold first in refl
first-under_start start end total_bits (t ∷ ts) k a l =
    let w = write-some total_bits a.0.entries t a.0.wrote in
    rw
      (
        first-append k (table_sources start end ts)
            (if out_of_range start end t then [] else create_iterator t start ∷ []),
        first-under_start start end total_bits ts k a.1 l,
        create_iterator-IsWritten start a.0.entries t w,
      )
      (elim (Bool-cases (out_of_range start end t)) [
        | inl o ↦ unfold first in rw o
        | inr n ↦ unfold first in rw (n, lookup_under_start k start a.0.entries w.sorted l)
      ])
