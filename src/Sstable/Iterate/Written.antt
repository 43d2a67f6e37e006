-- ===== src/Sstable/Iterate/Written.antt =====
-- The iterators of a written table hand out its entries.
use lsm_tree.Prelude.{
  ℕ, zero, suc, ◌+◌, ◌-◌, ◌≤◌, ◌<◌, ◌≡◌, ◌⊎◌, inl, inr, refl, sym, ap, ◌∙◌, subst, true, false,
  none, some, List, [], ◌∷◌, ◌++◌, arith, ltb, leb, length, concat, concat-append, append_assoc,
  append-nil, length-append, Bool-cases,
}
use lsm_tree.Keys.{Key, key_lt, key_lt_trans, key_lt_antisym, key_eq→eq}
use lsm_tree.Sstable.Entries.{Entry, Ascending}
use lsm_tree.Sstable.Format.{write_entry, write_entries}
use lsm_tree.Sstable.Format.RoundTrip.{
  Fits, AllFit, entry_bytes, length-write_entry, length-le-write_entries, at_tombstone, at_key_len,
  at_key, at_val_len, at_value, kb-read, vb-read, value-back, length-buf, read_le_byte,
}
use lsm_tree.Sstable.Build.{Table}
use lsm_tree.Sstable.Build.Blocks.{first_key, index_from, NoneEmpty, write_entries-append}
use lsm_tree.Sstable.Search.{find_slot, IsSlot, find_slot-IsSlot}
use lsm_tree.Sstable.Read.Slots.{split, length-index_from, offset_at-block}
use lsm_tree.Sstable.Read.Get.{IsWritten, from_here}
use lsm_tree.Sstable.Read.Within.{AllAbove-at, AllFit-right, NoneEmpty-right}
use lsm_tree.Sstable.Iterate.{
  advance, iter_fields, iterate, find_block, skip_below, create_iterator, create_iterator_all,
}

advance-write_entry :
    (pre post : List ℕ) (e : Entry)
    → Fits e
    → advance (pre ++ write_entry e ++ post) (length pre) ≡ some (e, length pre + entry_bytes e)
unfolding advance iter_fields entry_bytes
advance-write_entry pre post e fits =
    let room : ltb (length pre) (length (pre ++ write_entry e ++ post)) ≡ true =
      ground (arith, length-buf pre post e fits) in
    rw
      (
        room,
        at_key_len pre post e fits,
        kb-read pre post e fits,
        at_key pre post e fits,
        at_tombstone pre post e fits,
        read_le_byte,
        at_val_len pre post e fits,
        vb-read pre post e fits,
        at_value pre post e fits,
        value-back pre post e fits,
      )
      (ap (λ n. some (e, n)) (omega arith))

advance_end : (content : List ℕ) (pos : ℕ) → length content ≤ pos → advance content pos ≡ none
unfolding advance
advance_end content pos h = ground arith

iterate_end :
    (fuel : ℕ) (content : List ℕ) (pos : ℕ) → length content ≤ pos → iterate fuel content pos ≡ []
unfolding iterate
iterate_end zero content pos h = refl
iterate_end (suc fuel) content pos h = rw (advance_end content pos h, iterate)

iterate_next :
    (fuel : ℕ) (content : List ℕ) (pos next : ℕ) (e : Entry)
    → advance content pos ≡ some (e, next)
    → iterate (suc fuel) content pos ≡ e ∷ iterate fuel content next
unfolding iterate
iterate_next fuel content pos next e h = rw (h, iterate)

iterate-write_entries :
    (es : List Entry) (fuel : ℕ) (pre : List ℕ)
    → AllFit es
    → length es < fuel
    → iterate fuel (pre ++ write_entries es) (length pre) ≡ es
iterate-write_entries es zero pre fits f = absurd (omega arith)
iterate-write_entries [] (suc fuel) pre fits f =
    unfold write_entries in
    rw (append-nil pre) (iterate_end (suc fuel) pre (length pre) (omega arith))
iterate-write_entries (e ∷ es) (suc fuel) pre fits f =
    let pre' = pre ++ write_entry e in
    let cut : pre ++ write_entries (e ∷ es) ≡ pre' ++ write_entries es =
      unfold write_entries in sym (append_assoc pre (write_entry e) (write_entries es)) in
    let grown : length pre' ≡ length pre + entry_bytes e =
      length-append pre (write_entry e) ∙ ap (◌+◌ (length pre)) (length-write_entry e) in
    rw
      (
        cut,
        iterate_next fuel (pre' ++ write_entries es) (length pre) (length pre + entry_bytes e) e
            (advance-write_entry pre (write_entries es) e fits.0),
        ← grown,
      )
      (ap (◌∷◌ e) (iterate-write_entries es fuel pre' fits.1 (omega arith)))

-- The entries from the start of a block on are those of that block and of the blocks behind it.
pub iterate-tail :
    (t : Table) (xs ys : List Entry)
    → t.content ≡ write_entries (xs ++ ys)
    → AllFit ys
    → iterate (length t.content + 1) t.content (length (write_entries xs)) ≡ ys
iterate-tail t xs ys c fits =
    let parts : t.content ≡ write_entries xs ++ write_entries ys = c ∙ write_entries-append xs ys in
    rw parts (
      iterate-write_entries ys (length (write_entries xs ++ write_entries ys) + 1)
        (write_entries xs) fits
        (omega
          (arith, length-append (write_entries xs) (write_entries ys), length-le-write_entries ys)))

-- Every entry has a key below `k`.
abbrev AllBelow : Key → List Entry → Type 0
AllBelow k [] = Unit {0}
AllBelow k (e ∷ es) = (key_lt e.key k ≡ true) × AllBelow k es

skip-AllBelow :
    (k : Key) (xs ys : List Entry) → AllBelow k xs → skip_below k (xs ++ ys) ≡ skip_below k ys
unfolding skip_below
skip-AllBelow k [] ys a = refl
skip-AllBelow k (e ∷ xs) ys a = rw a.0 (skip-AllBelow k xs ys a.1)

below_of_sorted :
    (k : Key) (xs : List Entry) (e : Entry) (ys : List Entry)
    → Ascending (xs ++ e ∷ ys)
    → key_lt k e.key ≡ false
    → AllBelow k xs
below_of_sorted k [] e ys a n = tt
below_of_sorted k (x ∷ xs) e ys a n =
    let up = AllAbove-at x.key xs e ys a.0 in
    (
      ground (arith, key_lt_trans x.key e.key k, key_lt_antisym e.key k, key_eq→eq e.key k),
      below_of_sorted k xs e ys a.1 n,
    )

block_below :
    (k : Key) (pre : List (List Entry)) (b rest : List Entry)
    → 0 < length b
    → Ascending (concat pre ++ (b ++ rest))
    → (length pre ≡ 0) ⊎ (key_lt k (first_key b) ≡ false)
    → AllBelow k (concat pre)
block_below k pre [] rest p a h = elim p [ ]
block_below k [] (e ∷ b) rest p a h = tt
block_below k (q ∷ pre) (e ∷ b) rest p a (inl z) = absurd (omega arith)
block_below k (q ∷ pre) (e ∷ b) rest p a (inr n) =
    below_of_sorted k (q ++ concat pre) e (b ++ rest) a n

-- The full iterator of a written table hands out all its entries.
pub create_iterator_all-IsWritten :
    (es : List Entry) (t : Table) → IsWritten es t → create_iterator_all t ≡ es
unfolding create_iterator_all
create_iterator_all-IsWritten es t w =
    unfold write_entries in iterate-tail t [] es (w.content ∙ ap write_entries w.whole) w.fits

iterator-blocks :
    (k : Key) (es : List Entry) (t : Table) (w : IsWritten es t)
    → 0 < length w.blocks
    → create_iterator t k ≡ skip_below k es
unfolding create_iterator find_block
iterator-blocks k es t w some_block =
    let lines : length t.index ≡ length w.blocks =
      ap length w.index ∙ length-index_from 0 w.blocks in
    let slot = find_slot-IsSlot t.index k (omega arith) in
    let s = split w.blocks (find_slot t.index k) (omega (arith, slot.to)) in
    let slot' : IsSlot t.index k 0 (length t.index - 1) (length s.before) = rw s.place slot in
    let content = w.content ∙ ap (λ bs. write_entries (concat bs)) s.whole in
    let index = w.index ∙ ap (index_from 0) s.whole in
    let filled = subst NoneEmpty s.whole w.filled in
    let at : concat (s.before ++ s.at ∷ s.behind) ≡ es = ap concat (sym s.whole) ∙ w.whole in
    let fits = subst AllFit (sym at) w.fits in
    let sorted = subst Ascending (sym at) w.sorted in
    let here = from_here k t s.before s.at s.behind content index filled fits sorted slot' in
    let two : concat (s.before ++ s.at ∷ s.behind) ≡ concat s.before ++ concat (s.at ∷ s.behind) =
      concat-append s.before (s.at ∷ s.behind) in
    let nonzero : leb (length t.index) 0 ≡ false = ground arith in
    let tail =
      iterate-tail t (concat s.before) (concat (s.at ∷ s.behind)) (content ∙ ap write_entries two)
        (AllFit-right (concat s.before) (concat (s.at ∷ s.behind)) (subst AllFit two fits)) in
    let below =
      block_below k s.before s.at (concat s.behind)
        (NoneEmpty-right s.before (s.at ∷ s.behind) filled).0 (subst Ascending two sorted) here in
    rw (nonzero, ← s.place, offset_at-block t s.before s.at s.behind content index, tail, ← at, two)
      (sym (skip-AllBelow k (concat s.before) (concat (s.at ∷ s.behind)) below))

no_blocks :
    (bs : List (List Entry)) (k : Key) (es : List Entry) (t : Table)
    → length bs ≡ 0
    → concat bs ≡ es
    → t.content ≡ write_entries (concat bs)
    → t.index ≡ index_from 0 bs
    → create_iterator t k ≡ skip_below k es
unfolding create_iterator find_block index_from write_entries
no_blocks [] k es t z whole content index =
    let lines : leb (length t.index) 0 ≡ true = rw (ap length index) refl in
    let empty : length t.content ≤ 0 = omega (arith, ap length content) in
    rw (lines, iterate_end (length t.content + 1) t.content 0 empty, ← whole)
no_blocks (b ∷ bs) k es t z whole content index = absurd (omega arith)

-- A positioned iterator hands out the entries whose keys are not below its start key, in order.
pub create_iterator-IsWritten :
    (k : Key) (es : List Entry) (t : Table) → IsWritten es t → create_iterator t k ≡ skip_below k es
create_iterator-IsWritten k es t w = elim (Bool-cases (leb (length w.blocks) 0)) [
  | inl z ↦ no_blocks w.blocks k es t (ground arith) w.whole w.content w.index
  | inr n ↦ iterator-blocks k es t w (ground arith)
]
