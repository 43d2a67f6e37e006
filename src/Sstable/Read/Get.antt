-- ===== src/Sstable/Read/Get.antt =====
-- A point read of a written table finds exactly what the table was written from.
use lsm_tree.Prelude.{
  ◌^◌, ℕ, ◌+◌, ◌-◌, ◌<◌, ◌≡◌, ◌⊎◌, inl, inr, refl, sym, ap, ◌∙◌, true, false, none, some, List, [],
  ◌∷◌, ◌++◌, arith, leb, length, concat, concat-append, length-append, map, max, Bool-cases, subst,
}
use lsm_tree.Keys.{Key, key_lt, key_eq, key_eq→eq}
use lsm_tree.Bloom.{may_contain, new_filter}
use lsm_tree.Bloom.Members.{IsAmong, insert_all, may_contain-insert_all, new_filter-IsFilter}
use lsm_tree.Sstable.Entries.{Entry, Ascending, entry_lookup}
use lsm_tree.Sstable.Format.{write_entry, write_entries}
use lsm_tree.Sstable.Format.RoundTrip.{AllFit, length-write_entry, entry_bytes}
use lsm_tree.Sstable.Build.{Table, new_builder, build_loop, write, is_sorted_unique, all_writable}
use lsm_tree.Sstable.Build.Blocks.{first_key, index_from, NoneEmpty, build-Cut}
use lsm_tree.Sstable.Search.{find_slot, IsSlot, find_slot-IsSlot, key_at}
use lsm_tree.Sstable.Read.{offset_at, block_end, read_block, scan_block, get}
use lsm_tree.Sstable.Read.Slots.{
  split, length-index_from, index_at, offset_at-block, block_end-block, read_block-block,
}
use lsm_tree.Sstable.Read.Within.{
  is_sorted_unique-Ascending, all_writable-AllFit, scan_block-lookup, block_before, block_behind,
  EndsBelow, key_at_next, Ascending-right, Ascending-left, AllFit-right, AllFit-left,
  NoneEmpty-right,
}

-- What is known of a table that `write` returned.
pub record IsWritten (es : List Entry) (t : Table) : Type 0 where
  pub sorted : Ascending es
  pub fits : AllFit es
  pub blocks : List (List Entry)
  pub whole : concat blocks ≡ es
  pub filled : NoneEmpty blocks
  pub content : t.content ≡ write_entries (concat blocks)
  pub index : t.index ≡ index_from 0 blocks
  pub members : (k : Key) → IsAmong k (map (λ e. e.key) es) → may_contain t.bloom k ≡ true

lookup-IsAmong :
    (k : Key) (es : List Entry) → (entry_lookup k es ≡ none) ⊎ IsAmong k (map (λ e. e.key) es)
unfolding entry_lookup
lookup-IsAmong k [] = inl refl
lookup-IsAmong k (e ∷ es) = elim (Bool-cases (key_eq e.key k)) [
  | inl t ↦ inr (inl (key_eq→eq e.key k t))
  | inr f ↦ elim (lookup-IsAmong k es) [ inl n ↦ inl (rw f n) | inr a ↦ inr (inr a) ]
]

pub write-some :
    (total_bits : ℕ → ℕ) (es : List Entry) (t : Table)
    → write total_bits es ≡ some t
    → IsWritten es t
unfolding write
write-some total_bits es t w = elim (Bool-cases (is_sorted_unique es)) [
  | inr f ↦ absurd (ground arith)
  | inl s ↦ elim (Bool-cases (all_writable es)) [
    | inr f ↦ absurd (ground arith)
    | inl a ↦ elim (Bool-cases (leb (length (build_loop 0 es new_builder).index) (2 ^ 32 - 1))) [
      | inr f ↦ absurd (ground arith)
      | inl few ↦
          let c = build-Cut es in
          let b = build_loop 0 es new_builder in
          let keys = map (λ (e : Entry). e.key) es in
          let filter = new_filter (total_bits (max (length es) 1)) in
          let out : t.content ≡ b.out = ground arith in
          let lines : t.index ≡ b.index = ground arith in
          let bloom : t.bloom ≡ insert_all keys filter = ground arith in
          record {
            sorted = is_sorted_unique-Ascending es s;
            fits = all_writable-AllFit es a;
            blocks = c.blocks;
            whole = c.whole;
            filled = c.filled;
            content = out ∙ c.out ∙ ap write_entries (sym c.whole);
            index = lines ∙ c.index;
            members = λ k among.
                rw bloom (may_contain-insert_all keys filter k (new_filter-IsFilter _) among);
          }
    ]
  ]
]

write_entries-pos : (es : List Entry) → 0 < length es → 0 < length (write_entries es)
unfolding write_entries entry_bytes
write_entries-pos [] h = elim h [ ]
write_entries-pos (e ∷ es) h =
    omega (arith, length-append (write_entry e) (write_entries es), length-write_entry e)

-- The block of a slot, in a table with the given blocks.
module _ (k : Key) (t : Table) (pre : List (List Entry)) (b : List Entry) (post : List (List Entry))
    (content : t.content ≡ write_entries (concat (pre ++ b ∷ post)))
    (index : t.index ≡ index_from 0 (pre ++ b ∷ post)) (filled : NoneEmpty (pre ++ b ∷ post))
    (fits : AllFit (concat (pre ++ b ∷ post))) (sorted : Ascending (concat (pre ++ b ∷ post)))
    (slot : IsSlot t.index k 0 (length t.index - 1) (length pre)) where
  pub apart : concat (pre ++ b ∷ post) ≡ concat pre ++ (b ++ concat post)
  apart = concat-append pre (b ∷ post)

  pub full : NoneEmpty (b ∷ post)
  full = NoneEmpty-right pre (b ∷ post) filled

  pub asc : Ascending (concat pre ++ (b ++ concat post))
  asc = subst Ascending apart sorted

  asc_tail : Ascending (b ++ concat post)
  asc_tail = Ascending-right (concat pre) (b ++ concat post) asc

  fits_block : AllFit b
  fits_block =
      AllFit-left b (concat post)
        (AllFit-right (concat pre) (b ++ concat post) (subst AllFit apart fits))

  at_slot : key_at t.index (length pre) ≡ first_key b
  at_slot =
      ap (λ i. key_at i (length pre)) index
      ∙ ap (λ (x : Key × ℕ). x.0) (index_at 0 pre b post ([], 0))

  below : EndsBelow k post
  below = key_at_next k pre b post (
      subst (λ i. (length pre ≡ length i - 1) ⊎ (key_lt k (key_at i (length pre + 1)) ≡ true)) index
        slot.next)

  pub from_here : (length pre ≡ 0) ⊎ (key_lt k (first_key b) ≡ false)
  from_here = rw (← at_slot) slot.here

  pub scan-slot :
      scan_block k (read_block t (length pre)) ≡ entry_lookup k (concat (pre ++ b ∷ post))
  scan-slot =
      ap (scan_block k) (read_block-block t pre b post content index fits_block)
      ∙ scan_block-lookup k b (Ascending-left b (concat post) asc_tail)
      ∙ sym (block_behind k b post full.1 asc_tail below)
      ∙ sym (block_before k pre b (concat post) full.0 asc from_here)
      ∙ ap (entry_lookup k) (sym apart)

  pub slot-nonempty : leb (block_end t (length pre)) (offset_at t.index (length pre)) ≡ false
  slot-nonempty =
      rw (block_end-block t pre b post content index, offset_at-block t pre b post content index)
        (let some_bytes : 0 < length (write_entries b) = write_entries-pos b full.0 in ground arith)

-- The read behind the filter, in a table with at least one block.
get-blocks :
    (k : Key) (es : List Entry) (t : Table) (w : IsWritten es t)
    → 0 < length w.blocks
    → may_contain t.bloom k ≡ true
    → get t k ≡ entry_lookup k es
unfolding get
get-blocks k es t w some_block m =
    let lines : length t.index ≡ length w.blocks =
      ap length w.index ∙ length-index_from 0 w.blocks in
    let slot = find_slot-IsSlot t.index k (omega arith) in
    let s = split w.blocks (find_slot t.index k) (omega (arith, slot.to)) in
    let slot' : IsSlot t.index k 0 (length t.index - 1) (length s.before) = rw s.place slot in
    let content = w.content ∙ ap (λ bs. write_entries (concat bs)) s.whole in
    let index = w.index ∙ ap (index_from 0) s.whole in
    let filled = subst NoneEmpty s.whole w.filled in
    let at : concat (s.before ++ s.at ∷ s.behind) ≡ es = ap concat (sym s.whole) ∙ w.whole in
    let fits = subst AllFit (sym at) w.fits in
    let sorted = subst Ascending (sym at) w.sorted in
    let found = scan-slot k t s.before s.at s.behind content index filled fits sorted slot' in
    let some_bytes =
      slot-nonempty k t s.before s.at s.behind content index filled fits sorted slot' in
    let nonzero : leb (length t.index) 0 ≡ false = ground arith in
    rw (m, nonzero, ← s.place, some_bytes) (found ∙ ap (entry_lookup k) at)

no_blocks :
    (bs : List (List Entry)) (t : Table) (es : List Entry) (k : Key)
    → length bs ≡ 0
    → concat bs ≡ es
    → t.index ≡ index_from 0 bs
    → get t k ≡ entry_lookup k es
unfolding get index_from entry_lookup
no_blocks [] t es k z whole index =
    let lines : length t.index ≡ 0 = ap length index in rw (← whole) (ground arith)
no_blocks (b ∷ bs) t es k z whole index = absurd (omega arith)

missed : (t : Table) (k : Key) → may_contain t.bloom k ≡ false → get t k ≡ none
unfolding get
missed t k f = rw f

pub get-IsWritten :
    (k : Key) (es : List Entry) (t : Table) → IsWritten es t → get t k ≡ entry_lookup k es
get-IsWritten k es t w = elim (Bool-cases (may_contain t.bloom k)) [
  | inr f ↦ elim (lookup-IsAmong k es) [
    | inl n ↦ missed t k f ∙ sym n
    | inr a ↦ absurd (ground (arith, w.members k a))
  ]
  | inl m ↦ elim (Bool-cases (leb (length w.blocks) 0)) [
    | inl z ↦ no_blocks w.blocks t es k (ground arith) w.whole w.index
    | inr n ↦ get-blocks k es t w (ground arith) m
  ]
]

-- A table that `write` returned answers a point read for every key with the entry that it was
-- written from: the value or the tombstone, and nothing for a key that is not among the entries.
pub get-write :
    (total_bits : ℕ → ℕ) (es : List Entry) (t : Table) (k : Key)
    → write total_bits es ≡ some t
    → get t k ≡ entry_lookup k es
get-write total_bits es t k w = get-IsWritten k es t (write-some total_bits es t w)
