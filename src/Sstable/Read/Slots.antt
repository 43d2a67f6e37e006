-- ===== src/Sstable/Read/Slots.antt =====
-- The slots of the index and the blocks behind them.
use lsm_tree.Prelude.{
  ℕ, zero, suc, ◌+◌, ◌-◌, ◌<◌, ◌≡◌, refl, sym, ap, ◌∙◌, List, [], ◌∷◌, ◌++◌, arith, length, get_or,
  slice-append, concat, concat-append, append_assoc, append-nil, length-append,
}
use lsm_tree.Keys.{Key}
use lsm_tree.Sstable.Entries.{Entry}
use lsm_tree.Sstable.Format.{write_entries}
use lsm_tree.Sstable.Format.RoundTrip.{AllFit, parse_block_entries-write_entries}
use lsm_tree.Sstable.Build.{Table}
use lsm_tree.Sstable.Build.Blocks.{first_key, index_from, write_entries-append}
use lsm_tree.Sstable.Read.{offset_at, block_end, read_block}

pub record Split {ℓ} {A : Type ℓ} (xs : List A) (i : ℕ) : Type ℓ where
  pub before : List A
  pub at : A
  pub behind : List A
  pub whole : xs ≡ before ++ at ∷ behind
  pub place : length before ≡ i

pub split {ℓ} : {A : Type ℓ} (xs : List A) (i : ℕ) → i < length xs → Split xs i
split [] i h = elim h [ ]
split (x ∷ xs) zero h = record { before = []; at = x; behind = xs; whole = refl; place = refl }
split (x ∷ xs) (suc i) h =
    let s = split xs i (omega arith) in
    record {
      before = x ∷ s.before;
      at = s.at;
      behind = s.behind;
      whole = ap (◌∷◌ x) s.whole;
      place = ap suc s.place;
    }

abbrev pub bytes : List (List Entry) → ℕ
bytes bs = length (write_entries (concat bs))

bytes-cons :
    (b : List Entry) (bs : List (List Entry)) → bytes (b ∷ bs) ≡ length (write_entries b) + bytes bs
bytes-cons b bs =
    ap length (write_entries-append b (concat bs))
    ∙ length-append (write_entries b) (write_entries (concat bs))

pub length-index_from : (o : ℕ) (bs : List (List Entry)) → length (index_from o bs) ≡ length bs
unfolding index_from
length-index_from o [] = refl
length-index_from o (b ∷ bs) = ap suc (length-index_from (o + length (write_entries b)) bs)

-- The line of the index at a block's place is that block's.
pub index_at :
    (o : ℕ) (pre : List (List Entry)) (b : List Entry) (post : List (List Entry)) (d : Key × ℕ)
    → get_or (index_from o (pre ++ b ∷ post)) (length pre) d ≡ (first_key b, o + bytes pre)
unfolding index_from
index_at o [] b post d = unfold write_entries in ap (λ (n : ℕ). (first_key b, n)) (omega arith)
index_at o (p ∷ pre) b post d =
    index_at (o + length (write_entries p)) pre b post d
    ∙ ap (λ (n : ℕ). (first_key b, n)) (omega (arith, bytes-cons p pre))

pub bytes-append : (xs ys : List (List Entry)) → bytes (xs ++ ys) ≡ bytes xs + bytes ys
bytes-append xs ys =
    ap (λ l. length (write_entries l)) (concat-append xs ys)
    ∙ ap length (write_entries-append (concat xs) (concat ys))
    ∙ length-append (write_entries (concat xs)) (write_entries (concat ys))

offset_at-index_from :
    (pre : List (List Entry)) (b : List Entry) (post : List (List Entry)) (i : ℕ)
    → i ≡ length pre
    → offset_at (index_from 0 (pre ++ b ∷ post)) i ≡ bytes pre
offset_at-index_from pre b post i e =
    rw e (ap (λ (x : Key × ℕ). x.1) (index_at 0 pre b post ([], 0)) ∙ omega arith)

block_end_last :
    (t : Table) (pre : List (List Entry)) (b : List Entry)
    → t.content ≡ write_entries (concat (pre ++ b ∷ []))
    → t.index ≡ index_from 0 (pre ++ b ∷ [])
    → block_end t (length pre) ≡ bytes pre + length (write_entries b)
unfolding block_end
block_end_last t pre b c x =
    let lines : length t.index ≡ length pre + 1 =
      ap length x ∙ length-index_from 0 (pre ++ b ∷ []) ∙ length-append pre (b ∷ []) in
    let all : length t.content ≡ bytes pre + length (write_entries b) =
      ap length c
      ∙ bytes-append pre (b ∷ [])
      ∙ ap (◌+◌ (bytes pre)) (ap (λ l. length (write_entries l)) (append-nil b)) in
    ground arith

block_end_next :
    (t : Table) (pre : List (List Entry)) (b p : List Entry) (ps : List (List Entry))
    → t.index ≡ index_from 0 (pre ++ b ∷ p ∷ ps)
    → block_end t (length pre) ≡ bytes pre + length (write_entries b)
unfolding block_end
block_end_next t pre b p ps x =
    let lines : length t.index ≡ length pre + suc (suc (length ps)) =
      ap length x ∙ length-index_from 0 (pre ++ b ∷ p ∷ ps) ∙ length-append pre (b ∷ p ∷ ps) in
    let next : offset_at t.index (length pre + 1) ≡ bytes (pre ++ b ∷ []) =
      ap (λ i. offset_at i (length pre + 1))
        (x ∙ ap (index_from 0) (sym (append_assoc pre (b ∷ []) (p ∷ ps))))
      ∙ offset_at-index_from (pre ++ b ∷ []) p ps (length pre + 1)
          (sym (length-append pre (b ∷ []))) in
    let sum : bytes (pre ++ b ∷ []) ≡ bytes pre + length (write_entries b) =
      bytes-append pre (b ∷ [])
      ∙ ap (◌+◌ (bytes pre)) (ap (λ l. length (write_entries l)) (append-nil b)) in
    ground arith

block_end-block_of :
    (t : Table) (pre : List (List Entry)) (b : List Entry) (post : List (List Entry))
    → t.content ≡ write_entries (concat (pre ++ b ∷ post))
    → t.index ≡ index_from 0 (pre ++ b ∷ post)
    → block_end t (length pre) ≡ bytes pre + length (write_entries b)
block_end-block_of t pre b [] c x = block_end_last t pre b c x
block_end-block_of t pre b (p ∷ ps) c x = block_end_next t pre b p ps x

-- A table whose data section and index come from blocks.
module _ (t : Table) (pre : List (List Entry)) (b : List Entry) (post : List (List Entry))
    (content : t.content ≡ write_entries (concat (pre ++ b ∷ post)))
    (index : t.index ≡ index_from 0 (pre ++ b ∷ post)) where
  pub offset_at-block : offset_at t.index (length pre) ≡ bytes pre
  offset_at-block =
      ap (λ i. offset_at i (length pre)) index ∙ offset_at-index_from pre b post (length pre) refl

  parts : t.content ≡ write_entries (concat pre) ++ write_entries b ++ write_entries (concat post)
  parts =
      content
      ∙ ap write_entries (concat-append pre (b ∷ post))
      ∙ write_entries-append (concat pre) (b ++ concat post)
      ∙ ap (◌++◌ (write_entries (concat pre))) (write_entries-append b (concat post))
      ∙ sym (
          append_assoc (write_entries (concat pre)) (write_entries b) (write_entries (concat post)))

  pub block_end-block : block_end t (length pre) ≡ bytes pre + length (write_entries b)
  block_end-block = block_end-block_of t pre b post content index

  -- The block that is read back is the block that was written.
  pub read_block-block : AllFit b → read_block t (length pre) ≡ b
  unfolding read_block
  read_block-block fits =
      rw
        (
          offset_at-block,
          block_end-block,
          parts,
          slice-append (write_entries (concat pre)) (write_entries b) (write_entries (concat post))
              (bytes pre) (bytes pre + length (write_entries b) - bytes pre) refl (omega arith),
        )
        (parse_block_entries-write_entries b fits)
