-- ===== src/Sstable/Iterate/KeyRange.antt =====
-- smallestKey() and largestKey() of a written table bound its keys.
use lsm_tree.Prelude.{
  ℕ, ◌-◌, ◌<◌, ◌≡◌, refl, sym, ap, ◌∙◌, subst, true, List, [], ◌∷◌, ◌++◌, arith, length, get_or,
  concat, concat-append, length-append,
}
use lsm_tree.Keys.{Key, key_lt, key_lt_trans}
use lsm_tree.Sstable.Entries.{Entry, Ascending}
use lsm_tree.Sstable.Format.{write_entries}
use lsm_tree.Sstable.Format.RoundTrip.{AllFit}
use lsm_tree.Sstable.Build.{Table}
use lsm_tree.Sstable.Build.Blocks.{first_key, index_from, NoneEmpty}
use lsm_tree.Sstable.Read.Slots.{split, length-index_from, offset_at-block}
use lsm_tree.Sstable.Read.Get.{IsWritten}
use lsm_tree.Sstable.Read.Within.{AllFit-right, NoneEmpty-right}
use lsm_tree.Sstable.Iterate.{skip_below, last_key, smallest_key, largest_key}
use lsm_tree.Sstable.Iterate.Written.{iterate-tail}

pub last_key-append :
    (k j : Key) (xs ys : List Entry) → 0 < length ys → last_key k (xs ++ ys) ≡ last_key j ys
last_key-append k j xs [] h = elim h [ ]
last_key-append k j [] (y ∷ ys) h = refl
last_key-append k j (x ∷ xs) (y ∷ ys) h = last_key-append x.key j xs (y ∷ ys) h

last_is_end : (bs : List (List Entry)) (n : ℕ) → n ≡ 0 → length bs ≡ n → bs ≡ []
last_is_end [] n z h = refl
last_is_end (b ∷ bs) n z h = absurd (omega arith)

pub head_pos :
    (b : List Entry) (bs : List (List Entry)) → NoneEmpty (b ∷ bs) → 0 < length (concat (b ∷ bs))
head_pos b bs f = omega (arith, length-append b (concat bs), f.0)

module _ (es : List Entry) (t : Table) (w : IsWritten es t) (some_block : 0 < length w.blocks) where
  -- The largest key is the key of the last entry.
  pub largest_key-IsWritten : largest_key t ≡ last_key [] es
  unfolding largest_key
  largest_key-IsWritten =
      let lines : length t.index ≡ length w.blocks =
        ap length w.index ∙ length-index_from 0 w.blocks in
      let s = split w.blocks (length t.index - 1) (omega arith) in
      let content = w.content ∙ ap (λ bs. write_entries (concat bs)) s.whole in
      let index = w.index ∙ ap (index_from 0) s.whole in
      let at : concat (s.before ++ s.at ∷ s.behind) ≡ es = ap concat (sym s.whole) ∙ w.whole in
      let two : concat (s.before ++ s.at ∷ s.behind) ≡ concat s.before ++ concat (s.at ∷ s.behind) =
        concat-append s.before (s.at ∷ s.behind) in
      let fits = subst AllFit two (subst AllFit (sym at) w.fits) in
      let tail =
        iterate-tail t (concat s.before) (concat (s.at ∷ s.behind)) (content ∙ ap write_entries two)
          (AllFit-right (concat s.before) (concat (s.at ∷ s.behind)) fits) in
      let filled = NoneEmpty-right s.before (s.at ∷ s.behind) (subst NoneEmpty s.whole w.filled) in
      rw (← s.place, offset_at-block t s.before s.at s.behind content index, tail, ← at, two)
        (sym (
          last_key-append [] [] (concat s.before) (concat (s.at ∷ s.behind))
            (head_pos s.at s.behind filled)))

first_key-concat :
    (bs : List (List Entry)) → NoneEmpty bs → first_key (get_or bs 0 []) ≡ first_key (concat bs)
first_key-concat [] f = refl
first_key-concat ([] ∷ bs) f = absurd (omega arith)
first_key-concat ((x ∷ b) ∷ bs) f = refl

index_head :
    (bs : List (List Entry)) → (get_or (index_from 0 bs) 0 ([], 0)).0 ≡ first_key (get_or bs 0 [])
unfolding index_from
index_head [] = refl
index_head (b ∷ bs) = refl

-- The smallest key is the key of the first entry.
pub smallest_key-IsWritten :
    (es : List Entry) (t : Table) → IsWritten es t → smallest_key t ≡ first_key es
unfolding smallest_key
smallest_key-IsWritten es t w =
    ap (λ (i : List (Key × ℕ)). (get_or {A = Key × ℕ} i 0 ([], 0)).0) w.index
    ∙ index_head w.blocks
    ∙ first_key-concat w.blocks w.filled
    ∙ ap first_key w.whole

first_below :
    (e : Entry) (es : List Entry) (start : Key)
    → Ascending (e ∷ es)
    → key_lt (last_key e.key es) start ≡ true
    → key_lt e.key start ≡ true
first_below e [] start a h = h
first_below e (x ∷ xs) start a h =
    key_lt_trans e.key x.key start a.0.0 (first_below x xs start a.1 h)

-- A table whose last key is below a bound has nothing from the bound on.
pub skip_below-last :
    (k start : Key) (es : List Entry)
    → Ascending es
    → key_lt (last_key k es) start ≡ true
    → skip_below start es ≡ []
unfolding skip_below
skip_below-last k start [] a h = refl
skip_below-last k start (e ∷ es) a h =
    rw (first_below e es start a h) (skip_below-last e.key start es a.1 h)
