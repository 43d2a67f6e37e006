-- ===== src/Compaction/Run/Names.antt =====
-- Which names each phase of a compaction can touch.
use lsm_tree.Prelude.{
  ℕ, zero, suc, ◌+◌, ◌<◌, ◌≡◌, ◌⊎◌, inl, inr, refl, ap, ◌∙◌, Bool, false, some, List, [], ◌∷◌, ◌++◌,
  arith, ltb, leb, ◌==◌, if◌then◌else◌, Option-cases, length,
}
use lsm_tree.Sstable.Entries.{Entry}
use lsm_tree.Sstable.Build.{Table, write}
use lsm_tree.Compaction.Directory.{FileName, File, same_name, find_file, put_file, find-put_file}
use lsm_tree.Compaction.Run.{
  World, Staging, is_staged, is_absent, is_left, tmp_name, sweep, stage_outputs,
}

-- A table of level 1 whose counter is from `n` on and below `n + k`.
unfoldable pub is_output : ℕ → ℕ → FileName → Bool
is_output n k m =
    if m.is_tmp
    then false
    else if m.level == 1
    then if leb n m.counter then ltb m.counter (n + k) else false
    else false

-- The counters that `k` outputs take, from the first on.
unfoldable pub count_from : ℕ → ℕ → List ℕ
count_from n zero = []
count_from n (suc k) = n ∷ count_from (n + 1) k

pub length-count_from : (n k : ℕ) → length (count_from n k) ≡ k
unfolding count_from
length-count_from n zero = refl
length-count_from n (suc k) = ap suc (length-count_from (n + 1) k)

pub find-sweep :
    (w : World) (m : FileName) (fs : List File)
    → m.is_tmp ≡ false
    → find_file m (sweep w fs) ≡ find_file m fs
unfolding find_file sweep same_name
find-sweep w m [] e = refl
find-sweep w m (f ∷ fs) e = ground (arith, find-sweep w m fs e)

pub Staging-cases : (s : Staging) → (s ≡ is_staged) ⊎ ((s ≡ is_absent) ⊎ (s ≡ is_left))
Staging-cases is_staged = inl refl
Staging-cases is_absent = inr (inl refl)
Staging-cases is_left = inr (inr refl)

-- A name that a temporary with a counter from `n` on cannot have.
abbrev pub Apart : ℕ → FileName → Type 0
Apart n m = (m.is_tmp ≡ false) ⊎ (m.counter < n)

pub Apart-suc : (n : ℕ) (m : FileName) → Apart n m → Apart (n + 1) m
Apart-suc n m (inl e) = inl e
Apart-suc n m (inr l) = inr (omega arith)

find-put_tmp :
    (m : FileName) (n : ℕ) (t : Table) (fs : List File)
    → Apart n m
    → find_file m (put_file (tmp_name n) t fs) ≡ find_file m fs
unfolding same_name
find-put_tmp m n t fs h = find-put_file m (tmp_name n) t fs ∙ ground arith

-- One output: how it is staged, in the three ways.
abbrev pub StageStep :
    (ℕ → ℕ) → World → ℕ → List Entry → List (List Entry) → List File → List ℕ → Type 0
StageStep bits w n o os fs acc =
    ((t : Table) × ((write bits o ≡ some t)
        × (stage_outputs bits w n (o ∷ os) fs acc
            ≡ stage_outputs bits w (n + 1) os (put_file (tmp_name n) t fs) (acc ++ n ∷ []))))
    ⊎ ((stage_outputs bits w n (o ∷ os) fs acc ≡ record { ok = false; files = fs; staged = acc })
        ⊎ ((t : Table) × (stage_outputs bits w n (o ∷ os) fs acc
              ≡ record { ok = false; files = put_file (tmp_name n) t fs; staged = acc })))

pub stage-step :
    (bits : ℕ → ℕ) (w : World) (n : ℕ) (o : List Entry) (os : List (List Entry)) (fs : List File)
    (acc : List ℕ)
    → StageStep bits w n o os fs acc
unfolding stage_outputs
stage-step bits w n o os fs acc = elim (Option-cases (write bits o)) [
  | inl e ↦ inr (inl (rw (stage_outputs, e) refl))
  | inr (t, e) ↦ elim (Staging-cases (w.stage n)) [
    | inl a ↦ inl (t, (e, rw (stage_outputs, e, a) refl))
    | inr (inl b) ↦ inr (inl (rw (stage_outputs, e, b) refl))
    | inr (inr c) ↦ inr (inr (t, rw (stage_outputs, e, c) refl))
  ]
]

-- Staging touches temporaries from `n` on only.
pub find-stage :
    (bits : ℕ → ℕ) (w : World) (n : ℕ) (os : List (List Entry)) (fs : List File) (acc : List ℕ)
    (m : FileName)
    → Apart n m
    → find_file m (stage_outputs bits w n os fs acc).files ≡ find_file m fs
unfolding stage_outputs
find-stage bits w n [] fs acc m h = refl
find-stage bits w n (o ∷ os) fs acc m h = elim (stage-step bits w n o os fs acc) [
  | inl (t, (e, s)) ↦
      ap (λ r. find_file m r.files) s
      ∙ find-stage bits w (n + 1) os (put_file (tmp_name n) t fs) (acc ++ n ∷ []) m
          (Apart-suc n m h)
      ∙ find-put_tmp m n t fs h
  | inr (inl s) ↦ ap (λ r. find_file m r.files) s
  | inr (inr (t, s)) ↦ ap (λ r. find_file m r.files) s ∙ find-put_tmp m n t fs h
]
