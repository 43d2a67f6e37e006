-- ===== src/Compaction/Run/Renames.antt =====
-- The renames of the outputs and their roll back: which names they touch.
use lsm_tree.Prelude.{
  ℕ, zero, suc, ◌+◌, ◌-◌, ◌≤◌, ◌<◌, ◌≡◌, ◌⊎◌, inl, inr, refl, sym, ap, ◌∙◌, true, false, none, some,
  List, ◌∷◌, arith, if◌then◌else◌, Bool-cases, Option-cases,
}
use lsm_tree.Sstable.Build.{Table}
use lsm_tree.Compaction.Directory.{
  FileName, File, same_name, find_file, remove_file, put_file, find-remove_file, find-put_file,
}
use lsm_tree.Compaction.Run.{
  World, final_name, tmp_name, rename, publish_outputs, roll_back, try_remove,
}
use lsm_tree.Compaction.Run.Names.{is_output, count_from}

-- The files when the temporary `n` has its final name.
abbrev pub moved : ℕ → Table → List File → List File
moved n t fs = put_file (final_name n) t (remove_file (tmp_name n) fs)

pub find-moved :
    (m : FileName) (n : ℕ) (t : Table) (fs : List File)
    → find_file m (moved n t fs) ≡ (
        if same_name (final_name n) m
        then some t
        else if same_name (tmp_name n) m
        then none
        else find_file m fs)
find-moved m n t fs =
    find-put_file m (final_name n) t (remove_file (tmp_name n) fs)
    ∙ rw (find-remove_file m (tmp_name n) fs) refl

-- One rename: it fails, or the temporary is there and the loop stops or goes on behind it.
abbrev pub PublishStep : World → ℕ → List ℕ → List File → ℕ → Type 0
PublishStep w n ns fs p =
    (publish_outputs w (n ∷ ns) fs p ≡ record { ok = false; files = fs; count = p })
    ⊎ ((t : Table) × ((find_file (tmp_name n) fs ≡ some t)
          × ((publish_outputs w (n ∷ ns) fs p ≡ publish_outputs w ns (moved n t fs) (p + 1))
              ⊎ (publish_outputs w (n ∷ ns) fs p
                  ≡ record { ok = false; files = moved n t fs; count = p + 1 }))))

pub publish-step :
    (w : World) (n : ℕ) (ns : List ℕ) (fs : List File) (p : ℕ) → PublishStep w n ns fs p
unfolding publish_outputs rename
publish-step w n ns fs p = elim (Bool-cases (w.rename_ok n)) [
  | inr f ↦ inl (rw (publish_outputs, rename, f) refl)
  | inl r ↦ elim (Option-cases (find_file (tmp_name n) fs)) [
    | inl e ↦ inl (rw (publish_outputs, rename, r, e) refl)
    | inr (t, e) ↦ elim (Bool-cases (w.hit_ok n)) [
      | inl h ↦ inr (t, (e, inl (rw (publish_outputs, rename, r, e, h) refl)))
      | inr h ↦ inr (t, (e, inr (rw (publish_outputs, rename, r, e, h) refl)))
    ]
  ]
]

pub publish-count :
    (w : World) (n k : ℕ) (fs : List File) (p : ℕ)
    → (p ≤ (publish_outputs w (count_from n k) fs p).count)
      × ((publish_outputs w (count_from n k) fs p).count ≤ p + k)
unfolding publish_outputs count_from
publish-count w n zero fs p = (omega arith, omega arith)
publish-count w n (suc k) fs p = elim (publish-step w n (count_from (n + 1) k) fs p) [
  | inl s ↦ rw s (omega arith, omega arith)
  | inr (t, (e, inl s)) ↦
      let r = publish-count w (n + 1) k (moved n t fs) (p + 1) in
      rw s (omega (arith, r.0, r.1), omega (arith, r.0, r.1))
  | inr (t, (e, inr s)) ↦ rw s (omega arith, omega arith)
]

-- Behind the first output: the names of those that are left, and the name of the first.
is_output_suc :
    (n q : ℕ) (m : FileName) → 0 < q → is_output n q m ≡ false → is_output (n + 1) (q - 1) m ≡ false
unfolding is_output
is_output_suc n q m l o = ground arith

find-moved_other :
    (m : FileName) (n q : ℕ) (t : Table) (fs : List File)
    → 0 < q
    → m.is_tmp ≡ false
    → is_output n q m ≡ false
    → find_file m (moved n t fs) ≡ find_file m fs
unfolding is_output same_name
find-moved_other m n q t fs l e o = find-moved m n t fs ∙ ground arith

-- Publishing touches the temporaries and the final names of the outputs that it counts.
pub find-publish :
    (w : World) (n k q : ℕ) (fs : List File) (p : ℕ) (m : FileName)
    → m.is_tmp ≡ false
    → (publish_outputs w (count_from n k) fs p).count ≡ p + q
    → is_output n q m ≡ false
    → find_file m (publish_outputs w (count_from n k) fs p).files ≡ find_file m fs
unfolding publish_outputs count_from
find-publish w n zero q fs p m e c o = refl
find-publish w n (suc k) q fs p m e c o = elim (publish-step w n (count_from (n + 1) k) fs p) [
  | inl s ↦ ap (λ r. find_file m r.files) s
  | inr (t, (f, inl s)) ↦
      let c' : (publish_outputs w (count_from (n + 1) k) (moved n t fs) (p + 1)).count ≡ p + q =
        ap (λ r. r.count) (sym s) ∙ c in
      let l : 0 < q = omega (arith, (publish-count w (n + 1) k (moved n t fs) (p + 1)).0) in
      ap (λ r. find_file m r.files) s
      ∙ find-publish w (n + 1) k (q - 1) (moved n t fs) (p + 1) m e (c' ∙ omega arith)
          (is_output_suc n q m l o)
      ∙ find-moved_other m n q t fs l e o
  | inr (t, (f, inr s)) ↦
      let c' : p + 1 ≡ p + q = ap (λ r. r.count) (sym s) ∙ c in
      ap (λ r. find_file m r.files) s ∙ find-moved_other m n q t fs (omega arith) e o
]

find-try_remove :
    (w : World) (m name : FileName) (fs : List File)
    → w.remove_ok name ≡ true
    → find_file m (try_remove w name fs) ≡ (if same_name name m then none else find_file m fs)
unfolding try_remove
find-try_remove w m name fs r = rw r (find-remove_file m name fs)

-- The roll back, when its removals succeed, removes the outputs that were published.
pub find-roll_back :
    (w : World) (n k q : ℕ) (fs : List File) (m : FileName)
    → ((name : FileName) → w.remove_ok name ≡ true)
    → m.is_tmp ≡ false
    → q ≤ k
    → find_file m (roll_back w q (count_from n k) fs)
      ≡ (if is_output n q m then none else find_file m fs)
unfolding roll_back count_from is_output same_name
find-roll_back w n zero q fs m r e l = ground arith
find-roll_back w n (suc k) zero fs m r e l =
    find-roll_back w (n + 1) k zero (try_remove w (tmp_name n) fs) m r e (omega arith)
    ∙ ground (arith, find-try_remove w m (tmp_name n) fs (r (tmp_name n)))
find-roll_back w n (suc k) (suc q) fs m r e l =
    find-roll_back w (n + 1) k q (try_remove w (final_name n) fs) m r e (omega arith)
    ∙ ground (arith, find-try_remove w m (final_name n) fs (r (final_name n)))
