-- ===== src/Compaction/Run/Threw.antt =====
-- A compaction that throws: what it leaves of the tables, the counter and the files.
use lsm_tree.Prelude.{
  false-true, subst, ℕ, suc, ◌+◌, ◌^◌, ◌≤◌, ◌<◌, ◌≡◌, inl, inr, refl, sym, ap, ◌∙◌, Bool, true,
  false, none, List, [], ◌∷◌, ◌++◌, arith, ◌==◌, if◌then◌else◌, Bool-cases, append_assoc,
  append-nil, max,
}
use lsm_tree.Sstable.Entries.{Entry}
use lsm_tree.Compaction.Directory.{FileName, File, same_name, find_file, put_file}
use lsm_tree.Compaction.Run.{
  World, Store, Ran, Staged, tmp_name, sweep, stage_outputs, publish_outputs, roll_back,
  past_counter, number_past, l1_start, run, threw,
}
use lsm_tree.Compaction.Run.Names.{is_output, count_from, find-sweep, find-stage, stage-step}
use lsm_tree.Compaction.Run.Cases.{outputs, staging, run-cases}
use lsm_tree.Compaction.Run.Renames.{publish-count, find-publish, find-roll_back}

-- The counters of the files are those of an int.
abbrev pub CountersFit : List File → Type 0
CountersFit [] = Unit {0}
CountersFit (f ∷ fs) = (f.name.counter < 2 ^ 31) × CountersFit fs

CountersFit-if :
    (b : Bool) (fs gs : List File)
    → CountersFit fs
    → CountersFit gs
    → CountersFit (if b then fs else gs)
CountersFit-if true fs gs c d = c
CountersFit-if false fs gs c d = d

CountersFit-sweep : (w : World) (fs : List File) → CountersFit fs → CountersFit (sweep w fs)
unfolding sweep
CountersFit-sweep w [] c = tt
CountersFit-sweep w (f ∷ fs) c =
    let rest = CountersFit-sweep w fs c.1 in
    CountersFit-if f.name.is_tmp _ _ (CountersFit-if (w.remove_ok f.name) _ _ rest (c.0, rest))
      (c.0, rest)

number_past-le : (fs : List File) (start : ℕ) → start ≤ number_past fs start
unfolding number_past past_counter
number_past-le [] start = omega arith
number_past-le (f ∷ fs) start =
    ground (arith, number_past-le fs start, number_past-le fs (max start (f.name.counter + 1)))

-- No table of level 1 has a counter that the numbering hands out.
number_past-free :
    (fs : List File) (start : ℕ) (m : FileName)
    → CountersFit fs
    → m.is_tmp ≡ false
    → m.level ≡ 1
    → number_past fs start ≤ m.counter
    → find_file m fs ≡ none
unfolding number_past past_counter find_file same_name
number_past-free [] start m c e v l = refl
number_past-free (f ∷ fs) start m c e v l =
    let from : ℕ =
      if f.name.is_tmp
      then start
      else if f.name.level == 1
      then past_counter start f.name.counter
      else start in
    let grown : from ≤ number_past fs from = number_past-le fs from in
    let rest : find_file m fs ≡ none = number_past-free fs from m c.1 e v l in ground arith

-- The names of the outputs are free when they are numbered.
pub l1_start-free :
    (w : World) (s : Store) (q : ℕ) (m : FileName)
    → CountersFit s.files
    → is_output (l1_start s.tables (sweep w s.files)) q m ≡ true
    → find_file m (sweep w s.files) ≡ none
unfolding l1_start is_output
l1_start-free w s q m c o =
    number_past-free (sweep w s.files) (number_past s.tables 0) m (CountersFit-sweep w s.files c)
      (ground arith) (ground arith) (ground arith)

-- What has been staged is numbered from `n` on, however the staging ends.
pub stage-staged :
    (bits : ℕ → ℕ) (w : World) (n : ℕ) (os : List (List Entry)) (fs : List File) (acc : List ℕ)
    → (k : ℕ) × ((stage_outputs bits w n os fs acc).staged ≡ acc ++ count_from n k)
unfolding stage_outputs count_from
stage-staged bits w n [] fs acc = (0, sym (append-nil acc))
stage-staged bits w n (o ∷ os) fs acc = elim (stage-step bits w n o os fs acc) [
  | inl (t, (e, s)) ↦
      let r = stage-staged bits w (n + 1) os (put_file (tmp_name n) t fs) (acc ++ n ∷ []) in
      (suc r.0, ap (λ r. r.staged) s ∙ r.1 ∙ append_assoc acc (n ∷ []) (count_from (n + 1) r.0))
  | inr (inl s) ↦ (0, ap (λ r. r.staged) s ∙ sym (append-nil acc))
  | inr (inr (t, s)) ↦ (0, ap (λ r. r.staged) s ∙ sym (append-nil acc))
]

-- The tables, the counter, and every file but the temporaries are as they were.
pub record IsUndone (s s' : Store) : Type 0 where
  pub tables : s'.tables ≡ s.tables
  pub counter : s'.counter ≡ s.counter
  pub files : (m : FileName) → m.is_tmp ≡ false → find_file m s'.files ≡ find_file m s.files

module _ (bits : ℕ → ℕ) (w : World) (s : Store) (c : CountersFit s.files)
    (removes : (name : FileName) → w.remove_ok name ≡ true) where
  abbrev swept : List File
  swept = sweep w s.files

  abbrev first : ℕ
  first = l1_start s.tables swept

  abbrev st : Staged
  st = staging bits w s

  rolled_back :
      (fs : List File) (k q : ℕ)
      → q ≤ k
      → ((m : FileName)
          → m.is_tmp ≡ false
          → is_output first q m ≡ false
          → find_file m fs ≡ find_file m swept)
      → IsUndone s (threw s (roll_back w q (count_from first k) fs)).store
  rolled_back fs k q l same = record {
    tables = refl;
    counter = refl;
    files = λ m e.
        find-roll_back w first k q fs m removes e l ∙ elim (Bool-cases (is_output first q m)) [
          | inl t ↦ rw t (sym (l1_start-free w s q m c t) ∙ find-sweep w m s.files e)
          | inr f ↦ rw f (same m e f ∙ find-sweep w m s.files e)
        ];
  }

  staged_only : (m : FileName) → m.is_tmp ≡ false → find_file m st.files ≡ find_file m swept
  staged_only m e = find-stage bits w first (outputs w s) swept [] m (inl e)

  discarded : IsUndone s (threw s (roll_back w 0 st.staged st.files)).store
  discarded =
      let k = stage-staged bits w first (outputs w s) swept [] in
      rw k.1 (rolled_back st.files k.0 0 (omega arith) (λ m e o. staged_only m e))

  abandoned :
      let p = publish_outputs w st.staged st.files 0 in
      IsUndone s (threw s (roll_back w p.count st.staged p.files)).store
  abandoned =
      let k = stage-staged bits w first (outputs w s) swept [] in
      rw k.1 (
        let p = publish_outputs w (count_from first k.0) st.files 0 in
        rolled_back p.files k.0 p.count (omega (arith, (publish-count w first k.0 st.files 0).1))
          (λ m e o.
            find-publish w first k.0 p.count st.files 0 m e (omega arith) o ∙ staged_only m e))

-- A compaction that throws leaves the open tables and sst_counter as they were, and under every
-- name of a table the file that was there, or none, if the clean-up can remove what it wants to.
pub run_threw :
    (bits : ℕ → ℕ) (w : World) (s : Store)
    → CountersFit s.files
    → ((name : FileName) → w.remove_ok name ≡ true)
    → (run bits w s).returned ≡ false
    → IsUndone s (run bits w s).store
run_threw bits w s c r h =
    let undone : (x : Ran)
        → run bits w s ≡ x
        → IsUndone s x.store
        → IsUndone s (run bits w s).store =
      λ x e u. subst (λ (y : Ran). IsUndone s y.store) (sym e) u in
    elim (run-cases bits w s) [
      | inl e ↦ absurd (false-true (sym h ∙ ap (λ r. r.returned) e))
      | inr (inl e) ↦ undone _ e (discarded bits w s c r)
      | inr (inr (inl e)) ↦ undone _ e (abandoned bits w s c r)
      | inr (inr (inr (fresh, (e, rest)))) ↦ absurd (false-true (sym h ∙ ap (λ r. r.returned) e))
    ]
