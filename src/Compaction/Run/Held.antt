-- ===== src/Compaction/Run/Held.antt =====
-- The tables that the outputs of a compaction hold, staged, renamed and opened.
use lsm_tree.Prelude.{
  none-some, false-true, ℕ, ◌+◌, ◌-◌, ◌≤◌, ◌≡◌, inl, inr, refl, sym, ap, ◌∙◌, true, Option, none,
  some, List, [], ◌∷◌, ◌++◌, map, arith, Bool-cases, Option-cases, append_assoc, append-nil, length,
}
use lsm_tree.Keys.{Key}
use lsm_tree.Sstable.Entries.{Entry}
use lsm_tree.Sstable.Build.{Table}
use lsm_tree.Sstable.Read.Get.{get-write, write-some}
use lsm_tree.Sstable.Iterate.{create_iterator_all}
use lsm_tree.Sstable.Iterate.Written.{create_iterator_all-IsWritten}
use lsm_tree.Merge.Open.{AllAscending}
use lsm_tree.Compaction.Inputs.{newest}
use lsm_tree.Compaction.Directory.{FileName, File, same_name, find_file, put_file, find-put_file}
use lsm_tree.Compaction.Run.{
  World, final_name, tmp_name, stage_outputs, publish_outputs, open_outputs,
}
use lsm_tree.Compaction.Run.Names.{is_output, count_from, find-stage, stage-step}
use lsm_tree.Compaction.Run.Renames.{moved, find-moved, publish-step, publish-count, find-publish}
use lsm_tree.Engine.{get_tables}
use lsm_tree.Engine.Sources.{AllWritten}

-- The tables that are in the files.
abbrev pub tables_of : List File → List Table
tables_of fs = map (λ f. f.table) fs

-- The entries that the tables were written from.
abbrev pub entries_of : (bits : ℕ → ℕ) (ts : List Table) → AllWritten bits ts → List (List Entry)
entries_of bits [] a = []
entries_of bits (t ∷ ts) a = a.0.entries ∷ entries_of bits ts a.1

pub newest-entries_of :
    (bits : ℕ → ℕ) (ts : List Table) (a : AllWritten bits ts) (k : Key)
    → newest k (entries_of bits ts a) ≡ get_tables ts k
unfolding newest get_tables
newest-entries_of bits [] a k = refl
newest-entries_of bits (t ∷ ts) a k =
    rw (newest-entries_of bits ts a.1 k, ← get-write bits a.0.entries t k a.0.wrote) (ground arith)

pub iterators-entries_of :
    (bits : ℕ → ℕ) (ts : List Table) (a : AllWritten bits ts)
    → map create_iterator_all ts ≡ entries_of bits ts a
iterators-entries_of bits [] a = refl
iterators-entries_of bits (t ∷ ts) a =
    rw
      (
        create_iterator_all-IsWritten a.0.entries t (write-some bits a.0.entries t a.0.wrote),
        iterators-entries_of bits ts a.1,
      )
      refl

pub entries_of-AllAscending :
    (bits : ℕ → ℕ) (ts : List Table) (a : AllWritten bits ts) → AllAscending (entries_of bits ts a)
entries_of-AllAscending bits [] a = tt
entries_of-AllAscending bits (t ∷ ts) a =
    ((write-some bits a.0.entries t a.0.wrote).sorted, entries_of-AllAscending bits ts a.1)

-- The tables stand under the names of the counters from `n` on.
abbrev Holding : (ℕ → FileName) → ℕ → List Table → List File → Type 0
Holding name n [] fs = Unit {0}
Holding name n (t ∷ ts) fs = (find_file (name n) fs ≡ some t) × Holding name (n + 1) ts fs

Holding-frame :
    (name : ℕ → FileName) (n : ℕ) (ts : List Table) (fs gs : List File)
    → ((j : ℕ) → n ≤ j → find_file (name j) gs ≡ find_file (name j) fs)
    → Holding name n ts fs
    → Holding name n ts gs
Holding-frame name n [] fs gs same h = tt
Holding-frame name n (t ∷ ts) fs gs same h = (
  same n (omega arith) ∙ h.0,
  Holding-frame name (n + 1) ts fs gs (λ j l. same j (omega arith)) h.1,
)

-- What a staging that ends well has staged.
pub record IsStaged (bits : ℕ → ℕ) (n : ℕ) (os : List (List Entry)) (fs : List File)
    (acc staged : List ℕ) : Type 0 where
  pub tables : List Table
  pub wrote : AllWritten bits tables
  pub entries : entries_of bits tables wrote ≡ os
  pub holds : Holding tmp_name n tables fs
  pub numbers : staged ≡ acc ++ count_from n (length tables)

pub stage-IsStaged :
    (bits : ℕ → ℕ) (w : World) (n : ℕ) (os : List (List Entry)) (fs : List File) (acc : List ℕ)
    → (stage_outputs bits w n os fs acc).ok ≡ true
    → IsStaged bits n os
        (stage_outputs bits w n os fs acc).files
        acc
        (stage_outputs bits w n os fs acc).staged
unfolding stage_outputs count_from same_name
stage-IsStaged bits w n [] fs acc h = record {
  tables = [];
  wrote = tt;
  entries = refl;
  holds = tt;
  numbers = sym (append-nil acc);
}
stage-IsStaged bits w n (o ∷ os) fs acc h = elim (stage-step bits w n o os fs acc) [
  | inl (t, (e, s)) ↦
      let gs = put_file (tmp_name n) t fs in
      let r = stage-IsStaged bits w (n + 1) os gs (acc ++ n ∷ []) (ap (λ r. r.ok) (sym s) ∙ h) in
      rw s (record {
        tables = t ∷ r.tables;
        wrote = (record { entries = o; wrote = e }, r.wrote);
        entries = ap (◌∷◌ o) r.entries;
        holds = (
          find-stage bits w (n + 1) os gs (acc ++ n ∷ []) (tmp_name n) (inr (omega arith))
              ∙ find-put_file (tmp_name n) (tmp_name n) t fs
              ∙ ground arith,
          r.holds,
        );
        numbers = r.numbers ∙ append_assoc acc (n ∷ []) (count_from (n + 1) (length r.tables));
      })
  | inr (inl s) ↦ absurd (false-true (ap (λ r. r.ok) (sym s) ∙ h))
  | inr (inr (t, s)) ↦ absurd (false-true (ap (λ r. r.ok) (sym s) ∙ h))
]

holds-moved :
    (n : ℕ) (t : Table) (ts : List Table) (fs : List File)
    → Holding tmp_name (n + 1) ts fs
    → Holding tmp_name (n + 1) ts (moved n t fs)
unfolding same_name
holds-moved n t ts fs h =
    Holding-frame tmp_name (n + 1) ts fs (moved n t fs)
      (λ j l. find-moved (tmp_name j) n t fs ∙ ground arith) h

-- Behind the renames the tables stand under their final names.
pub publish-Holding :
    (w : World) (n : ℕ) (ts : List Table) (fs : List File) (p : ℕ)
    → Holding tmp_name n ts fs
    → (publish_outputs w (count_from n (length ts)) fs p).ok ≡ true
    → Holding final_name n ts (publish_outputs w (count_from n (length ts)) fs p).files
unfolding publish_outputs count_from same_name is_output
publish-Holding w n [] fs p h o = tt
publish-Holding w n (t ∷ ts) fs p h o =
    let ns = count_from (n + 1) (length ts) in
    elim (publish-step w n ns fs p) [
      | inl s ↦ absurd (false-true (ap (λ r. r.ok) (sym s) ∙ o))
      | inr (u, (f, inr s)) ↦ absurd (false-true (ap (λ r. r.ok) (sym s) ∙ o))
      | inr (u, (f, inl s)) ↦
          let r = publish_outputs w ns (moved n u fs) (p + 1) in
          let below = (publish-count w (n + 1) (length ts) (moved n u fs) (p + 1)).0 in
          let kept : find_file (final_name n) r.files ≡ find_file (final_name n) (moved n u fs) =
            find-publish w (n + 1) (length ts) (r.count - (p + 1)) (moved n u fs) (p + 1)
              (final_name n) refl (omega (arith, below)) (ground arith) in
          rw s (
            kept ∙ find-moved (final_name n) n u fs ∙ ground (arith, f, h.0),
            publish-Holding w (n + 1) ts (moved n u fs) (p + 1) (holds-moved n u ts fs h.1)
                (ap (λ r. r.ok) (sym s) ∙ o),
          )
    ]

abbrev opened_or_none : Option (List File) → List File
opened_or_none none = []
opened_or_none (some fs) = fs

-- The tables that were opened are those that stand under the names.
pub open-Holding :
    (w : World) (n : ℕ) (ts : List Table) (fs fresh : List File)
    → Holding final_name n ts fs
    → open_outputs w (count_from n (length ts)) fs ≡ some fresh
    → tables_of fresh ≡ ts
unfolding open_outputs count_from
open-Holding w n [] fs fresh h e = ap (tables_of) (sym (ap opened_or_none e))
open-Holding w n (t ∷ ts) fs fresh h e =
    let ns = count_from (n + 1) (length ts) in
    elim (Bool-cases (w.open_ok n)) [
      | inr f ↦
          let stops : open_outputs w (n ∷ ns) fs ≡ none = rw (open_outputs, f) refl in
          absurd (none-some (sym stops ∙ e))
      | inl k ↦ elim (Option-cases (open_outputs w ns fs)) [
        | inl r ↦
            let stops : open_outputs w (n ∷ ns) fs ≡ none = rw (open_outputs, k, h.0, r) refl in
            absurd (none-some (sym stops ∙ e))
        | inr (opened, r) ↦
            let whole : open_outputs w (n ∷ ns) fs
                ≡ some (record { name = final_name n; table = t } ∷ opened) =
              rw (open_outputs, k, h.0, r) refl in
            ap (λ o. tables_of (opened_or_none o)) (sym e ∙ whole)
            ∙ ap (◌∷◌ t) (open-Holding w (n + 1) ts fs opened h.1 r)
      ]
    ]
