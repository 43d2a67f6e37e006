-- ===== src/Compaction/Run/Reads.antt =====
-- A compaction and the reads of the engine: what the open tables hold when it ends.
use lsm_tree.Prelude.{
  subst, ℕ, ◌≡◌, inl, inr, refl, sym, ap, ◌∙◌, true, some, List, [], ◌∷◌, map, length,
}
use lsm_tree.Keys.{Key}
use lsm_tree.Sstable.Build.{Table}
use lsm_tree.Sstable.Iterate.{create_iterator_all}
use lsm_tree.Merge.Winners.{live}
use lsm_tree.Compaction.{merge_tables}
use lsm_tree.Compaction.Inputs.{newest}
use lsm_tree.Compaction.Outputs.{merge_tables-live}
use lsm_tree.Compaction.Directory.{File}
use lsm_tree.Compaction.Run.{World, Store, Ran, sweep, l1_start, publish_outputs, open_outputs, run}
use lsm_tree.Compaction.Run.Names.{count_from}
use lsm_tree.Compaction.Run.Cases.{outputs, staging, run-cases, published, ReadsWhole}
use lsm_tree.Engine.{get_tables}
use lsm_tree.Engine.Sources.{AllWritten}
use lsm_tree.Compaction.Run.Held.{
  tables_of, entries_of, newest-entries_of, iterators-entries_of, entries_of-AllAscending,
  stage-IsStaged, publish-Holding, open-Holding,
}

-- What a compaction of the tables `ts` leaves open, and what a read of them finds.
pub record IsCompacted (bits : ℕ → ℕ) (ts us : List Table) : Type 0 where
  pub wrote : AllWritten bits us
  pub reads : (k : Key) → live (get_tables us k) ≡ live (get_tables ts k)

-- Tables that hold what the merge made of the tables `ts`.
merged-IsCompacted :
    (bits : ℕ → ℕ) (ts us : List Table)
    → (a : AllWritten bits ts) → (b : AllWritten bits us)
    → entries_of bits us b ≡ merge_tables (map create_iterator_all ts)
    → IsCompacted bits ts us
merged-IsCompacted bits ts us a b e = record {
  wrote = b;
  reads = λ k.
      let ins = entries_of bits ts a in
      ap live (
        sym (newest-entries_of bits us b k)
        ∙ ap (newest k) (e ∙ ap merge_tables (iterators-entries_of bits ts a)))
      ∙ merge_tables-live ins k (entries_of-AllAscending bits ts a)
      ∙ ap live (newest-entries_of bits ts a k);
}

entries-subst :
    (bits : ℕ → ℕ) (ts us : List Table) (a : AllWritten bits ts)
    → ts ≡ us
    → (b : AllWritten bits us) × (entries_of bits us b ≡ entries_of bits ts a)
entries-subst bits ts us a e =
    subst (λ us. (b : AllWritten bits us) × (entries_of bits us b ≡ entries_of bits ts a)) e
      (a, refl)

map-map :
    (w : World) (fs : List File)
    → ReadsWhole w
    → map (λ f. w.iterated f.name (create_iterator_all f.table)) fs
      ≡ map create_iterator_all (tables_of fs)
map-map w [] whole = refl
map-map w (f ∷ fs) whole =
    rw (whole f.name (create_iterator_all f.table))
      (ap (◌∷◌ (create_iterator_all f.table)) (map-map w fs whole))

module _ (bits : ℕ → ℕ) (w : World) (s : Store) (a : AllWritten bits (tables_of s.tables))
    (whole : ReadsWhole w) where
  abbrev fs : List File
  fs = sweep w s.files

  fresh-IsCompacted :
      (fresh : List File)
      → (staging bits w s).ok ≡ true
      → (published w (staging bits w s)).ok ≡ true
      → open_outputs w (staging bits w s).staged (published w (staging bits w s)).files ≡ some fresh
      → IsCompacted bits (tables_of s.tables) (tables_of fresh)
  fresh-IsCompacted fresh o p e =
      let n = l1_start s.tables fs in
      let r = stage-IsStaged bits w n (outputs w s) fs [] o in
      let st = staging bits w s in
      let files = λ (ns : List ℕ). (publish_outputs w ns st.files 0).files in
      let held =
        publish-Holding w n r.tables st.files 0 r.holds
          (subst (λ ns. (publish_outputs w ns st.files 0).ok ≡ true) r.numbers p) in
      let same : tables_of fresh ≡ r.tables =
        open-Holding w n r.tables (files (count_from n (length r.tables))) fresh held
          (subst (λ ns. open_outputs w ns (files ns) ≡ some fresh) r.numbers e) in
      let b = entries-subst bits r.tables (tables_of fresh) r.wrote (sym same) in
      merged-IsCompacted bits (tables_of s.tables) (tables_of fresh) a b.0
        (b.1 ∙ r.entries ∙ ap merge_tables (map-map w s.tables whole))

-- However a compaction ends, with whatever the other calls of the file system and the fault points
-- answer, if the iterators can open and read the files of the inputs to their ends: the open tables were written by SSTable::write, and for every key a read of them finds the value that it
-- found before, or finds none or a tombstone where it did.
pub run-IsCompacted :
    (bits : ℕ → ℕ) (w : World) (s : Store)
    → AllWritten bits (tables_of s.tables)
    → ReadsWhole w
    → IsCompacted bits (tables_of s.tables) (tables_of (run bits w s).store.tables)
run-IsCompacted bits w s a whole =
    let ts = λ (x : Ran). tables_of x.store.tables in
    let becomes : (x : Ran)
        → run bits w s ≡ x
        → IsCompacted bits (tables_of s.tables) (ts x)
        → IsCompacted bits (tables_of s.tables) (ts (run bits w s)) =
      λ x e u. subst (λ (y : Ran). IsCompacted bits (tables_of s.tables) (ts y)) (sym e) u in
    let kept : IsCompacted bits (tables_of s.tables) (tables_of s.tables) = record {
      wrote = a;
      reads = λ k. refl;
    } in
    elim (run-cases bits w s) [
      | inl e ↦ becomes _ e kept
      | inr (inl e) ↦ becomes _ e kept
      | inr (inr (inl e)) ↦ becomes _ e kept
      | inr (inr (inr (fresh, (e, (o, (p, q)))))) ↦
          becomes _ e (fresh-IsCompacted bits w s a whole fresh o p q)
    ]
