-- ===== src/Compaction/Run/Cases.antt =====
-- How a compaction can end.
use lsm_tree.Prelude.{
  ℕ, ◌≡◌, ◌⊎◌, inl, inr, refl, ◌∙◌, true, some, List, [], map, ltb, Bool-cases, Option-cases,
}
use lsm_tree.Sstable.Entries.{Entry}
use lsm_tree.Sstable.Iterate.{create_iterator_all}
use lsm_tree.Compaction.{merge_tables, l0_threshold}
use lsm_tree.Compaction.Directory.{FileName, File}
use lsm_tree.Compaction.Run.{
  World, Store, Ran, Staged, Published, sweep, stage_outputs, publish_outputs, open_outputs,
  remove_inputs, roll_back, l1_start, publish, compact, run, threw, l0_count,
}

-- What the merge makes of what it reads of the open tables.
abbrev pub outputs : World → Store → List (List Entry)
outputs w s = merge_tables (map (λ f. w.iterated f.name (create_iterator_all f.table)) s.tables)

-- Every file that the merge reads can be opened and read to its end.
abbrev pub ReadsWhole : World → Type 0
ReadsWhole w = (name : FileName) (es : List Entry) → w.iterated name es ≡ es

abbrev pub staging : (ℕ → ℕ) → World → Store → Staged
staging bits w s =
    stage_outputs bits w (l1_start s.tables (sweep w s.files)) (outputs w s) (sweep w s.files) []

abbrev pub published : World → Staged → Published
published w st = publish_outputs w st.staged st.files 0

-- The state behind phase 3.
abbrev pub done : World → Store → Staged → List File → Ran
done w s st fresh = record {
  returned = true;
  store = record {
    files = remove_inputs w s.tables (published w st).files;
    tables = fresh;
    counter = 0;
  };
}

abbrev pub abandoned_at : World → Store → Staged → Ran
abandoned_at w s st = threw s (roll_back w (published w st).count st.staged (published w st).files)

-- A publication is undone, or the outputs are open and it returns.
abbrev PublishCases : World → Store → Staged → Type 0
PublishCases w s st =
    (publish w s st ≡ abandoned_at w s st)
    ⊎ ((fresh : List File) × ((publish w s st ≡ done w s st fresh)
          × (((published w st).ok ≡ true)
              × (open_outputs w st.staged (published w st).files ≡ some fresh))))

publish-cases : (w : World) (s : Store) (st : Staged) → PublishCases w s st
unfolding publish
publish-cases w s st = elim (Bool-cases (published w st).ok) [
  | inr f ↦ inl (rw (publish, f) refl)
  | inl t ↦ elim (Option-cases (open_outputs w st.staged (published w st).files)) [
    | inl e ↦ inl (rw (publish, t, e) refl)
    | inr (fresh, e) ↦ elim (Bool-cases w.publish_ok) [
      | inl k ↦ inr (fresh, (rw (publish, t, e, k) refl, (t, e)))
      | inr k ↦ inl (rw (publish, t, e, k) refl)
    ]
  ]
]

-- Below the threshold nothing happens; else the outputs are discarded, abandoned, or published.
pub run-cases :
    (bits : ℕ → ℕ) (w : World) (s : Store)
    → (run bits w s ≡ record { returned = true; store = s })
      ⊎ ((run bits w s ≡ threw s (roll_back w 0 (staging bits w s).staged (staging bits w s).files))
          ⊎ ((run bits w s ≡ abandoned_at w s (staging bits w s))
              ⊎ ((fresh : List File) × ((run bits w s ≡ done w s (staging bits w s) fresh)
                    × (((staging bits w s).ok ≡ true)
                        × (((published w (staging bits w s)).ok ≡ true)
                            × (open_outputs w
                                  (staging bits w s).staged
                                  (published w (staging bits w s)).files
                                ≡ some fresh)))))))
unfolding run compact
run-cases bits w s = elim (Bool-cases (ltb (l0_count s.tables) l0_threshold)) [
  | inl t ↦ inl (rw (run, t) refl)
  | inr f ↦ elim (Bool-cases (staging bits w s).ok) [
    | inr k ↦ inr (inl (rw (run, compact, f, k) refl))
    | inl k ↦ elim (Bool-cases w.merge_ok) [
      | inr m ↦ inr (inl (rw (run, compact, f, k, m) refl))
      | inl m ↦
          let same : run bits w s ≡ publish w s (staging bits w s) =
            rw (run, compact, f, k, m) refl in
          elim (publish-cases w s (staging bits w s)) [
            | inl u ↦ inr (inr (inl (same ∙ u)))
            | inr (fresh, (u, (p, o))) ↦ inr (inr (inr (fresh, (same ∙ u, (k, (p, o))))))
          ]
    ]
  ]
]
