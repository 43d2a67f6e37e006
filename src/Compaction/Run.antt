-- ===== src/Compaction/Run.antt =====
-- LeveledCompactor::run, src/compaction/leveled_compactor.cpp: the threshold, the sweep, the
-- numbering, the staged outputs, their publication with its roll back, and the removal of the
-- inputs. What the file system and the fault points answer is a `World`.
pub mod Names
pub mod Cases
pub mod Renames
pub mod Threw
pub mod Held
pub mod Reads
use lsm_tree.Prelude.{
  ℕ, zero, suc, ◌+◌, ◌^◌, max, Bool, true, false, Option, none, some, List, [], ◌∷◌, ◌++◌, map, ltb,
  ◌==◌, if◌then◌else◌, length,
}
use lsm_tree.Sstable.Entries.{Entry}
use lsm_tree.Sstable.Build.{Table, write}
use lsm_tree.Sstable.Iterate.{create_iterator_all}
use lsm_tree.Compaction.{merge_tables, l0_threshold}
use lsm_tree.Compaction.Directory.{FileName, File, find_file, remove_file, put_file}

-- How SSTable::write ends for an output: it returns, or it throws and the temporary is not there,
-- or it throws when the file has its name already (its directory could not be synced).
pub data Staging : Type 0 where
  is_staged is_absent is_left : Staging

-- What the calls that can fail answer, by the counter of the output. Where a call or a fault point
-- throws, its answer is `false`. `iterated` is what the SSTableIterator of an open table hands out
-- of its entries: createIterator opens the file again, and where the open or a read of it fails the
-- iterator just ends.
pub record World : Type 0 where
  pub iterated : FileName → List Entry → List Entry
  pub stage : ℕ → Staging
  pub merge_ok : Bool
  pub rename_ok : ℕ → Bool
  pub hit_ok : ℕ → Bool
  pub open_ok : ℕ → Bool
  pub publish_ok : Bool
  pub remove_ok : FileName → Bool

-- The files, the tables that are open, sst_counter.
pub record Store : Type 0 where
  pub files : List File
  pub tables : List File
  pub counter : ℕ

pub record Ran : Type 0 where
  pub returned : Bool
  pub store : Store

abbrev pub final_name : ℕ → FileName
final_name counter = record { level = 1; counter = counter; is_tmp = false }

abbrev pub tmp_name : ℕ → FileName
tmp_name counter = record { level = 1; counter = counter; is_tmp = true }

-- l0_paths.size()
unfoldable pub l0_count : List File → ℕ
l0_count [] = 0
l0_count (f ∷ fs) = if f.name.level == 0 then suc (l0_count fs) else l0_count fs

-- std::filesystem::remove with its error discarded
unfoldable pub try_remove : World → FileName → List File → List File
try_remove w name fs = if w.remove_ok name then remove_file name fs else fs

-- The sweep of the temporaries that an interrupted compaction left.
unfoldable pub sweep : World → List File → List File
sweep w [] = []
sweep w (f ∷ fs) =
    let rest = sweep w fs in
    if f.name.is_tmp then if w.remove_ok f.name then rest else f ∷ rest else f ∷ rest

-- max(l1_start, stoi(...) + 1); stoi throws for a number that an int cannot hold, which is ignored.
unfoldable pub past_counter : ℕ → ℕ → ℕ
past_counter start counter = if ltb counter (2 ^ 31) then max start (counter + 1) else start

-- The loops that number past the tables of level 1, in memory and on disk.
unfoldable pub number_past : List File → ℕ → ℕ
number_past [] start = start
number_past (f ∷ fs) start = number_past fs (
    if f.name.is_tmp
    then start
    else if f.name.level == 1
    then past_counter start f.name.counter
    else start)

unfoldable pub l1_start : List File → List File → ℕ
l1_start tables files = number_past files (number_past tables 0)

-- The counters of the outputs that are staged, and how the staging ended.
pub record Staged : Type 0 where
  pub ok : Bool
  pub files : List File
  pub staged : List ℕ

-- flushBuffer for one output behind the other. SSTable::write throws for entries it cannot hold.
unfoldable pub stage_outputs : (ℕ → ℕ) → World → ℕ → List (List Entry) → List File → List ℕ → Staged
stage_outputs bits w n [] fs staged = record { ok = true; files = fs; staged = staged }
stage_outputs bits w n (o ∷ os) fs staged = elim (write bits o) [
  | none ↦ record { ok = false; files = fs; staged = staged }
  | some t ↦ elim (w.stage n) [
    | is_staged ↦ stage_outputs bits w (n + 1) os (put_file (tmp_name n) t fs) (staged ++ n ∷ [])
    | is_absent ↦ record { ok = false; files = fs; staged = staged }
    | is_left ↦ record { ok = false; files = put_file (tmp_name n) t fs; staged = staged }
  ]
]

-- std::filesystem::rename(tmp, fin); `none`: it throws.
unfoldable pub rename : World → ℕ → List File → Option (List File)
rename w n fs =
    if w.rename_ok n
    then elim (find_file (tmp_name n) fs) [
      | none ↦ none
      | some t ↦ some (put_file (final_name n) t (remove_file (tmp_name n) fs))
    ]
    else none

-- The files when the loop of renames ends, how it ended, and `published`.
pub record Published : Type 0 where
  pub ok : Bool
  pub files : List File
  pub count : ℕ

unfoldable pub publish_outputs : World → List ℕ → List File → ℕ → Published
publish_outputs w [] fs published = record { ok = true; files = fs; count = published }
publish_outputs w (n ∷ ns) fs published = elim (rename w n fs) [
  | none ↦ record { ok = false; files = fs; count = published }
  | some fs' ↦ elim (w.hit_ok n) [
    | true ↦ publish_outputs w ns fs' (published + 1)
    | false ↦ record { ok = false; files = fs'; count = published + 1 }
  ]
]

-- The replacements, opened in order; `none`: a constructor throws.
unfoldable pub open_outputs : World → List ℕ → List File → Option (List File)
open_outputs w [] fs = some []
open_outputs w (n ∷ ns) fs =
    let rest = open_outputs w ns fs in
    if w.open_ok n
    then elim (find_file (final_name n) fs) [
      | none ↦ none
      | some t ↦ elim rest [
        | none ↦ none
        | some opened ↦ some (record { name = final_name n; table = t } ∷ opened)
      ]
    ]
    else none

-- The clean-up in the handlers: the final names of the first `published`, else the temporaries.
unfoldable pub roll_back : World → ℕ → List ℕ → List File → List File
roll_back w published [] fs = fs
roll_back w zero (n ∷ ns) fs = roll_back w zero ns (try_remove w (tmp_name n) fs)
roll_back w (suc p) (n ∷ ns) fs = roll_back w p ns (try_remove w (final_name n) fs)

-- Phase 3; a removal that fails is reported and nothing else.
unfoldable pub remove_inputs : World → List File → List File → List File
remove_inputs w [] fs = fs
remove_inputs w (t ∷ ts) fs = remove_inputs w ts (try_remove w t.name fs)

-- An exception: the open tables and the counter are what they were.
abbrev pub threw : Store → List File → Ran
threw s files = record {
  returned = false;
  store = record { files = files; tables = s.tables; counter = s.counter };
}

-- Phases 2 and 3.
unfoldable pub publish : World → Store → Staged → Ran
publish w s st =
    let p = publish_outputs w st.staged st.files 0 in
    let abandoned = threw s (roll_back w p.count st.staged p.files) in
    elim (if p.ok then open_outputs w st.staged p.files else none) [
      | none ↦ abandoned
      | some fresh ↦
          if w.publish_ok
          then record {
            returned = true;
            store = record {
              files = remove_inputs w s.tables p.files;
              tables = fresh;
              counter = 0;
            };
          }
          else abandoned
    ]

-- Behind the threshold.
unfoldable pub compact : (ℕ → ℕ) → World → Store → Ran
compact bits w s =
    let swept = sweep w s.files in
    let inputs = map (λ f. w.iterated f.name (create_iterator_all f.table)) s.tables in
    let st = stage_outputs bits w (l1_start s.tables swept) (merge_tables inputs) swept [] in
    if st.ok
    then if w.merge_ok then publish w s st else threw s (roll_back w 0 st.staged st.files)
    else threw s (roll_back w 0 st.staged st.files)

unfoldable pub run : (ℕ → ℕ) → World → Store → Ran
run bits w s =
    if ltb (l0_count s.tables) l0_threshold
    then record { returned = true; store = s }
    else compact bits w s
