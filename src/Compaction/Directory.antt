-- ===== src/Compaction/Directory.antt =====
-- The data directory as the compactor sees it: the tables that stand under the names that
-- makeSSTPath gives, and their temporaries, in src/compaction/leveled_compactor.cpp.
use lsm_tree.Prelude.{
  ℕ, ◌≡◌, Bool, true, false, Option, none, some, List, [], ◌∷◌, arith, ◌==◌, if◌then◌else◌,
}
use lsm_tree.Sstable.Build.{Table}

-- sst-<level>-<counter>.sst, with .tmp behind it for a temporary.
pub record FileName : Type 0 where
  pub level : ℕ
  pub counter : ℕ
  pub is_tmp : Bool

-- A file with the table that is in it; for an open table, `name` is its path().
pub record File : Type 0 where
  pub name : FileName
  pub table : Table

unfoldable pub same_name : FileName → FileName → Bool
same_name a b =
    if a.level == b.level
    then if a.counter == b.counter
      then if a.is_tmp then b.is_tmp else if b.is_tmp then false else true
      else false
    else false

unfoldable pub find_file : FileName → List File → Option Table
find_file name [] = none
find_file name (f ∷ fs) = if same_name f.name name then some f.table else find_file name fs

unfoldable pub remove_file : FileName → List File → List File
remove_file name [] = []
remove_file name (f ∷ fs) =
    let rest = remove_file name fs in if same_name f.name name then rest else f ∷ rest

-- A new file, in the place of the one that had the name.
unfoldable pub put_file : FileName → Table → List File → List File
put_file name t fs = record { name = name; table = t } ∷ remove_file name fs

same_name_congr : (a b c : FileName) → same_name a b ≡ true → same_name a c ≡ same_name b c
unfolding same_name
same_name_congr a b c h = ground arith

pub same_name_trans :
    (a b c : FileName) → same_name a c ≡ true → same_name b c ≡ true → same_name a b ≡ true
unfolding same_name
same_name_trans a b c h k = ground arith

pub find-remove_file :
    (m n : FileName) (fs : List File)
    → find_file m (remove_file n fs) ≡ (if same_name n m then none else find_file m fs)
unfolding find_file remove_file
find-remove_file m n [] = ground arith
find-remove_file m n (f ∷ fs) =
    ground (arith, find-remove_file m n fs, same_name_congr f.name n m, same_name_trans f.name n m)

pub find-put_file :
    (m n : FileName) (t : Table) (fs : List File)
    → find_file m (put_file n t fs) ≡ (if same_name n m then some t else find_file m fs)
unfolding find_file put_file
find-put_file m n t fs = ground (arith, find-remove_file m n fs)
