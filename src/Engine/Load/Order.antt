-- ===== src/Engine/Load/Order.antt =====
-- The tables that a start loads: which they are, in which order, and the counter behind them.
use lsm_tree.Prelude.{ℕ, ◌≤◌, ◌≡◌, false, none, List, [], ◌∷◌}
use lsm_tree.Compaction.Directory.{FileName, File, find_file}
use lsm_tree.Engine.Load.{sorts_before}

-- No file of the list belongs before `f`.
abbrev pub NoneBefore : File → List File → Type 0
NoneBefore f [] = Unit {0}
NoneBefore f (g ∷ gs) = (sorts_before g f ≡ false) × NoneBefore f gs

-- Level 1 before level 0, and within a level by counter.
abbrev pub Sorted : List File → Type 0
Sorted [] = Unit {0}
Sorted (f ∷ fs) = NoneBefore f fs × Sorted fs

-- No name stands twice.
abbrev pub Distinct : List File → Type 0
Distinct [] = Unit {0}
Distinct (f ∷ fs) = (find_file f.name fs ≡ none) × Distinct fs

-- No temporary stands in the list.
abbrev pub NoTmp : List File → Type 0
NoTmp [] = Unit {0}
NoTmp (f ∷ fs) = (f.name.is_tmp ≡ false) × NoTmp fs

-- What a start makes of the files of the directory.
pub record IsLoaded (files : List File) (loaded : List File × ℕ) : Type 0 where
  pub sorted : Sorted loaded.0
  pub once : Distinct loaded.0
  pub no_tmp : NoTmp loaded.0
  pub finds : (m : FileName) → m.is_tmp ≡ false → find_file m loaded.0 ≡ find_file m files
  pub free :
      (m : FileName)
      → m.is_tmp ≡ false
      → m.level ≡ 0
      → loaded.1 ≤ m.counter
      → find_file m files ≡ none
