-- ===== src/Engine/Load.antt =====
-- loadSSTables and sstPath, src/db/lsm_engine.cpp: the names of the table files, the order in which
-- the tables are loaded, and the counter that the next flush takes.
pub mod Names
pub mod Order
use lsm_tree.Prelude.{
  ℕ, zero, suc, ◌+◌, ◌-◌, ◌*◌, ◌/◌, ◌%◌, ◌^◌, max, Bool, true, false, Option, none, some, List, [],
  ◌∷◌, ◌++◌, ltb, leb, ◌==◌, if◌then◌else◌, length, take, drop, replicate,
}
use lsm_tree.Keys.{Key, key_eq}
use lsm_tree.Compaction.Directory.{File}

-- oss << n, for the ten digits at most that an int has.
unfoldable pub decimal_loop : ℕ → ℕ → Key
decimal_loop zero n = []
decimal_loop (suc fuel) n =
    let rest = decimal_loop fuel (n / 10) in (if ltb n 10 then [] else rest) ++ (b'0' + n % 10) ∷ []

unfoldable pub decimal : ℕ → Key
decimal n = decimal_loop 10 n

-- oss << std::setw(6) << std::setfill('0') << n
unfoldable pub padded : ℕ → Key
padded n = replicate (6 - length (decimal n)) b'0' ++ decimal n

abbrev pub prefix : Key
prefix = b's' ∷ b's' ∷ b't' ∷ b'-' ∷ []

-- The name that sstPath gives, without its directory and its extension.
unfoldable pub stem_of : ℕ → ℕ → Key
stem_of level counter = prefix ++ decimal level ++ b'-' ∷ padded counter

-- stem.find('-', 4), as what stands before the separator and behind it
unfoldable pub split_dash : Key → Option (Key × Key)
split_dash [] = none
split_dash (c ∷ cs) =
    let rest = split_dash cs in
    if c == b'-' then some ([], cs) else elim rest [ none ↦ none | some p ↦ some (c ∷ p.0, p.1) ]

unfoldable pub only_digits : Key → Bool
only_digits [] = true
only_digits (c ∷ cs) =
    let rest = only_digits cs in if ltb c b'0' then false else if ltb b'9' c then false else rest

-- the lambda allDigits
unfoldable pub all_digits : Key → Bool
all_digits v = if length v == 0 then false else only_digits v

-- std::stoll on digits
unfoldable pub stoll_loop : ℕ → Key → ℕ
stoll_loop acc [] = acc
stoll_loop acc (c ∷ cs) = stoll_loop (acc * 10 + (c - b'0')) cs

abbrev pub int_max : ℕ
int_max = 2147483647

-- A number; `none`: it is above the range of an int, also where stoll throws, and the file is
-- skipped.
unfoldable pub parse_number : Key → Option ℕ
parse_number v = if ltb int_max (stoll_loop 0 v) then none else some (stoll_loop 0 v)

unfoldable pub parse_numbers : Key → Key → Option (ℕ × ℕ)
parse_numbers level_str counter_str =
    if all_digits level_str
    then if all_digits counter_str
      then elim (parse_number level_str) [
        | none ↦ none
        | some level ↦ elim (parse_number counter_str) [
          | none ↦ none
          | some counter ↦ some (level, counter)
        ]
      ]
      else none
    else none

-- The level and the counter of a file with the extension .sst; `none`: it is skipped.
unfoldable pub parse_stem : Key → Option (ℕ × ℕ)
parse_stem stem =
    if key_eq (take 4 stem) prefix
    then elim (split_dash (drop 4 stem)) [ none ↦ none | some p ↦ parse_numbers p.0 p.1 ]
    else none

-- The comparison of the sort: higher levels come first, then lower counters.
unfoldable pub sorts_before : File → File → Bool
sorts_before a b =
    if a.name.level == b.name.level
    then ltb a.name.counter b.name.counter
    else ltb b.name.level a.name.level

-- std::sort; the names differ, so its result is the only one.
unfoldable pub insert_file : File → List File → List File
insert_file f [] = f ∷ []
insert_file f (g ∷ gs) =
    let rest = insert_file f gs in if sorts_before f g then f ∷ g ∷ gs else g ∷ rest

unfoldable pub sort_files : List File → List File
sort_files [] = []
sort_files (f ∷ fs) = insert_file f (sort_files fs)

-- The files with the extension .sst.
unfoldable pub table_files : List File → List File
table_files [] = []
table_files (f ∷ fs) = let rest = table_files fs in if f.name.is_tmp then rest else f ∷ rest

-- sst_counter_ behind the loop that opens the tables.
unfoldable pub next_counter : List File → ℕ → ℕ
next_counter [] counter = counter
next_counter (f ∷ fs) counter =
    next_counter fs (if f.name.level == 0 then max counter (f.name.counter + 1) else counter)

-- The tables, in the order of sstables_, and sst_counter_.
unfoldable pub load_sstables : List File → List File × ℕ
load_sstables files = let sorted = sort_files (table_files files) in (sorted, next_counter sorted 0)
