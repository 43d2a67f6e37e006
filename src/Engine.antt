-- ===== src/Engine.antt =====
-- LSMEngine::get and LSMEngine::scan, src/db/lsm_engine.cpp.
pub mod Sources
pub mod Skipped
pub mod Scan
pub mod Range
pub mod Load
pub mod Writes
use lsm_tree.Prelude.{
  ℕ, zero, suc, Bool, true, false, not, Option, none, some, List, [], ◌∷◌, ◌++◌, ltb, leb,
  if◌then◌else◌, length, ◌==◌,
}
use lsm_tree.Keys.{Key, key_lt, key_eq}
use lsm_tree.Sstable.Entries.{Entry, entry_lookup}
use lsm_tree.Sstable.Build.{Table}
use lsm_tree.Sstable.Read.{get}
use lsm_tree.Sstable.Iterate.{create_iterator, skip_below, smallest_key, largest_key}
use lsm_tree.Memtable.{Memtable, memtable_get, seek}
use lsm_tree.Merge.{Cursor, Heap, push_at, drop_key, open_from, heap_size}

-- The tables from the back of the vector to its front: the first that has the key answers.
unfoldable pub get_tables : List Table → Key → Option (Option Key)
get_tables [] key = none
get_tables (t ∷ ts) key = elim (get_tables ts key) [ none ↦ get t key | some v ↦ some v ]

unfoldable pub engine_get : Memtable → List Table → Key → Option Key
engine_get mem tables key = elim (memtable_get mem key) [
  | some v ↦ v
  | none ↦ elim (get_tables tables key) [ some v ↦ v | none ↦ none ]
]

-- `key` is not below the end of the range; without an end no key is.
unfoldable pub past_end : Option Key → Key → Bool
past_end none key = false
past_end (some e) key = not (key_lt key e)

-- A table that cannot hold anything in the range.
unfoldable pub out_of_range : Key → Option Key → Table → Bool
out_of_range start end t =
    if length t.index == 0
    then true
    else if key_lt (largest_key t) start
    then true
    else past_end end (smallest_key t)

-- The table sources, in the order they are pushed: from the back of the vector.
unfoldable pub table_sources : Key → Option Key → List Table → List (List Entry)
table_sources start end [] = []
table_sources start end (t ∷ ts) =
    table_sources start end ts
    ++ (if out_of_range start end t then [] else create_iterator t start ∷ [])

-- The older versions of the key are passed over, then the winner moves on.
unfoldable pub scan_next : Cursor → Heap → Heap
scan_next c h = push_at ltb c.rank c.rest (drop_key ltb (heap_size h) c.entry.key h)

-- if (value) out.emplace_back(...)
unfoldable pub give : Entry → List (Key × Key) → List (Key × Key)
give e out = elim e.value [ none ↦ out | some v ↦ out ++ (e.key, v) ∷ [] ]

-- while (!heap.empty() && out.size() < limit); every round takes an entry off the heap.
unfoldable pub scan_loop : ℕ → Option Key → ℕ → Heap → List (Key × Key) → List (Key × Key)
scan_loop zero end limit h out = out
scan_loop (suc fuel) end limit [] out = out
scan_loop (suc fuel) end limit (c ∷ h) out =
    let rest = scan_loop fuel end limit (scan_next c h) (give c.entry out) in
    if ltb (length out) limit then if past_end end c.entry.key then out else rest else out

-- if (limit == 0 || (end && *end <= start)) return out;
unfoldable pub nothing_asked : Key → Option Key → ℕ → Bool
nothing_asked start none limit = limit == 0
nothing_asked start (some e) limit = if limit == 0 then true else not (key_lt start e)

unfoldable pub engine_scan : Memtable → List Table → Key → Option Key → ℕ → List (Key × Key)
engine_scan mem tables start end limit =
    let h = open_from ltb 0 [] (seek mem start ∷ table_sources start end tables) in
    if nothing_asked start end limit then [] else scan_loop (heap_size h) end limit h []
