-- ===== src/Compaction.antt =====
-- LeveledCompactor::run, src/compaction/leveled_compactor.cpp: the streaming merge of phase 1.
pub mod Directory
pub mod Inputs
pub mod Outputs
pub mod Run
use lsm_tree.Prelude.{
  ℕ, zero, suc, ◌+◌, Bool, true, false, Option, none, some, List, [], ◌∷◌, ◌++◌, leb, if◌then◌else◌,
  length,
}
use lsm_tree.Keys.{Key}
use lsm_tree.Sstable.Entries.{Entry}
use lsm_tree.Merge.{Cursor, Heap, push_at, drop_key, open_from, heap_size}
use lsm_tree.Merge.Order.{gtb}

abbrev pub l0_threshold : ℕ
l0_threshold = 4

abbrev pub l1_max_file_entries : ℕ
l1_max_file_entries = 1000

-- The buffer of entries for the next output, and the outputs that are staged.
pub record Output : Type 0 where
  pub buffer : List Entry
  pub staged : List (List Entry)

-- the lambda `flushBuffer`
unfoldable pub flush_buffer : Output → Output
flush_buffer o = elim o.buffer [
  | [] ↦ o
  | e ∷ es ↦ record { buffer = []; staged = o.staged ++ (e ∷ es) ∷ [] }
]

-- push_back, and a flush when the buffer is full
unfoldable pub append_entry : Entry → Output → Output
append_entry e o =
    let o' : Output = record { buffer = o.buffer ++ e ∷ []; staged = o.staged } in
    if leb l1_max_file_entries (length o'.buffer) then flush_buffer o' else o'

-- What the loop does with the winner of a key: a tombstone is dropped.
unfoldable pub emit : Entry → Output → Output
emit e o = elim e.value [ none ↦ o | some v ↦ append_entry e o ]

-- The heap after one round: the winner's input advances, then the older versions of its key go.
unfoldable pub next_heap : Cursor → Heap → Heap
next_heap c h = let h' = push_at gtb c.rank c.rest h in drop_key gtb (heap_size h') c.entry.key h'

-- while (!min_heap.empty()); every round takes an entry, so as many rounds as entries are enough.
unfoldable pub merge_loop : ℕ → Heap → Output → Output
merge_loop zero h o = o
merge_loop (suc fuel) [] o = o
merge_loop (suc fuel) (c ∷ h) o = merge_loop fuel (next_heap c h) (emit c.entry o)

-- Phase 1: the contents of the outputs, in order. Each table is opened at its position;
-- HeapNode::operator> lets the higher position win.
unfoldable pub merge_tables : List (List Entry) → List (List Entry)
merge_tables tables =
    let h = open_from gtb 0 [] tables in
    (flush_buffer (merge_loop (heap_size h) h (record { buffer = []; staged = [] }))).staged
