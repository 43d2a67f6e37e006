-- ===== src/Tests.antt =====
-- Runs of the model on small inputs, and each result at an input that meets its conditions.
mod GroupCommit
mod Writes
mod File
mod Memory
mod Start
use lsm_tree.Prelude.{
  ◌≡◌, ◌≢◌, ℕ, ◌<◌, ap, refl, ◌∙◌, inl, inr, true, false, none, some, List, [], ◌∷◌, ◌++◌, arith,
  drop, take, concat, replicate, slice, read_le, length, max, map,
}
use lsm_tree.Keys.{Key, key_lt, key_eq}
use lsm_tree.Sstable.Entries.{Entry, Ascending, entry_lookup}
use lsm_tree.Sstable.Format.{write_entries, parse_block_entries, fits_length_field}
use lsm_tree.Sstable.Format.RoundTrip.{entry_bytes, parse_block_entries-write_entries}
use lsm_tree.Sstable.Build.{
  Table, add_entry, write, is_sorted_unique, all_writable, build_loop, new_builder,
}
use lsm_tree.Sstable.Search.{IsSlot, find_slot, find_slot-IsSlot}
use lsm_tree.Sstable.Read.{get, read_block}
use lsm_tree.Sstable.Iterate.{create_iterator, smallest_key, largest_key}
use lsm_tree.Sstable.Iterate.Range.{IsTail, create_iterator-IsTail, get-key_range}
use lsm_tree.Cache.{
  CacheKey, Sizes, new_cache, cached_get, entries_bytes, calculate_block_bytes, add_word,
}
use lsm_tree.Cache.Reads.{IsRead, cached_get-IsRead}
use lsm_tree.Cache.Runs.{ask, store, forget, calls, Bounded, calls-Bounded}
use lsm_tree.Memtable.{
  Memtable, new_memtable, memtable_put, memtable_del, skip_list_insert, find, descend, walk, is_key,
  insert_at, value_size,
}
use lsm_tree.Memtable.Insert.{tally}
use lsm_tree.Memtable.Writes.{IsMemtable, IsWrite, put-IsWrite, del-IsWrite}
use lsm_tree.Fault.{Faults, crash, fires, arm}
use lsm_tree.Fault.Window.{after_hits, times, fires-window}
use lsm_tree.Engine.{engine_scan}
use lsm_tree.Engine.Range.{IsScan, engine_scan-IsScan}
use lsm_tree.Sstable.Read.Get.{get-write}
use lsm_tree.Bloom.{new_filter, may_contain, hash, probe}
use lsm_tree.Bloom.Members.{insert_all, may_contain-insert_all, new_filter-IsFilter}
use lsm_tree.Bloom.Probes.{probes_distinct}
use lsm_tree.Compaction.{merge_tables}
use lsm_tree.Merge.Winners.{live, without_tombstone}
use lsm_tree.Compaction.Inputs.{newest}
use lsm_tree.Compaction.Outputs.{merge_tables-newest, merge_tables-Ascending}
use lsm_tree.Wal.Record.{put, del}
use lsm_tree.Wal.Recover.{recover}
use lsm_tree.Wal.Recover.Image.{Chunk, intact, damaged, image, survivors, recover-image}

abbrev key_a : Key
key_a = b'a' ∷ []

abbrev key_b : Key
key_b = b'b' ∷ []

abbrev older : List Entry
older =
    record { key = key_a; value = some (1 ∷ []) }
    ∷ record { key = key_b; value = some (2 ∷ []) }
    ∷ []

abbrev newer : List Entry
newer = record { key = key_a; value = none } ∷ record { key = key_b; value = some (3 ∷ []) } ∷ []

abbrev table_of : List Entry → Table
table_of es = record {
  content = (build_loop 0 es new_builder).out;
  index = (build_loop 0 es new_builder).index;
  bloom = insert_all (map (λ e. e.key) es) (new_filter (max (length es) 1));
}

get-write_example : get (table_of newer) key_a ≡ entry_lookup key_a newer
unfolding write is_sorted_unique all_writable key_lt fits_length_field build_loop add_entry
    entry_bytes
get-write_example = get-write (λ n. n) newer (table_of newer) key_a refl

parse_block_entries-write_entries_example : parse_block_entries (write_entries newer) ≡ newer
parse_block_entries-write_entries_example = parse_block_entries-write_entries newer (omega arith)

find_slot-IsSlot_example :
    IsSlot
      ((key_a, 0) ∷ (key_b, 10) ∷ [])
      key_b
      0
      1
      (find_slot ((key_a, 0) ∷ (key_b, 10) ∷ []) key_b)
find_slot-IsSlot_example = find_slot-IsSlot ((key_a, 0) ∷ (key_b, 10) ∷ []) key_b (omega arith)

may_contain-insert_all_example :
    may_contain (insert_all (key_a ∷ key_b ∷ []) (new_filter 20)) key_b ≡ true
may_contain-insert_all_example =
    may_contain-insert_all (key_a ∷ key_b ∷ []) (new_filter 20) key_b (new_filter-IsFilter 20)
      (inr (inl refl))

probes_distinct_example : probe (hash key_a) 2 ≢ probe (hash key_a) 7
probes_distinct_example = probes_distinct key_a 2 7 (omega arith) (omega arith)

merge_tables-newest_example :
    newest key_b (merge_tables (older ∷ newer ∷ []))
    ≡ without_tombstone (newest key_b (older ∷ newer ∷ []))
unfolding key_lt
merge_tables-newest_example =
    merge_tables-newest (older ∷ newer ∷ []) key_b
      (((refl, tt), (tt, tt)), (((refl, tt), (tt, tt)), tt))

merge_tables-Ascending_example : Ascending (concat (merge_tables (older ∷ newer ∷ [])))
unfolding key_lt
merge_tables-Ascending_example =
    merge_tables-Ascending (older ∷ newer ∷ [])
      (((refl, tt), (tt, tt)), (((refl, tt), (tt, tt)), tt))

abbrev log_image : List Chunk
log_image =
    intact (record { type = put; key = key_a; value = 1 ∷ [] })
    ∷ damaged (replicate 512 0)
    ∷ intact (record { type = del; key = key_a; value = [] })
    ∷ []

-- A record whose length field reaches beyond the end of the log.
abbrev torn_tail : List ℕ
torn_tail = 1 ∷ 9 ∷ 0 ∷ 0 ∷ 0 ∷ 1 ∷ 0 ∷ 0 ∷ 0 ∷ key_a

recover-image_example : recover (image log_image ++ torn_tail) ≡ some (survivors log_image)
unfolding slice read_le
recover-image_example =
    recover-image log_image torn_tail
      ((omega arith, omega arith), ((refl, inl refl), ((omega arith, omega arith), tt)))
      (inr (omega arith, inr (inr (inl (omega arith)))))

create_iterator-IsTail_example :
    IsTail (table_of older) key_b (create_iterator (table_of older) key_b)
unfolding write is_sorted_unique all_writable key_lt fits_length_field build_loop add_entry
    entry_bytes
create_iterator-IsTail_example = create_iterator-IsTail (λ n. n) older (table_of older) key_b refl

get-key_range_example :
    (key_lt key_b (smallest_key (table_of older)) ≡ false)
    × (key_lt (largest_key (table_of older)) key_b ≡ false)
unfolding write is_sorted_unique all_writable key_lt key_eq fits_length_field build_loop add_entry
    entry_bytes
get-key_range_example =
    get-key_range (λ n. n) older (table_of older) key_b (some (2 ∷ [])) refl
      (get-write (λ n. n) older (table_of older) key_b refl ∙ unfold entry_lookup in refl)

-- Sizes of one byte for a byte of a string and 8 for an entry.
abbrev sizes : Sizes
sizes = record {
  vector_size = 24;
  entry_size = 8;
  vector_capacity = λ es. length es;
  string_capacity = λ s. length s;
}

abbrev at_older : CacheKey
at_older = record { sstable_path = key_a; block_offset = 0 }

calls-Bounded_example :
    Bounded 1 1000
      (calls sizes (new_cache 1 1000) (store at_older older ∷ ask at_older ∷ forget key_b ∷ []))
unfolding calculate_block_bytes entries_bytes add_word
calls-Bounded_example =
    calls-Bounded sizes 1 1000 (store at_older older ∷ ask at_older ∷ forget key_b ∷ [])
      (omega arith, (tt, (tt, tt)))

only_slot :
    (slot : ℕ)
    → slot < length (table_of older).index
    → read_block (table_of older) 0 ≡ read_block (table_of older) slot
unfolding build_loop add_entry entry_bytes
only_slot slot l =
    let one : length (table_of older).index ≡ 1 = refl in
    ap (read_block (table_of older)) (omega arith)

cached_get-IsRead_example :
    IsRead
      (λ k. read_block (table_of older) 0)
      (table_of older)
      key_b
      (cached_get sizes (new_cache 1 1000) key_a (table_of older) key_b)
unfolding new_cache
cached_get-IsRead_example =
    cached_get-IsRead (λ k. read_block (table_of older) 0) sizes (table_of older) key_a only_slot
      (new_cache 1 1000) key_b tt

empty_table : IsMemtable (new_memtable 100)
unfolding new_memtable tally
empty_table = record { list = tt; bytes = refl; room = omega arith; count = refl }

put-IsWrite_example :
    IsWrite
      (new_memtable 100)
      (memtable_put (new_memtable 100) key_a (1 ∷ []) 2)
      key_a
      (some (1 ∷ []))
unfolding new_memtable tally
put-IsWrite_example =
    put-IsWrite (new_memtable 100) key_a (1 ∷ []) 2 (omega arith) empty_table (omega arith)

with_a : Memtable
with_a = memtable_put (new_memtable 100) key_a (1 ∷ []) 2

with_a-IsMemtable : IsMemtable with_a
unfolding with_a tally new_memtable
with_a-IsMemtable =
    (put-IsWrite (new_memtable 100) key_a (1 ∷ []) 2 (omega arith) empty_table (omega arith)).valid

del-IsWrite_example : IsWrite with_a (memtable_del with_a key_a 1) key_a none
unfolding new_memtable with_a memtable_put tally skip_list_insert find descend walk is_key insert_at
    value_size
del-IsWrite_example = del-IsWrite with_a key_a 1 (omega arith) with_a-IsMemtable (omega arith)

engine_scan-IsScan_example :
    IsScan with_a
      (table_of older ∷ [])
      key_a
      (some (b'c' ∷ []))
      5
      (engine_scan with_a (table_of older ∷ []) key_a (some (b'c' ∷ [])) 5)
unfolding write is_sorted_unique all_writable key_lt fits_length_field build_loop add_entry
    entry_bytes
engine_scan-IsScan_example =
    engine_scan-IsScan (λ n. n) with_a (table_of older ∷ []) key_a (some (b'c' ∷ []))
      with_a-IsMemtable (record { entries = older; wrote = refl }, tt) 5

abbrev no_faults : Faults
no_faults = record { points = []; armed = false }

-- Armed for the third hit and one after it, a point fires at the fourth.
fires-window_example :
    (fires (after_hits 3 (arm no_faults key_a 3 crash 2) key_a) key_a).0 ≡ some crash
unfolding times
fires-window_example = fires-window 3 2 crash (omega arith) 3 no_faults key_a (omega arith)
