-- ===== src/Tests/Writes.antt =====
-- Compactions and writes of a small engine, and the results of Compaction.Run and Engine.Writes.
use lsm_tree.Prelude.{
  slice, read_le, bytes_le, ℕ, ◌≡◌, ◌<◌, ◌^◌, inl, refl, true, false, none, some, List, [], ◌∷◌,
  arith, map, max, length,
}
use lsm_tree.Keys.{Key, key_lt, key_eq}
use lsm_tree.Sstable.Entries.{Entry}
use lsm_tree.Sstable.Format.{fits_length_field, write_entry, write_string}
use lsm_tree.Sstable.Format.RoundTrip.{entry_bytes}
use lsm_tree.Sstable.Build.{
  Table, write, is_sorted_unique, all_writable, build_loop, new_builder, add_entry, start_block,
}
use lsm_tree.Sstable.Iterate.{create_iterator_all, iterate, advance, iter_fields}
use lsm_tree.Bloom.{new_filter}
use lsm_tree.Bloom.Members.{insert_all}
use lsm_tree.Memtable.{
  new_memtable, memtable_put, is_full, skip_list_insert, find, descend, walk, is_key, insert_at,
  value_size,
}
use lsm_tree.Memtable.Insert.{tally}
use lsm_tree.Memtable.Writes.{IsMemtable}
use lsm_tree.Merge.{push_at, push, drop_key, open_from, before, heap_size}
use lsm_tree.Compaction.{merge_tables, flush_buffer, append_entry, emit, next_heap, merge_loop}
use lsm_tree.Compaction.Directory.{File, find_file, put_file, remove_file, same_name}
use lsm_tree.Compaction.Run.{
  World, Store, is_staged, is_left, run, compact, l0_count, sweep, l1_start, number_past,
  past_counter, stage_outputs, publish, publish_outputs, open_outputs, rename, roll_back,
  remove_inputs, try_remove,
}
use lsm_tree.Compaction.Run.Threw.{IsUndone, run_threw}
use lsm_tree.Compaction.Run.Held.{tables_of}
use lsm_tree.Compaction.Run.Reads.{IsCompacted, run-IsCompacted}
use lsm_tree.Engine.{engine_get}
use lsm_tree.Engine.Sources.{WrittenBy}
use lsm_tree.Engine.Writes.{
  LsmEngine, Weather, is_appended, is_behind, is_cleared, write_through, engine_put, engine_del,
  flush_memtable, finish_write, replay, read, is_empty, add_table,
}
use lsm_tree.Engine.Writes.Kept.{IsEngine, IsKept, Agrees, last_record}
use lsm_tree.Wal.Record.{put, del}
use lsm_tree.Wal.Record as Record
use lsm_tree.Engine.Writes.Flush.{new-IsMemtable, get-new, flush_memtable-IsKept}
use lsm_tree.Engine.Writes.Updates.{reached, without, engine_put-IsUpdate, engine_del-IsUpdate}
use lsm_tree.Engine.Writes.Recovery.{log_bytes, replay-recovers}

abbrev key_a : Key
key_a = b'a' ∷ []

abbrev key_b : Key
key_b = b'b' ∷ []

abbrev older : List Entry
older =
    record { key = key_a; value = some (1 ∷ []) }
    ∷ record { key = key_b; value = some (2 ∷ []) }
    ∷ []

abbrev newer : List Entry
newer = record { key = key_a; value = none } ∷ record { key = key_b; value = some (3 ∷ []) } ∷ []

abbrev table_of : List Entry → Table
table_of es = record {
  content = (build_loop 0 es new_builder).out;
  index = (build_loop 0 es new_builder).index;
  bloom = insert_all (map (λ e. e.key) es) (new_filter (max (length es) 1));
}

abbrev file : ℕ → List Entry → File
file counter es = record {
  name = record { level = 0; counter = counter; is_tmp = false };
  table = table_of es;
}

abbrev four_files : List File
four_files = file 0 older ∷ file 1 newer ∷ file 2 older ∷ file 3 newer ∷ []

abbrev four_tables : Store
four_tables = record { files = four_files; tables = four_files; counter = 4 }

abbrev calm : World
calm = record {
  iterated = λ name es. es;
  stage = λ n. is_staged;
  merge_ok = true;
  rename_ok = λ n. true;
  hit_ok = λ n. true;
  open_ok = λ n. true;
  publish_ok = true;
  remove_ok = λ n. true;
}

-- The directory cannot be synced behind the first output.
abbrev left_over : World
left_over = record {
  iterated = λ name es. es;
  stage = λ n. is_left;
  merge_ok = true;
  rename_ok = λ n. true;
  hit_ok = λ n. true;
  open_ok = λ n. true;
  publish_ok = true;
  remove_ok = λ n. true;
}

abbrev bits : ℕ → ℕ
bits n = n

-- A compaction of the four tables resets sst_counter_.
counter_is : (run bits calm four_tables).store.counter ≡ 0
unfolding run compact l0_count sweep l1_start number_past past_counter stage_outputs publish
    publish_outputs open_outputs rename roll_back remove_inputs try_remove find_file put_file
    remove_file same_name merge_tables flush_buffer append_entry emit next_heap merge_loop push_at
    push drop_key open_from before heap_size create_iterator_all iterate advance iter_fields slice
    read_le build_loop add_entry start_block entry_bytes write_entry write_string bytes_le write
    is_sorted_unique all_writable fits_length_field key_lt key_eq
counter_is = refl

left_over_throws : (run bits left_over four_tables).returned ≡ false
unfolding run compact l0_count sweep l1_start number_past past_counter stage_outputs publish
    publish_outputs open_outputs rename roll_back remove_inputs try_remove find_file put_file
    remove_file same_name merge_tables flush_buffer append_entry emit next_heap merge_loop push_at
    push drop_key open_from before heap_size create_iterator_all iterate advance iter_fields slice
    read_le build_loop add_entry start_block entry_bytes write_entry write_string bytes_le write
    is_sorted_unique all_writable fits_length_field key_lt key_eq
left_over_throws = refl

run_threw_example : IsUndone four_tables (run bits left_over four_tables).store
run_threw_example =
    run_threw bits left_over four_tables
      (omega arith, (omega arith, (omega arith, (omega arith, tt)))) (λ name. refl) left_over_throws

newer_wrote : WrittenBy bits (table_of newer)
unfolding write is_sorted_unique all_writable key_lt fits_length_field build_loop add_entry
    entry_bytes
newer_wrote = record { entries = newer; wrote = refl }

older_wrote : WrittenBy bits (table_of older)
unfolding write is_sorted_unique all_writable key_lt fits_length_field build_loop add_entry
    entry_bytes
older_wrote = record { entries = older; wrote = refl }

run-IsCompacted_example :
    IsCompacted bits (tables_of four_files) (tables_of (run bits calm four_tables).store.tables)
run-IsCompacted_example =
    run-IsCompacted bits calm four_tables
      (older_wrote, (newer_wrote, (older_wrote, (newer_wrote, tt)))) (λ name es. refl)

-- An engine over the four tables, whose memtable is full with one byte.
abbrev engine : LsmEngine
engine = record { log = []; max_bytes = 1; mem = new_memtable 1; store = four_tables }

abbrev fair : Weather
fair = record {
  append = is_appended;
  write_ok = true;
  height = 2;
  before_sst_ok = true;
  table = is_staged;
  open_ok = true;
  after_sst_ok = true;
  memtable_ok = true;
  clear = is_cleared;
  after_wal_clear_ok = true;
  compaction = left_over;
  wait_ok = true;
}

-- A put of `b` threw behind its record, and the log was emptied since.
abbrev thrown : List Record.Entry
thrown = record { type = put; key = key_b; value = 9 ∷ [] } ∷ []

engine-IsEngine : IsEngine bits thrown engine
unfolding last_record
engine-IsEngine = record {
  mem = new-IsMemtable 1;
  wrote = (older_wrote, (newer_wrote, (older_wrote, (newer_wrote, tt))));
  recovers = λ k. inl (rw (get-new 1 k) refl);
}

-- The del throws when its record is in the log.
abbrev behind : Weather
behind = record {
  append = is_behind;
  write_ok = true;
  height = 2;
  before_sst_ok = true;
  table = is_staged;
  open_ok = true;
  after_sst_ok = true;
  memtable_ok = true;
  clear = is_cleared;
  after_wal_clear_ok = true;
  compaction = calm;
  wait_ok = true;
}

-- A flush that throws before it writes its table.
abbrev no_flush : Weather
no_flush = record {
  append = is_appended;
  write_ok = true;
  height = 2;
  before_sst_ok = false;
  table = is_staged;
  open_ok = true;
  after_sst_ok = true;
  memtable_ok = true;
  clear = is_cleared;
  after_wal_clear_ok = true;
  compaction = calm;
  wait_ok = true;
}

-- The put throws, and its pair stays in the memtable and in the log.
abbrev unflushed : LsmEngine
unflushed = (engine_put bits no_flush engine key_a (7 ∷ [])).engine

-- The del behind it throws with its record in the log, and `b` still reads as before.
abbrev half_deleted : LsmEngine
half_deleted = (engine_del bits behind unflushed key_b).engine

unflushed-IsEngine : IsEngine bits thrown unflushed
unfolding tally new_memtable reached without key_eq
unflushed-IsEngine =
    (engine_put-IsUpdate bits thrown no_flush engine key_a (7 ∷ []) engine-IsEngine
      (λ name es. refl) (omega arith) (omega arith)).valid

abbrev half_thrown : List Record.Entry
half_thrown = record { type = del; key = key_b; value = [] } ∷ thrown

half_deleted-IsEngine : IsEngine bits half_thrown half_deleted
unfolding tally new_memtable reached engine_put write_through finish_write memtable_put is_full
    flush_memtable add_table is_empty skip_list_insert find descend walk is_key insert_at value_size
half_deleted-IsEngine =
    (engine_del-IsUpdate bits thrown behind unflushed key_b unflushed-IsEngine (λ name es. refl)
      (omega arith) (omega arith)).valid

flush_memtable-IsKept_example :
    IsKept bits thrown unflushed (flush_memtable bits fair unflushed).engine
flush_memtable-IsKept_example =
    flush_memtable-IsKept bits thrown fair unflushed unflushed-IsEngine (λ name es. refl)

half_log : log_bytes half_deleted.log < 2 ^ 64
unfolding log_bytes engine_put engine_del write_through finish_write memtable_put is_full
    flush_memtable add_table is_empty skip_list_insert find descend walk is_key insert_at value_size
    new_memtable
half_log = omega arith

replay-recovers_example :
    let m = replay (λ j. 3) 0 half_deleted.log (new_memtable half_deleted.max_bytes) in
    IsMemtable m
    × ((k : Key)
        → Agrees k half_thrown
            (engine_get m (tables_of half_deleted.store.tables) k)
            (read half_deleted k))
replay-recovers_example =
    replay-recovers bits half_thrown (λ j. 3) half_deleted half_deleted-IsEngine (λ j. omega arith)
      half_log
