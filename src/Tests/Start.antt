-- ===== src/Tests/Start.antt =====
-- The start of an engine: names, the order of the tables, and a file that no engine lists.
use lsm_tree.Prelude.{
  ℕ, ◌≡◌, refl, true, false, none, some, List, [], ◌∷◌, arith, slice, bytes_le, read_le,
}
use lsm_tree.Bloom.Members.{insert_all}
use lsm_tree.Keys.{Key, key_lt, key_eq}
use lsm_tree.Sstable.Build.{
  Table, is_sorted_unique, all_writable, start_block, add_entry, build_loop, write,
}
use lsm_tree.Bloom.{
  new_filter, hash, probe, set_bit, test_bit, set_probes, test_probes, insert, may_contain,
}
use lsm_tree.Memtable.{
  new_memtable, walk, descend, find, is_key, value_size, insert_at, replaced_bytes,
  skip_list_insert, adjust_value_bytes, memtable_put, memtable_del, found_value, memtable_get,
  is_full, entries, memtable_entries,
}
use lsm_tree.Compaction.Directory.{File, find_file, same_name, remove_file, put_file}
use lsm_tree.Compaction.Run.{
  Staging, is_staged, is_left, l0_count, try_remove, sweep, past_counter, number_past, l1_start,
  stage_outputs, rename, publish_outputs, open_outputs, roll_back, remove_inputs, publish, compact,
  run,
}
use lsm_tree.Compaction.Run.Held.{tables_of}
use lsm_tree.Engine.{engine_get, get_tables}
use lsm_tree.Engine.Writes.{
  LsmEngine, Weather, is_appended, is_cleared, write_through, engine_put, engine_del, read,
  add_table, drop_log, is_empty, flush_memtable, flush, finish_write,
}
use lsm_tree.Engine.Load.{
  parse_stem, stem_of, load_sstables, sorts_before, insert_file, sort_files, table_files,
  next_counter,
}
use lsm_tree.Engine.Load.Names.{parse_stem-stem_of}
use lsm_tree.Sstable.Format.{
  write_string, fits_length_field, write_entry, write_entries, parse_value, parse_key, parse_entry,
  parse_loop, parse_block_entries,
}
use lsm_tree.Sstable.Search.{search_loop, find_slot}
use lsm_tree.Sstable.Read.{block_end, read_block, scan_block, get}
use lsm_tree.Sstable.Iterate.{iter_fields, advance, iterate, create_iterator_all}
use lsm_tree.Merge.{before, push, push_at, drop_key, open_from, heap_size}
use lsm_tree.Compaction.{flush_buffer, append_entry, emit, next_heap, merge_loop, merge_tables}
use lsm_tree.Sstable.Format.RoundTrip.{entry_bytes}

abbrev key_a : Key
key_a = b'a' ∷ []

abbrev key_b : Key
key_b = b'b' ∷ []

parse_stem-stem_of_example : parse_stem (stem_of 1 1000000) ≡ some (1, 1000000)
parse_stem-stem_of_example = parse_stem-stem_of 1 1000000 (omega arith) (omega arith)

abbrev a_table : Table
a_table = record { content = []; index = []; bloom = new_filter 1 }

abbrev file : ℕ → ℕ → File
file level counter = record {
  name = record { level = level; counter = counter; is_tmp = false };
  table = a_table;
}

abbrev three_files : List File
three_files = file 0 12 ∷ file 1 3 ∷ file 0 7 ∷ []

abbrev weather : Staging → Weather
weather table = record {
  append = is_appended;
  write_ok = true;
  height = 1;
  before_sst_ok = true;
  table = table;
  open_ok = true;
  after_sst_ok = true;
  memtable_ok = true;
  clear = is_cleared;
  after_wal_clear_ok = true;
  compaction = record {
    iterated = λ name es. es;
    stage = λ n. is_staged;
    merge_ok = true;
    rename_ok = λ n. true;
    hit_ok = λ n. true;
    open_ok = λ n. true;
    publish_ok = true;
    remove_ok = λ n. true;
  };
  wait_ok = true;
}

abbrev put_b : LsmEngine → LsmEngine
put_b e = (engine_put (λ n. n) (weather is_staged) e key_b (2 ∷ [])).engine

abbrev start : LsmEngine
start = record {
  log = [];
  max_bytes = 1;
  mem = new_memtable 1;
  store = record { files = []; tables = []; counter = 0 };
}

-- A put whose flush throws behind the rename, a del of its key, and three puts of another key, so
-- that the fourth table is compacted with the others.
abbrev compacted_behind : LsmEngine
compacted_behind = put_b (
    put_b (
      put_b (
        (engine_del (λ n. n) (weather is_staged)
          (engine_put (λ n. n) (weather is_left) start key_a (1 ∷ [])).engine key_a).engine)))

-- The key is deleted while the engine runs.
deleted_before_stop : read compacted_behind key_a ≡ none
unfolding insert_all key_lt key_eq slice bytes_le read_le new_filter hash probe set_bit test_bit
    set_probes test_probes insert may_contain write_string fits_length_field write_entry
    write_entries parse_value parse_key parse_entry parse_loop parse_block_entries is_sorted_unique
    all_writable start_block add_entry build_loop write search_loop find_slot block_end read_block
    scan_block get iter_fields advance iterate create_iterator_all before push push_at drop_key
    open_from heap_size flush_buffer append_entry emit next_heap merge_loop merge_tables same_name
    find_file remove_file put_file l0_count try_remove sweep past_counter number_past l1_start
    stage_outputs rename publish_outputs open_outputs roll_back remove_inputs publish compact run
    walk descend find is_key value_size insert_at replaced_bytes skip_list_insert new_memtable
    adjust_value_bytes memtable_put memtable_del found_value memtable_get is_full entries
    memtable_entries get_tables engine_get add_table drop_log is_empty flush_memtable flush
    finish_write write_through engine_put engine_del read sorts_before insert_file sort_files
    table_files next_counter load_sstables entry_bytes
deleted_before_stop = refl

-- The next start loads the file that the failed flush left, and the key is there again.
there_after_start :
    engine_get (new_memtable 1) (tables_of (load_sstables compacted_behind.store.files).0) key_a
    ≡ some (1 ∷ [])
unfolding insert_all key_lt key_eq slice bytes_le read_le new_filter hash probe set_bit test_bit
    set_probes test_probes insert may_contain write_string fits_length_field write_entry
    write_entries parse_value parse_key parse_entry parse_loop parse_block_entries is_sorted_unique
    all_writable start_block add_entry build_loop write search_loop find_slot block_end read_block
    scan_block get iter_fields advance iterate create_iterator_all before push push_at drop_key
    open_from heap_size flush_buffer append_entry emit next_heap merge_loop merge_tables same_name
    find_file remove_file put_file l0_count try_remove sweep past_counter number_past l1_start
    stage_outputs rename publish_outputs open_outputs roll_back remove_inputs publish compact run
    walk descend find is_key value_size insert_at replaced_bytes skip_list_insert new_memtable
    adjust_value_bytes memtable_put memtable_del found_value memtable_get is_full entries
    memtable_entries get_tables engine_get add_table drop_log is_empty flush_memtable flush
    finish_write write_through engine_put engine_del read sorts_before insert_file sort_files
    table_files next_counter load_sstables entry_bytes
there_after_start = refl
