-- ===== src/Tests/File.antt =====
-- A table as a file, and a file whose index is damaged.
use lsm_tree.Prelude.{
  ℕ, ◌≡◌, refl, Option, none, some, List, [], ◌∷◌, ◌++◌, arith, slice, read_le, bytes_le, replicate,
}
use lsm_tree.Bloom.{new_filter, hash, probe, set_bit, set_probes, insert}
use lsm_tree.Bloom.Members.{insert_all}
use lsm_tree.Sstable.Entries.{Entry}
use lsm_tree.Sstable.Format.{write_string, write_entry, fits_length_field}
use lsm_tree.Sstable.Format.RoundTrip.{entry_bytes}
use lsm_tree.Sstable.Build.{
  Table, write, is_sorted_unique, all_writable, build_loop, new_builder, add_entry, start_block,
}
use lsm_tree.Sstable.File.{
  write_index, words_bytes, serialize, serialize_bloom, index_bytes, bloom_offset, file_bytes,
  write_file, read_bytes, seek_to, read_uint, read_string, read_index, words_of, blocks_of,
  deserialize, tell, available, deserialize_bloom, Opened, read_entry_key, read_last, open_keys,
  open_sections, open_file,
}
use lsm_tree.Sstable.File.RoundTrip.{open_file-write_file}

abbrev one_entry : List Entry
one_entry = record { key = b'a' ∷ []; value = some (7 ∷ []) } ∷ []

abbrev small_table : Table
small_table = record {
  content = (build_loop 0 one_entry new_builder).out;
  index = (build_loop 0 one_entry new_builder).index;
  bloom = insert_all ((b'a' ∷ []) ∷ []) (new_filter 1);
}

open_file-write_file_example :
    open_file (file_bytes small_table) (0, 0)
    ≡ some (record { table = small_table; smallest = b'a' ∷ []; largest = b'a' ∷ [] })
unfolding write_file file_bytes index_bytes bloom_offset write_index write_string serialize_bloom
    serialize words_bytes bytes_le write is_sorted_unique all_writable fits_length_field build_loop
    add_entry start_block write_entry entry_bytes insert_all insert new_filter hash probe set_bit
    set_probes
open_file-write_file_example =
    open_file-write_file (λ n. n) one_entry small_table (0, 0) (file_bytes small_table) refl refl
      ((omega arith, omega arith), tt)
      (record {
        count = refl;
        some_block = omega arith;
        some_hash = omega arith;
        hashes = omega arith;
        blocks = (
          (
            refl,
            (
              omega arith,
              (
                omega arith,
                (
                  omega arith,
                  (omega arith, (omega arith, (omega arith, (omega arith, (omega arith, tt))))),
                ),
              ),
            ),
          ),
          tt,
        );
      })
      (omega arith)

-- An index with one line, whose key is said to have 30 bytes in a file of 32.
abbrev damaged : List ℕ
damaged = bytes_le 4 1 ++ bytes_le 4 30 ++ replicate 8 0 ++ bytes_le 8 0 ++ bytes_le 8 16

abbrev blocks_in : Option Opened → ℕ
blocks_in none = 0
blocks_in (some o) = o.table.bloom.num_blocks

-- The stream has failed behind the index, so the filter has as many blocks as a variable that was
-- not initialised says, here 3.
damaged_opens : blocks_in (open_file damaged (8, 3)) ≡ 3
unfolding bytes_le read_le slice read_bytes seek_to read_uint read_string read_index words_of
    blocks_of deserialize tell available deserialize_bloom read_entry_key read_last open_keys
    open_sections open_file
damaged_opens = refl
