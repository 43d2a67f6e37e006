-- ===== src/Sstable/File.antt =====
-- The file of a table: what SSTable::write puts behind the data section (src/sstable/
-- sstable_builder.cpp), and the constructor of SSTable with deserializeBloom, which read it
-- (src/sstable/sstable_reader.cpp, BloomFilter::deserialize in src/sstable/block_bloom_filter.h).
pub mod Parts
pub mod Filter
pub mod Last
pub mod RoundTrip
use lsm_tree.Prelude.{
  ℕ, zero, suc, ◌+◌, ◌-◌, ◌*◌, ◌/◌, ◌%◌, ◌^◌, Bool, true, false, Option, none, some, List, [], ◌∷◌,
  ◌++◌, ltb, leb, ◌==◌, ◌||◌, if◌then◌else◌, length, slice, read_le, bytes_le, replicate, drop,
  take, get_or,
}
use lsm_tree.Sstable.Read.{offset_at}
use lsm_tree.Keys.{Key}
use lsm_tree.Bloom.{Block, BloomFilter, empty_block}
use lsm_tree.Sstable.Format.{write_string}
use lsm_tree.Sstable.Build.{Table}

-- writeString and writeUint64 for each line of the index
unfoldable pub write_index : List (Key × ℕ) → List ℕ
write_index [] = []
write_index (l ∷ ls) = write_string l.0 ++ bytes_le 8 l.1 ++ write_index ls

unfoldable pub words_bytes : Block → List ℕ
words_bytes [] = []
words_bytes (w ∷ ws) = bytes_le 8 w ++ words_bytes ws

-- BloomFilter::serialize
unfoldable pub serialize : List Block → List ℕ
serialize [] = []
serialize (b ∷ bs) = words_bytes b ++ serialize bs

unfoldable pub serialize_bloom : BloomFilter → List ℕ
serialize_bloom f = bytes_le 8 f.num_hashes ++ bytes_le 8 f.num_blocks ++ serialize f.blocks

-- The count and the lines of the index.
unfoldable pub index_bytes : Table → List ℕ
index_bytes t = bytes_le 4 (length t.index) ++ write_index t.index

unfoldable pub bloom_offset : Table → ℕ
bloom_offset t = length t.content + length (index_bytes t)

-- The data section, the index, the filter, and the footer.
unfoldable pub file_bytes : Table → List ℕ
file_bytes t =
    t.content
    ++ index_bytes t
    ++ serialize_bloom t.bloom
    ++ bytes_le 8 (length t.content)
    ++ bytes_le 8 (bloom_offset t)

-- The bytes of the file; `none`: the index has too many lines, and write throws.
unfoldable pub write_file : Table → Option (List ℕ)
write_file t = if leb (length t.index) (2 ^ 32 - 1) then some (file_bytes t) else none

-- An ifstream: its position, and its failbit.
pub record Stream : Type 0 where
  pub pos : ℕ
  pub has_failed : Bool

-- in.read: what it stores, and the stream behind it. A read beyond the end stores what is there.
unfoldable pub read_bytes : List ℕ → Stream → ℕ → List ℕ × Stream
read_bytes buf s n =
    if s.has_failed
    then ([], s)
    else if leb (s.pos + n) (length buf)
    then (slice buf s.pos n, record { pos = s.pos + n; has_failed = false })
    else (slice buf s.pos n, record { pos = length buf; has_failed = true })

-- in.seekg, which a failed stream ignores
unfoldable pub seek_to : Stream → ℕ → Stream
seek_to s pos = if s.has_failed then s else record { pos = pos; has_failed = false }

-- readUint32 and readUint64: a variable that is 0 takes the bytes that are read.
unfoldable pub read_uint : List ℕ → Stream → ℕ → ℕ × Stream
read_uint buf s n = let r = read_bytes buf s n in (read_le r.0, r.1)

-- readString; `none`: it throws. What is not read of a string is zero.
unfoldable pub read_string : List ℕ → Stream → ℕ → Option (Key × Stream)
read_string buf s max_len =
    let len = read_uint buf s 4 in
    let r = read_bytes buf len.1 len.0 in
    if ltb max_len len.0 then none else some (r.0 ++ replicate (len.0 - length r.0) 0, r.1)

-- The loop over the lines of the index.
unfoldable pub read_index : ℕ → List ℕ → Stream → Option (List (Key × ℕ) × Stream)
read_index zero buf s = some ([], s)
read_index (suc count) buf s = elim (read_string buf s (length buf)) [
  | none ↦ none
  | some (key, s') ↦ elim (read_index count buf (read_uint buf s' 8).1) [
    | none ↦ none
    | some (lines, s'') ↦ some ((key, (read_uint buf s' 8).0) ∷ lines, s'')
  ]
]

unfoldable pub words_of : ℕ → List ℕ → Block
words_of zero raw = []
words_of (suc n) raw = read_le (slice raw 0 8) ∷ words_of n (drop 8 raw)

unfoldable pub blocks_of : ℕ → List ℕ → List Block
blocks_of zero raw = []
blocks_of (suc n) raw = words_of 8 (slice raw 0 64) ∷ blocks_of n (drop 64 raw)

abbrev pub at_least_one : ℕ → ℕ
at_least_one n = if n == 0 then 1 else n

-- BloomFilter::deserialize
unfoldable pub deserialize : ℕ → ℕ → List ℕ → BloomFilter
deserialize num_blocks num_hashes raw = record {
  blocks =
      if leb (at_least_one num_blocks * 64) (length raw)
      then blocks_of (at_least_one num_blocks) raw
      else replicate (at_least_one num_blocks) empty_block;
  num_blocks = at_least_one num_blocks;
  num_hashes = at_least_one num_hashes;
}

-- tellg, which is -1 for a failed stream
unfoldable pub tell : Stream → ℕ
tell s = if s.has_failed then 2 ^ 64 - 1 else s.pos

-- The bytes that the filter's blocks can take: uint64_t arithmetic from tellg.
unfoldable pub available : ℕ → ℕ → ℕ
available file_size pos =
    if leb ((pos + 16) % 2 ^ 64) file_size
    then (file_size + 2 ^ 64 - pos + 2 ^ 64 - 16) % 2 ^ 64
    else 0

-- deserializeBloom, and the stream behind it; `none`: it throws. `stale` is what the two variables hold where their reads
-- fail, since they are not initialised.
unfoldable pub deserialize_bloom : List ℕ → Stream → ℕ × ℕ → Option (BloomFilter × Stream)
deserialize_bloom buf s stale =
    let hashes = read_uint buf s 8 in
    let blocks = read_uint buf hashes.1 8 in
    let num_hashes = if hashes.1.has_failed then stale.0 else hashes.0 in
    let num_blocks = if blocks.1.has_failed then stale.1 else blocks.0 in
    let file_size = if blocks.1.has_failed then 2 ^ 64 - 1 else length buf in
    if ltb (available file_size (tell blocks.1) / 64) num_blocks
    then none
    else let r = read_bytes buf blocks.1 (num_blocks * 64) in
      some
        (deserialize num_blocks num_hashes (r.0 ++ replicate (num_blocks * 64 - length r.0) 0), r.1)

-- readEntry, of which the constructor keeps the key; `none`: it throws.
unfoldable pub read_entry_key : List ℕ → Stream → Option (Key × Stream)
read_entry_key buf s = elim (read_string buf (read_bytes buf s 1).1 (length buf)) [
  | none ↦ none
  | some (key, s') ↦ elim (read_string buf s' (length buf)) [
    | none ↦ none
    | some (value, s'') ↦ some (key, s'')
  ]
]

-- while (tellg() < index_offset) e = readEntry(...), and the key of `e`. `none`: a readEntry throws.
-- Each takes nine bytes, or the stream fails and the loop ends, so the size of the file is fuel
-- enough.
unfoldable pub read_last : ℕ → List ℕ → Stream → ℕ → Key → Option Key
read_last zero buf s index_at key = none
read_last (suc fuel) buf s index_at key = elim (ltb (tell s) index_at) [
  | false ↦ some key
  | true ↦ elim (read_entry_key buf s) [
    | none ↦ none
    | some (next, s') ↦ read_last fuel buf s' index_at next
  ]
]

-- What the constructor sets: the table, smallest_key_ and largest_key_.
pub record Opened : Type 0 where
  pub table : Table
  pub smallest : Key
  pub largest : Key

-- The last part of the constructor.
unfoldable pub open_keys : List ℕ → Stream → ℕ → Table → Option Opened
open_keys buf s index_at t = elim (length t.index == 0) [
  | true ↦ some (record { table = t; smallest = []; largest = [] })
  | false ↦
      elim (read_last (length buf + 1) buf (seek_to s (offset_at t.index (length t.index - 1)))
        index_at []) [
          | none ↦ none
          | some key ↦
              some (record { table = t; smallest = (get_or t.index 0 ([], 0)).0; largest = key })
        ]
]

-- The constructor behind the footer; `none`: it throws. The data section is what stands before the
-- index.
unfoldable pub open_sections : List ℕ → ℕ × ℕ → ℕ → ℕ → Option Opened
open_sections buf stale index_at bloom_at =
    let count = read_uint buf (seek_to (record { pos = 0; has_failed = false }) index_at) 4 in
    let region = bloom_at - index_at in
    if ltb ((if leb 4 region then region - 4 else 0) / 12) count.0
    then none
    else elim (read_index count.0 buf count.1) [
      | none ↦ none
      | some (lines, s) ↦ elim (deserialize_bloom buf (seek_to s bloom_at) stale) [
        | none ↦ none
        | some (bloom, s') ↦
            open_keys buf s' index_at
              (record { content = slice buf 0 index_at; index = lines; bloom = bloom })
      ]
    ]

-- SSTable::SSTable
unfoldable pub open_file : List ℕ → ℕ × ℕ → Option Opened
open_file buf stale =
    let index_at = read_le (slice buf (length buf - 16) 8) in
    let bloom_at = read_le (slice buf (length buf - 8) 8) in
    if ltb (length buf) 16
    then none
    else if ltb (length buf) index_at || ltb (length buf) bloom_at || ltb bloom_at index_at
    then none
    else open_sections buf stale index_at bloom_at
