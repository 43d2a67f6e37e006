-- ===== src/Sstable/Read.antt =====
-- SSTable::get over a table that was written: filter, binary search, one block, forward scan.
-- Without the block cache, which stands between the search and the block.
pub mod Slots
pub mod Within
pub mod Get
use lsm_tree.Prelude.{
  ℕ, zero, suc, ◌+◌, ◌-◌, Bool, true, false, not, Option, none, some, List, [], ◌∷◌, ltb, leb,
  if◌then◌else◌, length, get_or, slice,
}
use lsm_tree.Keys.{Key, key_lt, key_eq}
use lsm_tree.Bloom.{may_contain}
use lsm_tree.Sstable.Entries.{Entry}
use lsm_tree.Sstable.Format.{parse_block_entries}
use lsm_tree.Sstable.Build.{Table}
use lsm_tree.Sstable.Search.{find_slot}

abbrev pub offset_at : List (Key × ℕ) → ℕ → ℕ
offset_at index i = (get_or index i ([], 0)).1

-- block_end_offset: the next block's start, or the end of the data section
unfoldable pub block_end : Table → ℕ → ℕ
block_end t slot =
    if ltb (slot + 1) (length t.index) then offset_at t.index (slot + 1) else length t.content

-- The bytes that pread returns for a block, parsed.
unfoldable pub read_block : Table → ℕ → List Entry
read_block t slot =
    let start = offset_at t.index slot in
    parse_block_entries (slice t.content start (block_end t slot - start))

-- for (e : entries): the entry of the key, and an early end behind it
unfoldable pub scan_block : Key → List Entry → Option (Option Key)
scan_block key [] = none
scan_block key (e ∷ es) =
    if key_eq e.key key then some e.value else if key_lt key e.key then none else scan_block key es

unfoldable pub get : Table → Key → Option (Option Key)
get t key =
    let slot = find_slot t.index key in
    if not (may_contain t.bloom key)
    then none
    else if leb (length t.index) 0
    then none
    else if leb (block_end t slot) (offset_at t.index slot)
    then none
    else scan_block key (read_block t slot)
