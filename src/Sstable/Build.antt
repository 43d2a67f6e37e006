-- ===== src/Sstable/Build.antt =====
-- SSTable::write: the checks, the data section, the sparse index and the filter of a new table.
pub mod Blocks
use lsm_tree.Prelude.{
  ℕ, zero, suc, ◌+◌, ◌-◌, ◌^◌, max, Bool, true, false, Option, none, some, List, [], ◌∷◌, ◌++◌, map,
  leb, ◌==◌, ◌||◌, ◌&&◌, if◌then◌else◌, length,
}
use lsm_tree.Keys.{Key, key_lt}
use lsm_tree.Bloom.{BloomFilter, new_filter}
use lsm_tree.Bloom.Members.{insert_all}
use lsm_tree.Sstable.Entries.{Entry}
use lsm_tree.Sstable.Format.{write_entry, fits_length_field, value_or_empty}
use lsm_tree.Sstable.Format.RoundTrip.{entry_bytes}

abbrev pub target_block_size : ℕ
target_block_size = 4096

-- The loop that rejects input that is not sorted, or that has a key twice.
unfoldable pub is_sorted_unique : List Entry → Bool
is_sorted_unique [] = true
is_sorted_unique (a ∷ []) = true
is_sorted_unique (a ∷ b ∷ es) = if key_lt a.key b.key then is_sorted_unique (b ∷ es) else false

-- writeString throws for a string that its length field cannot hold.
unfoldable pub all_writable : List Entry → Bool
all_writable [] = true
all_writable (e ∷ es) =
    if fits_length_field e.key && fits_length_field (value_or_empty e.value)
    then all_writable es
    else false

-- The bytes written so far (`out.tellp()` is their number), the index, `current_block_bytes`.
pub record Builder : Type 0 where
  pub out : List ℕ
  pub index : List (Key × ℕ)
  pub block_bytes : ℕ

abbrev pub new_builder : Builder
new_builder = record { out = []; index = []; block_bytes = 0 }

-- if (i == 0 || current_block_bytes >= TARGET_BLOCK_SIZE)
unfoldable pub start_block : ℕ → Entry → Builder → Builder
start_block i e b =
    if i == 0 || leb target_block_size b.block_bytes
    then record b { index = b.index ++ (e.key, length b.out) ∷ []; block_bytes = 0 }
    else b

unfoldable pub add_entry : ℕ → Entry → Builder → Builder
unfolding start_block
add_entry i e b =
    let b' = start_block i e b in
    record b' { out = b'.out ++ write_entry e; block_bytes = b'.block_bytes + entry_bytes e }

unfoldable pub build_loop : ℕ → List Entry → Builder → Builder
build_loop i [] b = b
build_loop i (e ∷ es) b = build_loop (i + 1) es (add_entry i e b)

-- A finished table: the data section, whose length is index_offset, the index, the filter.
pub record Table : Type 0 where
  pub content : List ℕ
  pub index : List (Key × ℕ)
  pub bloom : BloomFilter

-- `total_bits` is what the filter's formula gives for a number of keys. `none`: write throws.
unfoldable pub write : (ℕ → ℕ) → List Entry → Option Table
write total_bits entries =
    let b = build_loop 0 entries new_builder in
    if is_sorted_unique entries && all_writable entries
    then if leb (length b.index) (2 ^ 32 - 1)
      then some (record {
        content = b.out;
        index = b.index;
        bloom =
            insert_all (map (λ e. e.key) entries)
              (new_filter (total_bits (max (length entries) 1)));
      })
      else none
    else none
