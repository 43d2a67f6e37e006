-- ===== src/Cache.antt =====
-- BlockCache, src/sstable/lru_block_cache.h, and SSTable::get through it.
-- map_ has one iterator for each node of lru_list_, put and erased with its node at every place,
-- so the list stands for both. Byte counts are words of 64 bits.
pub mod Evict
pub mod Bounds
pub mod Reads
pub mod Runs
use lsm_tree.Prelude.{
  ℕ, zero, suc, ◌+◌, ◌-◌, ◌*◌, ◌%◌, ◌^◌, Bool, true, false, not, Option, none, some, List, [], ◌∷◌,
  ltb, leb, ◌==◌, ◌||◌, if◌then◌else◌, length,
}
use lsm_tree.Keys.{Key, key_eq}
use lsm_tree.Bloom.{may_contain}
use lsm_tree.Sstable.Entries.{Entry}
use lsm_tree.Sstable.Build.{Table}
use lsm_tree.Sstable.Search.{find_slot}
use lsm_tree.Sstable.Read.{offset_at, block_end, read_block, scan_block}

pub record CacheKey : Type 0 where
  pub sstable_path : Key
  pub block_offset : ℕ

unfoldable pub cache_key_eq : CacheKey → CacheKey → Bool
cache_key_eq a b =
    if a.block_offset == b.block_offset then key_eq a.sstable_path b.sstable_path else false

pub record Node : Type 0 where
  pub key : CacheKey
  pub value : List Entry
  pub byte_size : ℕ

pub record BlockCache : Type 0 where
  pub capacity : ℕ
  pub max_bytes : ℕ
  pub current_bytes : ℕ
  pub lru_list : List Node

unfoldable pub new_cache : ℕ → ℕ → BlockCache
new_cache capacity_blocks max_bytes = record {
  capacity = capacity_blocks;
  max_bytes = max_bytes;
  current_bytes = 0;
  lru_list = [];
}

unfoldable pub add_word : ℕ → ℕ → ℕ
add_word a b = (a + b) % 2 ^ 64

unfoldable pub sub_word : ℕ → ℕ → ℕ
sub_word a b = (a + 2 ^ 64 - b) % 2 ^ 64

-- The sizes that the C++ library chooses: of a vector, of an entry, and the capacities.
pub record Sizes : Type 0 where
  pub vector_size : ℕ
  pub entry_size : ℕ
  pub vector_capacity : List Entry → ℕ
  pub string_capacity : Key → ℕ

unfoldable pub entries_bytes : Sizes → ℕ → List Entry → ℕ
entries_bytes sizes bytes [] = bytes
entries_bytes sizes bytes (e ∷ es) =
    let with_key = add_word bytes (sizes.string_capacity e.key) in
    entries_bytes sizes
      (elim e.value [ none ↦ with_key | some v ↦ add_word with_key (sizes.string_capacity v) ]) es

unfoldable pub calculate_block_bytes : Sizes → List Entry → ℕ
calculate_block_bytes sizes entries =
    entries_bytes sizes
      (add_word sizes.vector_size (sizes.vector_capacity entries * sizes.entry_size % 2 ^ 64))
      entries

-- map_.find(key)
unfoldable pub find_node : CacheKey → List Node → Option Node
find_node key [] = none
find_node key (n ∷ ns) = if cache_key_eq n.key key then some n else find_node key ns

-- The list without the node of a key.
unfoldable pub erase_node : CacheKey → List Node → List Node
erase_node key [] = []
erase_node key (n ∷ ns) = if cache_key_eq n.key key then ns else n ∷ erase_node key ns

unfoldable pub cache_get : BlockCache → CacheKey → Option (List Entry) × BlockCache
cache_get c key = elim (find_node key c.lru_list) [
  | none ↦ (none, c)
  | some n ↦ (
    some n.value,
    record {
      capacity = c.capacity;
      max_bytes = c.max_bytes;
      current_bytes = c.current_bytes;
      lru_list = n ∷ erase_node key c.lru_list;
    },
  )
]

unfoldable pub last_bytes : List Node → ℕ
last_bytes [] = 0
last_bytes (n ∷ []) = n.byte_size
last_bytes (n ∷ m ∷ ns) = last_bytes (m ∷ ns)

unfoldable pub without_last : List Node → List Node
without_last [] = []
without_last (n ∷ []) = []
without_last (n ∷ m ∷ ns) = n ∷ without_last (m ∷ ns)

unfoldable pub over_limit : BlockCache → Bool
over_limit c = ltb c.capacity (length c.lru_list) || ltb c.max_bytes c.current_bytes

unfoldable pub pop_back : BlockCache → BlockCache
pop_back c = record {
  capacity = c.capacity;
  max_bytes = c.max_bytes;
  current_bytes = sub_word c.current_bytes (last_bytes c.lru_list);
  lru_list = without_last c.lru_list;
}

-- while (!lru_list_.empty() && ...): every round takes a node, so as many rounds as nodes do.
unfoldable pub evict_loop : ℕ → BlockCache → BlockCache
evict_loop zero c = c
evict_loop (suc fuel) c =
    let rest = evict_loop fuel (pop_back c) in if over_limit c then rest else c

unfoldable pub evict_if_needed : BlockCache → BlockCache
evict_if_needed c = evict_loop (length c.lru_list) c

unfoldable pub cache_put : Sizes → BlockCache → CacheKey → List Entry → BlockCache
cache_put sizes c key entries =
    let new_bytes = calculate_block_bytes sizes entries in
    let node : Node = record { key = key; value = entries; byte_size = new_bytes } in
    evict_if_needed (elim (find_node key c.lru_list) [
      | some old ↦ record {
        capacity = c.capacity;
        max_bytes = c.max_bytes;
        current_bytes = add_word (sub_word c.current_bytes old.byte_size) new_bytes;
        lru_list = node ∷ erase_node key c.lru_list;
      }
      | none ↦ record {
        capacity = c.capacity;
        max_bytes = c.max_bytes;
        current_bytes = add_word c.current_bytes new_bytes;
        lru_list = node ∷ c.lru_list;
      }
    ])

-- The nodes and the byte count that the walk of invalidatePath leaves.
unfoldable pub erase_path : Key → ℕ → List Node → List Node × ℕ
erase_path path bytes [] = ([], bytes)
erase_path path bytes (n ∷ ns) =
    let dropped = erase_path path (sub_word bytes n.byte_size) ns in
    let kept = erase_path path bytes ns in
    if key_eq n.key.sstable_path path then dropped else (n ∷ kept.0, kept.1)

unfoldable pub invalidate_path : BlockCache → Key → BlockCache
invalidate_path c path =
    let left = erase_path path c.current_bytes c.lru_list in
    record {
      capacity = c.capacity;
      max_bytes = c.max_bytes;
      current_bytes = left.1;
      lru_list = left.0;
    }

unfoldable pub cache_clear : BlockCache → BlockCache
cache_clear c = record {
  capacity = c.capacity;
  max_bytes = c.max_bytes;
  current_bytes = 0;
  lru_list = [];
}

-- The rest of SSTable::get once the cache has been asked: a hit is scanned, a miss is read,
-- scanned and put in the cache.
unfoldable pub read_through :
    Sizes
    → Table
    → CacheKey
    → ℕ
    → Key
    → Option (List Entry) × BlockCache
    → Option (Option Key) × BlockCache
read_through sizes t at slot key (some entries, c) = (scan_block key entries, c)
read_through sizes t at slot key (none, c) =
    if leb (block_end t slot) (offset_at t.index slot)
    then (none, c)
    else (scan_block key (read_block t slot), cache_put sizes c at (read_block t slot))

-- SSTable::get of the table at a path.
unfoldable pub cached_get :
    Sizes → BlockCache → Key → Table → Key → Option (Option Key) × BlockCache
cached_get sizes c path t key =
    let slot = find_slot t.index key in
    let at : CacheKey = record { sstable_path = path; block_offset = offset_at t.index slot } in
    if not (may_contain t.bloom key)
    then (none, c)
    else if leb (length t.index) 0
    then (none, c)
    else read_through sizes t at slot key (cache_get c at)
