-- ===== src/Memtable.antt =====
-- SkipList and Memtable, src/memtable/skip_list.h, for one writer.
-- The nodes stand in the order of level 0. The links of level i join the nodes of height above i,
-- and a node is where the walk stands: the list of the nodes behind it.
pub mod Find
pub mod Insert
pub mod Writes
use lsm_tree.Prelude.{
  ℕ, zero, suc, ◌+◌, ◌-◌, ◌%◌, ◌^◌, Bool, true, false, Option, none, some, List, [], ◌∷◌, ◌++◌, ltb,
  leb, ◌==◌, if◌then◌else◌, length, take,
}
use lsm_tree.Keys.{Key, key_lt, key_eq}
use lsm_tree.Sstable.Entries.{Entry}

pub record Tower : Type 0 where
  pub key : Key
  pub value : Option Key
  pub height : ℕ

abbrev pub max_height : ℕ
max_height = 12

-- while (next != nullptr && next->key < key) on one level, from a node with `after` behind it.
unfoldable pub walk : ℕ → Key → List Tower → List Tower → List Tower
walk level key after [] = after
walk level key after (n ∷ ns) =
    if ltb level n.height
    then if key_lt n.key key then walk level key ns ns else after
    else walk level key after ns

-- The levels below a height, from the top.
unfoldable pub descend : ℕ → Key → List Tower → List Tower
descend zero key after = after
descend (suc level) key after = descend level key (walk level key after after)

-- SkipList::find: what stands behind preds[0]; succs[0] is its first node.
unfoldable pub find : Key → List Tower → List Tower
find key nodes = descend max_height key nodes

unfoldable pub is_key : Key → List Tower → Bool
is_key key [] = false
is_key key (n ∷ ns) = key_eq n.key key

unfoldable pub value_size : Option Key → ℕ
value_size none = 0
value_size (some v) = length v

-- InsertResult, and the nodes that the insert leaves.
pub record Inserted : Type 0 where
  pub inserted : Bool
  pub replaced_value_bytes : ℕ
  pub nodes : List Tower

-- The nodes from succs[0] on, after an insert: a new value cell, or a new node before them.
unfoldable pub insert_at : Key → Option Key → ℕ → List Tower → List Tower
insert_at key value height [] = record { key = key; value = value; height = height } ∷ []
insert_at key value height (n ∷ ns) =
    if key_eq n.key key
    then record { key = n.key; value = value; height = n.height } ∷ ns
    else record { key = key; value = value; height = height } ∷ n ∷ ns

unfoldable pub replaced_bytes : Key → List Tower → ℕ
replaced_bytes key [] = 0
replaced_bytes key (n ∷ ns) = if key_eq n.key key then value_size n.value else 0

-- SkipList::insert with the height that randomHeight() gives.
unfoldable pub skip_list_insert : Key → Option Key → ℕ → List Tower → Inserted
skip_list_insert key value height nodes =
    let after = find key nodes in
    record {
      inserted = if is_key key after then false else true;
      replaced_value_bytes = replaced_bytes key after;
      nodes = take (length nodes - length after) nodes ++ insert_at key value height after;
    }

pub record Memtable : Type 0 where
  pub max_bytes : ℕ
  pub current_bytes : ℕ
  pub count : ℕ
  pub list : List Tower

unfoldable pub new_memtable : ℕ → Memtable
new_memtable max_bytes = record { max_bytes = max_bytes; current_bytes = 0; count = 0; list = [] }

-- adjustValueBytes on the byte count
unfoldable pub adjust_value_bytes : ℕ → ℕ → ℕ → ℕ
adjust_value_bytes current old_bytes new_bytes =
    if leb old_bytes new_bytes
    then (current + (new_bytes - old_bytes)) % 2 ^ 64
    else (current + 2 ^ 64 - (old_bytes - new_bytes)) % 2 ^ 64

unfoldable pub memtable_put : Memtable → Key → Key → ℕ → Memtable
memtable_put m key value height =
    let result = skip_list_insert key (some value) height m.list in
    if result.inserted
    then record {
      max_bytes = m.max_bytes;
      current_bytes = (m.current_bytes + (length key + length value + 8)) % 2 ^ 64;
      count = (m.count + 1) % 2 ^ 64;
      list = result.nodes;
    }
    else record {
      max_bytes = m.max_bytes;
      current_bytes = adjust_value_bytes m.current_bytes result.replaced_value_bytes (length value);
      count = m.count;
      list = result.nodes;
    }

unfoldable pub memtable_del : Memtable → Key → ℕ → Memtable
memtable_del m key height =
    let result = skip_list_insert key none height m.list in
    if result.inserted
    then record {
      max_bytes = m.max_bytes;
      current_bytes = (m.current_bytes + (length key + 8)) % 2 ^ 64;
      count = (m.count + 1) % 2 ^ 64;
      list = result.nodes;
    }
    else record {
      max_bytes = m.max_bytes;
      current_bytes = adjust_value_bytes m.current_bytes result.replaced_value_bytes 0;
      count = m.count;
      list = result.nodes;
    }

unfoldable pub found_value : Key → List Tower → Option (Option Key)
found_value key [] = none
found_value key (n ∷ ns) = if key_eq n.key key then some n.value else none

unfoldable pub memtable_get : Memtable → Key → Option (Option Key)
memtable_get m key = found_value key (find key m.list)

unfoldable pub is_full : Memtable → Bool
is_full m = leb m.max_bytes m.current_bytes

-- What the iterators hand out from a node on.
unfoldable pub entries : List Tower → List Entry
entries [] = []
entries (n ∷ ns) = record { key = n.key; value = n.value } ∷ entries ns

-- begin() to end()
unfoldable pub memtable_entries : Memtable → List Entry
memtable_entries m = entries m.list

-- seek(key) to end()
unfoldable pub seek : Memtable → Key → List Entry
seek m key = entries (find key m.list)
