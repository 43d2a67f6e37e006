-- ===== src/Sstable/Iterate.antt =====
-- SSTableIterator and SSTable::createIterator, and the key range of a table.
-- The model reads within the data section, where the entries of a written table end.
pub mod Written
pub mod KeyRange
pub mod Range
use lsm_tree.Prelude.{
  ℕ, zero, suc, ◌+◌, Bool, true, false, Option, none, some, List, [], ◌∷◌, ltb, ◌==◌, if◌then◌else◌,
  length, slice, read_le, get_or, leb, ◌-◌,
}
use lsm_tree.Keys.{Key, key_lt}
use lsm_tree.Sstable.Entries.{Entry}
use lsm_tree.Sstable.Build.{Table}
use lsm_tree.Sstable.Search.{find_slot}
use lsm_tree.Sstable.Read.{offset_at}

-- The fields of the entry at `pos`, and the position behind it.
unfoldable pub iter_fields : List ℕ → ℕ → ℕ → Entry × ℕ
iter_fields content pos key_len =
    let val_at = pos + 5 + key_len + 4 in
    let val_len = read_le (slice content (pos + 5 + key_len) 4) in
    (
      record {
        key = slice content (pos + 5) key_len;
        value =
            if read_le (slice content pos 1) == 0
            then some (slice content val_at val_len)
            else none;
      },
      val_at + val_len,
    )

-- advance(): the next entry, while the position is before the end of the data section.
unfoldable pub advance : List ℕ → ℕ → Option (Entry × ℕ)
advance content pos =
    if ltb pos (length content)
    then some (iter_fields content pos (read_le (slice content (pos + 1) 4)))
    else none

-- The entries that next() hands out from a position on; each takes nine bytes at least.
unfoldable pub iterate : ℕ → List ℕ → ℕ → List Entry
iterate zero content pos = []
iterate (suc fuel) content pos = elim (advance content pos) [
  | none ↦ []
  | some (e, next) ↦ e ∷ iterate fuel content next
]

-- SSTable::findBlock
unfoldable pub find_block : Table → Key → ℕ
find_block t key = if leb (length t.index) 0 then 0 else offset_at t.index (find_slot t.index key)

-- while (it->hasNext() && it->peek().key < start_key) it->next();
unfoldable pub skip_below : Key → List Entry → List Entry
skip_below start [] = []
skip_below start (e ∷ es) = if key_lt e.key start then skip_below start es else e ∷ es

-- createIterator(start_key), as the entries that it will hand out
unfoldable pub create_iterator : Table → Key → List Entry
create_iterator t start =
    skip_below start (iterate (length t.content + 1) t.content (find_block t start))

-- createIterator()
unfoldable pub create_iterator_all : Table → List Entry
create_iterator_all t = iterate (length t.content + 1) t.content 0

abbrev pub last_key : Key → List Entry → Key
last_key k [] = k
last_key k (e ∷ es) = last_key e.key es

-- smallest_key_ and largest_key_ as the constructor sets them, for an index that is not empty.
unfoldable pub smallest_key : Table → Key
smallest_key t = (get_or t.index 0 ([], 0)).0

unfoldable pub largest_key : Table → Key
largest_key t =
    last_key [] (iterate (length t.content + 1) t.content (offset_at t.index (length t.index - 1)))
