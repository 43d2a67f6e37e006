-- ===== src/Merge.antt =====
-- The k-way merge that LeveledCompactor::run and LSMEngine::scan share: a min-heap of sorted
-- inputs, ordered by key and then by the precedence of the input.
-- std::priority_queue is a list in heap order: top and pop take its head, push inserts.
pub mod Order
pub mod Heap
pub mod Best
pub mod Steps
pub mod Drop
pub mod Rounds
pub mod Winners
pub mod Open
use lsm_tree.Prelude.{
  ℕ, zero, suc, Bool, true, false, not, Option, none, some, List, [], ◌∷◌, ◌+◌, if◌then◌else◌,
  length,
}
use lsm_tree.Keys.{Key, key_lt, key_eq}
use lsm_tree.Sstable.Entries.{Entry}

-- An input that is not used up: the entry it stands at, and the entries behind it.
pub record Cursor : Type 0 where
  pub rank : ℕ
  pub entry : Entry
  pub rest : List Entry

abbrev pub Heap : Type 0
Heap = List Cursor

-- The order of the heap: the smaller key, and among equal keys the input that wins.
module _ (wins : ℕ → ℕ → Bool) where
  unfoldable pub before : Cursor → Cursor → Bool
  before a b =
      if key_eq a.entry.key b.entry.key then wins a.rank b.rank else key_lt a.entry.key b.entry.key

  unfoldable pub push : Cursor → Heap → Heap
  push c [] = c ∷ []
  push c (d ∷ h) = if before c d then c ∷ d ∷ h else d ∷ push c h

  -- Push an input at its next entry, unless it is used up.
  unfoldable pub push_at : ℕ → List Entry → Heap → Heap
  push_at rank [] h = h
  push_at rank (e ∷ rest) h = push (record { rank = rank; entry = e; rest = rest }) h

  -- while (!heap.empty() && heap.top().key == key): pop, and push the input's next entry.
  -- The fuel counts the entries that are left.
  unfoldable pub drop_key : ℕ → Key → Heap → Heap
  drop_key zero key h = h
  drop_key (suc fuel) key [] = []
  drop_key (suc fuel) key (c ∷ h) =
      let rest = drop_key fuel key (push_at c.rank c.rest h) in
      if key_eq c.entry.key key then rest else c ∷ h

  -- One input after the other, at its position.
  unfoldable pub open_from : ℕ → Heap → List (List Entry) → Heap
  open_from i h [] = h
  open_from i h (t ∷ ts) = open_from (i + 1) (push_at i t h) ts

-- The entries that a heap still holds.
unfoldable pub heap_size : Heap → ℕ
heap_size [] = 0
heap_size (c ∷ h) = suc (length c.rest) + heap_size h
