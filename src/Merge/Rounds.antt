-- ===== src/Merge/Rounds.antt =====
-- One round of a merge. The compactor lets the winner's input advance and then drops the older
-- versions of its key; the range scan drops them first.
use lsm_tree.Prelude.{ℕ, suc, ◌≤◌, ◌≡◌, ◌∙◌, sym, ap, Bool, true, ◌∷◌, arith}
use lsm_tree.Keys.{Key, key_lt}
use lsm_tree.Sstable.Entries.{entry_lookup}
use lsm_tree.Merge.{Cursor, Heap, push_at, drop_key, heap_size}
use lsm_tree.Merge.Order.{IsPrecedence}
use lsm_tree.Merge.Heap.{IsHeap, push_at-IsHeap}
use lsm_tree.Merge.Best.{best, best-push_at, pick, tag}
use lsm_tree.Merge.Steps.{
  HeadsAbove, push_at-size, HeadsFrom-push_at, HeadsFrom-After, HeadsAbove-push_at,
}
use lsm_tree.Merge.Drop.{drop_key-Dropped, best-advance}

-- `g` is the heap after a round with top `c` over `h`.
pub record NextHeap (wins : ℕ → ℕ → Bool) (c : Cursor) (h g : Heap) : Type 0 where
  pub heap : IsHeap wins g
  pub above : HeadsAbove c.entry.key g
  pub keeps : (j : Key) → key_lt c.entry.key j ≡ true → best wins j g ≡ best wins j (c ∷ h)
  pub size : suc (heap_size g) ≤ heap_size (c ∷ h)

module _ {wins : ℕ → ℕ → Bool} (p : IsPrecedence wins) where
  pub advance_drop-NextHeap :
      (c : Cursor) (h : Heap)
      → IsHeap wins (c ∷ h)
      → NextHeap wins c h (
          drop_key wins
            (heap_size (push_at wins c.rank c.rest h))
            c.entry.key
            (push_at wins c.rank c.rest h))
  advance_drop-NextHeap c h i =
      let d =
        drop_key-Dropped p (heap_size (push_at wins c.rank c.rest h)) c.entry.key
          (push_at wins c.rank c.rest h) (omega arith)
          (push_at-IsHeap p c.rank c.rest h i.2.1 i.1 i.3)
          (HeadsFrom-push_at wins c.entry.key c.rank c.rest h i.2.0
            (HeadsFrom-After wins c h i.0)) in
      record {
        heap = d.heap;
        above = d.above;
        keeps = λ j l. d.keeps j l ∙ best-advance p j c.entry.key c.rank c.entry c.rest h l i.1;
        size = unfold heap_size in omega (arith, d.size, push_at-size wins c.rank c.rest h);
      }

  pub drop_advance-NextHeap :
      (c : Cursor) (h : Heap)
      → IsHeap wins (c ∷ h)
      → NextHeap wins c h (push_at wins c.rank c.rest (drop_key wins (heap_size h) c.entry.key h))
  drop_advance-NextHeap c h i =
      let g = drop_key wins (heap_size h) c.entry.key h in
      let d =
        drop_key-Dropped p (heap_size h) c.entry.key h (omega arith) i.3
          (HeadsFrom-After wins c h i.0) in
      record {
        heap = push_at-IsHeap p c.rank c.rest g i.2.1 (d.fresh c.rank i.1) d.heap;
        above = HeadsAbove-push_at wins c.entry.key c.rank c.rest g i.2.0 d.above;
        keeps = λ j l.
            best-push_at p j c.rank c.rest g (d.fresh c.rank i.1)
            ∙ ap (pick wins (tag c.rank (entry_lookup j c.rest))) (d.keeps j l)
            ∙ sym (best-push_at p j c.rank c.rest h i.1)
            ∙ best-advance p j c.entry.key c.rank c.entry c.rest h l i.1;
        size = unfold heap_size in omega (arith, d.size, push_at-size wins c.rank c.rest g);
      }
