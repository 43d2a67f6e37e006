-- ===== src/Compaction/Inputs.antt =====
-- The heap that the merge starts from, and the table that a point read finds a key in.
use lsm_tree.Prelude.{ℕ, ◌+◌, ◌≡◌, refl, sym, ap, ◌∙◌, Option, none, some, List, [], ◌∷◌, arith}
use lsm_tree.Keys.{Key}
use lsm_tree.Sstable.Entries.{Entry, entry_lookup}
use lsm_tree.Merge.{Heap, push_at, open_from}
use lsm_tree.Merge.Order.{gtb, gtb-IsPrecedence}
use lsm_tree.Merge.Heap.{IsHeap}
use lsm_tree.Merge.Best.{best, pick, tag, Version, best-push_at}
use lsm_tree.Merge.Open.{
  AllAscending, or_else, or_else_assoc, or_else-none, RanksBelow, RanksBelow-Fresh,
  RanksBelow-push_at, open_from-IsHeap, VersionBelow, best-VersionBelow,
}
use lsm_tree.Merge.Winners.{strip}

-- The version that a search from the back of the table list to its front finds.
unfoldable pub newest : Key → List (List Entry) → Option (Option Key)
newest k [] = none
newest k (t ∷ ts) = or_else (newest k ts) (entry_lookup k t)

pub open-IsHeap : (ts : List (List Entry)) → AllAscending ts → IsHeap gtb (open_from gtb 0 [] ts)
open-IsHeap ts a = open_from-IsHeap gtb-IsPrecedence 0 [] ts a tt tt

strip-pick :
    (i : ℕ) (x : Option (Option Key)) (y : Version)
    → VersionBelow i y
    → strip (pick gtb (tag i x) y) ≡ or_else x (strip y)
unfolding pick
strip-pick i none y b = refl
strip-pick i (some x) none b = refl
strip-pick i (some x) (some y) b = ground arith

best-open_from :
    (k : Key) (i : ℕ) (h : Heap) (ts : List (List Entry))
    → RanksBelow i h
    → strip (best gtb k (open_from gtb i h ts)) ≡ or_else (newest k ts) (strip (best gtb k h))
unfolding open_from newest
best-open_from k i h [] b = refl
best-open_from k i h (t ∷ ts) b =
    best-open_from k (i + 1) (push_at gtb i t h) ts (RanksBelow-push_at gtb-IsPrecedence i t h b)
    ∙ ap (or_else (newest k ts)) (
        ap strip (best-push_at gtb-IsPrecedence k i t h (RanksBelow-Fresh i h b))
        ∙ strip-pick i (entry_lookup k t) (best gtb k h) (best-VersionBelow gtb i k h b))
    ∙ sym (or_else_assoc (newest k ts) (entry_lookup k t) (strip (best gtb k h)))

-- The version that wins in the heap is the one that a point read of the tables finds.
pub best-open :
    (k : Key) (ts : List (List Entry)) → strip (best gtb k (open_from gtb 0 [] ts)) ≡ newest k ts
best-open k ts = best-open_from k 0 [] ts tt ∙ unfold best in or_else-none (newest k ts)
