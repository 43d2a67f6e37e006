-- ===== src/Engine/Sources.antt =====
-- The inputs of a scan: what they hold of a key is what a point read finds, for keys in the range.
use lsm_tree.Prelude.{
  ℕ, ◌+◌, ◌≡◌, refl, sym, ap, ◌∙◌, Option, none, some, List, [], ◌∷◌, ◌++◌, arith, ltb,
}
use lsm_tree.Keys.{Key}
use lsm_tree.Sstable.Entries.{Entry, entry_lookup}
use lsm_tree.Sstable.Build.{Table, write}
use lsm_tree.Merge.{Heap, open_from}
use lsm_tree.Merge.Order.{ltb-IsPrecedence}
use lsm_tree.Merge.Heap.{IsHeap}
use lsm_tree.Merge.Best.{best, pick, tag, Version, best-push_at}
use lsm_tree.Merge.Winners.{strip}
use lsm_tree.Merge.Open.{
  AllAscending, or_else, or_else_assoc, or_else-none, RanksBelow, RanksBelow-Fresh,
  RanksBelow-push_at, open_from-IsHeap, VersionBelow, best-VersionBelow,
}

-- The first input that has a version of the key.
unfoldable pub first : Key → List (List Entry) → Option (Option Key)
first k [] = none
first k (s ∷ ss) = or_else (entry_lookup k s) (first k ss)

pub first-append :
    (k : Key) (xs ys : List (List Entry)) → first k (xs ++ ys) ≡ or_else (first k xs) (first k ys)
unfolding first
first-append k [] ys = refl
first-append k (x ∷ xs) ys =
    rw (first-append k xs ys) (sym (or_else_assoc (entry_lookup k x) (first k xs) (first k ys)))

strip-pick :
    (i : ℕ) (x : Option (Option Key)) (y : Version)
    → VersionBelow i y
    → strip (pick ltb (tag i x) y) ≡ or_else (strip y) x
unfolding pick
strip-pick i none y b = sym (or_else-none (strip y))
strip-pick i (some x) none b = refl
strip-pick i (some x) (some y) b = ground arith

best-open_from :
    (k : Key) (i : ℕ) (h : Heap) (ss : List (List Entry))
    → RanksBelow i h
    → strip (best ltb k (open_from ltb i h ss)) ≡ or_else (strip (best ltb k h)) (first k ss)
unfolding open_from first
best-open_from k i h [] b = sym (or_else-none (strip (best ltb k h)))
best-open_from k i h (s ∷ ss) b =
    best-open_from k (i + 1) _ ss (RanksBelow-push_at ltb-IsPrecedence i s h b)
    ∙ ap (λ v. or_else v (first k ss))
        (ap strip (best-push_at ltb-IsPrecedence k i s h (RanksBelow-Fresh i h b))
          ∙ strip-pick i (entry_lookup k s) (best ltb k h) (best-VersionBelow ltb i k h b))
    ∙ or_else_assoc (strip (best ltb k h)) (entry_lookup k s) (first k ss)

-- The lower rank wins, so the heap answers with the first input that has the key.
pub best-open :
    (k : Key) (ss : List (List Entry)) → strip (best ltb k (open_from ltb 0 [] ss)) ≡ first k ss
best-open k ss = best-open_from k 0 [] ss tt ∙ unfold best in refl

pub open-IsHeap : (ss : List (List Entry)) → AllAscending ss → IsHeap ltb (open_from ltb 0 [] ss)
open-IsHeap ss a = open_from-IsHeap ltb-IsPrecedence 0 [] ss a tt tt

-- Every table was written by SSTable::write.
pub record WrittenBy (total_bits : ℕ → ℕ) (t : Table) : Type 0 where
  pub entries : List Entry
  pub wrote : write total_bits entries ≡ some t

abbrev pub AllWritten : (ℕ → ℕ) → List Table → Type 0
AllWritten total_bits [] = Unit {0}
AllWritten total_bits (t ∷ ts) = WrittenBy total_bits t × AllWritten total_bits ts
