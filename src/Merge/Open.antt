-- ===== src/Merge/Open.antt =====
-- The heap that a merge starts from, one input behind the other.
use lsm_tree.Prelude.{
  ℕ, ◌+◌, ◌≤◌, ◌<◌, ◌≡◌, refl, Option, none, some, List, [], ◌∷◌, arith, Bool-cases, inl, inr, Bool,
}
use lsm_tree.Keys.{Key}
use lsm_tree.Sstable.Entries.{Entry, Ascending, entry_lookup}
use lsm_tree.Merge.{Cursor, Heap, push, push_at, before, open_from}
use lsm_tree.Merge.Order.{IsPrecedence}
use lsm_tree.Merge.Heap.{Fresh, IsHeap, push_at-IsHeap}
use lsm_tree.Merge.Best.{best, pick, tag, Version}

abbrev pub AllAscending : List (List Entry) → Type 0
AllAscending [] = Unit {0}
AllAscending (t ∷ ts) = Ascending t × AllAscending ts

-- The first of two answers, if there is one.
abbrev pub or_else : Option (Option Key) → Option (Option Key) → Option (Option Key)
or_else (some v) w = some v
or_else none w = w

abbrev pub RanksBelow : ℕ → Heap → Type 0
RanksBelow i [] = Unit {0}
RanksBelow i (c ∷ h) = (c.rank < i) × RanksBelow i h

pub RanksBelow-Fresh : (i : ℕ) (h : Heap) → RanksBelow i h → Fresh i h
RanksBelow-Fresh i [] b = tt
RanksBelow-Fresh i (c ∷ h) b = (omega arith, RanksBelow-Fresh i h b.1)

RanksBelow-mono : (i j : ℕ) (h : Heap) → i ≤ j → RanksBelow i h → RanksBelow j h
RanksBelow-mono i j [] l b = tt
RanksBelow-mono i j (c ∷ h) l b = (omega arith, RanksBelow-mono i j h l b.1)

module _ {wins : ℕ → ℕ → Bool} (p : IsPrecedence wins) where
  RanksBelow-push :
      (i : ℕ) (c : Cursor) (h : Heap) → c.rank < i → RanksBelow i h → RanksBelow i (push wins c h)
  unfolding push
  RanksBelow-push i c [] l b = (l, tt)
  RanksBelow-push i c (d ∷ h) l b = elim (Bool-cases (before wins c d)) [
    | inl t ↦ rw t (l, b)
    | inr u ↦ rw u (b.0, RanksBelow-push i c h l b.1)
  ]

  pub RanksBelow-push_at :
      (i : ℕ) (es : List Entry) (h : Heap)
      → RanksBelow i h
      → RanksBelow (i + 1) (push_at wins i es h)
  unfolding push_at
  RanksBelow-push_at i [] h b = RanksBelow-mono i (i + 1) h (omega arith) b
  RanksBelow-push_at i (e ∷ es) h b =
      RanksBelow-push (i + 1) (record { rank = i; entry = e; rest = es }) h (omega arith)
        (RanksBelow-mono i (i + 1) h (omega arith) b)

  pub open_from-IsHeap :
      (i : ℕ) (h : Heap) (ts : List (List Entry))
      → AllAscending ts
      → RanksBelow i h
      → IsHeap wins h
      → IsHeap wins (open_from wins i h ts)
  unfolding open_from
  open_from-IsHeap i h [] a b k = k
  open_from-IsHeap i h (t ∷ ts) a b k =
      open_from-IsHeap (i + 1) (push_at wins i t h) ts a.1 (RanksBelow-push_at i t h b)
        (push_at-IsHeap p i t h a.0 (RanksBelow-Fresh i h b) k)

abbrev pub VersionBelow : ℕ → Version → Type 0
VersionBelow i none = Unit {0}
VersionBelow i (some x) = x.0 < i

module _ (wins : ℕ → ℕ → Bool) where
  pick-VersionBelow :
      (i r : ℕ) (x : Option (Option Key)) (y : Version)
      → r < i
      → VersionBelow i y
      → VersionBelow i (pick wins (tag r x) y)
  unfolding pick
  pick-VersionBelow i r none y l b = b
  pick-VersionBelow i r (some x) none l b = l
  pick-VersionBelow i r (some x) (some y) l b = elim (Bool-cases (wins y.0 r)) [
    | inl t ↦ rw t b
    | inr f ↦ rw f l
  ]

  pub best-VersionBelow :
      (i : ℕ) (k : Key) (h : Heap) → RanksBelow i h → VersionBelow i (best wins k h)
  unfolding best
  best-VersionBelow i k [] b = tt
  best-VersionBelow i k (c ∷ h) b =
      pick-VersionBelow i c.rank (entry_lookup k (c.entry ∷ c.rest)) (best wins k h) b.0
        (best-VersionBelow i k h b.1)

pub or_else_assoc :
    (x y z : Option (Option Key)) → or_else (or_else x y) z ≡ or_else x (or_else y z)
or_else_assoc none y z = refl
or_else_assoc (some x) y z = refl

pub or_else-none : (x : Option (Option Key)) → or_else x none ≡ x
or_else-none none = refl
or_else-none (some v) = refl
