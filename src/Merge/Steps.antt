-- ===== src/Merge/Steps.antt =====
-- One round of a merge: the stale versions of a key are dropped, the rest of the heap is kept.
use lsm_tree.Prelude.{
  ℕ, suc, ◌+◌, ◌≡◌, inl, inr, refl, Bool, true, false, List, [], ◌∷◌, arith, length, Bool-cases,
}
use lsm_tree.Keys.{Key, key_lt, key_lt_trans, key_eq→eq, key_lt_irrefl, key_lt_asym, key_lt_antisym}
use lsm_tree.Sstable.Entries.{Entry, AllAbove}
use lsm_tree.Merge.{Cursor, Heap, before, push, push_at, heap_size}
use lsm_tree.Merge.Heap.{After}

-- Every input stands above `k`, or at `k` or above.
abbrev pub HeadsAbove : Key → Heap → Type 0
HeadsAbove k [] = Unit {0}
HeadsAbove k (c ∷ h) = (key_lt k c.entry.key ≡ true) × HeadsAbove k h

abbrev pub HeadsFrom : Key → Heap → Type 0
HeadsFrom k [] = Unit {0}
HeadsFrom k (c ∷ h) = (key_lt c.entry.key k ≡ false) × HeadsFrom k h

pub key_le_lt_trans : (a b c : Key) → key_lt b a ≡ false → key_lt b c ≡ true → key_lt a c ≡ true
key_le_lt_trans a b c h k = ground (arith, key_lt_trans a b c, key_lt_antisym a b, key_eq→eq a b)

module _ (wins : ℕ → ℕ → Bool) where
  pub push-size :
      (c : Cursor) (h : Heap) → heap_size (push wins c h) ≡ suc (length c.rest) + heap_size h
  unfolding push heap_size
  push-size c [] = refl
  push-size c (d ∷ h) = ground (arith, push-size c h)

  pub push_at-size :
      (r : ℕ) (es : List Entry) (h : Heap)
      → heap_size (push_at wins r es h) ≡ length es + heap_size h
  unfolding push_at
  push_at-size r [] h = omega arith
  push_at-size r (e ∷ es) h = push-size (record { rank = r; entry = e; rest = es }) h

  HeadsAbove-push :
      (k : Key) (c : Cursor) (h : Heap)
      → key_lt k c.entry.key ≡ true
      → HeadsAbove k h
      → HeadsAbove k (push wins c h)
  unfolding push
  HeadsAbove-push k c [] l a = (l, tt)
  HeadsAbove-push k c (d ∷ h) l a = elim (Bool-cases (before wins c d)) [
    | inl t ↦ rw t (l, a)
    | inr u ↦ rw u (a.0, HeadsAbove-push k c h l a.1)
  ]

  pub HeadsAbove-push_at :
      (k : Key) (r : ℕ) (es : List Entry) (h : Heap)
      → AllAbove k es
      → HeadsAbove k h
      → HeadsAbove k (push_at wins r es h)
  unfolding push_at
  HeadsAbove-push_at k r [] h l a = a
  HeadsAbove-push_at k r (e ∷ es) h l a =
      HeadsAbove-push k (record { rank = r; entry = e; rest = es }) h l.0 a

  HeadsFrom-push :
      (k : Key) (c : Cursor) (h : Heap)
      → key_lt c.entry.key k ≡ false
      → HeadsFrom k h
      → HeadsFrom k (push wins c h)
  unfolding push
  HeadsFrom-push k c [] l a = (l, tt)
  HeadsFrom-push k c (d ∷ h) l a = elim (Bool-cases (before wins c d)) [
    | inl t ↦ rw t (l, a)
    | inr u ↦ rw u (a.0, HeadsFrom-push k c h l a.1)
  ]

  pub HeadsFrom-push_at :
      (k : Key) (r : ℕ) (es : List Entry) (h : Heap)
      → AllAbove k es
      → HeadsFrom k h
      → HeadsFrom k (push_at wins r es h)
  unfolding push_at
  HeadsFrom-push_at k r [] h l a = a
  HeadsFrom-push_at k r (e ∷ es) h l a =
      HeadsFrom-push k (record { rank = r; entry = e; rest = es }) h (key_lt_asym k e.key l.0) a

  -- Behind a top above `k`, everything is above `k`.
  pub HeadsAbove-After :
      (k : Key) (c : Cursor) (h : Heap)
      → key_lt k c.entry.key ≡ true
      → After wins c h
      → HeadsAbove k h
  unfolding before
  HeadsAbove-After k c [] l a = tt
  HeadsAbove-After k c (d ∷ h) l a = (
    ground (arith, key_lt_trans k c.entry.key d.entry.key, key_eq→eq c.entry.key d.entry.key),
    HeadsAbove-After k c h l a.1,
  )

  -- Behind the top, everything stands at its key or above.
  pub HeadsFrom-After : (c : Cursor) (h : Heap) → After wins c h → HeadsFrom c.entry.key h
  unfolding before
  HeadsFrom-After c [] a = tt
  HeadsFrom-After c (d ∷ h) a = (
    ground (
      arith,
      key_lt_asym c.entry.key d.entry.key,
      key_eq→eq c.entry.key d.entry.key,
      key_lt_irrefl c.entry.key,
    ),
    HeadsFrom-After c h a.1,
  )
