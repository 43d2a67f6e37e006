-- ===== src/Merge/Heap.antt =====
-- The heap invariant, and what a heap says of a key: the version held by the winning input.
use lsm_tree.Prelude.{ℕ, ◌≡◌, ◌≢◌, inl, inr, sym, Bool, true, List, [], ◌∷◌, Bool-cases}
use lsm_tree.Sstable.Entries.{Entry}
use lsm_tree.Merge.{Cursor, Heap, before, push, push_at}
use lsm_tree.Sstable.Entries.{Ascending}
use lsm_tree.Merge.Order.{IsPrecedence, before_trans, before_total}

abbrev pub After : (ℕ → ℕ → Bool) → Cursor → Heap → Type 0
After wins c [] = Unit {0}
After wins c (d ∷ h) = (before wins c d ≡ true) × After wins c h

abbrev pub Fresh : ℕ → Heap → Type 0
Fresh r [] = Unit {0}
Fresh r (d ∷ h) = (r ≢ d.rank) × Fresh r h

-- In heap order, with distinct ranks, every input sorted.
abbrev pub IsHeap : (ℕ → ℕ → Bool) → Heap → Type 0
IsHeap wins [] = Unit {0}
IsHeap wins (c ∷ h) = After wins c h × Fresh c.rank h × Ascending (c.entry ∷ c.rest) × IsHeap wins h

module _ {wins : ℕ → ℕ → Bool} (p : IsPrecedence wins) where
  After-trans : (c d : Cursor) (h : Heap) → before wins c d ≡ true → After wins d h → After wins c h
  After-trans c d [] b a = tt
  After-trans c d (e ∷ h) b a = (before_trans p c d e b a.0, After-trans c d h b a.1)

  After-push :
      (c d : Cursor) (h : Heap)
      → before wins c d ≡ true
      → After wins c h
      → After wins c (push wins d h)
  unfolding push
  After-push c d [] b a = (b, tt)
  After-push c d (e ∷ h) b a = elim (Bool-cases (before wins d e)) [
    | inl t ↦ rw t (b, a)
    | inr f ↦ rw f (a.0, After-push c d h b a.1)
  ]

  pub Fresh-push :
      (r : ℕ) (d : Cursor) (h : Heap) → r ≢ d.rank → Fresh r h → Fresh r (push wins d h)
  unfolding push
  Fresh-push r d [] n f = (n, tt)
  Fresh-push r d (e ∷ h) n f = elim (Bool-cases (before wins d e)) [
    | inl t ↦ rw t (n, f)
    | inr u ↦ rw u (f.0, Fresh-push r d h n f.1)
  ]

  pub push-IsHeap :
      (d : Cursor) (h : Heap)
      → Ascending (d.entry ∷ d.rest)
      → Fresh d.rank h
      → IsHeap wins h
      → IsHeap wins (push wins d h)
  unfolding push
  push-IsHeap d [] a f i = (tt, tt, a, tt)
  push-IsHeap d (e ∷ h) a f i = elim (Bool-cases (before wins d e)) [
    | inl t ↦ rw t ((t, After-trans d e h t i.0), f, a, i)
    | inr u ↦ rw u (
      After-push e d h (before_total p d e f.0 u) i.0,
      Fresh-push e.rank d h (λ q. f.0 (sym q)) i.1,
      i.2,
      push-IsHeap d h a f.1 i.3,
    )
  ]

  pub push_at-IsHeap :
      (r : ℕ) (es : List Entry) (h : Heap)
      → Ascending es
      → Fresh r h
      → IsHeap wins h
      → IsHeap wins (push_at wins r es h)
  unfolding push_at
  push_at-IsHeap r [] h a f i = i
  push_at-IsHeap r (e ∷ es) h a f i =
      push-IsHeap (record { rank = r; entry = e; rest = es }) h a f i

  pub Fresh-push_at :
      (q r : ℕ) (es : List Entry) (h : Heap) → q ≢ r → Fresh q h → Fresh q (push_at wins r es h)
  unfolding push_at
  Fresh-push_at q r [] h n f = f
  Fresh-push_at q r (e ∷ es) h n f = Fresh-push q (record { rank = r; entry = e; rest = es }) h n f
