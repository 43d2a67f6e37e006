-- ===== src/Merge/Best.antt =====
-- What a heap says of a key: the version held by the winning input.
use lsm_tree.Prelude.{
  ℕ, ◌≡◌, ◌≢◌, inl, inr, refl, sym, Bool, true, Option, none, some, List, [], ◌∷◌, arith,
  if◌then◌else◌, Bool-cases,
}
use lsm_tree.Keys.{Key, key_lt, key_eq, key_eq_refl, key_eq_sym}
use lsm_tree.Sstable.Entries.{Entry, AllAbove, entry_lookup, AllAbove-trans, lookup-AllAbove}
use lsm_tree.Merge.{Cursor, Heap, before, push, push_at}
use lsm_tree.Merge.Order.{IsPrecedence}
use lsm_tree.Merge.Heap.{After, Fresh, IsHeap}

-- Of two versions of a key, each with the rank of its input, the one whose input wins.
abbrev pub Version : Type 0
Version = Option (ℕ × Option Key)

module _ (wins : ℕ → ℕ → Bool) where
  unfoldable pub pick : Version → Version → Version
  pick none y = y
  pick (some x) none = some x
  pick (some x) (some y) = if wins y.0 x.0 then some y else some x

abbrev pub tag : ℕ → Option (Option Key) → Version
tag r none = none
tag r (some v) = some (r, v)

-- The version of a key that wins among the inputs of a heap.
unfoldable pub best : (ℕ → ℕ → Bool) → Key → Heap → Version
best wins k [] = none
best wins k (c ∷ h) = pick wins (tag c.rank (entry_lookup k (c.entry ∷ c.rest))) (best wins k h)

module _ {wins : ℕ → ℕ → Bool} (p : IsPrecedence wins) where
  pick_swap :
      (r s : ℕ) (x y : Option (Option Key)) (z : Version)
      → r ≢ s
      → pick wins (tag r x) (pick wins (tag s y) z) ≡ pick wins (tag s y) (pick wins (tag r x) z)
  unfolding pick
  pick_swap r s none y z n = refl
  pick_swap r s (some x) none z n = refl
  pick_swap r s (some x) (some y) none n = ground (arith, p.asym r s, p.total r s n)
  pick_swap r s (some x) (some y) (some (t, v)) n = ground (
    arith,
    p.asym r s,
    p.total r s n,
    p.trans r s t,
    p.trans s r t,
    p.trans t r s,
    p.trans t s r,
    p.trans r t s,
    p.trans s t r,
    p.asym t r,
    p.asym t s,
    p.asym r t,
    p.asym s t,
  )

  pub best-push :
      (k : Key) (c : Cursor) (h : Heap)
      → Fresh c.rank h
      → best wins k (push wins c h)
        ≡ pick wins (tag c.rank (entry_lookup k (c.entry ∷ c.rest))) (best wins k h)
  unfolding push best
  best-push k c [] f = refl
  best-push k c (d ∷ h) f = elim (Bool-cases (before wins c d)) [
    | inl t ↦ rw t
    | inr u ↦
        rw (u, best-push k c h f.1)
          (pick_swap d.rank c.rank (entry_lookup k (d.entry ∷ d.rest))
            (entry_lookup k (c.entry ∷ c.rest)) (best wins k h) (λ q. f.0 (sym q)))
  ]

  pub best-push_at :
      (k : Key) (r : ℕ) (es : List Entry) (h : Heap)
      → Fresh r h
      → best wins k (push_at wins r es h) ≡ pick wins (tag r (entry_lookup k es)) (best wins k h)
  unfolding push_at entry_lookup pick
  best-push_at k r [] h f = refl
  best-push_at k r (e ∷ es) h f = best-push k (record { rank = r; entry = e; rest = es }) h f

  -- The version is of an input that `r` wins against.
  abbrev Loses : ℕ → Version → Type 0
  Loses r none = Unit {0}
  Loses r (some x) = wins r x.0 ≡ true

  Loses-pick : (r : ℕ) (x y : Version) → Loses r x → Loses r y → Loses r (pick wins x y)
  unfolding pick
  Loses-pick r none y a b = b
  Loses-pick r (some x) none a b = a
  Loses-pick r (some x) (some y) a b = elim (Bool-cases (wins y.0 x.0)) [
    | inl t ↦ rw t b
    | inr f ↦ rw f a
  ]

  tag-Loses :
      (c d : Cursor)
      → before wins c d ≡ true
      → AllAbove d.entry.key d.rest
      → Loses c.rank (tag d.rank (entry_lookup c.entry.key (d.entry ∷ d.rest)))
  unfolding before entry_lookup
  tag-Loses c d b a = elim (Bool-cases (key_eq c.entry.key d.entry.key)) [
    | inl t ↦ rw (key_eq_sym d.entry.key c.entry.key, t) (rw t at b)
    | inr f ↦
        let lt : key_lt c.entry.key d.entry.key ≡ true = rw f at b in
        rw
          (
            key_eq_sym d.entry.key c.entry.key,
            f,
            lookup-AllAbove c.entry.key d.rest (AllAbove-trans c.entry.key d.entry.key d.rest lt a),
          )
          tt
  ]

  best-Loses :
      (c : Cursor) (h : Heap)
      → After wins c h
      → IsHeap wins h
      → Loses c.rank (best wins c.entry.key h)
  unfolding best
  best-Loses c [] a i = tt
  best-Loses c (d ∷ h) a i =
      Loses-pick c.rank _ _ (tag-Loses c d a.0 i.2.0) (best-Loses c h a.1 i.3)

  pick-Loses : (x : ℕ × Option Key) (y : Version) → Loses x.0 y → pick wins (some x) y ≡ some x
  unfolding pick
  pick-Loses x none l = refl
  pick-Loses x (some y) l = rw (p.asym x.0 y.0 l)

  -- The top of the heap is the winning version of its key.
  pub best-top :
      (c : Cursor) (h : Heap)
      → IsHeap wins (c ∷ h)
      → best wins c.entry.key (c ∷ h) ≡ some (c.rank, c.entry.value)
  unfolding best entry_lookup
  best-top c h i =
      rw (key_eq_refl c.entry.key)
        (pick-Loses (c.rank, c.entry.value) (best wins c.entry.key h) (best-Loses c h i.0 i.3))
