-- ===== src/Merge/Drop.antt =====
-- What dropping the stale versions of a key does to a heap.
use lsm_tree.Prelude.{
  ℕ, zero, suc, ◌≤◌, ◌≡◌, inl, inr, refl, ◌∙◌, Bool, true, List, [], ◌∷◌, arith, Bool-cases,
}
use lsm_tree.Keys.{Key, key_lt, key_eq, key_lt→ne, key_eq→eq, key_lt_antisym}
use lsm_tree.Sstable.Entries.{Entry, entry_lookup}
use lsm_tree.Merge.{Cursor, Heap, push_at, drop_key, heap_size}
use lsm_tree.Merge.Order.{IsPrecedence}
use lsm_tree.Merge.Heap.{Fresh, IsHeap, push_at-IsHeap, Fresh-push_at}
use lsm_tree.Merge.Best.{best, best-push_at}
use lsm_tree.Merge.Steps.{HeadsAbove, HeadsFrom, push_at-size, HeadsFrom-push_at, HeadsAbove-After}

-- `g` is `h` without what it holds of keys up to `k`.
pub record Dropped (wins : ℕ → ℕ → Bool) (k : Key) (h g : Heap) : Type 0 where
  pub heap : IsHeap wins g
  pub above : HeadsAbove k g
  pub keeps : (j : Key) → key_lt k j ≡ true → best wins j g ≡ best wins j h
  pub fresh : (r : ℕ) → Fresh r h → Fresh r g
  pub size : heap_size g ≤ heap_size h

module _ {wins : ℕ → ℕ → Bool} (p : IsPrecedence wins) where
  -- An input that leaves an entry with a smaller key behind says the same of a key.
  pub best-advance :
      (j k : Key) (r : ℕ) (e : Entry) (es : List Entry) (h : Heap)
      → key_lt e.key j ≡ true
      → Fresh r h
      → best wins j (push_at wins r es h)
        ≡ best wins j (record { rank = r; entry = e; rest = es } ∷ h)
  unfolding best entry_lookup
  best-advance j k r e es h l f = rw (best-push_at p j r es h f, key_lt→ne e.key j l)

  advance_top :
      (c : Cursor) (h : Heap) (k : Key) (g : Heap)
      → key_eq c.entry.key k ≡ true
      → IsHeap wins (c ∷ h)
      → Dropped wins k (push_at wins c.rank c.rest h) g
      → Dropped wins k (c ∷ h) g
  advance_top c h k g e i d = record {
    heap = d.heap;
    above = d.above;
    keeps = λ j l.
        d.keeps j l
        ∙ best-advance j k c.rank c.entry c.rest h (rw (key_eq→eq c.entry.key k e) l) i.1;
    fresh = λ r f. d.fresh r (Fresh-push_at p r c.rank c.rest h f.0 f.1);
    size = unfold heap_size in omega (arith, d.size, push_at-size wins c.rank c.rest h);
  }

  pub drop_key-Dropped :
      (fuel : ℕ) (k : Key) (h : Heap)
      → heap_size h ≤ fuel
      → IsHeap wins h
      → HeadsFrom k h
      → Dropped wins k h (drop_key wins fuel k h)
  unfolding drop_key
  drop_key-Dropped zero k [] s i a = record {
    heap = tt;
    above = tt;
    keeps = λ j l. refl;
    fresh = λ r f. tt;
    size = omega arith;
  }
  drop_key-Dropped zero k (c ∷ h) s i a = absurd (unfold heap_size in omega arith)
  drop_key-Dropped (suc fuel) k [] s i a = record {
    heap = tt;
    above = tt;
    keeps = λ j l. refl;
    fresh = λ r f. tt;
    size = omega arith;
  }
  drop_key-Dropped (suc fuel) k (c ∷ h) s i a = elim (Bool-cases (key_eq c.entry.key k)) [
    | inl e ↦ rw e (
        advance_top c h k _ e i (
          drop_key-Dropped fuel k (push_at wins c.rank c.rest h)
            (unfold heap_size in omega (arith, push_at-size wins c.rank c.rest h))
            (push_at-IsHeap p c.rank c.rest h i.2.1 i.1 i.3)
            (HeadsFrom-push_at wins k c.rank c.rest h (rw (← key_eq→eq c.entry.key k e) i.2.0)
              a.1)))
    | inr n ↦
        let up : key_lt k c.entry.key ≡ true = ground (arith, key_lt_antisym c.entry.key k) in
        rw n (record {
          heap = i;
          above = (up, HeadsAbove-After wins k c h up i.0);
          keeps = λ j l. refl;
          fresh = λ r f. f;
          size = omega arith;
        })
  ]
