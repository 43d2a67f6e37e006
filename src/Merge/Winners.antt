-- ===== src/Merge/Winners.antt =====
-- The live winners of a merge, as one sorted list, for any way to go on to the next heap.
use lsm_tree.Prelude.{
  ℕ, zero, suc, ◌≤◌, ◌≡◌, inl, inr, refl, sym, ap, ◌∙◌, Bool, true, false, Option, none, some, List,
  [], ◌∷◌, arith, Bool-cases,
}
use lsm_tree.Keys.{Key, key_lt, key_eq, key_lt→ne, key_eq→eq, key_eq_sym, key_lt_antisym}
use lsm_tree.Sstable.Entries.{
  Entry, AllAbove, Ascending, AllAbove-trans, entry_lookup, lookup-AllAbove,
}
use lsm_tree.Merge.{Cursor, Heap, heap_size}
use lsm_tree.Merge.Order.{IsPrecedence}
use lsm_tree.Merge.Heap.{IsHeap}
use lsm_tree.Merge.Best.{best, pick, Version, best-top}
use lsm_tree.Merge.Steps.{HeadsAbove, HeadsAbove-After}
use lsm_tree.Merge.Rounds.{NextHeap}

-- The live version of a key: a tombstone counts as no version.
abbrev pub live : Option (Option Key) → Option Key
live none = none
live (some v) = v

-- A version as a merge leaves it: a tombstone leaves none.
abbrev pub without_tombstone : Option (Option Key) → Option (Option Key)
without_tombstone none = none
without_tombstone (some none) = none
without_tombstone (some (some v)) = some (some v)

pub live-without_tombstone : (v : Option (Option Key)) → live (without_tombstone v) ≡ live v
live-without_tombstone none = refl
live-without_tombstone (some none) = refl
live-without_tombstone (some (some v)) = refl

abbrev pub strip : Version → Option (Option Key)
strip none = none
strip (some x) = some x.1

abbrev pub keep : Entry → List Entry → List Entry
keep e es = elim e.value [ none ↦ es | some v ↦ e ∷ es ]

unfoldable pub winners : (Cursor → Heap → Heap) → ℕ → Heap → List Entry
winners next zero h = []
winners next (suc fuel) [] = []
winners next (suc fuel) (c ∷ h) = keep c.entry (winners next fuel (next c h))

keep-AllAbove :
    (k : Key) (e : Entry) (es : List Entry)
    → key_lt k e.key ≡ true
    → AllAbove e.key es
    → AllAbove k (keep e es)
keep-AllAbove k e es l a =
    elim e.value as (λ v. AllAbove k (elim v [ none ↦ es | some w ↦ e ∷ es ])) [
      | none ↦ AllAbove-trans k e.key es l a
      | some w ↦ (l, AllAbove-trans k e.key es l a)
    ]

keep-Ascending :
    (e : Entry) (es : List Entry) → AllAbove e.key es → Ascending es → Ascending (keep e es)
keep-Ascending e es a s =
    elim e.value as (λ v. Ascending (elim v [ none ↦ es | some w ↦ e ∷ es ])) [
      | none ↦ s
      | some w ↦ (a, s)
    ]

lookup-keep_self :
    (k : Key) (e : Entry) (es : List Entry)
    → key_eq e.key k ≡ true
    → AllAbove e.key es
    → entry_lookup k (keep e es) ≡ without_tombstone (some e.value)
unfolding entry_lookup
lookup-keep_self k e es q a =
    let gone : entry_lookup k es ≡ none = lookup-AllAbove k es (rw (← key_eq→eq e.key k q) a) in
    ground arith

lookup-keep_ne :
    (k : Key) (e : Entry) (es : List Entry)
    → key_eq e.key k ≡ false
    → entry_lookup k (keep e es) ≡ entry_lookup k es
unfolding entry_lookup
lookup-keep_ne k e es q = ground arith

module _ {wins : ℕ → ℕ → Bool} (p : IsPrecedence wins) (next : Cursor → Heap → Heap)
    (ok : (c : Cursor) (h : Heap) → IsHeap wins (c ∷ h) → NextHeap wins c h (next c h)) where
  -- The winners above a bound stay above it, and come out sorted.
  pub winners-AllAbove :
      (fuel : ℕ) (h : Heap) (k : Key)
      → IsHeap wins h
      → HeadsAbove k h
      → AllAbove k (winners next fuel h)
  unfolding winners
  winners-AllAbove zero h k i a = tt
  winners-AllAbove (suc fuel) [] k i a = tt
  winners-AllAbove (suc fuel) (c ∷ h) k i a =
      let d = ok c h i in
      keep-AllAbove k c.entry (winners next fuel (next c h)) a.0
        (winners-AllAbove fuel (next c h) c.entry.key d.heap d.above)

  pub winners-Ascending : (fuel : ℕ) (h : Heap) → IsHeap wins h → Ascending (winners next fuel h)
  unfolding winners
  winners-Ascending zero h i = tt
  winners-Ascending (suc fuel) [] i = tt
  winners-Ascending (suc fuel) (c ∷ h) i =
      let d = ok c h i in
      keep-Ascending c.entry (winners next fuel (next c h))
        (winners-AllAbove fuel (next c h) c.entry.key d.heap d.above)
        (winners-Ascending fuel (next c h) d.heap)

  -- A heap that stands above a key says nothing of it.
  pub best-HeadsAbove : (k : Key) (h : Heap) → IsHeap wins h → HeadsAbove k h → best wins k h ≡ none
  unfolding best pick entry_lookup
  best-HeadsAbove k [] i a = refl
  best-HeadsAbove k (c ∷ h) i a =
      rw
        (
          key_eq_sym c.entry.key k,
          key_lt→ne k c.entry.key a.0,
          lookup-AllAbove k c.rest (AllAbove-trans k c.entry.key c.rest a.0 i.2.0),
        )
        (best-HeadsAbove k h i.3 a.1)

  -- For each key the winners hold its winning version, if that is no tombstone, and nothing else.
  pub lookup-winners :
      (fuel : ℕ) (h : Heap) (k : Key)
      → heap_size h ≤ fuel
      → IsHeap wins h
      → entry_lookup k (winners next fuel h) ≡ without_tombstone (strip (best wins k h))
  unfolding winners
  lookup-winners zero [] k s i = unfold entry_lookup best in refl
  lookup-winners zero (c ∷ h) k s i = absurd (unfold heap_size in omega arith)
  lookup-winners (suc fuel) [] k s i = unfold entry_lookup best in refl
  lookup-winners (suc fuel) (c ∷ h) k s i =
      let d = ok c h i in
      let ks = winners next fuel (next c h) in
      let up : AllAbove c.entry.key ks =
        winners-AllAbove fuel (next c h) c.entry.key d.heap d.above in
      let smaller : heap_size (next c h) ≤ fuel = omega (arith, (ok c h i).size) in
      elim (Bool-cases (key_eq c.entry.key k)) [
        | inl e ↦
            lookup-keep_self k c.entry ks e up
            ∙ ap (λ v. without_tombstone (strip v)) (sym (best-top p c h i))
            ∙ ap (λ j. without_tombstone (strip (best wins j (c ∷ h)))) (key_eq→eq c.entry.key k e)
        | inr n ↦ rw (lookup-keep_ne k c.entry ks n) (elim (Bool-cases (key_lt c.entry.key k)) [
          | inl l ↦ rw (← (ok c h i).keeps k l) (lookup-winners fuel (next c h) k smaller d.heap)
          | inr g ↦
              let l : key_lt k c.entry.key ≡ true = ground (arith, key_lt_antisym c.entry.key k) in
              rw (
                lookup-AllAbove k ks (AllAbove-trans k c.entry.key ks l up),
                best-HeadsAbove k (c ∷ h) i (l, HeadsAbove-After wins k c h l i.0),
              )
        ])
      ]
