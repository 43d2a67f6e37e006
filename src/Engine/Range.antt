-- ===== src/Engine/Range.antt =====
-- A scan is the range of the keys that a point read finds, in order, up to the limit.
use lsm_tree.Prelude.{
  ℕ, zero, suc, ◌≡◌, refl, ap, ◌∙◌, Bool, true, false, not, Option, none, some, List, [], ◌∷◌, ◌++◌,
  arith, Bool-cases, inl, inr, ◌⊎◌, ltb, ◌==◌, if◌then◌else◌, take,
}
use lsm_tree.Keys.{
  Key, key_lt, key_eq, key_lt_trans, key_lt_antisym, key_lt→ne, key_eq→eq, key_eq_sym, key_eq_refl,
}
use lsm_tree.Sstable.Entries.{
  Entry, Ascending, AllAbove, entry_lookup, lookup-AllAbove, AllAbove-trans,
}
use lsm_tree.Sstable.Build.{Table}
use lsm_tree.Sstable.Iterate.{skip_below}
use lsm_tree.Sstable.Iterate.Range.{lookup-skip_below, lookup_under_start, Ascending-skip_below}
use lsm_tree.Memtable.{Memtable, memtable_entries}
use lsm_tree.Memtable.Writes.{IsMemtable, get-entries, seek-entries, entries-Ascending}
use lsm_tree.Merge.{Heap, open_from, heap_size}
use lsm_tree.Merge.Order.{ltb-IsPrecedence}
use lsm_tree.Merge.Heap.{IsHeap}
use lsm_tree.Merge.Winners.{
  live, winners, winners-Ascending, lookup-winners, live-without_tombstone,
}
use lsm_tree.Engine.{
  engine_get, engine_scan, past_end, table_sources, scan_next, give, nothing_asked,
}
use lsm_tree.Engine.Sources.{first, AllWritten, best-open, open-IsHeap}
use lsm_tree.Engine.Skipped.{
  past_end_lt, first-table_sources, table_sources-Ascending, first-under_start,
}
use lsm_tree.Engine.Scan.{until, scan_loop-until, scan_next-NextHeap}

unfoldable pub pair_lookup : Key → List (Key × Key) → Option Key
pair_lookup k [] = none
pair_lookup k (p ∷ ps) = if key_eq p.0 k then some p.1 else pair_lookup k ps

abbrev pub PairsAbove : Key → List (Key × Key) → Type 0
PairsAbove k [] = Unit {0}
PairsAbove k (p ∷ ps) = (key_lt k p.0 ≡ true) × PairsAbove k ps

-- The keys strictly increase.
abbrev pub Increasing : List (Key × Key) → Type 0
Increasing [] = Unit {0}
Increasing (p ∷ ps) = PairsAbove p.0 ps × Increasing ps

unfoldable pub in_range : Key → Option Key → Key → Bool
in_range start end k = if key_lt k start then false else not (past_end end k)

-- What a scan answers: the first pairs of the list `all`, which has the keys of the range that a
-- point read finds, with the values that it finds, in order.
pub record IsScan (mem : Memtable) (tables : List Table) (start : Key) (end : Option Key)
    (limit : ℕ) (answer : List (Key × Key)) : Type 0 where
  pub all : List (Key × Key)
  pub increasing : Increasing all
  pub reads :
      (k : Key)
      → pair_lookup k all ≡ (if in_range start end k then engine_get mem tables k else none)
  pub cut : answer ≡ take limit all

PairsAbove-give :
    (j k : Key) (v : Option Key) (ps : List (Key × Key))
    → key_lt j k ≡ true
    → PairsAbove j ps
    → PairsAbove j (give (record { key = k; value = v }) [] ++ ps)
unfolding give
PairsAbove-give j k none ps l a = a
PairsAbove-give j k (some w) ps l a = (l, a)

PairsAbove-until :
    (end : Option Key) (j : Key) (es : List Entry) → AllAbove j es → PairsAbove j (until end es)
unfolding until
PairsAbove-until end j [] a = tt
PairsAbove-until end j (e ∷ es) a = elim (Bool-cases (past_end end e.key)) [
  | inl p ↦ rw p tt
  | inr q ↦
      rw q (PairsAbove-give j e.key e.value (until end es) a.0 (PairsAbove-until end j es a.1))
]

Increasing-give :
    (k : Key) (v : Option Key) (ps : List (Key × Key))
    → PairsAbove k ps
    → Increasing ps
    → Increasing (give (record { key = k; value = v }) [] ++ ps)
unfolding give
Increasing-give k none ps a i = i
Increasing-give k (some w) ps a i = (a, i)

Increasing-until : (end : Option Key) (es : List Entry) → Ascending es → Increasing (until end es)
unfolding until
Increasing-until end [] a = tt
Increasing-until end (e ∷ es) a = elim (Bool-cases (past_end end e.key)) [
  | inl p ↦ rw p tt
  | inr q ↦ rw q (
      Increasing-give e.key e.value (until end es) (PairsAbove-until end e.key es a.0)
        (Increasing-until end es a.1))
]

lookup-give_self :
    (k : Key) (v : Option Key) (ps : List (Key × Key))
    → pair_lookup k ps ≡ none
    → key_eq k k ≡ true
    → pair_lookup k (give (record { key = k; value = v }) [] ++ ps) ≡ v
unfolding give pair_lookup
lookup-give_self k none ps n q = n
lookup-give_self k (some w) ps n q = rw q

lookup-give_ne :
    (j k : Key) (v : Option Key) (ps : List (Key × Key))
    → key_eq j k ≡ false
    → pair_lookup k (give (record { key = j; value = v }) [] ++ ps) ≡ pair_lookup k ps
unfolding give pair_lookup
lookup-give_ne j k none ps n = refl
lookup-give_ne j k (some w) ps n = rw n

lookup-PairsAbove : (k : Key) (ps : List (Key × Key)) → PairsAbove k ps → pair_lookup k ps ≡ none
unfolding pair_lookup
lookup-PairsAbove k [] a = refl
lookup-PairsAbove k (p ∷ ps) a =
    rw (key_eq_sym p.0 k, key_lt→ne k p.0 a.0) (lookup-PairsAbove k ps a.1)

-- The pairs up to the end have the live version of each key before the end.
lookup-until :
    (end : Option Key) (k : Key) (es : List Entry)
    → Ascending es
    → pair_lookup k (until end es) ≡ (if past_end end k then none else live (entry_lookup k es))
unfolding until
lookup-until end k [] a = unfold pair_lookup entry_lookup in ground arith
lookup-until end k (e ∷ es) a = elim (Bool-cases (past_end end e.key)) [
  | inl p ↦ elim (Bool-cases (past_end end k)) [
    | inl pk ↦ rw (p, pk) (unfold pair_lookup in refl)
    | inr qk ↦
        let l = past_end_lt end e.key k p qk in
        rw (p, qk, lookup-AllAbove k (e ∷ es) (l, AllAbove-trans k e.key es l a.0))
          (unfold pair_lookup in refl)
  ]
  | inr q ↦ elim (Bool-cases (key_eq e.key k)) [
    | inl t ↦
        let same = key_eq→eq e.key k t in
        let tail : pair_lookup e.key (until end es) ≡ none =
          lookup-PairsAbove e.key (until end es) (PairsAbove-until end e.key es a.0) in
        rw (← same, q, lookup-give_self e.key e.value (until end es) tail (key_eq_refl e.key))
          (unfold entry_lookup in rw (key_eq_refl e.key))
    | inr n ↦
        rw (q, lookup-give_ne e.key k e.value (until end es) n, lookup-until end k es a.1)
          (unfold entry_lookup in rw n)
  ]
]

no_range : (start e k : Key) → key_lt start e ≡ false → in_range start (some e) k ≡ false
unfolding in_range past_end
no_range start e k h =
    ground (arith, key_lt_trans start k e, key_lt_antisym k start, key_eq→eq k start)

-- Where a scan asks for nothing, the limit is 0 or no key is in the range.
nothing_asked-cases :
    (start : Key) (end : Option Key) (limit : ℕ)
    → nothing_asked start end limit ≡ true
    → (limit ≡ 0) ⊎ ((k : Key) → in_range start end k ≡ false)
unfolding nothing_asked
nothing_asked-cases start none limit t = inl (ground arith)
nothing_asked-cases start (some e) limit t = elim (Bool-cases (limit == 0)) [
  | inl z ↦ inl (ground arith)
  | inr n ↦ inr (λ k. no_range start e k (ground arith))
]

take-nil : (n : ℕ) → [] ≡ take {A = Key × Key} n []
take-nil zero = refl
take-nil (suc n) = refl

module _ (total_bits : ℕ → ℕ) (mem : Memtable) (tables : List Table) (start : Key)
    (end : Option Key) (valid : IsMemtable mem) (written : AllWritten total_bits tables) where
  sources : List (List Entry)
  sources = skip_below start (memtable_entries mem) ∷ table_sources start end tables

  heap : Heap
  heap = open_from ltb 0 [] sources

  found : List Entry
  found = winners scan_next (heap_size heap) heap

  heap-IsHeap : IsHeap ltb heap
  unfolding heap sources
  heap-IsHeap = open-IsHeap sources (
    Ascending-skip_below start (memtable_entries mem) (entries-Ascending mem valid),
    table_sources-Ascending start end total_bits tables written,
  )

  found-Ascending : Ascending found
  unfolding found
  found-Ascending =
      winners-Ascending ltb-IsPrecedence scan_next scan_next-NextHeap (heap_size heap) heap
        heap-IsHeap

  lookup-found : (k : Key) → live (entry_lookup k found) ≡ live (first k sources)
  unfolding found heap
  lookup-found k =
      ap live (
        lookup-winners ltb-IsPrecedence scan_next scan_next-NextHeap (heap_size heap) heap k
          (omega arith) heap-IsHeap)
      ∙ live-without_tombstone _
      ∙ ap live (best-open k sources)

  first-in_range :
      (k : Key)
      → key_lt k start ≡ false
      → past_end end k ≡ false
      → live (first k sources) ≡ engine_get mem tables k
  unfolding sources first engine_get
  first-in_range k from to =
      let here = lookup-skip_below k start (memtable_entries mem) from in
      let tables_say = first-table_sources start end k from to total_bits tables written in
      let mem_says = get-entries mem k valid in ground (arith, here, tables_say, mem_says)

  first_before : (k : Key) → key_lt k start ≡ true → first k sources ≡ none
  unfolding sources first
  first_before k l = rw (
    lookup_under_start k start (memtable_entries mem) (entries-Ascending mem valid) l,
    first-under_start start end total_bits tables k written l,
  )

  found-reads :
      (k : Key)
      → pair_lookup k (until end found)
        ≡ (if in_range start end k then engine_get mem tables k else none)
  unfolding in_range
  found-reads k =
      lookup-until end k found found-Ascending
      ∙ rw (lookup-found k) (elim (Bool-cases (key_lt k start)) [
        | inl l ↦ rw (l, first_before k l) (ground arith)
        | inr n ↦ elim (Bool-cases (past_end end k)) [
          | inl p ↦ rw (n, p)
          | inr q ↦ rw (n, q) (first-in_range k n q)
        ]
      ])

  -- A scan of a valid memtable and of tables written by SSTable::write answers the live keys of the
  -- range with the values that get finds, in increasing order, cut off at the limit.
  pub engine_scan-IsScan :
      (limit : ℕ) → IsScan mem tables start end limit (engine_scan mem tables start end limit)
  unfolding engine_scan heap found sources
  engine_scan-IsScan limit =
      rw (seek-entries mem start valid) (elim (Bool-cases (nothing_asked start end limit)) [
        | inl t ↦ rw t (elim (nothing_asked-cases start end limit t) [
          | inl z ↦ record {
            all = until end found;
            increasing = Increasing-until end found found-Ascending;
            reads = found-reads;
            cut = rw z;
          }
          | inr n ↦ record {
            all = [];
            increasing = tt;
            reads = λ k. unfold pair_lookup in rw (n k);
            cut = take-nil limit;
          }
        ])
        | inr f ↦ rw f (record {
          all = until end found;
          increasing = Increasing-until end found found-Ascending;
          reads = found-reads;
          cut = scan_loop-until (heap_size heap) end limit heap [] heap-IsHeap (omega arith);
        })
      ])
