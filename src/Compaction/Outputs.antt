-- ===== src/Compaction/Outputs.antt =====
-- The outputs of the merge: what they hold, how they are cut, and what a read of them finds.
use lsm_tree.Prelude.{
  ℕ, zero, suc, ◌≡◌, inl, inr, refl, sym, ap, ◌∙◌, List, [], ◌∷◌, ◌++◌, arith, leb, length,
  append_assoc, append-nil, Bool-cases, concat, concat-append,
}
use lsm_tree.Keys.{Key, key_eq, key_eq→eq}
use lsm_tree.Sstable.Entries.{Entry, AllAbove, Ascending, entry_lookup, lookup-AllAbove}
use lsm_tree.Merge.{Cursor, Heap, heap_size, open_from}
use lsm_tree.Merge.Order.{gtb, gtb-IsPrecedence}
use lsm_tree.Merge.Heap.{IsHeap}
use lsm_tree.Merge.Rounds.{NextHeap, advance_drop-NextHeap}
use lsm_tree.Compaction.{
  Output, flush_buffer, append_entry, emit, next_heap, merge_loop, merge_tables,
  l1_max_file_entries,
}
use lsm_tree.Merge.Winners.{
  live, keep, winners, winners-Ascending, lookup-winners, without_tombstone, live-without_tombstone,
}
use lsm_tree.Compaction.Inputs.{open-IsHeap, newest, best-open}
use lsm_tree.Merge.Open.{AllAscending, or_else}

-- All that has been emitted so far.
written : Output → List Entry
written o = concat o.staged ++ o.buffer

flush-written : (o : Output) → written (flush_buffer o) ≡ written o
unfolding flush_buffer written
flush-written o =
    elim o.buffer
      as (λ b.
        written (flush_buffer (record { buffer = b; staged = o.staged })) ≡ concat o.staged ++ b) [
          | [] ↦ refl
          | e ∷ es ↦ simp (concat-append, append-nil)
        ]

flush-buffer_empty : (o : Output) → (flush_buffer o).buffer ≡ []
unfolding flush_buffer
flush-buffer_empty o =
    elim o.buffer as (λ b. (flush_buffer (record { buffer = b; staged = o.staged })).buffer ≡ []) [
      | [] ↦ refl
      | e ∷ es ↦ refl
    ]

append_entry-written : (e : Entry) (o : Output) → written (append_entry e o) ≡ written o ++ e ∷ []
unfolding append_entry
append_entry-written e o =
    let o' : Output = record { buffer = o.buffer ++ e ∷ []; staged = o.staged } in
    let grown : written o' ≡ written o ++ e ∷ [] =
      unfold written in sym (append_assoc (concat o.staged) o.buffer (e ∷ [])) in
    elim (Bool-cases (leb l1_max_file_entries (length o'.buffer))) [
      | inl t ↦ rw t (flush-written o' ∙ grown)
      | inr f ↦ rw f grown
    ]

emit-written : (e : Entry) (o : Output) → written (emit e o) ≡ written o ++ keep e []
unfolding emit
emit-written e o = ground (arith, append_entry-written e o, append-nil (written o))

keep-append : (e : Entry) (es : List Entry) → keep e [] ++ es ≡ keep e es
keep-append e es = ground arith

merge_loop-written :
    (fuel : ℕ) (h : Heap) (o : Output)
    → written (merge_loop fuel h o) ≡ written o ++ winners next_heap fuel h
unfolding merge_loop winners
merge_loop-written zero h o = sym (append-nil (written o))
merge_loop-written (suc fuel) [] o = sym (append-nil (written o))
merge_loop-written (suc fuel) (c ∷ h) o =
    merge_loop-written fuel (next_heap c h) (emit c.entry o)
    ∙ ap (λ l. l ++ winners next_heap fuel (next_heap c h)) (emit-written c.entry o)
    ∙ append_assoc (written o) (keep c.entry []) (winners next_heap fuel (next_heap c h))
    ∙ ap (◌++◌ (written o)) (keep-append c.entry (winners next_heap fuel (next_heap c h)))

next_heap-NextHeap : (c : Cursor) (h : Heap) → IsHeap gtb (c ∷ h) → NextHeap gtb c h (next_heap c h)
unfolding next_heap
next_heap-NextHeap c h i = advance_drop-NextHeap gtb-IsPrecedence c h i

start : Output
start = record { buffer = []; staged = [] }

-- The outputs, one behind the other, are the winners.
concat-merge_tables :
    (ts : List (List Entry))
    → concat (merge_tables ts)
      ≡ winners next_heap (heap_size (open_from gtb 0 [] ts)) (open_from gtb 0 [] ts)
unfolding merge_tables start written
concat-merge_tables ts =
    let h = open_from gtb 0 [] ts in
    let o = merge_loop (heap_size h) h start in
    sym (ap (λ b. concat (flush_buffer o).staged ++ b) (flush-buffer_empty o) ∙ append-nil _)
    ∙ flush-written o
    ∙ merge_loop-written (heap_size h) h start

-- The outputs together are sorted by key with no key twice, so the ranges of two outputs do not
-- meet.
pub merge_tables-Ascending :
    (ts : List (List Entry)) → AllAscending ts → Ascending (concat (merge_tables ts))
merge_tables-Ascending ts a = rw (concat-merge_tables ts) (
    winners-Ascending gtb-IsPrecedence next_heap next_heap-NextHeap
      (heap_size (open_from gtb 0 [] ts)) (open_from gtb 0 [] ts) (open-IsHeap ts a))

pub lookup-append :
    (k : Key) (xs ys : List Entry)
    → entry_lookup k (xs ++ ys) ≡ or_else (entry_lookup k xs) (entry_lookup k ys)
unfolding entry_lookup
lookup-append k [] ys = refl
lookup-append k (e ∷ xs) ys = ground (arith, lookup-append k xs ys)

AllAbove-append : (k : Key) (xs ys : List Entry) → AllAbove k (xs ++ ys) → AllAbove k ys
AllAbove-append k [] ys a = a
AllAbove-append k (e ∷ xs) ys a = AllAbove-append k xs ys a.1

Ascending-append : (xs ys : List Entry) → Ascending (xs ++ ys) → Ascending ys
Ascending-append [] ys a = a
Ascending-append (e ∷ xs) ys a = Ascending-append xs ys a.1

lookup_apart :
    (k : Key) (xs ys : List Entry)
    → Ascending (xs ++ ys)
    → or_else (entry_lookup k ys) (entry_lookup k xs)
      ≡ or_else (entry_lookup k xs) (entry_lookup k ys)
unfolding entry_lookup
lookup_apart k [] ys a = ground arith
lookup_apart k (e ∷ xs) ys a = elim (Bool-cases (key_eq e.key k)) [
  | inl q ↦
      rw (q, lookup-AllAbove k ys (rw (← key_eq→eq e.key k q) (AllAbove-append e.key xs ys a.0)))
  | inr n ↦ rw n (lookup_apart k xs ys a.1)
]

pub newest-concat :
    (k : Key) (ts : List (List Entry))
    → Ascending (concat ts)
    → newest k ts ≡ entry_lookup k (concat ts)
unfolding newest
newest-concat k [] a = unfold entry_lookup in refl
newest-concat k (t ∷ ts) a =
    ap (λ v. or_else v (entry_lookup k t)) (newest-concat k ts (Ascending-append t (concat ts) a))
    ∙ lookup_apart k t (concat ts) a
    ∙ sym (lookup-append k t (concat ts))

-- For every key, the outputs hold the newest version of the inputs, and hold no version of it at
-- all, not even a tombstone, where that newest version is a tombstone or where there is none.
pub merge_tables-newest :
    (ts : List (List Entry)) (k : Key)
    → AllAscending ts
    → newest k (merge_tables ts) ≡ without_tombstone (newest k ts)
merge_tables-newest ts k a =
    let h = open_from gtb 0 [] ts in
    newest-concat k (merge_tables ts) (merge_tables-Ascending ts a)
    ∙ ap (entry_lookup k) (concat-merge_tables ts)
    ∙ lookup-winners gtb-IsPrecedence next_heap next_heap-NextHeap (heap_size h) h k (omega arith)
        (open-IsHeap ts a)
    ∙ ap without_tombstone (best-open k ts)

-- So a read of the outputs finds what a read of the inputs found.
pub merge_tables-live :
    (ts : List (List Entry)) (k : Key)
    → AllAscending ts
    → live (newest k (merge_tables ts)) ≡ live (newest k ts)
merge_tables-live ts k a =
    ap live (merge_tables-newest ts k a) ∙ live-without_tombstone (newest k ts)

AllAbove-append_left : (k : Key) (xs ys : List Entry) → AllAbove k (xs ++ ys) → AllAbove k xs
AllAbove-append_left k [] ys a = tt
AllAbove-append_left k (e ∷ xs) ys a = (a.0, AllAbove-append_left k xs ys a.1)

pub Ascending-append_left : (xs ys : List Entry) → Ascending (xs ++ ys) → Ascending xs
Ascending-append_left [] ys a = tt
Ascending-append_left (e ∷ xs) ys a =
    (AllAbove-append_left e.key xs ys a.0, Ascending-append_left xs ys a.1)
