-- ===== src/Engine/Writes/Flush.antt =====
-- flushMemtable and flush: every branch leaves a valid engine that reads as before.
use lsm_tree.Prelude.{
  false-true, ℕ, ◌≡◌, ◌⊎◌, inl, inr, refl, sym, ◌∙◌, false, none, some, List, [], arith, Bool-cases,
  Option-cases,
}
use lsm_tree.Keys.{Key}
use lsm_tree.Sstable.Build.{Table, write}
use lsm_tree.Memtable.{
  new_memtable, memtable_get, memtable_entries, find, descend, walk, found_value,
}
use lsm_tree.Memtable.Writes.{IsMemtable}
use lsm_tree.Memtable.Insert.{tally}
use lsm_tree.Merge.Winners.{live}
use lsm_tree.Wal.Record as Record
use lsm_tree.Compaction.Directory.{File}
use lsm_tree.Compaction.Run.{World, run}
use lsm_tree.Compaction.Run.Names.{Staging-cases}
use lsm_tree.Compaction.Run.Cases.{ReadsWhole}
use lsm_tree.Compaction.Run.Reads.{run-IsCompacted}
use lsm_tree.Engine.Writes.{
  LsmEngine, Weather, Clearing, is_cleared, is_kept, is_emptied, with_table, add_table, with_log,
  with_store, emptied, compacted, drop_log, is_empty, flush_memtable, read,
}
use lsm_tree.Engine.Writes.Kept.{
  IsEngine, IsKept, IsKept-trans, IsKept-refl, IsAdded, same-IsKept, with_table-IsKept, below,
  pushed, read-live, last_record,
}

-- A branch that throws with the open tables as they were.
thrown-IsAdded :
    (bits : ℕ → ℕ) (thrown : List Record.Entry) (e e' : LsmEngine)
    → IsKept bits thrown e e'
    → IsAdded bits thrown e (record { returned = false; engine = e' })
thrown-IsAdded bits thrown e e' k = record { kept = k; added = λ h. absurd (false-true h) }

add_table-IsAdded :
    (bits : ℕ → ℕ) (thrown : List Record.Entry) (w : Weather) (e : LsmEngine)
    → IsEngine bits thrown e
    → IsAdded bits thrown e (add_table bits w e)
unfolding add_table
add_table-IsAdded bits thrown w e i =
    let threw = λ (files : List File) (counter : ℕ).
      thrown-IsAdded bits thrown e _ (same-IsKept bits thrown e files counter i) in
    elim (Bool-cases w.before_sst_ok) [
      | inr f ↦ rw (add_table, f) (thrown-IsAdded bits thrown e e (IsKept-refl bits thrown e i))
      | inl b ↦ elim (Option-cases (write bits (memtable_entries e.mem))) [
        | inl n ↦ rw (add_table, b, n) (threw _ _)
        | inr (t, s) ↦ elim (Staging-cases w.table) [
          | inr (inl a) ↦ rw (add_table, b, s, a) (threw _ _)
          | inr (inr l) ↦ rw (add_table, b, s, l) (threw _ _)
          | inl g ↦ elim (Bool-cases w.open_ok) [
            | inr o ↦ rw (add_table, b, s, g, o) (threw _ _)
            | inl o ↦
                rw (add_table, b, s, g, o)
                  (record {
                    kept = with_table-IsKept bits thrown e t i s;
                    added = λ h. (t, (s, refl));
                  })
          ]
        ]
      ]
    ]

pub new-IsMemtable : (n : ℕ) → IsMemtable (new_memtable n)
unfolding new_memtable tally
new-IsMemtable n = record { list = tt; bytes = refl; room = omega arith; count = refl }

pub get-new : (n : ℕ) (k : Key) → memtable_get (new_memtable n) k ≡ none
unfolding memtable_get new_memtable find descend walk found_value
get-new n k = refl

-- Behind the memtable's table the memtable and the log are not needed.
emptied-IsKept :
    (bits : ℕ → ℕ) (thrown : List Record.Entry) (e : LsmEngine) (t : Table)
    → IsEngine bits thrown e
    → write bits (memtable_entries e.mem) ≡ some t
    → IsKept bits thrown e (emptied (with_table e t))
emptied-IsKept bits thrown e t i s =
    let e' = with_table e t in
    let k = with_table-IsKept bits thrown e t i s in
    record {
      valid = record {
        mem = new-IsMemtable e.max_bytes;
        wrote = k.valid.wrote;
        recovers = λ j. inl (unfold last_record in rw (get-new e.max_bytes j) refl);
      };
      reads = λ j.
          read-live (emptied e') j
          ∙ rw (get-new e.max_bytes j) (rw (pushed bits thrown e t i s j) refl)
          ∙ sym (read-live e j);
    }

-- The log is empty, and the memtable is still there.
no_log-IsKept :
    (bits : ℕ → ℕ) (thrown : List Record.Entry) (e : LsmEngine) (t : Table)
    → IsEngine bits thrown e
    → write bits (memtable_entries e.mem) ≡ some t
    → IsKept bits thrown e (with_log (with_table e t) [])
unfolding read last_record
no_log-IsKept bits thrown e t i s =
    let k = with_table-IsKept bits thrown e t i s in
    record {
      valid = record {
        mem = i.mem;
        wrote = k.valid.wrote;
        recovers = λ j. inl (rw (pushed bits thrown e t i s j) (ground arith));
      };
      reads = k.reads;
    }

-- A read that the memtable does not answer.
read-empty : (e : LsmEngine) (k : Key) → memtable_get e.mem k ≡ none → read e k ≡ live (below e k)
read-empty e k n = read-live e k ∙ rw n refl

-- A compaction behind an empty memtable.
compacted-IsKept :
    (bits : ℕ → ℕ) (thrown : List Record.Entry) (w : World) (e : LsmEngine)
    → IsEngine bits thrown (emptied e)
    → ReadsWhole w
    → IsKept bits thrown (emptied e) (compacted bits w (emptied e)).engine
compacted-IsKept bits thrown w e i whole =
    let c = run-IsCompacted bits w e.store i.wrote whole in
    let e' = with_store (emptied e) (run bits w e.store).store in
    record {
      valid = record {
        mem = i.mem;
        wrote = c.wrote;
        recovers = λ k. inl (unfold last_record in rw (get-new e.max_bytes k) refl);
      };
      reads = λ k.
          read-empty e' k (get-new e.max_bytes k)
          ∙ c.reads k
          ∙ sym (read-empty (emptied e) k (get-new e.max_bytes k));
    }

Clearing-cases : (c : Clearing) → (c ≡ is_cleared) ⊎ ((c ≡ is_kept) ⊎ (c ≡ is_emptied))
Clearing-cases is_cleared = inl refl
Clearing-cases is_kept = inr (inl refl)
Clearing-cases is_emptied = inr (inr refl)

drop_log-IsKept :
    (bits : ℕ → ℕ) (thrown : List Record.Entry) (w : Weather) (e : LsmEngine) (t : Table)
    → IsEngine bits thrown e
    → write bits (memtable_entries e.mem) ≡ some t
    → ReadsWhole w.compaction
    → IsKept bits thrown e (drop_log bits w (with_table e t)).engine
unfolding drop_log
drop_log-IsKept bits thrown w e t i s whole =
    let held = with_table-IsKept bits thrown e t i s in
    let gone = emptied-IsKept bits thrown e t i s in
    elim (Bool-cases w.memtable_ok) [
      | inr f ↦ rw (drop_log, f) held
      | inl m ↦ elim (Clearing-cases w.clear) [
        | inr (inl c) ↦ rw (drop_log, m, c) held
        | inr (inr c) ↦ rw (drop_log, m, c) (no_log-IsKept bits thrown e t i s)
        | inl c ↦ elim (Bool-cases w.after_wal_clear_ok) [
          | inr f ↦ rw (drop_log, m, c, f) gone
          | inl a ↦
              rw (drop_log, m, c, a)
                (IsKept-trans bits thrown e (emptied (with_table e t))
                  (compacted bits w.compaction (emptied (with_table e t))).engine gone
                  (compacted-IsKept bits thrown w.compaction (with_table e t) gone.valid whole))
        ]
      ]
    ]

-- A flush of a valid engine, however it ends, whichever call throws, a compaction behind it
-- included, if the iterators of that compaction can read its inputs to their ends: the engine is
-- valid, with no write to settle but those it had, and every key reads as before.
pub flush_memtable-IsKept :
    (bits : ℕ → ℕ) (thrown : List Record.Entry) (w : Weather) (e : LsmEngine)
    → IsEngine bits thrown e
    → ReadsWhole w.compaction
    → IsKept bits thrown e (flush_memtable bits w e).engine
unfolding flush_memtable
flush_memtable-IsKept bits thrown w e i whole = elim (Bool-cases (is_empty e.mem)) [
  | inl z ↦ rw (flush_memtable, z) (IsKept-refl bits thrown e i)
  | inr n ↦
      let a = add_table-IsAdded bits thrown w e i in
      elim (Bool-cases (add_table bits w e).returned) [
        | inr f ↦ rw (flush_memtable, n, f) a.kept
        | inl r ↦
            let (t, (s, same)) = a.added r in
            rw (flush_memtable, n, r, same) (drop_log-IsKept bits thrown w e t i s whole)
      ]
]
