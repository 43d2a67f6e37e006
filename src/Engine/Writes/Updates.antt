-- ===== src/Engine/Writes/Updates.antt =====
-- put and del: every branch leaves a valid engine that reads as before but for the key.
use lsm_tree.Prelude.{
  ℕ, ◌+◌, ◌^◌, ◌<◌, ◌≡◌, inl, inr, refl, sym, ap, ◌∙◌, false-true, Bool, true, false, Option, none,
  some, List, [], ◌∷◌, ◌++◌, arith, if◌then◌else◌, Bool-cases, length,
}
use lsm_tree.Keys.{Key, key_eq, key_eq→eq}
use lsm_tree.Memtable.{Memtable, is_full, memtable_put, memtable_del, memtable_get}
use lsm_tree.Memtable.Insert.{tally}
use lsm_tree.Memtable.Writes.{IsWrite, put-IsWrite, del-IsWrite}
use lsm_tree.Merge.Winners.{live}
use lsm_tree.Merge.Open.{or_else}
use lsm_tree.Compaction.Run.Cases.{ReadsWhole}
use lsm_tree.Wal.Record.{put, del}
use lsm_tree.Wal.Record as Record
use lsm_tree.Engine.Writes.{
  LsmEngine, Weather, Appending, is_appended, is_refused, is_behind, Outcome, logged, finish_write,
  write_through, engine_put, engine_del, read,
}
use lsm_tree.Engine.Writes.Kept.{
  IsEngine, IsKept, IsKept-refl, read-live, last_record, value_of, Thrown, Agrees, below,
}
use lsm_tree.Engine.Writes.Flush.{flush_memtable-IsKept}

-- What a write reached: nothing, the log alone, or the log and the memtable.
pub data Reached : Type 0 where
  none_reached log_reached all_reached : Reached

unfoldable pub reached : Weather → Reached
reached w = elim w.append [
  | is_refused ↦ none_reached
  | is_behind ↦ log_reached
  | is_appended ↦ if w.write_ok then all_reached else log_reached
]

-- The records that say nothing of the key.
unfoldable pub without : Key → List Record.Entry → List Record.Entry
without key [] = []
without key (e ∷ es) = let rest = without key es in if key_eq e.key key then rest else e ∷ rest

-- The writes that threw behind their records, when one more has ended: it is one of them, or it
-- settles its key, or nothing changes.
abbrev pub still_thrown : Reached → Record.Entry → List Record.Entry → List Record.Entry
still_thrown none_reached entry thrown = thrown
still_thrown log_reached entry thrown = entry ∷ thrown
still_thrown all_reached entry thrown = without entry.key thrown

abbrev pub read_behind : Reached → Record.Entry → (Key → Option Key) → Key → Option Key
read_behind all_reached entry before j = if key_eq entry.key j then value_of entry else before j
read_behind r entry before j = before j

-- How a write of the record ends: the engine is valid; it reads as before, but for the key if the
-- memtable took the write; and it returns only if the log and the memtable took it.
pub record IsUpdate (bits : ℕ → ℕ) (thrown : List Record.Entry) (e : LsmEngine) (r : Outcome)
    (how : Reached) (entry : Record.Entry) : Type 0 where
  pub valid : IsEngine bits (still_thrown how entry thrown) r.engine
  pub reads : (j : Key) → read r.engine j ≡ read_behind how entry (read e) j
  pub whole : r.returned ≡ true → how ≡ all_reached

pub last_record-append :
    (k : Key) (log : List Record.Entry) (e : Record.Entry)
    → last_record k (log ++ e ∷ [])
      ≡ or_else (if key_eq e.key k then some (value_of e) else none) (last_record k log)
unfolding last_record
last_record-append k [] e = ground arith
last_record-append k (f ∷ log) e = ground (arith, last_record-append k log e)

finish_write-IsKept :
    (bits : ℕ → ℕ) (thrown : List Record.Entry) (w : Weather) (e : LsmEngine)
    → IsEngine bits thrown e
    → ReadsWhole w.compaction
    → IsKept bits thrown e (finish_write bits w e).engine
unfolding finish_write
finish_write-IsKept bits thrown w e i whole = elim (Bool-cases (is_full e.mem)) [
  | inl t ↦ rw t (flush_memtable-IsKept bits thrown w e i whole)
  | inr f ↦ rw f (IsKept-refl bits thrown e i)
]

Thrown-without :
    (key k : Key) (es : List Record.Entry) (v : Option Key)
    → key_eq key k ≡ false
    → Thrown k es v
    → Thrown k (without key es) v
unfolding without
Thrown-without key k [] v n t = t
Thrown-without key k (e ∷ es) v n t = elim (Bool-cases (key_eq e.key key)) [
  | inr u ↦ rw u (elim t [ inl a ↦ inl a | inr b ↦ inr (Thrown-without key k es v n b) ])
  | inl q ↦ rw q (elim t [
    | inl a ↦ absurd (false-true (sym n ∙ ap (λ x. key_eq x k) (sym (key_eq→eq e.key key q)) ∙ a.0))
    | inr b ↦ Thrown-without key k es v n b
  ])
]

module _ (bits : ℕ → ℕ) (thrown : List Record.Entry) (w : Weather) (e : LsmEngine)
    (entry : Record.Entry) (i : IsEngine bits thrown e) where
  -- What the log says of a key that the record is not about.
  other_key :
      (mem : Memtable) (k : Key)
      → key_eq entry.key k ≡ false
      → memtable_get mem k ≡ memtable_get e.mem k
      → Agrees k thrown
          (live (or_else (last_record k (e.log ++ entry ∷ [])) (below e k)))
          (live (or_else (memtable_get mem k) (below e k)))
  other_key mem k n same = rw (last_record-append k e.log entry, n, same) (i.recovers k)

  -- The record is in the log, and the memtable is as it was.
  behind-IsEngine : IsEngine bits (entry ∷ thrown) (logged e entry e.mem)
  behind-IsEngine = record {
    mem = i.mem;
    wrote = i.wrote;
    recovers = λ k. elim (Bool-cases (key_eq entry.key k)) [
      | inl q ↦ inr (inl (q, rw (last_record-append k e.log entry, q) refl))
      | inr n ↦ elim (other_key e.mem k n refl) [ inl a ↦ inl a | inr t ↦ inr (inr t) ]
    ];
  }

  behind-IsUpdate :
      IsUpdate bits thrown e
        (record { returned = false; engine = logged e entry e.mem })
        log_reached
        entry
  behind-IsUpdate = record {
    valid = behind-IsEngine;
    reads = λ j. unfold read in refl;
    whole = λ h. absurd (false-true h);
  }

  module _ (mem : Memtable) (u : IsWrite e.mem mem entry.key (value_of entry))
      (whole : ReadsWhole w.compaction) where
    logged-IsEngine : IsEngine bits (without entry.key thrown) (logged e entry mem)
    logged-IsEngine = record {
      mem = u.valid;
      wrote = i.wrote;
      recovers = λ k. elim (Bool-cases (key_eq entry.key k)) [
        | inl q ↦ inl (rw (last_record-append k e.log entry, q) (ground (arith, u.reads k)))
        | inr n ↦ elim (other_key mem k n (ground (arith, u.reads k))) [
          | inl a ↦ inl a
          | inr t ↦ inr (Thrown-without entry.key k thrown _ n t)
        ]
      ];
    }

    finished-IsUpdate :
        IsUpdate bits thrown e (finish_write bits w (logged e entry mem)) all_reached entry
    finished-IsUpdate =
        let k =
          finish_write-IsKept bits (without entry.key thrown) w (logged e entry mem) logged-IsEngine
            whole in
        record {
          valid = k.valid;
          reads = λ j.
              k.reads j
              ∙ read-live (logged e entry mem) j
              ∙ ground (arith, u.reads j, read-live e j);
          whole = λ h. refl;
        }

    -- By what the log and the memtable answer.
    answered-IsUpdate :
        (a : Appending) (ok : Bool)
        → IsUpdate bits thrown e
            (elim a [
              | is_refused ↦ record { returned = false; engine = e }
              | is_behind ↦ record { returned = false; engine = logged e entry e.mem }
              | is_appended ↦
                  if ok
                  then finish_write bits w (logged e entry mem)
                  else record { returned = false; engine = logged e entry e.mem }
            ])
            (elim a [
              | is_refused ↦ none_reached
              | is_behind ↦ log_reached
              | is_appended ↦ if ok then all_reached else log_reached
            ])
            entry
    answered-IsUpdate is_refused ok = record {
      valid = i;
      reads = λ j. refl;
      whole = λ h. absurd (false-true h);
    }
    answered-IsUpdate is_behind ok = behind-IsUpdate
    answered-IsUpdate is_appended true = finished-IsUpdate
    answered-IsUpdate is_appended false = behind-IsUpdate

    write_through-IsUpdate :
        IsUpdate bits thrown e (write_through bits w e entry mem) (reached w) entry
    unfolding write_through reached
    write_through-IsUpdate = answered-IsUpdate w.append w.write_ok

pub engine_put-IsUpdate :
    (bits : ℕ → ℕ) (thrown : List Record.Entry) (w : Weather) (e : LsmEngine) (key value : Key)
    → IsEngine bits thrown e
    → ReadsWhole w.compaction
    → 0 < w.height
    → tally e.mem.list + (length key + length value + 8) < 2 ^ 64
    → IsUpdate bits thrown e
        (engine_put bits w e key value)
        (reached w)
        (record { type = put; key = key; value = value })
unfolding engine_put value_of
engine_put-IsUpdate bits thrown w e key value i whole tall room =
    write_through-IsUpdate bits thrown w e (record { type = put; key = key; value = value }) i
      (memtable_put e.mem key value w.height) (put-IsWrite e.mem key value w.height tall i.mem room)
      whole

pub engine_del-IsUpdate :
    (bits : ℕ → ℕ) (thrown : List Record.Entry) (w : Weather) (e : LsmEngine) (key : Key)
    → IsEngine bits thrown e
    → ReadsWhole w.compaction
    → 0 < w.height
    → tally e.mem.list + (length key + 0 + 8) < 2 ^ 64
    → IsUpdate bits thrown e
        (engine_del bits w e key)
        (reached w)
        (record { type = del; key = key; value = [] })
unfolding engine_del value_of
engine_del-IsUpdate bits thrown w e key i whole tall room =
    write_through-IsUpdate bits thrown w e (record { type = del; key = key; value = [] }) i
      (memtable_del e.mem key w.height) (del-IsWrite e.mem key w.height tall i.mem room) whole
