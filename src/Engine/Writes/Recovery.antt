-- ===== src/Engine/Writes/Recovery.antt =====
-- recoverFromWAL: the memtable that the log's records give.
use lsm_tree.Prelude.{
  ℕ, ◌+◌, ◌^◌, ◌≤◌, ◌<◌, ◌≡◌, refl, sym, ap, ◌∙◌, subst, List, [], ◌∷◌, arith, length,
}
use lsm_tree.Keys.{Key}
use lsm_tree.Memtable.{Memtable, new_memtable, memtable_get}
use lsm_tree.Memtable.Insert.{tally}
use lsm_tree.Memtable.Writes.{IsMemtable, IsWrite, put-IsWrite, del-IsWrite, tally-put, tally-del}
use lsm_tree.Merge.Winners.{live}
use lsm_tree.Merge.Open.{or_else, or_else-none}
use lsm_tree.Wal.Record.{put, del}
use lsm_tree.Wal.Record as Record
use lsm_tree.Compaction.Run.Held.{tables_of}
use lsm_tree.Engine.{engine_get}
use lsm_tree.Engine.Writes.{LsmEngine, replay, replay_entry, read}
use lsm_tree.Engine.Writes.Kept.{IsEngine, Agrees, below, read-live, last_record, value_of}
use lsm_tree.Engine.Writes.Flush.{new-IsMemtable, get-new}

-- What a memtable counts for the records at most.
unfoldable pub log_bytes : List Record.Entry → ℕ
log_bytes [] = 0
log_bytes (e ∷ es) = length e.key + length e.value + 8 + log_bytes es

-- One record: a write of the memtable, and what it adds to the count.
replay_entry-IsWrite :
    (e : Record.Entry) (height : ℕ) (m : Memtable)
    → 0 < height
    → IsMemtable m
    → tally m.list + (length e.key + length e.value + 8) < 2 ^ 64
    → IsWrite m (replay_entry e height m) e.key (value_of e)
      × (tally (replay_entry e height m).list ≤ tally m.list + (length e.key + length e.value + 8))
unfolding replay_entry value_of
replay_entry-IsWrite e height m tall i room =
    let typed : Record.EntryType → Record.Entry =
      λ t. record { type = t; key = e.key; value = e.value } in
    elim e.type
      as (λ t.
        IsWrite m (replay_entry (typed t) height m) e.key (value_of (typed t))
        × (tally (replay_entry (typed t) height m).list
            ≤ tally m.list + (length e.key + length e.value + 8))) [
              | put ↦ (
                put-IsWrite m e.key e.value height tall i room,
                tally-put m e.key e.value height i,
              )
              | del ↦ (
                del-IsWrite m e.key height tall i (omega arith),
                omega (arith, tally-del m e.key height i),
              )
            ]

new-tally : (n : ℕ) → tally (new_memtable n).list ≡ 0
unfolding new_memtable tally
new-tally n = refl

-- The log replayed over a memtable: its last record of a key answers, else the memtable.
replay-IsMemtable :
    (heights : ℕ → ℕ) (i : ℕ) (log : List Record.Entry) (m : Memtable)
    → ((j : ℕ) → 0 < heights j)
    → IsMemtable m
    → tally m.list + log_bytes log < 2 ^ 64
    → IsMemtable (replay heights i log m)
      × ((k : Key)
          → memtable_get (replay heights i log m) k
            ≡ or_else (last_record k log) (memtable_get m k))
unfolding replay last_record log_bytes
replay-IsMemtable heights i [] m tall v room = (v, λ k. refl)
replay-IsMemtable heights i (e ∷ log) m tall v room =
    let u = replay_entry-IsWrite e (heights i) m (tall i) v (omega arith) in
    let r =
      replay-IsMemtable heights (i + 1) log (replay_entry e (heights i) m) tall u.0.valid
        (omega (arith, u.1)) in
    (r.0, λ k. r.1 k ∙ ground (arith, u.0.reads k))

-- The recovery of a valid engine: if the bytes of its log's records can be counted, the memtable
-- that recoverFromWAL makes of the log is valid, whatever the heights, and with the tables that are
-- open it reads every key as the engine that was lost, but for a key that a write which threw
-- behind its record was about, which can read as that write was to leave it.
pub replay-recovers :
    (bits : ℕ → ℕ) (thrown : List Record.Entry) (heights : ℕ → ℕ) (e : LsmEngine)
    → IsEngine bits thrown e
    → ((j : ℕ) → 0 < heights j)
    → log_bytes e.log < 2 ^ 64
    → let m = replay heights 0 e.log (new_memtable e.max_bytes) in
      IsMemtable m
      × ((k : Key) → Agrees k thrown (engine_get m (tables_of e.store.tables) k) (read e k))
unfolding read
replay-recovers bits thrown heights e i tall room =
    let m = replay heights 0 e.log (new_memtable e.max_bytes) in
    let r =
      replay-IsMemtable heights 0 e.log (new_memtable e.max_bytes) tall (new-IsMemtable e.max_bytes)
        (omega (arith, new-tally e.max_bytes)) in
    let recovered : (k : Key)
        → engine_get m (tables_of e.store.tables) k
          ≡ live (or_else (last_record k e.log) (below e k)) =
      λ k.
        read-live (record { log = e.log; max_bytes = e.max_bytes; mem = m; store = e.store }) k
        ∙ ap (λ v. live (or_else v (below e k))) {y = last_record k e.log}
            (r.1 k ∙ rw (get-new e.max_bytes k) (or_else-none (last_record k e.log))) in
    (
      r.0,
      λ k.
          subst (λ v. Agrees k thrown v (engine_get e.mem (tables_of e.store.tables) k))
            (sym (recovered k))
            (subst (λ v. Agrees k thrown (live (or_else (last_record k e.log) (below e k))) v)
              (sym (read-live e k)) (i.recovers k)),
    )
