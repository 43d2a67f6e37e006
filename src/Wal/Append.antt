-- ===== src/Wal/Append.antt =====
-- WAL::writeEntry and WAL::clear, src/wal/wal_writer.cpp, on the log and the ring of Ring.
-- What the calls of the system return is given from outside.
pub mod Effect
use lsm_tree.Prelude.{
  ℕ, zero, suc, ◌+◌, ◌%◌, ◌^◌, Bool, true, false, Option, none, some, List, [], ◌∷◌, ◌++◌, ltb,
  if◌then◌else◌, length,
}
use lsm_tree.Keys.{Key}
use lsm_tree.Wal.Record.{EntryType, entry_buffer, entry_size, align_up}
use lsm_tree.Wal.Ring.{
  PendingWrite, Request, Log, Failure, Event, Submit, took, refused, submit, reap, Wait, drain,
  ring_entries,
}

-- WAL::Ticket
pub record Ticket : Type 0 where
  pub epoch : ℕ
  pub end : ℕ

-- What writeEntry throws: the recorded failure, the length limit, a fault point, no memory, and the
-- refusals of the ring.
pub data AppendError : Type 0 where
  log_failed : Failure → AppendError
  too_long injected no_memory queue_full : AppendError
  flush_failed submit_failed : ℕ → AppendError

pub data Appended : Type 0 where
  ok : Ticket → Appended
  err : AppendError → Appended

-- What one call of writeEntry meets: the fault points, posix_memalign, the two io_uring_submit
-- calls and the completions that the two reap() calls find.
pub record Calls : Type 0 where
  pub before_append : Bool
  pub memalign_fails : Bool
  pub flush : Submit
  pub flush_events : List Event
  pub submission : Submit
  pub events : List Event
  pub after_append : Bool

abbrev pub max_field_bytes : ℕ
max_field_bytes = 0xFFFFFFFF

-- The request at the write offset, its submission and the completions behind it.
unfoldable pub put_request : Submit → List Event → Bool → List ℕ → ℕ → Log → Appended × Log
put_request (refused errno) events fault buf size w = (
  err (submit_failed errno),
  record w { write_offset = (w.write_offset + size) % 2 ^ 64; queue = w.queue ++ none ∷ [] },
)
put_request (took n) events fault buf size w =
    let pending : PendingWrite = record {
      buf = buf;
      bytes = size;
      offset = w.write_offset;
      attempts = 1;
    } in
    let sent = submit (took n) (record w {
      write_offset = (w.write_offset + size) % 2 ^ 64;
      queue = w.queue ++ some pending ∷ [];
    }) in
    let reaped = reap events (record sent { pending_cqes = sent.pending_cqes + n }) in
    (
      if fault
          then err injected
          else ok (record { epoch = reaped.epoch; end = reaped.write_offset }),
      reaped,
    )

-- io_uring_get_sqe, with one flush of the queue when it is full.
unfoldable pub with_slot : Calls → List ℕ → ℕ → Log → Appended × Log
with_slot calls buf size w =
    let put = put_request calls.submission calls.events calls.after_append buf size in
    if ltb (length w.queue) ring_entries then put w else elim calls.flush [
      | refused errno ↦ (err (flush_failed errno), w)
      | took n ↦
          let sent = submit (took n) w in
          let w' = reap calls.flush_events (record sent { pending_cqes = sent.pending_cqes + n }) in
          if ltb (length w'.queue) ring_entries then put w' else (err queue_full, w')
    ]

unfoldable pub write_entry : Calls → EntryType → Key → Key → Log → Appended × Log
write_entry calls type key value w = elim w.failure [
  | some f ↦ (err (log_failed f), w)
  | none ↦
      if ltb max_field_bytes (length key)
      then (err too_long, w)
      else if ltb max_field_bytes (length value)
      then (err too_long, w)
      else if calls.before_append
      then (err injected, w)
      else if calls.memalign_fails
      then (err no_memory, w)
      else with_slot calls (entry_buffer type key value)
          (align_up (entry_size (length key) (length value))) w
]

-- What one call of clear() meets: the completions and waits of its drain, and whether the removal
-- of the file, its creation and io_uring_queue_init fail.
pub record ClearCalls : Type 0 where
  pub events : List Event
  pub waits : List Wait
  pub remove_fails : Bool
  pub open_fails : Bool
  pub init_fails : Bool

-- The ring is exited, and the file is removed, created and given a ring. The flag says that
-- clear() returned.
unfoldable pub renew : ClearCalls → Log → Bool × Log
renew calls w =
    let exited = record w { ring_ready = false; queue = []; in_flight = [] } in
    let removed = record exited { landed = [] } in
    if calls.remove_fails
    then (false, exited)
    else if calls.open_fails
    then (false, removed)
    else if calls.init_fails
    then (false, record removed { write_offset = 0 })
    else (
      true,
      record removed { write_offset = 0; ring_ready = true; pending_cqes = 0; failure = none },
    )

-- clear(), once no leader runs: `none` while its drain still waits.
unfoldable pub clear_log : ClearCalls → Log → Option (Bool × Log)
clear_log calls w = elim (drain calls.events calls.waits (record w { epoch = w.epoch + 1 })) [
  | none ↦ none
  | some w' ↦ some (renew calls w')
]
