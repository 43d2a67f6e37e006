-- ===== src/Tests/GroupCommit.antt =====
-- One thread that appends a record and waits for it, and the results of Wal at that run.
use lsm_tree.Prelude.{
  ℕ, ◌+◌, ◌<◌, ◌^◌, ◌≡◌, ◌≢◌, inl, refl, true, false, none, some, List, [], ◌∷◌, arith, length,
}
use lsm_tree.Wal.Record.{put, entry_buffer, entry_size, align_up}
use lsm_tree.Wal.Ring.{
  record_failure, Log, Event, wrote, took, refused, ready, Wait, drain, failed, ecanceled, submit,
  reap, drain_loop, must_wait, reap_one, result, finish, retry, resubmit, again, seen, remove_at,
}
use lsm_tree.Wal.Ring.Tracked.{Write, has_failed}
use lsm_tree.Wal.Ring.Budget.{budget}
use lsm_tree.Wal.Ring.Retries.{drain_returns}
use lsm_tree.Wal.Append.{Ticket, Calls, write_entry, with_slot, put_request}
use lsm_tree.Wal.Append.Effect.{IsWholeCall}
use lsm_tree.Wal.Commit.{
  System, Step, Reach, start, later, opened, set_pc, waiting, leading, syncing, synced_up, returned,
  append, lead, drained, publish_end, room_for, appended,
}
use lsm_tree.Wal.Commit.Durable.{one_leader}

abbrev calls : Calls
calls = record {
  before_append = false;
  memalign_fails = false;
  flush = took 0;
  flush_events = [];
  submission = took 1;
  events = [];
  after_append = false;
}

abbrev key_a : List ℕ
key_a = b'a' ∷ []

abbrev key_b : List ℕ
key_b = b'b' ∷ []

abbrev value_b : List ℕ
value_b = b'b' ∷ []

abbrev ticket : Ticket
ticket = record { epoch = 0; end = 512 }

abbrev rec : Write
rec = record { offset = 0; buf = entry_buffer put key_a value_b }

abbrev s0 : System
s0 = opened 0

abbrev s1 : System
s1 = record s0 {
  log = appended s0 calls put key_a value_b;
  issued = (512, rec) ∷ [];
  pc = set_pc s0.pc 0 (waiting ticket rec);
}

abbrev event : Event
event = record {
  which = 0;
  res = wrote 512;
  cqe_error = false;
  short_fault = false;
  cqe_cancel = false;
  resubmission = took 1;
}

-- A write that is cancelled once and lands when it is submitted again.
abbrev waits : List Wait
waits = ready (record event { res = failed ecanceled } ∷ []) ∷ ready (event ∷ []) ∷ []

abbrev s2 : System
s2 = record s1 { sync_in_progress = true; pc = set_pc s1.pc 0 (leading ticket rec 0) }

abbrev drained_log : Log
drained_log = record {
  queue = [];
  in_flight = [];
  ring_ready = true;
  pending_cqes = 0;
  cancel_retries = 1;
  write_offset = 512;
  epoch = 0;
  failure = none;
  landed = record { buf = rec.buf; bytes = 512; offset = 0; attempts = 2 } ∷ [];
}

abbrev s3 : System
s3 = record s2 { log = drained_log; pc = set_pc s2.pc 0 (syncing ticket rec 0 512) }

abbrev s4 : System
s4 = record s3 {
  sync_calls = 1;
  synced = drained_log.landed;
  pc = set_pc s3.pc 0 (synced_up ticket rec 0 512);
}

abbrev s5 : System
s5 = record s4 {
  sync_in_progress = false;
  durable_end = publish_end s4 0 512;
  pc = set_pc s4.pc 0 (waiting ticket rec);
}

abbrev s6 : System
s6 = record s5 { pc = set_pc s5.pc 0 (returned ticket rec) }

whole_calls : IsWholeCall calls
whole_calls = record { submission = refl; events = tt }

room : 0 + room_for key_a value_b < 2 ^ 64
unfolding room_for align_up entry_size
room = omega arith

s1-Reach : Reach 0 s1
unfolding write_entry with_slot put_request submit reap align_up entry_size
s1-Reach = later start (append 0 calls put key_a value_b ticket refl whole_calls room refl)

s1_log : s1.log.write_offset ≡ 512
unfolding write_entry with_slot put_request submit reap align_up entry_size
s1_log = refl

s2-Reach : Reach 0 s2
unfolding write_entry with_slot put_request submit reap align_up entry_size
s2-Reach = later s1-Reach (lead 0 ticket rec refl refl (omega arith) refl)

s3-Reach : Reach 0 s3
unfolding write_entry with_slot put_request submit reap align_up entry_size drain drain_loop
    must_wait reap_one result finish retry resubmit again seen remove_at has_failed
s3-Reach = later s2-Reach (
    drained 0 ticket rec 0 [] waits drained_log refl tt ((inl refl, tt), ((inl refl, tt), tt)) refl
      refl)

one_leader_example :
    (◌≡◌ {A = ℕ} 0 0)
    × ((s3.sync_in_progress ≡ true) × ((u : System) → Step s3 u → u.log.epoch ≡ s3.log.epoch))
one_leader_example = one_leader s3-Reach 0 0 refl refl

-- Five cancellations; the last resubmission is refused, so nothing is left to wait for.
abbrev cancelled_wait : Wait
cancelled_wait = ready (record event { res = failed ecanceled } ∷ [])

abbrev six_waits : List Wait
six_waits =
    cancelled_wait
    ∷ cancelled_wait
    ∷ cancelled_wait
    ∷ cancelled_wait
    ∷ ready (record event { res = failed ecanceled; resubmission = refused 11 } ∷ [])
    ∷ ready (event ∷ [])
    ∷ []

drain_returns_example : drain [] six_waits s1.log ≢ none
unfolding write_entry with_slot put_request submit reap align_up entry_size must_wait reap_one
    result finish retry resubmit again seen remove_at budget record_failure
drain_returns_example =
    drain_returns [] six_waits s1.log (omega arith) tt
      (
        (omega arith, tt),
        (
          (omega arith, tt),
          ((omega arith, tt), ((omega arith, tt), ((tt, tt), ((omega arith, tt), tt)))),
        ),
      )
      (λ a. (
        omega arith,
        λ b. (
          omega arith,
          λ c. (omega arith, λ d. (omega arith, λ e. (omega arith, λ f. absurd (ground arith)))),
        ),
      ))
      (omega arith)

-- io_uring_submit takes nothing: the ticket is given, and a drain returns without a failure, while
-- the record is in the queue.
abbrev short_submit : Log
short_submit = (write_entry (record calls { submission = took 0 }) put key_a value_b s0.log).1

short_submit_drains :
    (drain [] [] short_submit ≡ some short_submit)
    × ((has_failed short_submit ≡ false) × (length short_submit.queue ≡ 1))
unfolding write_entry with_slot put_request submit reap align_up entry_size drain drain_loop
    must_wait has_failed
short_submit_drains = (refl, (refl, refl))

-- A submission that fails behind one that was taken: the resubmission of the first takes both, and
-- one of them is counted.
abbrev refused_second : Log
refused_second = (write_entry (record calls { submission = refused 11 }) put key_b value_b s1.log).1

undercount : Log
undercount =
    reap (record event { res = failed ecanceled; resubmission = took 2 } ∷ []) refused_second

undercount_is : (length undercount.in_flight ≡ 2) × (undercount.pending_cqes ≡ 1)
unfolding undercount write_entry with_slot put_request submit reap align_up entry_size reap_one
    result finish retry resubmit again seen remove_at
undercount_is = (refl, refl)
