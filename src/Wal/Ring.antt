-- ===== src/Wal/Ring.antt =====
-- The submitted writes of the log and their completions: WAL::recordFailure, resubmit, reap and
-- drain of src/wal/wal_writer.cpp.
-- io_uring is a queue of requests that are not submitted, with 8 slots, and the list of requests
-- that the kernel has. A request carries the PendingWrite that it is tagged with, or none. What the
-- kernel does is given from outside: which request completes, with which result, and what each
-- io_uring_submit returns. `landed` has the writes that a completion reported in full.
pub mod Tracked
pub mod Failing
pub mod Reaped
pub mod Drained
pub mod Budget
pub mod Retries
use lsm_tree.Prelude.{
  ℕ, zero, suc, ◌+◌, ◌-◌, ◌/◌, Bool, true, false, Option, none, some, List, [], ◌∷◌, ◌++◌, ltb,
  ◌==◌, if◌then◌else◌, length, take, drop, get_elem?,
}

-- WAL::PendingWrite; `bytes` is the aligned size.
pub record PendingWrite : Type 0 where
  pub buf : List ℕ
  pub bytes : ℕ
  pub offset : ℕ
  pub attempts : ℕ

abbrev pub max_write_attempts : ℕ
max_write_attempts = 6

abbrev pub ring_entries : ℕ
ring_entries = 8

abbrev pub ecanceled : ℕ
ecanceled = 125

abbrev pub eio : ℕ
eio = 5

-- cqe->res: a number of bytes, or a negative errno.
pub data Outcome : Type 0 where
  wrote failed : ℕ → Outcome

-- What io_uring_submit returns: the number of requests that the kernel took, or an errno.
pub data Submit : Type 0 where
  took refused : ℕ → Submit

-- The texts that failure_ takes, with the numbers in them.
pub data Failure : Type 0 where
  resubmit_failed cancelled : ℕ → ℕ → Failure
  short_write : ℕ → ℕ → Failure
  write_failed drain_failed : ℕ → Failure

abbrev pub Request : Type 0
Request = Option PendingWrite

-- The members of WAL that mu_ guards, and the ring.
pub record Log : Type 0 where
  pub queue : List Request
  pub in_flight : List Request
  pub ring_ready : Bool
  pub pending_cqes : ℕ
  pub cancel_retries : ℕ
  pub write_offset : ℕ
  pub epoch : ℕ
  pub failure : Option Failure
  pub landed : List PendingWrite

-- The first failure is kept.
unfoldable pub record_failure : Failure → Log → Log
record_failure f w = record w { failure = elim w.failure [ none ↦ some f | some g ↦ some g ] }

-- io_uring_submit: the kernel takes the first requests of the queue.
unfoldable pub submit : Submit → Log → Log
submit (took n) w = record w { queue = drop n w.queue; in_flight = w.in_flight ++ take n w.queue }
submit (refused errno) w = w

-- A completion: the place of its request among those in flight, its result, the fault points that
-- reap() asks, and what a resubmission would return.
pub record Event : Type 0 where
  pub which : ℕ
  pub res : Outcome
  pub cqe_error : Bool
  pub short_fault : Bool
  pub cqe_cancel : Bool
  pub resubmission : Submit

unfoldable pub result : Event → PendingWrite → Outcome
result e p =
    if e.cqe_cancel
    then failed ecanceled
    else if e.short_fault
    then wrote (p.bytes / 2)
    else if e.cqe_error
    then failed eio
    else e.res

unfoldable pub remove_at : ℕ → List Request → List Request
remove_at i [] = []
remove_at zero (x ∷ xs) = xs
remove_at (suc i) (x ∷ xs) = x ∷ remove_at i xs

-- io_uring_cqe_seen, and the count down
unfoldable pub seen : Log → Log
seen w = record w { pending_cqes = if ltb 0 w.pending_cqes then w.pending_cqes - 1 else 0 }

unfoldable pub give_up : PendingWrite → Log → Log
give_up p w = seen (record_failure (cancelled p.attempts p.offset) w)

unfoldable pub again : PendingWrite → PendingWrite
again p = record p { attempts = p.attempts + 1 }

-- resubmit() with a free slot, and the two results that it can have in reap().
unfoldable pub resubmit : Submit → PendingWrite → Log → Log
resubmit (took n) p w =
    submit (took n)
      (record w { queue = w.queue ++ some (again p) ∷ []; cancel_retries = w.cancel_retries + 1 })
resubmit (refused errno) p w = seen (
    record_failure (resubmit_failed errno p.offset)
      (record w { queue = w.queue ++ none ∷ []; cancel_retries = w.cancel_retries + 1 }))

-- A cancelled write is submitted again while it has attempts left and the queue has a slot.
unfoldable pub retry : Submit → PendingWrite → Log → Log
retry s p w =
    if ltb p.attempts max_write_attempts
    then if ltb (length w.queue) ring_entries
      then resubmit s p w
      else give_up p (record w { cancel_retries = w.cancel_retries + 1 })
    else give_up p w

-- A completed write, by its result.
unfoldable pub finish : Submit → PendingWrite → Outcome → Log → Log
finish s p (failed errno) w =
    if errno == ecanceled then retry s p w else seen (record_failure (write_failed errno) w)
finish s p (wrote n) w =
    if ltb n p.bytes
    then seen (record_failure (short_write n p.bytes) w)
    else seen (record w { landed = p ∷ w.landed })

-- One round of reap(). A place that no request has is not a completion.
unfoldable pub reap_one : Event → Log → Log
reap_one e w = elim (get_elem? w.in_flight e.which) [
  | none ↦ w
  | some none ↦ seen (record w { in_flight = remove_at e.which w.in_flight })
  | some (some p) ↦
      finish e.resubmission p (result e p) (record w { in_flight = remove_at e.which w.in_flight })
]

-- reap(): the completions that are there.
unfoldable pub reap : List Event → Log → Log
reap [] w = w
reap (e ∷ es) w = reap es (reap_one e w)

-- What io_uring_wait_cqe_timeout returns: -EINTR, another error, or completions to reap.
pub data Wait : Type 0 where
  interrupted : Wait
  wait_failed : ℕ → Wait
  ready : List Event → Wait

-- while (pending_cqes_ > 0 && ring_ready_)
unfoldable pub must_wait : Log → Bool
must_wait w = if ltb 0 w.pending_cqes then w.ring_ready else false

-- The loop of drain(): `none` while it still waits.
unfoldable pub drain_loop : List Wait → Log → Option Log
drain_loop [] w = if must_wait w then none else some w
drain_loop (interrupted ∷ xs) w = let rest = drain_loop xs w in if must_wait w then rest else some w
drain_loop (wait_failed errno ∷ xs) w =
    if must_wait w then some (record_failure (drain_failed errno) w) else some w
drain_loop (ready es ∷ xs) w =
    let rest = drain_loop xs (reap es w) in if must_wait w then rest else some w

unfoldable pub drain : List Event → List Wait → Log → Option Log
drain es xs w = drain_loop xs (reap es w)
