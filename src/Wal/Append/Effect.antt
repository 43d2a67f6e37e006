-- ===== src/Wal/Append/Effect.antt =====
-- What writeEntry does to the log, when the kernel takes what it is given.
use lsm_tree.Prelude.{
  ℕ, ◌+◌, ◌%◌, ◌^◌, ◌≤◌, ◌<◌, ◌≡◌, inl, inr, refl, sym, ap, ◌∙◌, subst, Bool, true, false, none,
  some, List, [], ◌∷◌, ◌++◌, arith, ltb, if◌then◌else◌, length, Bool-cases, Option-cases,
  length-append,
}
use lsm_tree.Keys.{Key}
use lsm_tree.Wal.Record.{EntryType, entry_buffer, entry_size, align_up}
use lsm_tree.Wal.Ring.{PendingWrite, Log, Event, took, submit, reap, ring_entries}
use lsm_tree.Wal.Ring.Reaped.{reap-Progress}
use lsm_tree.Wal.Ring.Tracked.{
  Write, Sound, IsSteady, AllWhole, Progress, Tracked, Landed, has_failed, InFlight-append,
}
use lsm_tree.Wal.Append.{
  Ticket, AppendError, Appended, ok, err, Calls, put_request, with_slot, write_entry,
  max_field_bytes, injected, too_long, log_failed, no_memory,
}

-- The submission of the call takes the one request that is queued, and so does every resubmission
-- that is not refused.
pub record IsWholeCall (calls : Calls) : Type 0 where
  pub submission : calls.submission ≡ took 1
  pub events : AllWhole calls.events

-- `w'` is the log after a call of writeEntry on `w` that returned `r`.
pub record IsAppend (buf : List ℕ) (size : ℕ) (w w' : Log) (r : Appended) : Type 0 where
  pub steady : Sound w'
  pub tracked : (x : Write) → Tracked x w → Tracked x w'
  pub landed : (x : Write) → Landed x w.landed → Landed x w'.landed
  pub failed : has_failed w ≡ true → has_failed w' ≡ true
  pub epoch : w'.epoch ≡ w.epoch
  pub ready : w'.ring_ready ≡ w.ring_ready
  pub grows : w.write_offset ≤ w'.write_offset
  pub ticket :
      (t : Ticket)
      → r ≡ ok t
      → (t.epoch ≡ w.epoch)
        × ((t.end ≡ w.write_offset + size)
            × ((w'.write_offset ≡ t.end)
                × Tracked (record { offset = w.write_offset; buf = buf }) w'))

unchanged-IsAppend :
    (buf : List ℕ) (size : ℕ) (w : Log) (e : AppendError) → Sound w → IsAppend buf size w w (err e)
unchanged-IsAppend buf size w e i = record {
  steady = i;
  tracked = λ x t. t;
  landed = λ x t. t;
  failed = λ f. f;
  epoch = refl;
  ready = refl;
  grows = omega arith;
  ticket = λ t q. absurd (ground arith);
}

module _ (buf : List ℕ) (size : ℕ) (w : Log) (i : IsSteady w) where
  request : PendingWrite
  request = record { buf = buf; bytes = size; offset = w.write_offset; attempts = 1 }

  -- The log once the kernel has the request.
  sent : Log
  sent = record w {
    write_offset = (w.write_offset + size) % 2 ^ 64;
    queue = [];
    in_flight = w.in_flight ++ some request ∷ [];
    pending_cqes = w.pending_cqes + 1;
  }

  sent-IsSteady : IsSteady sent
  unfolding sent
  sent-IsSteady = record {
    queue = refl;
    counted = ap (λ n. n + 1) i.counted ∙ sym (length-append w.in_flight (some request ∷ []));
  }

  sent-Tracked : (x : Write) → Tracked x w → Tracked x sent
  unfolding sent has_failed
  sent-Tracked x (inl t) = inl (InFlight-append x w.in_flight (some request ∷ []) (inl t))
  sent-Tracked x (inr t) = inr t

  sent_new : Tracked (record { offset = w.write_offset; buf = buf }) sent
  unfolding sent request
  sent_new = inl (InFlight-append _ w.in_flight (some request ∷ []) (inr (inl refl)))

  put_request-sent :
      (events : List Event) (fault : Bool)
      → put_request (took 1) events fault buf size w ≡ (
        if fault
            then err injected
            else ok (record {
              epoch = (reap events sent).epoch;
              end = (reap events sent).write_offset;
            }),
        reap events sent,
      )
  unfolding put_request submit sent request
  put_request-sent events fault = rw i.queue refl

  module _ (events : List Event) (k : AllWhole events) (room : w.write_offset + size < 2 ^ 64) where
    after : Progress sent (reap events sent)
    after = reap-Progress events sent (inr sent-IsSteady) k

    end_is : (reap events sent).write_offset ≡ w.write_offset + size
    unfolding sent
    end_is = (unfold sent in after.offset) ∙ omega arith

    sent-IsAppend :
        (r : Appended)
        → ((t : Ticket)
            → r ≡ ok t
            → (t.epoch ≡ (reap events sent).epoch) × (t.end ≡ (reap events sent).write_offset))
        → IsAppend buf size w (reap events sent) r
    sent-IsAppend r returned =
        let p = after in
        let same_epoch : (reap events sent).epoch ≡ w.epoch = p.epoch ∙ unfold sent in refl in
        record {
          steady = p.steady;
          tracked = λ x t. p.tracked x (sent-Tracked x t);
          landed = λ x t. p.landed x (unfold sent in t);
          failed = λ f. p.failed (unfold sent has_failed in f);
          epoch = same_epoch;
          ready = p.ready ∙ unfold sent in refl;
          grows = omega (arith, end_is);
          ticket = λ t q.
              let (e, o) = returned t q in
              (e ∙ same_epoch, (o ∙ end_is, (sym o, p.tracked _ sent_new)));
        }

    put_request-IsAppend :
        (fault : Bool)
        → let r = put_request (took 1) events fault buf size w in IsAppend buf size w r.1 r.0
    put_request-IsAppend true =
        rw (put_request-sent events true)
          (sent-IsAppend (err injected) (λ t q. absurd (ground arith)))
    put_request-IsAppend false =
        rw (put_request-sent events false) (sent-IsAppend _ (λ t q. (ground arith, ground arith)))

with_slot-IsAppend :
    (calls : Calls) (buf : List ℕ) (size : ℕ) (w : Log)
    → IsSteady w
    → IsWholeCall calls
    → w.write_offset + size < 2 ^ 64
    → let r = with_slot calls buf size w in IsAppend buf size w r.1 r.0
unfolding with_slot
with_slot-IsAppend calls buf size w i k room =
    let free : ltb (length w.queue) ring_entries ≡ true = rw i.queue refl in
    rw (free, k.submission)
      (put_request-IsAppend buf size w i calls.events k.events room calls.after_append)

not_failed : (w : Log) → w.failure ≡ none → has_failed w ≡ false
unfolding has_failed
not_failed w n = rw (has_failed, n) refl

-- A call of writeEntry whose submission the kernel takes.
pub write_entry-IsAppend :
    (calls : Calls) (type : EntryType) (key value : Key) (w : Log)
    → Sound w
    → IsWholeCall calls
    → w.write_offset + align_up (entry_size (length key) (length value)) < 2 ^ 64
    → let r = write_entry calls type key value w in
      IsAppend
        (entry_buffer type key value)
        (align_up (entry_size (length key) (length value)))
        w
        r.1
        r.0
unfolding write_entry
write_entry-IsAppend calls type key value w i k room =
    let buf = entry_buffer type key value in
    let size = align_up (entry_size (length key) (length value)) in
    let same : (e : AppendError)
        → write_entry calls type key value w ≡ (err e, w)
        → let r = write_entry calls type key value w in IsAppend buf size w r.1 r.0 =
      λ e q. subst (λ r. IsAppend buf size w r.1 r.0) (sym q) (unchanged-IsAppend buf size w e i) in
    elim (Option-cases w.failure) [
      | inr (f, at) ↦ same (log_failed f) (ground arith)
      | inl n ↦ elim (Bool-cases (ltb max_field_bytes (length key))) [
        | inl t ↦ same too_long (ground arith)
        | inr key_fits ↦ elim (Bool-cases (ltb max_field_bytes (length value))) [
          | inl t ↦ same too_long (ground arith)
          | inr value_fits ↦ elim (Bool-cases calls.before_append) [
            | inl t ↦ same injected (ground arith)
            | inr before ↦ elim (Bool-cases calls.memalign_fails) [
              | inl t ↦ same no_memory (ground arith)
              | inr memory ↦
                  let q : write_entry calls type key value w ≡ with_slot calls buf size w =
                    ground arith in
                  elim i [
                    | inl h ↦ absurd (let m = not_failed w n in ground arith)
                    | inr j ↦
                        subst (λ r. IsAppend buf size w r.1 r.0) (sym q)
                          (with_slot-IsAppend calls buf size w j k room)
                  ]
            ]
          ]
        ]
      ]
    ]
