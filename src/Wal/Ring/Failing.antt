-- ===== src/Wal/Ring/Failing.antt =====
-- What completions keep of a log that has failed.
use lsm_tree.Prelude.{
  ℕ, ◌≡◌, inl, inr, refl, true, none, some, List, ◌∷◌, arith, ltb, ◌==◌, length, get_elem?,
  Bool-cases,
}
use lsm_tree.Wal.Ring.{
  PendingWrite, Request, Log, Failure, Event, Outcome, wrote, failed, Submit, took, refused,
  record_failure, submit, remove_at, seen, give_up, resubmit, retry, finish, result, reap_one,
  max_write_attempts, ring_entries, ecanceled,
}
use lsm_tree.Wal.Ring.Tracked.{Write, Landed, has_failed, Progress}

-- What any completion keeps, also of a log that has failed.
pub record Keeps (w v : Log) : Type 0 where
  pub landed : (r : Write) → Landed r w.landed → Landed r v.landed
  pub failed : has_failed w ≡ true → has_failed v ≡ true
  pub offset : v.write_offset ≡ w.write_offset
  pub epoch : v.epoch ≡ w.epoch
  pub ready : v.ring_ready ≡ w.ring_ready

seen-Keeps : (w v : Log) → Keeps w v → Keeps w (seen v)
unfolding seen has_failed
seen-Keeps w v k = record {
  landed = k.landed;
  failed = k.failed;
  offset = k.offset;
  epoch = k.epoch;
  ready = k.ready;
}

fail-Keeps : (f : Failure) (w v : Log) → Keeps w v → Keeps w (record_failure f v)
unfolding record_failure
fail-Keeps f w v k = record {
  landed = k.landed;
  failed = λ h. unfold has_failed in ground arith;
  offset = k.offset;
  epoch = k.epoch;
  ready = k.ready;
}

-- The queue and what is in flight do not matter.
moved-Keeps :
    (w v : Log) (queue in_flight : List Request) (retries : ℕ)
    → Keeps w v
    → Keeps w (record v { queue = queue; in_flight = in_flight; cancel_retries = retries })
unfolding has_failed
moved-Keeps w v queue in_flight retries k = record {
  landed = k.landed;
  failed = k.failed;
  offset = k.offset;
  epoch = k.epoch;
  ready = k.ready;
}

resubmit-Keeps : (s : Submit) (p : PendingWrite) (w v : Log) → Keeps w v → Keeps w (resubmit s p v)
unfolding resubmit submit
resubmit-Keeps (took n) p w v k = moved-Keeps w v _ _ _ k
resubmit-Keeps (refused errno) p w v k =
    seen-Keeps w _ (fail-Keeps _ w _ (moved-Keeps w v _ v.in_flight _ k))

retry-Keeps : (s : Submit) (p : PendingWrite) (w v : Log) → Keeps w v → Keeps w (retry s p v)
unfolding retry give_up
retry-Keeps s p w v k = elim (Bool-cases (ltb p.attempts max_write_attempts)) [
  | inr f ↦ rw f (seen-Keeps w _ (fail-Keeps _ w v k))
  | inl t ↦ elim (Bool-cases (ltb (length v.queue) ring_entries)) [
    | inl u ↦ rw (t, u) (resubmit-Keeps s p w v k)
    | inr u ↦
        rw (t, u) (seen-Keeps w _ (fail-Keeps _ w _ (moved-Keeps w v v.queue v.in_flight _ k)))
  ]
]

landing-Keeps :
    (p : PendingWrite) (w v : Log) → Keeps w v → Keeps w (record v { landed = p ∷ v.landed })
unfolding has_failed
landing-Keeps p w v k = record {
  landed = λ r l. inr (k.landed r l);
  failed = k.failed;
  offset = k.offset;
  epoch = k.epoch;
  ready = k.ready;
}

finish-Keeps :
    (s : Submit) (p : PendingWrite) (o : Outcome) (w v : Log) → Keeps w v → Keeps w (finish s p o v)
unfolding finish
finish-Keeps s p (failed errno) w v k = elim (Bool-cases (errno == ecanceled)) [
  | inl t ↦ rw t (retry-Keeps s p w v k)
  | inr f ↦ rw f (seen-Keeps w _ (fail-Keeps _ w v k))
]
finish-Keeps s p (wrote n) w v k = elim (Bool-cases (ltb n p.bytes)) [
  | inl t ↦ rw t (seen-Keeps w _ (fail-Keeps _ w v k))
  | inr f ↦ rw f (seen-Keeps w _ (landing-Keeps p w v k))
]

Keeps-refl : (w : Log) → Keeps w w
Keeps-refl w = record {
  landed = λ r l. l;
  failed = λ h. h;
  offset = refl;
  epoch = refl;
  ready = refl;
}

pub reap_one-Keeps :
    (e : Event) (w : Log) (x : Request)
    → get_elem? w.in_flight e.which ≡ some x
    → Keeps w (reap_one e w)
unfolding reap_one
reap_one-Keeps e w x h =
    let less = moved-Keeps w w w.queue (remove_at e.which w.in_flight) w.cancel_retries in
    rw (reap_one, h) (go x (less (Keeps-refl w)))
  where
    go :
        (x : Request) {v : Log}
        → Keeps w v
        → Keeps w (elim x [ none ↦ seen v | some p ↦ finish e.resubmission p (result e p) v ])
    go none {v} k = seen-Keeps w v k
    go (some p) {v} k = finish-Keeps e.resubmission p (result e p) w v k

-- A log that has failed stays failed.
pub failing-Progress : (w v : Log) → has_failed w ≡ true → Keeps w v → Progress w v
failing-Progress w v h k = record {
  steady = inl (k.failed h);
  tracked = λ r t. inr (inr (k.failed h));
  landed = k.landed;
  failed = k.failed;
  offset = k.offset;
  epoch = k.epoch;
  ready = k.ready;
}
