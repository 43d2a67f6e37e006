-- ===== src/Wal/Ring/Drained.antt =====
-- drain() that returns without a failure has seen every write land.
use lsm_tree.Prelude.{
  ◌≡◌, inl, inr, refl, sym, ap, ◌∙◌, subst, true, false, none, some, List, [], ◌∷◌, arith, length,
  Bool-cases,
}
use lsm_tree.Wal.Ring.{
  Request, Log, Failure, Event, record_failure, reap, Wait, interrupted, wait_failed, ready,
  must_wait, drain_loop, drain, drain_failed,
}
use lsm_tree.Wal.Ring.Tracked.{
  Write, Landed, InFlight, has_failed, Tracked, Sound, AllWhole, AllWholeWaits, Progress,
  Progress-trans, Progress-refl, has_failed-record,
}
use lsm_tree.Wal.Ring.Reaped.{reap-Progress}

-- What a drain that returned says of the log.
pub record Drained (w w' : Log) : Type 0 where
  pub progress : Progress w w'
  pub settled : has_failed w' ≡ false → w.ring_ready ≡ true → w'.pending_cqes ≡ 0

settled_log : (w : Log) → must_wait w ≡ false → w.ring_ready ≡ true → w.pending_cqes ≡ 0
unfolding must_wait
settled_log w m r = ground arith

wait_failed-Progress : (w : Log) (f : Failure) → Progress w (record_failure f w)
unfolding record_failure has_failed
wait_failed-Progress w f = record {
  steady = inl (ground arith);
  tracked = λ r t. inr (inr (ground arith));
  landed = λ r t. t;
  failed = λ h. ground arith;
  offset = refl;
  epoch = refl;
  ready = refl;
}

some_eq : {v w : Log} → some v ≡ some w → v ≡ w
some_eq {v} e = ap (λ o. elim o [ none ↦ v | some x ↦ x ]) e

drain_loop_stops :
    (xs : List Wait) (w w' : Log) → must_wait w ≡ false → drain_loop xs w ≡ some w' → w ≡ w'
unfolding drain_loop
drain_loop_stops [] w w' f d = some_eq (rw f at d)
drain_loop_stops (interrupted ∷ xs) w w' f d = some_eq (rw f at d)
drain_loop_stops (wait_failed errno ∷ xs) w w' f d = some_eq (rw f at d)
drain_loop_stops (ready es ∷ xs) w w' f d = some_eq (rw f at d)

stopped-Drained :
    (xs : List Wait) (w w' : Log)
    → Sound w
    → must_wait w ≡ false
    → drain_loop xs w ≡ some w'
    → Drained w w'
stopped-Drained xs w w' i f d =
    subst (Drained w) (drain_loop_stops xs w w' f d)
      (record { progress = Progress-refl w i; settled = λ h r. settled_log w f r })

drain_loop-Drained :
    (xs : List Wait) (w w' : Log)
    → Sound w
    → AllWholeWaits xs
    → drain_loop xs w ≡ some w'
    → Drained w w'
unfolding drain_loop
drain_loop-Drained [] w w' i k d = elim (Bool-cases (must_wait w)) [
  | inr f ↦ stopped-Drained [] w w' i f (unfold drain_loop in d)
  | inl t ↦ absurd (ground arith)
]
drain_loop-Drained (interrupted ∷ xs) w w' i k d = elim (Bool-cases (must_wait w)) [
  | inr f ↦ stopped-Drained (interrupted ∷ xs) w w' i f d
  | inl t ↦ drain_loop-Drained xs w w' i k (rw t at d)
]
drain_loop-Drained (wait_failed errno ∷ xs) w w' i k d = elim (Bool-cases (must_wait w)) [
  | inr f ↦ stopped-Drained (wait_failed errno ∷ xs) w w' i f d
  | inl t ↦ subst (Drained w) (some_eq (rw t at d)) (record {
    progress = wait_failed-Progress w (drain_failed errno);
    settled = λ h r. absurd (let b = has_failed-record (drain_failed errno) w in ground arith);
  })
]
drain_loop-Drained (ready es ∷ xs) w w' i k d = elim (Bool-cases (must_wait w)) [
  | inr f ↦ stopped-Drained (ready es ∷ xs) w w' i f d
  | inl t ↦
      let p = reap-Progress es w i k.0 in
      let rest = drain_loop-Drained xs (reap es w) w' p.steady k.1 (rw t at d) in
      record {
        progress = Progress-trans p rest.progress;
        settled = λ h r. rest.settled h (p.ready ∙ r);
      }
]

pub drain-Drained :
    (es : List Event) (xs : List Wait) (w w' : Log)
    → Sound w
    → AllWhole es
    → AllWholeWaits xs
    → drain es xs w ≡ some w'
    → Drained w w'
unfolding drain
drain-Drained es xs w w' i k ks d =
    let p = reap-Progress es w i k in
    let rest = drain_loop-Drained xs (reap es w) w' p.steady ks d in
    record {
      progress = Progress-trans p rest.progress;
      settled = λ h r. rest.settled h (p.ready ∙ r);
    }

none-InFlight : (r : Write) (xs : List Request) → length xs ≡ 0 → ¬ (InFlight r xs)
none-InFlight r [] z t = t
none-InFlight r (x ∷ xs) z t = absurd (omega arith)

-- After a drain that returned with no failure every write that was tracked has landed.
pub drain-Landed :
    (w w' : Log) (r : Write)
    → Drained w w'
    → has_failed w' ≡ false
    → w.ring_ready ≡ true
    → Tracked r w
    → Landed r w'.landed
drain-Landed w w' r d f y t = elim (d.progress.tracked r t) [
  | inl a ↦ elim d.progress.steady [
    | inl c ↦ absurd (ground arith)
    | inr i ↦ absurd (none-InFlight r w'.in_flight (sym i.counted ∙ d.settled f y) a)
  ]
  | inr (inl b) ↦ b
  | inr (inr c) ↦ absurd (ground arith)
]
