-- ===== src/Wal/Ring/Tracked.antt =====
-- No write is lost: one that was submitted is in flight, has landed, or a failure is recorded.
use lsm_tree.Prelude.{
  ℕ, zero, suc, ◌≡◌, ◌⊎◌, inl, inr, refl, ap, ◌∙◌, subst, Bool, true, false, none, some, List, [],
  ◌∷◌, ◌++◌, arith, length, get_elem?,
}
use lsm_tree.Wal.Ring.{
  PendingWrite, Request, Log, Failure, Event, took, refused, record_failure, remove_at, Wait,
  interrupted, wait_failed, ready,
}

-- A write by its place in the file and its bytes.
pub record Write : Type 0 where
  pub offset : ℕ
  pub buf : List ℕ

abbrev pub of_pending : PendingWrite → Write
of_pending p = record { offset = p.offset; buf = p.buf }

abbrev pub Landed : Write → List PendingWrite → Type 0
Landed r [] = ⊥
Landed r (p ∷ ps) = (of_pending p ≡ r) ⊎ Landed r ps

abbrev pub InFlight : Write → List Request → Type 0
InFlight r [] = ⊥
InFlight r (none ∷ xs) = InFlight r xs
InFlight r (some p ∷ xs) = (of_pending p ≡ r) ⊎ InFlight r xs

unfoldable pub has_failed : Log → Bool
has_failed w = elim w.failure [ none ↦ false | some f ↦ true ]

abbrev pub Tracked : Write → Log → Type 0
Tracked r w = InFlight r w.in_flight ⊎ (Landed r w.landed ⊎ (has_failed w ≡ true))

-- Between two calls nothing waits in the queue, and every request in flight is counted.
pub record IsSteady (w : Log) : Type 0 where
  pub queue : w.queue ≡ []
  pub counted : w.pending_cqes ≡ length w.in_flight

-- A log that has failed takes no more writes; one that has not is steady.
abbrev pub Sound : Log → Type 0
Sound w = (has_failed w ≡ true) ⊎ IsSteady w

-- The kernel takes the one request that a resubmission queues, or refuses to.
abbrev pub IsWhole : Event → Type 0
IsWhole e = (e.resubmission ≡ took 1) ⊎ ((errno : ℕ) × (e.resubmission ≡ refused errno))

abbrev pub AllWhole : List Event → Type 0
AllWhole [] = Unit {0}
AllWhole (e ∷ es) = IsWhole e × AllWhole es

abbrev pub AllWholeWaits : List Wait → Type 0
AllWholeWaits [] = Unit {0}
AllWholeWaits (interrupted ∷ xs) = AllWholeWaits xs
AllWholeWaits (wait_failed errno ∷ xs) = AllWholeWaits xs
AllWholeWaits (ready es ∷ xs) = AllWhole es × AllWholeWaits xs

-- What completions keep.
pub record Progress (w w' : Log) : Type 0 where
  pub steady : Sound w'
  pub tracked : (r : Write) → Tracked r w → Tracked r w'
  pub landed : (r : Write) → Landed r w.landed → Landed r w'.landed
  pub failed : has_failed w ≡ true → has_failed w' ≡ true
  pub offset : w'.write_offset ≡ w.write_offset
  pub epoch : w'.epoch ≡ w.epoch
  pub ready : w'.ring_ready ≡ w.ring_ready

pub Progress-trans : {u v w : Log} → Progress u v → Progress v w → Progress u w
Progress-trans a b = record {
  steady = b.steady;
  tracked = λ r t. b.tracked r (a.tracked r t);
  landed = λ r t. b.landed r (a.landed r t);
  failed = λ f. b.failed (a.failed f);
  offset = b.offset ∙ a.offset;
  epoch = b.epoch ∙ a.epoch;
  ready = b.ready ∙ a.ready;
}

pub Progress-refl : (w : Log) → Sound w → Progress w w
Progress-refl w i = record {
  steady = i;
  tracked = λ r t. t;
  landed = λ r t. t;
  failed = λ f. f;
  offset = refl;
  epoch = refl;
  ready = refl;
}

pub has_failed-record : (f : Failure) (w : Log) → has_failed (record_failure f w) ≡ true
unfolding has_failed record_failure
has_failed-record f w = ground arith

pub length-remove_at :
    (i : ℕ) (xs : List Request) (x : Request)
    → get_elem? xs i ≡ some x
    → suc (length (remove_at i xs)) ≡ length xs
unfolding remove_at
length-remove_at i [] x h = absurd (ground arith)
length-remove_at zero (y ∷ xs) x h = refl
length-remove_at (suc i) (y ∷ xs) x h = ap suc (length-remove_at i xs x h)

-- A write in flight is the one that is removed, or stays in flight.
pub InFlight-remove_at :
    (r : Write) (i : ℕ) (xs : List Request) (x : Request)
    → get_elem? xs i ≡ some x
    → InFlight r xs
    → InFlight r (x ∷ []) ⊎ InFlight r (remove_at i xs)
unfolding remove_at
InFlight-remove_at r i [] x h t = absurd t
InFlight-remove_at r zero (none ∷ xs) x h t = inr t
InFlight-remove_at r zero (some p ∷ xs) x h (inl e) =
    inl (subst (λ y. InFlight r (y ∷ [])) (the_same h) (inl e))
  where
    the_same : some (some p) ≡ some x → some p ≡ x
    the_same e = ground arith
InFlight-remove_at r zero (some p ∷ xs) x h (inr t) = inr t
InFlight-remove_at r (suc i) (none ∷ xs) x h t = InFlight-remove_at r i xs x h t
InFlight-remove_at r (suc i) (some p ∷ xs) x h (inl e) = inr (inl e)
InFlight-remove_at r (suc i) (some p ∷ xs) x h (inr t) = elim (InFlight-remove_at r i xs x h t) [
  | inl a ↦ inl a
  | inr b ↦ inr (inr b)
]

pub InFlight-append :
    (r : Write) (xs ys : List Request) → InFlight r xs ⊎ InFlight r ys → InFlight r (xs ++ ys)
InFlight-append r [] ys (inl t) = absurd t
InFlight-append r [] ys (inr t) = t
InFlight-append r (none ∷ xs) ys t = InFlight-append r xs ys t
InFlight-append r (some p ∷ xs) ys (inl (inl e)) = inl e
InFlight-append r (some p ∷ xs) ys (inl (inr t)) = inr (InFlight-append r xs ys (inl t))
InFlight-append r (some p ∷ xs) ys (inr t) = inr (InFlight-append r xs ys (inr t))
