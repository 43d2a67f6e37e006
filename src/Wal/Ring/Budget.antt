-- ===== src/Wal/Ring/Budget.antt =====
-- What the requests of the ring can still complete, and that every completion lowers it.
use lsm_tree.Prelude.{
  ℕ, zero, suc, ◌+◌, ◌-◌, ◌≤◌, ◌<◌, ◌≡◌, inl, inr, refl, sym, ap, Option, none, some, List, [], ◌∷◌,
  ◌++◌, take, drop, length-append, arith, ltb, ◌==◌, length, get_elem?, Bool-cases, Option-cases,
}
use lsm_tree.Wal.Ring.{
  PendingWrite, Request, Log, Event, Outcome, wrote, failed, Submit, took, refused, record_failure,
  submit, remove_at, seen, give_up, again, resubmit, retry, finish, result, reap_one, reap, Wait,
  interrupted, wait_failed, ready, max_write_attempts, ring_entries, ecanceled,
}
use lsm_tree.Wal.Ring.Tracked.{length-remove_at}

-- The completions that a request can still have.
abbrev pub weight : Request → ℕ
weight none = 1
weight (some p) = suc (max_write_attempts - p.attempts)

unfoldable pub budget : List Request → ℕ
budget [] = 0
budget (x ∷ xs) = weight x + budget xs

budget-append : (xs ys : List Request) → budget (xs ++ ys) ≡ budget xs + budget ys
unfolding budget
budget-append [] ys = omega arith
budget-append (x ∷ xs) ys = omega (arith, budget-append xs ys)

budget-remove_at :
    (i : ℕ) (xs : List Request) (x : Request)
    → get_elem? xs i ≡ some x
    → weight x + budget (remove_at i xs) ≡ budget xs
unfolding budget remove_at
budget-remove_at i [] x h = absurd (ground arith)
budget-remove_at zero (y ∷ xs) x h =
    ap (λ (o : Option Request). elim o [ none ↦ 0 | some z ↦ weight z + budget xs ]) (sym h)
budget-remove_at (suc i) (y ∷ xs) x h = omega (arith, budget-remove_at i xs x h)

-- What can still complete: the requests in flight, and those that wait in the queue.
abbrev pub total : Log → ℕ
total w = budget w.in_flight + budget w.queue

-- Every completion that drain() counts on is one of a request in flight.
abbrev pub Counted : Log → Type 0
Counted w = w.pending_cqes ≤ length w.in_flight

-- A resubmission is refused, or the kernel takes a request of the queue at least.
abbrev pub Moves : Submit → Type 0
Moves (took n) = 0 < n
Moves (refused errno) = Unit {0}

abbrev pub AllMove : List Event → Type 0
AllMove [] = Unit {0}
AllMove (e ∷ es) = Moves e.resubmission × AllMove es

abbrev pub AllMoveWaits : List Wait → Type 0
AllMoveWaits [] = Unit {0}
AllMoveWaits (interrupted ∷ xs) = AllMoveWaits xs
AllMoveWaits (wait_failed errno ∷ xs) = AllMoveWaits xs
AllMoveWaits (ready es ∷ xs) = AllMove es × AllMoveWaits xs

budget-take-drop : (n : ℕ) (xs : List Request) → budget (take n xs) + budget (drop n xs) ≡ budget xs
unfolding budget
budget-take-drop zero xs = omega arith
budget-take-drop (suc n) [] = omega arith
budget-take-drop (suc n) (x ∷ xs) = omega (arith, budget-take-drop n xs)

take_some : (n : ℕ) (xs : List Request) (x : Request) → 0 < n → 0 < length (take n (xs ++ x ∷ []))
take_some zero xs x l = absurd (omega arith)
take_some (suc n) [] x l = omega arith
take_some (suc n) (y ∷ xs) x l = omega arith

-- `v` is `w` with a write taken out of it, whose completion is being handled; what is left is
-- counted, and has lost what the write could complete.
record Handled (x : Request) (w v : Log) : Type 0 where
  counted : Counted v
  less : total v < total w + weight x

-- `w` counts the request that was removed from it.
abbrev Owed : Log → Type 0
Owed w = w.pending_cqes ≤ suc (length w.in_flight)

-- A log that has the requests of `w`, and one count less.
seen-Handled :
    (x : Request) (w v : Log)
    → v.pending_cqes ≡ w.pending_cqes
    → v.in_flight ≡ w.in_flight
    → v.queue ≡ w.queue
    → Owed w
    → Handled x w (seen v)
unfolding seen
seen-Handled x w v p f q o =
    let l = ap length f in
    let b = ap budget f in
    let c = ap budget q in
    record {
      counted = ground arith;
      less = elim x as (λ y. total (seen v) < total w + weight y) [
        | none ↦ omega arith
        | some p ↦ omega arith
      ];
    }

one_budget :
    (p : PendingWrite)
    → p.attempts < max_write_attempts
    → budget (some (again p) ∷ []) < weight (some p)
unfolding budget again
one_budget p l = omega arith

lone_budget : budget (none ∷ []) ≡ 1
unfolding budget
lone_budget = refl

resubmit-Handled :
    (s : Submit) (p : PendingWrite) (w : Log)
    → Moves s
    → Owed w
    → p.attempts < max_write_attempts
    → Handled (some p) w (resubmit s p w)
unfolding resubmit submit again seen record_failure
resubmit-Handled (took n) p w k o l =
    let queue = w.queue ++ some (again p) ∷ [] in
    record {
      counted =
          omega (
            arith,
            take_some n w.queue (some (again p)) k,
            length-append w.in_flight (take n queue),
          );
      less = omega (
        arith,
        budget-append w.in_flight (take n queue),
        budget-take-drop n queue,
        budget-append w.queue (some (again p) ∷ []),
        one_budget p l,
      );
    }
resubmit-Handled (refused errno) p w k o l = record {
  counted = ground arith;
  less = omega (arith, budget-append w.queue (none ∷ []), lone_budget);
}

retry-Handled :
    (s : Submit) (p : PendingWrite) (w : Log) → Moves s → Owed w → Handled (some p) w (retry s p w)
unfolding retry give_up record_failure
retry-Handled s p w k o = elim (Bool-cases (ltb p.attempts max_write_attempts)) [
  | inr f ↦ rw f (seen-Handled (some p) w _ refl refl refl o)
  | inl t ↦ elim (Bool-cases (ltb (length w.queue) ring_entries)) [
    | inr f ↦ rw (t, f) (seen-Handled (some p) w _ refl refl refl o)
    | inl u ↦ rw (t, u) (resubmit-Handled s p w k o (ground arith))
  ]
]

finish-Handled :
    (s : Submit) (p : PendingWrite) (o : Outcome) (w : Log)
    → Moves s
    → Owed w
    → Handled (some p) w (finish s p o w)
unfolding finish record_failure
finish-Handled s p (wrote n) w k o = elim (Bool-cases (ltb n p.bytes)) [
  | inl t ↦ rw t (seen-Handled (some p) w _ refl refl refl o)
  | inr f ↦ rw f (seen-Handled (some p) w _ refl refl refl o)
]
finish-Handled s p (failed errno) w k o = elim (Bool-cases (errno == ecanceled)) [
  | inr f ↦ rw f (seen-Handled (some p) w _ refl refl refl o)
  | inl t ↦ rw t (retry-Handled s p w k o)
]

-- A completion: the log stays counted, and less can still complete.
pub record Reaped (w v : Log) : Type 0 where
  pub counted : Counted v
  pub less : total v < total w

pub found-Reaped :
    (e : Event) (w : Log) (x : Request)
    → Counted w
    → Moves e.resubmission
    → get_elem? w.in_flight e.which ≡ some x
    → Reaped w (reap_one e w)
unfolding reap_one
found-Reaped e w x c k h =
    let rest : Log = record w { in_flight = remove_at e.which w.in_flight } in
    let owed : Owed rest = omega (arith, length-remove_at e.which w.in_flight x h) in
    let lost = budget-remove_at e.which w.in_flight x h in
    let d = handled x rest owed in
    rw (reap_one, h) (record { counted = d.counted; less = let l = d.less in omega (arith, lost) })
  where
    handled :
        (x : Request) (rest : Log)
        → Owed rest
        → Handled x rest
            (elim x [ none ↦ seen rest | some p ↦ finish e.resubmission p (result e p) rest ])
    handled none rest o = seen-Handled none rest rest refl refl refl o
    handled (some p) rest o = finish-Handled e.resubmission p (result e p) rest k o

reap_one-le :
    (e : Event) (w : Log)
    → Counted w
    → Moves e.resubmission
    → Counted (reap_one e w) × (total (reap_one e w) ≤ total w)
unfolding reap_one
reap_one-le e w c k = elim (Option-cases (get_elem? w.in_flight e.which)) [
  | inl n ↦ rw (reap_one, n) (c, omega arith)
  | inr (x, h) ↦ let r = found-Reaped e w x c k h in (r.counted, let l = r.less in omega arith)
]

pub reap-le :
    (es : List Event) (w : Log)
    → Counted w
    → AllMove es
    → Counted (reap es w) × (total (reap es w) ≤ total w)
unfolding reap
reap-le [] w c k = (c, omega arith)
reap-le (e ∷ es) w c k =
    let p = reap_one-le e w c k.0 in
    let q = reap-le es (reap_one e w) p.0 k.1 in (q.0, omega (arith, p.1, q.1))
