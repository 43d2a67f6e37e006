-- ===== src/Wal/Ring/Retries.antt =====
-- drain() ends: each request in flight has a bounded number of completions, since a cancelled
-- write is submitted six times at most.
use lsm_tree.Prelude.{
  ℕ, zero, suc, ◌≤◌, ◌<◌, ◌≡◌, ◌≢◌, inl, inr, refl, true, false, none, some, List, [], ◌∷◌, arith,
  length, get_elem?, Bool-cases,
}
use lsm_tree.Wal.Ring.{
  Request, Log, Event, reap_one, reap, Wait, interrupted, wait_failed, ready, must_wait, drain_loop,
  drain,
}
use lsm_tree.Wal.Ring.Budget.{budget, total, Counted, AllMove, AllMoveWaits, found-Reaped, reap-le}

elem_in : (xs : List Request) (i : ℕ) → i < length xs → (x : Request) × (get_elem? xs i ≡ some x)
elem_in [] i l = absurd (omega arith)
elem_in (x ∷ xs) zero l = (x, refl)
elem_in (x ∷ xs) (suc i) l = elem_in xs i (omega arith)

-- The waits that come back with completions.
abbrev pub readies : List Wait → ℕ
readies [] = 0
readies (interrupted ∷ xs) = readies xs
readies (wait_failed errno ∷ xs) = readies xs
readies (ready es ∷ xs) = suc (readies xs)

-- A wait that comes back without an error brings the completion of a request that is in flight.
abbrev pub Serves : List Wait → Log → Type 0
Serves [] w = Unit {0}
Serves (interrupted ∷ xs) w = Serves xs w
Serves (wait_failed errno ∷ xs) w = Unit {0}
Serves (ready [] ∷ xs) w = ⊥
Serves (ready (e ∷ es) ∷ xs) w =
    must_wait w ≡ true → (e.which < length w.in_flight) × Serves xs (reap (e ∷ es) w)

no_budget : (xs : List Request) → budget xs ≤ 0 → length xs ≡ 0
unfolding budget
no_budget [] h = refl
no_budget (none ∷ xs) h = absurd (omega arith)
no_budget (some p ∷ xs) h = absurd (omega arith)

done_waiting : (w : Log) → Counted w → total w ≤ 0 → must_wait w ≡ false
unfolding must_wait
done_waiting w c b = let z = no_budget w.in_flight (omega arith) in ground arith

drain_loop_returns :
    (xs : List Wait) (w : Log)
    → Counted w
    → AllMoveWaits xs
    → Serves xs w
    → total w ≤ readies xs
    → drain_loop xs w ≢ none
unfolding drain_loop
drain_loop_returns [] w i k s b = λ d. absurd (let f = done_waiting w i b in ground arith)
drain_loop_returns (interrupted ∷ xs) w i k s b = elim (Bool-cases (must_wait w)) [
  | inr f ↦ λ d. absurd (ground arith)
  | inl t ↦ λ d. drain_loop_returns xs w i k s b (rw t at d)
]
drain_loop_returns (wait_failed errno ∷ xs) w i k s b = λ d. absurd (ground arith)
drain_loop_returns (ready [] ∷ xs) w i k s b = absurd s
drain_loop_returns (ready (e ∷ es) ∷ xs) w i k s b = elim (Bool-cases (must_wait w)) [
  | inr f ↦ λ d. absurd (ground arith)
  | inl t ↦
      let (in_range, rest) = s t in
      let (x, h) = elem_in w.in_flight e.which in_range in
      let p = found-Reaped e w x i k.0.0 h in
      let q = reap-le es (reap_one e w) p.counted k.0.1 in
      let first = p.less in
      let small : total (reap (e ∷ es) w) ≤ readies xs = unfold reap in omega (arith, q.1) in
      λ d. drain_loop_returns xs (reap (e ∷ es) w) (unfold reap in q.0) k.1 rest small (rw t at d)
]

-- drain() ends. If every count is one of a request in flight, every wait that succeeds brings a
-- completion of a request in flight, and no resubmission that returns takes nothing of the queue
-- (it can be refused), then drain() returns at the latest when it has waited successfully as often
-- as the requests in flight and in the queue can complete, which is once for an untagged one and
-- at most six times for a write.
pub drain_returns :
    (es : List Event) (xs : List Wait) (w : Log)
    → Counted w
    → AllMove es
    → AllMoveWaits xs
    → Serves xs (reap es w)
    → total (reap es w) ≤ readies xs
    → drain es xs w ≢ none
unfolding drain
drain_returns es xs w i k ks s b = drain_loop_returns xs (reap es w) (reap-le es w i k).0 ks s b
