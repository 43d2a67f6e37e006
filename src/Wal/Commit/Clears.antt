-- ===== src/Wal/Commit/Clears.antt =====
-- What clear() leaves of the log and of what the threads know.
use lsm_tree.Prelude.{
  ◌+◌, ◌≡◌, inl, inr, refl, ap, ◌∙◌, subst, Bool, true, false, none, some, arith, Bool-cases,
  Option-cases,
}
use lsm_tree.Wal.Ring.{Log, drain}
use lsm_tree.Wal.Ring.Drained.{drain-Drained}
use lsm_tree.Wal.Ring.Tracked.{has_failed, Sound, AllWhole, AllWholeWaits}
use lsm_tree.Wal.Append.{ClearCalls, clear_log, renew}
use lsm_tree.Wal.Commit.{
  Pc, idle, thrown, waiting, failing, returned, leading, syncing, synced_up, System,
}
use lsm_tree.Wal.Commit.Invariant.{At, leads}

-- What clear() leaves when it returns.
pub record Renewed (w w' : Log) : Type 0 where
  pub steady : Sound w'
  pub ready : w'.ring_ready ≡ true
  pub epoch : w'.epoch ≡ w.epoch + 1

-- renew() that returned true: none of its calls failed.
renewed : (calls : ClearCalls) (w w' : Log) → renew calls w ≡ (true, w') → (renew calls w).1 ≡ w'
renewed calls w w' q = ap (λ (r : Bool × Log). r.1) q

renew-Renewed :
    (calls : ClearCalls) (w w' : Log)
    → renew calls w ≡ (true, w')
    → (Sound w' × (w'.ring_ready ≡ true)) × (w'.epoch ≡ w.epoch)
unfolding renew
renew-Renewed calls w w' q = elim (Bool-cases calls.remove_fails) [
  | inl t ↦ absurd (ground arith)
  | inr f ↦ elim (Bool-cases calls.open_fails) [
    | inl t ↦ absurd (ground arith)
    | inr g ↦ elim (Bool-cases calls.init_fails) [
      | inl t ↦ absurd (ground arith)
      | inr h ↦
          subst (λ (x : Log). (Sound x × (x.ring_ready ≡ true)) × (x.epoch ≡ w.epoch))
            (rw (f, g, h) at (renewed calls w w' q))
            ((inr (record { queue = refl; counted = refl }), refl), refl)
    ]
  ]
]

pub clear-Renewed :
    (calls : ClearCalls) (w w' : Log)
    → Sound w
    → AllWhole calls.events
    → AllWholeWaits calls.waits
    → clear_log calls w ≡ some (true, w')
    → Renewed w w'
unfolding clear_log has_failed
clear-Renewed calls w w' i k ks q =
    let next = record w { epoch = w.epoch + 1 } in
    elim (Option-cases (drain calls.events calls.waits next)) [
      | inl n ↦ absurd (ground arith)
      | inr (x, at) ↦
          let d = drain-Drained calls.events calls.waits next x (next_Sound i) k ks at in
          let back : renew calls x ≡ (true, w') = unwrap (rw (clear_log, at) at q) in
          let n = renew-Renewed calls x w' back in
          record { steady = n.0.0; ready = n.0.1; epoch = n.1 ∙ d.progress.epoch }
    ]
  where
    next_Sound : Sound w → Sound (record w { epoch = w.epoch + 1 })
    next_Sound (inl h) = inl h
    next_Sound (inr i) = inr (record { queue = i.queue; counted = i.counted })

    unwrap : {a b : Bool × Log} → some a ≡ some b → a ≡ b
    unwrap {a} e = ap (λ o. elim o [ none ↦ a | some x ↦ x ]) e

pub clear-At :
    (s u : System) (p : Pc) → leads p ≡ false → u.log.epoch ≡ s.log.epoch + 1 → At s p → At u p
clear-At s u idle l e a = tt
clear-At s u thrown l e a = tt
clear-At s u (waiting t r) l e a = (omega (arith, a.0), λ q. absurd (omega (arith, a.0)))
clear-At s u (failing t r) l e a = absurd (ground arith)
clear-At s u (returned t r) l e a = (omega (arith, a.0), λ q. absurd (omega (arith, a.0)))
clear-At s u (leading t r x) l e a = absurd (ground arith)
clear-At s u (syncing t r x g) l e a = absurd (ground arith)
clear-At s u (synced_up t r x g) l e a = absurd (ground arith)
