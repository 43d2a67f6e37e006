-- ===== src/Wal/Commit/Durable.antt =====
-- What waitDurable promises, in every reachable state of group commit.
use lsm_tree.Prelude.{ℕ, ◌≡◌, inr, refl, sym, ◌∙◌, true, false-true, arith}
use lsm_tree.Wal.Ring.Drained.{drain-Drained}
use lsm_tree.Wal.Append.Effect.{write_entry-IsAppend}
use lsm_tree.Wal.Commit.{
  System, Reach, start, later, opened, Step, append, append_throws, sync, return_flushed,
  return_durable, lead, drained, drain_fails, fdatasync, fdatasync_fails, synced_fails, publish,
  publish_fails, clear, room_for,
}
use lsm_tree.Wal.Commit.Invariant.{Inv, leads}
use lsm_tree.Wal.Commit.Steps.{Step-Inv}

opened-Inv : (size : ℕ) → Inv (opened size)
opened-Inv size = record {
  core = record {
    steady = inr (record { queue = refl; counted = refl });
    ready = refl;
    within = omega arith;
    tracked = λ n r is. absurd is;
    stable = λ n r is le. absurd is;
    kept = λ r l. absurd l;
  };
  at = λ i. tt;
  leader = record {
    flagged = λ i h. absurd (ground arith);
    one = λ i j h k. absurd (ground arith);
  };
}

Reach-Inv : {size : ℕ} {s : System} → Reach size s → Inv s
Reach-Inv {size} start = opened-Inv size
Reach-Inv (later r st) = Step-Inv st (Reach-Inv r)

-- No step but clear() gives the log a new epoch, and clear() does not run while the flag is set.
leading-epoch :
    {s u : System} → Step s u → Inv s → s.sync_in_progress ≡ true → u.log.epoch ≡ s.log.epoch
leading-epoch {s} (append i calls type key value t here whole room done) v on =
    let a =
      write_entry-IsAppend calls type key value s.log v.core.steady whole
        (unfold room_for in room) in
    a.epoch
leading-epoch {s} (append_throws i calls type key value e here whole room done) v on =
    let a =
      write_entry-IsAppend calls type key value s.log v.core.steady whole
        (unfold room_for in room) in
    a.epoch
leading-epoch (sync i n r here is) v on = refl
leading-epoch (return_flushed i t r here flushed) v on = refl
leading-epoch (return_durable i t r here same le) v on = refl
leading-epoch (lead i t r here same less off) v on = refl
leading-epoch {s} (drained i t r e events waits w here k ks back good) v on =
    (drain-Drained events waits s.log w v.core.steady k ks back).progress.epoch
leading-epoch {s} (drain_fails i t r e events waits w here k ks back bad) v on =
    (drain-Drained events waits s.log w v.core.steady k ks back).progress.epoch
leading-epoch (fdatasync i t r e target here) v on = refl
leading-epoch (fdatasync_fails i t r e target called here) v on = refl
leading-epoch (synced_fails i t r e target here) v on = refl
leading-epoch (publish i t r e target here) v on = refl
leading-epoch (publish_fails i t r here) v on = refl
leading-epoch (clear calls w off k ks back) v on = absurd (false-true (sym off ∙ on))

-- In every such state in which a thread leads a group commit, no other thread leads one,
-- sync_in_progress_ is set, and no step of any thread, so no clear() either, gives the log another
-- epoch.
pub one_leader :
    {size : ℕ} {s : System}
    → Reach size s
    → (i j : ℕ) → leads (s.pc i) ≡ true
    → leads (s.pc j) ≡ true
    → (i ≡ j)
      × ((s.sync_in_progress ≡ true) × ((u : System) → Step s u → u.log.epoch ≡ s.log.epoch))
one_leader reach i j a b =
    let v = Reach-Inv reach in
    let on = v.leader.flagged i a in (v.leader.one i j a b, (on, λ u st. leading-epoch st v on))
