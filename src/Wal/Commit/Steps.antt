-- ===== src/Wal/Commit/Steps.antt =====
-- Every step of group commit keeps what holds between the steps.
use lsm_tree.Prelude.{
  ℕ, ◌+◌, ◌≤◌, ◌<◌, ◌≡◌, ◌⊎◌, inl, inr, refl, sym, ap, ◌∙◌, subst, false, some, List, arith,
  Bool-cases, length,
}
use lsm_tree.Keys.{Key}
use lsm_tree.Wal.Record.{entry_size, le-align_up}
use lsm_tree.Wal.Ring.{Log, drain, Event, Wait}
use lsm_tree.Wal.Ring.Drained.{Drained, drain-Drained, drain-Landed}
use lsm_tree.Wal.Ring.Tracked.{Write, Landed, Tracked, AllWhole, AllWholeWaits}
use lsm_tree.Wal.Append.{Appended}
use lsm_tree.Wal.Append.Effect.{IsAppend, write_entry-IsAppend}
use lsm_tree.Wal.Commit.{
  waiting, System, Issued, Step, append, append_throws, sync, return_flushed, return_durable, lead,
  drained, drain_fails, fdatasync, fdatasync_fails, synced_fails, publish, publish_fails, clear,
  room_for,
}
use lsm_tree.Wal.Commit.Invariant.{
  leads, Core, Inv, Grows, At-Grows, At-step, same-OneLeader, stop-OneLeader, start-OneLeader,
}
use lsm_tree.Wal.Commit.Frames.{
  still-Grows, still-Core, moved-Grows, moved-Core, At-place, publish-stable, publish_end-le,
}
use lsm_tree.Wal.Commit.Clears.{clear-Renewed, clear-At}

-- An append, with the ticket that it returned or without one.
module _ {s u : System} (v : Inv s) {buf : List ℕ} {size : ℕ} {r : Appended}
    (a : IsAppend buf size s.log u.log r) (synced : u.synced ≡ s.synced) where
  appended-Grows :
      ((n : ℕ) (x : Write) → Issued n x u.issued → Issued n x s.issued ⊎ (s.log.write_offset < n))
      → ((n : ℕ) (x : Write) → Issued n x s.issued → Issued n x u.issued)
      → Grows s u
  appended-Grows fresh issued = record {
    epoch = a.epoch;
    offset = a.grows;
    fresh = fresh;
    issued = issued;
    landed = a.landed;
    synced = λ x l. subst (Landed x) (sym synced) l;
  }

  appended-Core :
      u.durable_end ≡ s.durable_end
      → ((n : ℕ) (x : Write)
          → Issued n x u.issued
          → Issued n x s.issued
            ⊎ ((s.log.write_offset < n) × ((n ≤ u.log.write_offset) × Tracked x u.log)))
      → Core u
  appended-Core d fresh =
      let grows = a.grows in
      let within = v.core.within in
      record {
        steady = a.steady;
        ready = a.ready ∙ v.core.ready;
        within = omega arith;
        tracked = λ n x is. elim (fresh n x is) [
          | inl old ↦ let t = v.core.tracked n x old in (omega (arith, t.0), a.tracked x t.1)
          | inr new ↦ new.1
        ];
        stable = λ n x is le. elim (fresh n x is) [
          | inl old ↦ subst (Landed x) (sym synced) (v.core.stable n x old (omega arith))
          | inr new ↦ absurd (omega (arith, new.0))
        ];
        kept = λ x l. a.landed x (v.core.kept x (subst (Landed x) synced l));
      }

-- A drain by the leader.
drain-Progress :
    (s : System) (events : List Event) (waits : List Wait) (w : Log)
    → Inv s
    → AllWhole events
    → AllWholeWaits waits
    → drain events waits s.log ≡ some w
    → Drained s.log w
drain-Progress s events waits w v k ks back =
    drain-Drained events waits s.log w v.core.steady k ks back

size-pos : (key value : Key) → 0 < room_for key value
unfolding room_for entry_size
size-pos key value = omega (arith, le-align_up (1 + 4 + 4 + length key + length value + 4))

pub Step-Inv : {s u : System} → Step s u → Inv s → Inv u
Step-Inv {s} {u} (append i calls type key value t here whole room done) v =
    let a =
      write_entry-IsAppend calls type key value s.log v.core.steady whole
        (unfold room_for in room) in
    let k = a.ticket t done in
    let positive = size-pos key value in
    let past : s.log.write_offset < t.end = unfold room_for in omega (arith, k.1.0) in
    let g : Grows s u =
      appended-Grows v a refl
        (λ n x is. elim is [ inl e ↦ inr (omega (arith, e.0)) | inr old ↦ inl old ])
        (λ n x is. inr is) in
    record {
      core = appended-Core v a refl refl (λ n x is. elim is [
        | inl e ↦ inr (
          omega (arith, e.0),
          (omega (arith, e.0, k.1.1.0), subst (λ y. Tracked y u.log) e.1 k.1.1.1),
        )
        | inr old ↦ inl old
      ]);
      at =
          At-step g i _ refl v.at
            (omega (arith, k.0, a.epoch), λ q. (t.end, (omega arith, inl (refl, refl))));
      leader = same-OneLeader s u i _ v.leader refl refl (sym (ap leads here));
    }
Step-Inv {s} {u} (append_throws i calls type key value e here whole room done) v =
    let a =
      write_entry-IsAppend calls type key value s.log v.core.steady whole
        (unfold room_for in room) in
    let g : Grows s u = appended-Grows v a refl (λ n x is. inl is) (λ n x is. is) in
    record {
      core = appended-Core v a refl refl (λ n x is. inl is);
      at = At-step g i _ refl v.at tt;
      leader = same-OneLeader s u i _ v.leader refl refl (sym (ap leads here));
    }
Step-Inv {s} {u} (sync i n r here is) v =
    let g : Grows s u = still-Grows v refl refl refl in
    let le = v.core.tracked n r is in
    record {
      core = still-Core v refl refl refl refl;
      at = At-step g i _ refl v.at (omega arith, λ q. (n, (le.0, is)));
      leader = same-OneLeader s u i _ v.leader refl refl (sym (ap leads here));
    }
Step-Inv {s} {u} (return_flushed i t r here flushed) v =
    let g : Grows s u = still-Grows v refl refl refl in
    let a = At-place v i _ here in
    record {
      core = still-Core v refl refl refl refl;
      at = At-step g i _ refl v.at (a.0, λ q. absurd (flushed q));
      leader = same-OneLeader s u i _ v.leader refl refl (sym (ap leads here));
    }
Step-Inv {s} {u} (return_durable i t r here same le) v =
    let g : Grows s u = still-Grows v refl refl refl in
    let a = At-place v i _ here in
    record {
      core = still-Core v refl refl refl refl;
      at =
          At-step g i _ refl v.at
            (a.0, λ q. let (n, rest) = a.1 q in v.core.stable n r rest.1 (omega (arith, rest.0)));
      leader = same-OneLeader s u i _ v.leader refl refl (sym (ap leads here));
    }
Step-Inv {s} {u} (lead i t r here same less off) v =
    let g : Grows s u = still-Grows v refl refl refl in
    record {
      core = still-Core v refl refl refl refl;
      at = At-step g i _ refl v.at (At-place v i _ here);
      leader = start-OneLeader s u i _ v.leader refl off refl;
    }
Step-Inv {s} {u} (drained i t r e events waits w here k ks back good) v =
    let d = drain-Progress s events waits w v k ks back in
    let g : Grows s u = moved-Grows v d.progress refl refl in
    record {
      core = moved-Core v d.progress refl refl refl;
      at = At-step g i _ refl v.at (
        At-Grows g (waiting t r) (At-place v i _ here),
        (
          omega arith,
          λ n x is le. drain-Landed s.log w x d good v.core.ready (v.core.tracked n x is).1,
        ),
      );
      leader = same-OneLeader s u i _ v.leader refl refl (sym (ap leads here));
    }
Step-Inv {s} {u} (drain_fails i t r e events waits w here k ks back bad) v =
    let d = drain-Progress s events waits w v k ks back in
    let g : Grows s u = moved-Grows v d.progress refl refl in
    record {
      core = moved-Core v d.progress refl refl refl;
      at = At-step g i _ refl v.at (At-Grows g (waiting t r) (At-place v i _ here));
      leader = same-OneLeader s u i _ v.leader refl refl (sym (ap leads here));
    }
Step-Inv {s} {u} (fdatasync i t r e target here) v =
    let a = At-place v i _ here in
    let g : Grows s u = record {
      epoch = refl;
      offset = omega arith;
      fresh = λ n x is. inl is;
      issued = λ n x is. is;
      landed = λ x l. l;
      synced = v.core.kept;
    } in
    record {
      core = record {
        steady = v.core.steady;
        ready = v.core.ready;
        within = v.core.within;
        tracked = v.core.tracked;
        stable = λ n x is le. v.core.kept x (v.core.stable n x is le);
        kept = λ x l. l;
      };
      at = At-step g i _ refl v.at (At-Grows g (waiting t r) a.0, a.1);
      leader = same-OneLeader s u i _ v.leader refl refl (sym (ap leads here));
    }
Step-Inv {s} {u} (fdatasync_fails i t r e target called here) v =
    let g : Grows s u = still-Grows v refl refl refl in
    record {
      core = still-Core v refl refl refl refl;
      at = At-step g i _ refl v.at (At-place v i _ here).0;
      leader = same-OneLeader s u i _ v.leader refl refl (sym (ap leads here));
    }
Step-Inv {s} {u} (synced_fails i t r e target here) v =
    let g : Grows s u = still-Grows v refl refl refl in
    record {
      core = still-Core v refl refl refl refl;
      at = At-step g i _ refl v.at (At-place v i _ here).0;
      leader = same-OneLeader s u i _ v.leader refl refl (sym (ap leads here));
    }
Step-Inv {s} {u} (publish i t r e target here) v =
    let a = At-place v i _ here in
    let g : Grows s u = still-Grows v refl refl refl in
    record {
      core = record {
        steady = v.core.steady;
        ready = v.core.ready;
        within = publish_end-le s e target v.core.within a.1.0;
        tracked = v.core.tracked;
        stable = publish-stable s e target v.core.stable a.1.1;
        kept = v.core.kept;
      };
      at = At-step g i _ refl v.at a.0;
      leader = stop-OneLeader s u i _ v.leader refl (ap leads here) refl;
    }
Step-Inv {s} {u} (publish_fails i t r here) v =
    let g : Grows s u = still-Grows v refl refl refl in
    record {
      core = still-Core v refl refl refl refl;
      at = At-step g i _ refl v.at tt;
      leader = stop-OneLeader s u i _ v.leader refl (ap leads here) refl;
    }
Step-Inv {s} {u} (clear calls w off k ks back) v =
    let n = clear-Renewed calls s.log w v.core.steady k ks back in
    let nobody : (j : ℕ) → leads (s.pc j) ≡ false = λ j. elim (Bool-cases (leads (s.pc j))) [
      | inl t ↦ absurd (let f = v.leader.flagged j t in ground arith)
      | inr f ↦ f
    ] in
    record {
      core = record {
        steady = n.steady;
        ready = n.ready;
        within = omega arith;
        tracked = λ m x is. absurd is;
        stable = λ m x is le. absurd is;
        kept = λ x l. absurd l;
      };
      at = λ j. clear-At s u (s.pc j) (nobody j) n.epoch (v.at j);
      leader = record { flagged = v.leader.flagged; one = v.leader.one };
    }
