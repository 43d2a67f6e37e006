-- ===== src/Wal/Commit/Frames.antt =====
-- Steps that leave the log as it is or move it on by completions, and the end that is published.
use lsm_tree.Prelude.{ℕ, ◌≤◌, ◌≡◌, ◌⊎◌, inl, inr, sym, ap, ◌∙◌, subst, arith, ◌==◌, Bool-cases, max}
use lsm_tree.Wal.Ring.{Log}
use lsm_tree.Wal.Ring.Tracked.{Landed, Tracked, Sound, Progress}
use lsm_tree.Wal.Commit.{Pc, System, Issued, publish_end}
use lsm_tree.Wal.Commit.Invariant.{AllSynced, At, Core, Inv, Grows}

-- A step that leaves the log, the counters and the records of it as they are.
module _ {s u : System} (i : Inv s) (log : u.log ≡ s.log) (issued : u.issued ≡ s.issued)
    (synced : u.synced ≡ s.synced) where
  pub still-Grows : Grows s u
  still-Grows = record {
    epoch = ap (λ w. w.epoch) log;
    offset = let o = ap (λ (w : Log). w.write_offset) log in omega arith;
    fresh = λ n r is. inl (subst (Issued n r) issued is);
    issued = λ n r is. subst (Issued n r) (sym issued) is;
    landed = λ r l. subst (λ w. Landed r w.landed) (sym log) l;
    synced = λ r l. subst (Landed r) (sym synced) l;
  }

  pub still-Core : u.durable_end ≡ s.durable_end → Core u
  still-Core d = record {
    steady = subst Sound (sym log) i.core.steady;
    ready = ap (λ w. w.ring_ready) log ∙ i.core.ready;
    within = let o = ap (λ (w : Log). w.write_offset) log in let w = i.core.within in omega arith;
    tracked = λ n r is.
        subst (λ w. (n ≤ w.write_offset) × Tracked r w) (sym log)
          (i.core.tracked n r (subst (Issued n r) issued is));
    stable = λ n r is le.
        subst (Landed r) (sym synced)
          (i.core.stable n r (subst (Issued n r) issued is) (omega arith));
    kept =
        λ r l. subst (λ w. Landed r w.landed) (sym log) (i.core.kept r (subst (Landed r) synced l));
  }

-- A step that moves the log on by completions, with the same tickets.
module _ {s u : System} (i : Inv s) (p : Progress s.log u.log) (issued : u.issued ≡ s.issued)
    (synced : u.synced ≡ s.synced) where
  pub moved-Grows : Grows s u
  moved-Grows = record {
    epoch = p.epoch;
    offset = let o = p.offset in omega arith;
    fresh = λ n r is. inl (subst (Issued n r) issued is);
    issued = λ n r is. subst (Issued n r) (sym issued) is;
    landed = p.landed;
    synced = λ r l. subst (Landed r) (sym synced) l;
  }

  pub moved-Core : u.durable_end ≡ s.durable_end → Core u
  moved-Core d = record {
    steady = p.steady;
    ready = p.ready ∙ i.core.ready;
    within = let o = p.offset in let w = i.core.within in omega arith;
    tracked = λ n r is.
        let t = i.core.tracked n r (subst (Issued n r) issued is) in
        let o = p.offset in (omega (arith, t.0), p.tracked r t.1);
    stable = λ n r is le.
        subst (Landed r) (sym synced)
          (i.core.stable n r (subst (Issued n r) issued is) (omega arith));
    kept = λ r l. p.landed r (i.core.kept r (subst (Landed r) synced l));
  }

-- The fact that a thread has at its place.
pub At-place : {s : System} (i : Inv s) (j : ℕ) (p : Pc) → s.pc j ≡ p → At s p
At-place {s} i j p e = subst (At s) e (i.at j)

max-le : (a b c : ℕ) → a ≤ c → b ≤ c → max a b ≤ c
max-le a b c l m = omega arith

-- Up to the end that is published all is stable.
pub publish-stable :
    (s : System) (e target : ℕ)
    → AllSynced s s.durable_end
    → AllSynced s target
    → AllSynced s (publish_end s e target)
unfolding publish_end
publish-stable s e target old new n r is le = elim (Bool-cases (s.log.epoch == e)) [
  | inr f ↦ old n r is (rw f at le)
  | inl t ↦ elim (max_cases s.durable_end target n (rw t at le)) [
    | inl a ↦ old n r is a
    | inr b ↦ new n r is b
  ]
]
  where
    max_cases : (a b n : ℕ) → n ≤ max a b → (n ≤ a) ⊎ (n ≤ b)
    max_cases a b n h = grind arith

pub publish_end-le :
    (s : System) (e target : ℕ)
    → s.durable_end ≤ s.log.write_offset
    → target ≤ s.log.write_offset
    → publish_end s e target ≤ s.log.write_offset
unfolding publish_end
publish_end-le s e target d t = elim (Bool-cases (s.log.epoch == e)) [
  | inr f ↦ rw f d
  | inl q ↦ rw q (max-le s.durable_end target s.log.write_offset d t)
]
