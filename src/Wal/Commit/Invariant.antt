-- ===== src/Wal/Commit/Invariant.antt =====
-- What holds between the steps of group commit.
use lsm_tree.Prelude.{
  ℕ, ◌≤◌, ◌<◌, ◌≡◌, ◌⊎◌, inl, inr, refl, sym, ap, ◌∙◌, subst, Bool, true, false, arith, ◌==◌,
  Bool-cases,
}
use lsm_tree.Wal.Ring.Tracked.{Write, Landed, Tracked, Sound}
use lsm_tree.Wal.Append.{Ticket}
use lsm_tree.Wal.Commit.{
  Pc, idle, thrown, waiting, failing, returned, leading, syncing, synced_up, System, set_pc, Issued,
}

-- A ticket of the log that is there was given for its write, and covers it.
abbrev pub HasTicket : System → Ticket → Write → Type 0
HasTicket s t r =
    (t.epoch ≤ s.log.epoch)
    × (t.epoch ≡ s.log.epoch → (n : ℕ) × ((n ≤ t.end) × Issued n r s.issued))

-- All that was issued up to an end is landed, or is stable.
abbrev pub AllLanded : System → ℕ → Type 0
AllLanded s end = (n : ℕ) (r : Write) → Issued n r s.issued → n ≤ end → Landed r s.log.landed

abbrev pub AllSynced : System → ℕ → Type 0
AllSynced s end = (n : ℕ) (r : Write) → Issued n r s.issued → n ≤ end → Landed r s.synced

-- What each place of the code says of the system.
abbrev pub At : System → Pc → Type 0
At s idle = Unit {0}
At s thrown = Unit {0}
At s (waiting t r) = HasTicket s t r
At s (failing t r) = HasTicket s t r
At s (returned t r) = (t.epoch ≤ s.log.epoch) × (t.epoch ≡ s.log.epoch → Landed r s.synced)
At s (leading t r e) = HasTicket s t r
At s (syncing t r e target) = HasTicket s t r × ((target ≤ s.log.write_offset) × AllLanded s target)
At s (synced_up t r e target) =
    HasTicket s t r × ((target ≤ s.log.write_offset) × AllSynced s target)

abbrev pub leads : Pc → Bool
leads (leading t r e) = true
leads (syncing t r e target) = true
leads (synced_up t r e target) = true
leads (failing t r) = true
leads p = false

-- The log and the counters.
pub record Core (s : System) : Type 0 where
  pub steady : Sound s.log
  pub ready : s.log.ring_ready ≡ true
  pub within : s.durable_end ≤ s.log.write_offset
  pub tracked :
      (n : ℕ) (r : Write) → Issued n r s.issued → (n ≤ s.log.write_offset) × Tracked r s.log
  pub stable : AllSynced s s.durable_end
  pub kept : (r : Write) → Landed r s.synced → Landed r s.log.landed

-- One thread at most leads, and the flag is set while it does.
pub record OneLeader (s : System) : Type 0 where
  pub flagged : (i : ℕ) → leads (s.pc i) ≡ true → s.sync_in_progress ≡ true
  pub one : (i j : ℕ) → leads (s.pc i) ≡ true → leads (s.pc j) ≡ true → i ≡ j

pub record Inv (s : System) : Type 0 where
  pub core : Core s
  pub at : (i : ℕ) → At s (s.pc i)
  pub leader : OneLeader s

-- What the steps but `clear` leave.
pub record Grows (s u : System) : Type 0 where
  pub epoch : u.log.epoch ≡ s.log.epoch
  pub offset : s.log.write_offset ≤ u.log.write_offset
  pub fresh :
      (n : ℕ) (r : Write) → Issued n r u.issued → Issued n r s.issued ⊎ (s.log.write_offset < n)
  pub issued : (n : ℕ) (r : Write) → Issued n r s.issued → Issued n r u.issued
  pub landed : (r : Write) → Landed r s.log.landed → Landed r u.log.landed
  pub synced : (r : Write) → Landed r s.synced → Landed r u.synced

module _ {s u : System} (g : Grows s u) where
  HasTicket-Grows : (t : Ticket) (r : Write) → HasTicket s t r → HasTicket u t r
  HasTicket-Grows t r h =
      let e = g.epoch in
      (omega (arith, h.0), λ q. let (n, rest) = h.1 (q ∙ e) in (n, (rest.0, g.issued n r rest.1)))

  -- What is known up to a target that the offset had passed stays known.
  all_of :
      (target : ℕ) (P Q : Write → Type 0)
      → target ≤ s.log.write_offset
      → ((r : Write) → P r → Q r)
      → ((n : ℕ) (r : Write) → Issued n r s.issued → n ≤ target → P r)
      → (n : ℕ) (r : Write) → Issued n r u.issued
      → n ≤ target
      → Q r
  all_of target P Q le f a n r is small = elim (g.fresh n r is) [
    | inl old ↦ f r (a n r old small)
    | inr new ↦ absurd (omega arith)
  ]

  pub At-Grows : (p : Pc) → At s p → At u p
  At-Grows idle a = tt
  At-Grows thrown a = tt
  At-Grows (waiting t r) a = HasTicket-Grows t r a
  At-Grows (failing t r) a = HasTicket-Grows t r a
  At-Grows (returned t r) a = let e = g.epoch in (omega (arith, a.0), λ q. g.synced r (a.1 (q ∙ e)))
  At-Grows (leading t r e) a = HasTicket-Grows t r a
  At-Grows (syncing t r e target) a =
      let o = g.offset in
      (
        HasTicket-Grows t r a.0,
        (
          omega (arith, a.1.0),
          all_of target (λ x. Landed x s.log.landed) (λ x. Landed x u.log.landed) a.1.0 g.landed
              a.1.1,
        ),
      )
  At-Grows (synced_up t r e target) a =
      let o = g.offset in
      (
        HasTicket-Grows t r a.0,
        (
          omega (arith, a.1.0),
          all_of target (λ x. Landed x s.synced) (λ x. Landed x u.synced) a.1.0 g.synced a.1.1,
        ),
      )

  -- A step of one thread.
  pub At-step :
      (i : ℕ) (p : Pc)
      → u.pc ≡ set_pc s.pc i p
      → ((j : ℕ) → At s (s.pc j))
      → At u p
      → (j : ℕ) → At u (u.pc j)
  At-step i p e a new j =
      subst (λ f. At u (f j)) (sym e)
        (elim (Bool-cases (j == i)) [ inl t ↦ rw t new | inr f ↦ rw f (At-Grows (s.pc j) (a j)) ])

-- A thread moves.
==_refl : (i : ℕ) → (i == i) ≡ true
==_refl i = ground arith

module _ (s u : System) (i : ℕ) (p : Pc) (o : OneLeader s) (e : u.pc ≡ set_pc s.pc i p) where
  moved : (j : ℕ) → ((j ≡ i) × (u.pc j ≡ p)) ⊎ (u.pc j ≡ s.pc j)
  moved j = elim (Bool-cases (j == i)) [
    | inl t ↦ inl (ground arith, ap (λ f. f j) e ∙ rw t refl)
    | inr f ↦ inr (ap (λ f. f j) e ∙ rw f refl)
  ]

  -- It leads as before.
  pub same-OneLeader :
      u.sync_in_progress ≡ s.sync_in_progress → leads p ≡ leads (s.pc i) → OneLeader u
  same-OneLeader f l =
      let same : (j : ℕ) → leads (u.pc j) ≡ leads (s.pc j) = λ j. elim (moved j) [
        | inl (here, now) ↦ ap leads now ∙ l ∙ ap (λ k. leads (s.pc k)) (sym here)
        | inr now ↦ ap leads now
      ] in
      record {
        flagged = λ j h. f ∙ o.flagged j (sym (same j) ∙ h);
        one = λ j k h m. o.one j k (sym (same j) ∙ h) (sym (same k) ∙ m);
      }

  -- The leader stops.
  pub stop-OneLeader : leads (s.pc i) ≡ true → leads p ≡ false → OneLeader u
  stop-OneLeader h l =
      let nobody : (j : ℕ) → leads (u.pc j) ≡ true → ⊥ = λ j m. elim (moved j) [
        | inl (here, now) ↦ absurd (let q = ap leads now in ground arith)
        | inr now ↦ not_me j now m (o.one j i (sym (ap leads now) ∙ m) h)
      ] in
      record { flagged = λ j m. absurd (nobody j m); one = λ j k m n. absurd (nobody j m) }
    where
      not_me : (j : ℕ) → u.pc j ≡ s.pc j → leads (u.pc j) ≡ true → j ≡ i → ⊥
      not_me j now m q =
          let at_i : u.pc i ≡ p = ap (λ f. f i) e ∙ rw (==_refl i) refl in
          let wrong : leads (u.pc i) ≡ false = ap leads at_i ∙ l in
          let m' : leads (u.pc i) ≡ true = subst (λ k. leads (u.pc k) ≡ true) q m in ground arith

  -- A thread starts to lead, while no one does.
  pub start-OneLeader : s.sync_in_progress ≡ false → u.sync_in_progress ≡ true → OneLeader u
  start-OneLeader off on =
      let only : (j : ℕ) → leads (u.pc j) ≡ true → j ≡ i = λ j m. elim (moved j) [
        | inl (here, now) ↦ here
        | inr now ↦ absurd (let f = o.flagged j (sym (ap leads now) ∙ m) in ground arith)
      ] in
      record { flagged = λ j m. on; one = λ j k m n. only j m ∙ sym (only k n) }
