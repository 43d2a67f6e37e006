-- ===== src/Wal/Ring/Reaped.antt =====
-- reap() loses no write.
use lsm_tree.Prelude.{
  ℕ, suc, ◌-◌, ◌≡◌, ◌⊎◌, inl, inr, refl, sym, ◌∙◌, subst, true, none, some, List, [], ◌∷◌, arith,
  ltb, ◌==◌, if◌then◌else◌, length, get_elem?, Bool-cases, length-append,
}
use lsm_tree.Wal.Ring.{
  PendingWrite, Request, Log, Failure, Event, Outcome, wrote, failed, Submit, took, refused,
  record_failure, submit, remove_at, seen, give_up, again, resubmit, retry, finish, result,
  reap_one, reap, max_write_attempts, ring_entries, ecanceled, cancelled, short_write, write_failed,
}
use lsm_tree.Wal.Ring.Tracked.{
  Sound, InFlight, has_failed, IsSteady, IsWhole, AllWhole, Progress, Progress-trans, Progress-refl,
  length-remove_at, InFlight-remove_at, InFlight-append,
}
use lsm_tree.Wal.Ring.Failing.{reap_one-Keeps, failing-Progress}

counted_down : (n m : ℕ) → n ≡ suc m → (if ltb 0 n then n - 1 else 0) ≡ m
counted_down n m e = ground arith

-- A log that has lost a request in flight, `w` being the log before.
module _ (w : Log) (i : IsSteady w) (which : ℕ) (x : Request)
    (at : get_elem? w.in_flight which ≡ some x) where
  rest : Log
  rest = record w { in_flight = remove_at which w.in_flight }

  one_less : w.pending_cqes ≡ suc (length (remove_at which w.in_flight))
  one_less = i.counted ∙ sym (length-remove_at which w.in_flight x at)

  failed-Progress : (f : Failure) → Progress w (seen (record_failure f rest))
  unfolding rest seen record_failure
  failed-Progress f = record {
    steady = inr (record { queue = i.queue; counted = counted_down w.pending_cqes _ one_less });
    tracked = λ r t. inr (inr (unfold has_failed in ground arith));
    landed = λ r t. t;
    failed = λ h. unfold has_failed in ground arith;
    offset = refl;
    epoch = refl;
    ready = refl;
  }

  -- The request carried no tag.
  untagged-Progress : x ≡ none → Progress w (seen rest)
  unfolding rest seen has_failed
  untagged-Progress e = record {
    steady = inr (record { queue = i.queue; counted = counted_down w.pending_cqes _ one_less });
    tracked = λ r t. elim t [
      | inl a ↦ elim (InFlight-remove_at r which w.in_flight x at a) [
        | inl b ↦ absurd (subst (λ y. InFlight r (y ∷ [])) e b)
        | inr b ↦ inl b
      ]
      | inr b ↦ inr b
    ];
    landed = λ r t. t;
    failed = λ h. h;
    offset = refl;
    epoch = refl;
    ready = refl;
  }

  module _ (p : PendingWrite) (tag : x ≡ some p) where
    -- The write landed.
    landed-Progress : Progress w (seen (record rest { landed = p ∷ w.landed }))
    unfolding rest seen has_failed
    landed-Progress = record {
      steady = inr (record { queue = i.queue; counted = counted_down w.pending_cqes _ one_less });
      tracked = λ r t. elim t [
        | inl a ↦ elim (InFlight-remove_at r which w.in_flight x at a) [
          | inl b ↦ elim (subst (λ y. InFlight r (y ∷ [])) tag b) [
            | inl c ↦ inr (inl (inl c))
            | inr c ↦ absurd c
          ]
          | inr b ↦ inl b
        ]
        | inr (inl b) ↦ inr (inl (inr b))
        | inr (inr b) ↦ inr (inr b)
      ];
      landed = λ r t. inr t;
      failed = λ h. h;
      offset = refl;
      epoch = refl;
      ready = refl;
    }

    -- The write is in flight once more.
    again-Progress : Progress w (resubmit (took 1) p rest)
    unfolding rest resubmit submit again has_failed
    again-Progress = record {
      steady = inr (record {
        queue = rw i.queue refl;
        counted = rw i.queue (
            one_less
            ∙ sym
                (length-append (remove_at which w.in_flight) (some (again p) ∷ []) ∙ omega arith));
      });
      tracked = λ r t. elim t [
        | inl a ↦ inl (
            rw i.queue (
              InFlight-append r (remove_at which w.in_flight) (some (again p) ∷ [])
                (elim (InFlight-remove_at r which w.in_flight x at a) [
                  | inl b ↦ inr (subst (λ y. InFlight r (y ∷ [])) tag b)
                  | inr b ↦ inl b
                ])))
        | inr b ↦ inr b
      ];
      landed = λ r t. t;
      failed = λ h. h;
      offset = refl;
      epoch = refl;
      ready = refl;
    }

    -- The write could not be submitted again.
    refused-Progress : (errno : ℕ) → Progress w (resubmit (refused errno) p rest)
    unfolding rest resubmit seen record_failure
    refused-Progress errno = record {
      steady = inl (unfold has_failed in ground arith);
      tracked = λ r t. inr (inr (unfold has_failed in ground arith));
      landed = λ r t. t;
      failed = λ h. unfold has_failed in ground arith;
      offset = refl;
      epoch = refl;
      ready = refl;
    }

    retry-Progress :
        (s : Submit)
        → (s ≡ took 1) ⊎ ((errno : ℕ) × (s ≡ refused errno))
        → Progress w (retry s p rest)
    unfolding retry give_up
    retry-Progress s e = elim (Bool-cases (ltb p.attempts max_write_attempts)) [
      | inr f ↦ rw f (failed-Progress (cancelled p.attempts p.offset))
      | inl t ↦
          let free : ltb (length rest.queue) ring_entries ≡ true = unfold rest in rw i.queue refl in
          elim e [
            | inl a ↦ rw (t, free, a) again-Progress
            | inr (errno, a) ↦ rw (t, free, a) (refused-Progress errno)
          ]
    ]

    finish-Progress :
        (s : Submit) (o : Outcome)
        → (s ≡ took 1) ⊎ ((errno : ℕ) × (s ≡ refused errno))
        → Progress w (finish s p o rest)
    unfolding finish
    finish-Progress s (failed errno) e = elim (Bool-cases (errno == ecanceled)) [
      | inl t ↦ rw t (retry-Progress s e)
      | inr f ↦ rw f (failed-Progress (write_failed errno))
    ]
    finish-Progress s (wrote n) e = elim (Bool-cases (ltb n p.bytes)) [
      | inl t ↦ rw t (failed-Progress (short_write n p.bytes))
      | inr f ↦ rw f (unfold rest in landed-Progress)
    ]

record Found (w : Log) (which : ℕ) : Type 0 where
  request : Request
  at : get_elem? w.in_flight which ≡ some request

Found-cases : (w : Log) (which : ℕ) → (get_elem? w.in_flight which ≡ none) ⊎ Found w which
Found-cases w which =
    elim (get_elem? w.in_flight which)
        as (λ v.
          get_elem? w.in_flight which ≡ v → (get_elem? w.in_flight which ≡ none) ⊎ Found w which) [
            | none ↦ λ e. inl e
            | some x ↦ λ e. inr (record { request = x; at = e })
          ]
      refl

tagged :
    (w : Log) (e : Event) (x : Request)
    → get_elem? w.in_flight e.which ≡ some x
    → IsSteady w
    → IsWhole e
    → Progress w (reap_one e w)
unfolding reap_one
tagged w e none at i k =
    rw (reap_one, at) (unfold rest in untagged-Progress w i e.which none at refl)
tagged w e (some p) at i k =
    rw (reap_one, at)
      (unfold rest in finish-Progress w i e.which (some p) at p refl e.resubmission (result e p) k)

pub reap_one-Progress : (e : Event) (w : Log) → Sound w → IsWhole e → Progress w (reap_one e w)
reap_one-Progress e w i k = elim (Found-cases w e.which) [
  | inl n ↦ unfold reap_one in rw (reap_one, n) (Progress-refl w i)
  | inr f ↦ elim i [
    | inl h ↦ failing-Progress w (reap_one e w) h (reap_one-Keeps e w f.request f.at)
    | inr j ↦ tagged w e f.request f.at j k
  ]
]

pub reap-Progress : (es : List Event) (w : Log) → Sound w → AllWhole es → Progress w (reap es w)
unfolding reap
reap-Progress [] w i k = Progress-refl w i
reap-Progress (e ∷ es) w i k =
    let one = reap_one-Progress e w i k.0 in
    Progress-trans one (reap-Progress es (reap_one e w) one.steady k.1)
