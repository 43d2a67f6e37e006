-- ===== src/Fault/Window.antt =====
-- An armed point fires in one window of its hits.
use lsm_tree.Prelude.{
  ℕ, zero, suc, ◌+◌, ◌-◌, ◌%◌, ◌^◌, ◌<◌, ◌≡◌, inl, inr, refl, ap, ◌∙◌, Bool, true, false, none,
  some, List, [], ◌∷◌, arith, Bool-cases, leb, ltb, ◌==◌, ◌&&◌, if◌then◌else◌,
}
use lsm_tree.Keys.{Key, key_eq, key_eq_refl}
use lsm_tree.Fault.{Action, Point, Faults, point_of, set_point, hit_point, fires, arm}

point_of-set_point :
    (name : Key) (q : Point) (ps : List (Key × Point)) → point_of name (set_point name q ps) ≡ q
unfolding point_of set_point
point_of-set_point name q [] = rw (key_eq_refl name)
point_of-set_point name q (p ∷ ps) = elim (Bool-cases (key_eq p.0 name)) [
  | inl t ↦ rw (t, key_eq_refl name)
  | inr f ↦ rw (f, f) (point_of-set_point name q ps)
]

-- The state after some hits of a point.
unfoldable pub after_hits : ℕ → Faults → Key → Faults
after_hits zero s name = s
after_hits (suc k) s name = (fires (after_hits k s name) name).1

unfoldable pub times : ℕ → ℕ
times repeat = if repeat == 0 then 1 else repeat

-- A point that was armed for its `nth` hit, after `k` hits.
point_after : ℕ → Action → ℕ → ℕ → Point
point_after nth action repeat k = record {
  hits = k;
  nth = if leb (nth + times repeat) (k + 1) then 0 else nth;
  repeat = times repeat;
  action = action;
}

module _ (nth repeat : ℕ) (action : Action) (armed : 0 < nth) where
  times-pos : 0 < times repeat
  unfolding times
  times-pos = ground arith

  hit_point-after :
      (k : ℕ)
      → nth + times repeat + k + 1 < 2 ^ 64
      → hit_point (point_after nth action repeat k) ≡ (
        leb nth (k + 1) && ltb (k + 1) (nth + times repeat),
        point_after nth action repeat (k + 1),
      )
  unfolding hit_point point_after
  hit_point-after k room =
      let pos = times-pos in
      let next : (k + 1) % 2 ^ 64 ≡ k + 1 = omega arith in
      let last : (nth + times repeat + 2 ^ 64 - 1) % 2 ^ 64 ≡ nth + times repeat - 1 =
        omega arith in
      elim (Bool-cases (leb (nth + times repeat) (k + 1))) [
        | inl over ↦
            let past : leb (nth + times repeat) (k + 1 + 1) ≡ true = ground arith in
            let out : ltb (k + 1) (nth + times repeat) ≡ false = ground arith in
            let from : leb nth (k + 1) ≡ true = ground arith in rw (over, next, past, out, from)
        | inr ahead ↦
            let within : ltb (k + 1) (nth + times repeat) ≡ true = ground arith in
            let still : (nth == 0) ≡ false = ground arith in
            rw (ahead, next, last, within, still)
              (elim (Bool-cases (leb nth (k + 1))) [
                | inl t ↦
                    let shift : leb (nth + times repeat - 1) (k + 1)
                        ≡ leb (nth + times repeat) (k + 1 + 1) =
                      ground arith in
                    rw (t, shift)
                | inr f ↦
                    let later : leb (nth + times repeat) (k + 1 + 1) ≡ false = ground arith in
                    rw (f, later)
              ])
      ]

  hit_point-start :
      (s : Faults) (name : Key)
      → point_of name (arm s name nth action repeat).points ≡ point_after nth action repeat 0
  unfolding arm point_after times
  hit_point-start s name =
      let early : leb (nth + times repeat) (0 + 1) ≡ false =
        (let pos = times-pos in ground arith) in
      point_of-set_point name _ s.points ∙ rw early

  after_hits-point :
      (k : ℕ) (s : Faults) (name : Key)
      → nth + times repeat + k < 2 ^ 64
      → point_of name (after_hits k (arm s name nth action repeat) name).points
        ≡ point_after nth action repeat k
  unfolding after_hits fires
  after_hits-point zero s name room = hit_point-start s name
  after_hits-point (suc k) s name room =
      point_of-set_point name _ (after_hits k (arm s name nth action repeat) name).points
      ∙ ap (λ p. (hit_point p).1) (after_hits-point k s name (omega arith))
      ∙ ap (λ (r : Bool × Point). r.1) (hit_point-after k (omega arith))
      ∙ ap (point_after nth action repeat) (omega arith)

  -- A point armed for its `nth` hit, counted from 1, and for a number of repeats, where 0 means 1,
  -- fires at exactly that many hits from the `nth` on, with the action it was armed for: the hit
  -- behind `k` others fires if and only if it is one of them.
  pub fires-window :
      (k : ℕ) (s : Faults) (name : Key)
      → nth + times repeat + k + 1 < 2 ^ 64
      → (fires (after_hits k (arm s name nth action repeat) name) name).0
        ≡ (if leb nth (k + 1) && ltb (k + 1) (nth + times repeat) then some action else none)
  unfolding fires
  fires-window k s name room =
      let here = after_hits-point k s name (omega arith) in
      rw (here, hit_point-after k room) (unfold point_after in refl)
