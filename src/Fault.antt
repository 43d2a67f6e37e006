-- ===== src/Fault.antt =====
-- The fault points of src/util/fault.cpp. Counters are words of 64 bits.
pub mod Window
use lsm_tree.Prelude.{
  ℕ, zero, suc, ◌+◌, ◌-◌, ◌%◌, ◌^◌, Bool, true, false, Option, none, some, List, [], ◌∷◌, leb, ◌==◌,
  if◌then◌else◌,
}
use lsm_tree.Keys.{Key, key_eq}

pub data Action : Type 0 where
  crash throw fail : Action

pub record Point : Type 0 where
  pub hits : ℕ
  pub nth : ℕ
  pub repeat : ℕ
  pub action : Action

-- g_points and g_armed
pub record Faults : Type 0 where
  pub points : List (Key × Point)
  pub armed : Bool

abbrev pub no_point : Point
no_point = record { hits = 0; nth = 0; repeat = 1; action = throw }

-- g_points[point], which makes a point that is not there
unfoldable pub point_of : Key → List (Key × Point) → Point
point_of name [] = no_point
point_of name (p ∷ ps) = if key_eq p.0 name then p.1 else point_of name ps

unfoldable pub set_point : Key → Point → List (Key × Point) → List (Key × Point)
set_point name q [] = (name, q) ∷ []
set_point name q (p ∷ ps) = if key_eq p.0 name then (name, q) ∷ ps else p ∷ set_point name q ps

-- One hit of a point: whether it fires, and the point behind it.
unfoldable pub hit_point : Point → Bool × Point
hit_point p =
    let hits = (p.hits + 1) % 2 ^ 64 in
    let last = (p.nth + p.repeat + 2 ^ 64 - 1) % 2 ^ 64 in
    if p.nth == 0
    then (false, record { hits = hits; nth = p.nth; repeat = p.repeat; action = p.action })
    else if leb p.nth hits
    then (
      true,
      record {
        hits = hits;
        nth = if leb last hits then 0 else p.nth;
        repeat = p.repeat;
        action = p.action;
      },
    )
    else (false, record { hits = hits; nth = p.nth; repeat = p.repeat; action = p.action })

unfoldable pub fires : Faults → Key → Option Action × Faults
fires s name =
    let p = point_of name s.points in
    (
      if (hit_point p).0 then some p.action else none,
      record { points = set_point name (hit_point p).1 s.points; armed = s.armed },
    )

unfoldable pub arm : Faults → Key → ℕ → Action → ℕ → Faults
arm s name nth action repeat = record {
  points =
      set_point name
        (record {
          hits = 0;
          nth = nth;
          repeat = if repeat == 0 then 1 else repeat;
          action = action;
        })
        s.points;
  armed = true;
}

unfoldable pub disarm_all : Faults → Faults
disarm_all s = record { points = []; armed = false }

unfoldable pub hit_count : Faults → Key → ℕ
hit_count s name = (point_of name s.points).hits
