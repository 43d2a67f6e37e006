-- ===== src/Tests/Memory.antt =====
-- Calls of an arena, and the results of Arena at them.
use lsm_tree.Prelude.{ℕ, ◌≡◌, refl, inr, none, some, List, [], ◌∷◌, arith}
use lsm_tree.Arena.{
  Arena, Region, Request, new_arena, allocate, allocate_all, take_bytes, bump, pad_for,
  is_power_of_two,
}
use lsm_tree.Arena.Regions.{
  IsArena, IsAllocation, Honest, allocate-IsAllocation, allocate_all-IsArena,
}

-- A block of 32 bytes at the address 1000.
abbrev arena : Arena
arena = new_arena 1000 32

arena-IsArena : IsArena arena []
arena-IsArena = record { bound = omega arith; within = tt; left = tt; apart = tt }

abbrev request : Request
request = record { bytes = 20; alignment = 16; fresh = some 2000 }

allocate-IsAllocation_example :
    IsAllocation request [] (allocate arena request.bytes request.alignment request.fresh)
allocate-IsAllocation_example =
    allocate-IsAllocation arena request [] arena-IsArena (inr (omega arith), tt)

-- The second call does not fit the first block.
abbrev requests : List Request
requests =
    record { bytes = 20; alignment = 16; fresh = none }
    ∷ record { bytes = 20; alignment = 16; fresh = some 2000 }
    ∷ record { bytes = 4; alignment = 3; fresh = none }
    ∷ []

abbrev region_at : ℕ → Region
region_at base = record { base = base; size = 20 }

requests_regions : (allocate_all requests arena []).0 ≡ region_at 2000 ∷ region_at 1008 ∷ []
unfolding allocate_all allocate take_bytes bump pad_for is_power_of_two
requests_regions = refl

requests-Honest : Honest requests arena
unfolding allocate_all allocate take_bytes bump pad_for is_power_of_two
requests-Honest = (tt, ((inr (omega arith), tt), (tt, tt)))

allocate_all-IsArena_example :
    IsArena (allocate_all requests arena []).1 (allocate_all requests arena []).0
allocate_all-IsArena_example = allocate_all-IsArena requests arena [] arena-IsArena requests-Honest
