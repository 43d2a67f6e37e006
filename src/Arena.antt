-- ===== src/Arena.antt =====
-- Arena, src/memtable/arena.h: the blocks, the bump allocation, its padding and its errors. The
-- address that new char[] gives, or its failure, comes from outside.
pub mod Powers
pub mod Regions
use Prim.Native.Nat.{bit_and}
use lsm_tree.Prelude.{
  ℕ, zero, suc, ◌+◌, ◌-◌, ◌%◌, ◌^◌, max, Bool, true, false, not, Option, none, some, List, [], ◌∷◌,
  ◌||◌, ltb, ◌==◌, if◌then◌else◌,
}

-- Bytes in memory: a block, or what an allocation returns.
pub record Region : Type 0 where
  pub base : ℕ
  pub size : ℕ

-- current_block_ and current_block_size_ are `current`; `older` are the other blocks.
pub record Arena : Type 0 where
  pub block_size : ℕ
  pub offset : ℕ
  pub current : Region
  pub older : List Region

abbrev pub new_arena : ℕ → ℕ → Arena
new_arena base block_size = record {
  block_size = block_size;
  offset = 0;
  current = record { base = base; size = block_size };
  older = [];
}

-- padFor
unfoldable pub pad_for : ℕ → ℕ → ℕ
pad_for p alignment = if p % alignment == 0 then 0 else alignment - p % alignment

pub data Allocation : Type 0 where
  invalid_argument : Allocation
  bad_alloc : Allocation
  allocated : Region → Arena → Allocation

-- The pointer behind the padding, and the arena with its bytes taken.
unfoldable pub bump : Arena → ℕ → ℕ → Allocation
bump a bytes pad =
    allocated (record { base = a.current.base + a.offset + pad; size = bytes })
      (record {
        block_size = a.block_size;
        offset = a.offset + (pad + bytes);
        current = a.current;
        older = a.older;
      })

abbrev pub next_size : Arena → ℕ → ℕ → ℕ
next_size a bytes alignment = max a.block_size (bytes + alignment)

abbrev pub with_block : Arena → ℕ → ℕ → Arena
with_block a base size = record {
  block_size = a.block_size;
  offset = 0;
  current = record { base = base; size = size };
  older = a.current ∷ a.older;
}

-- The current block is too small; `fresh` is what new char[next_size] gives.
abbrev pub take_fresh : Arena → ℕ → ℕ → Option ℕ → Allocation
take_fresh a bytes alignment none = bad_alloc
take_fresh a bytes alignment (some base) =
    bump (with_block a base (next_size a bytes alignment)) bytes (pad_for base alignment)

-- Behind the tests of the arguments.
unfoldable pub take_bytes : Arena → ℕ → ℕ → Option ℕ → Allocation
take_bytes a bytes alignment fresh =
    let pad = pad_for (a.current.base + a.offset) alignment in
    let remaining = a.current.size - a.offset in
    if ltb remaining pad || ltb (remaining - pad) bytes
    then take_fresh a bytes alignment fresh
    else bump a bytes pad

-- alignment == 0 || (alignment & (alignment - 1)) != 0
unfoldable pub is_power_of_two : ℕ → Bool
is_power_of_two alignment = if alignment == 0 then false else bit_and alignment (alignment - 1) == 0

unfoldable pub allocate : Arena → ℕ → ℕ → Option ℕ → Allocation
allocate a bytes alignment fresh =
    if not (is_power_of_two alignment)
    then invalid_argument
    else if ltb (2 ^ 64 - 1 - alignment) bytes
    then bad_alloc
    else take_bytes a bytes alignment fresh

-- One call: the arguments, and what new char[] gives if it is called.
pub record Request : Type 0 where
  pub bytes : ℕ
  pub alignment : ℕ
  pub fresh : Option ℕ

-- The arena behind a call; one that throws leaves it as it was.
abbrev pub arena_after : Arena → Allocation → Arena
arena_after a invalid_argument = a
arena_after a bad_alloc = a
arena_after a (allocated r b) = b

abbrev pub regions_after : List Region → Allocation → List Region
regions_after rs invalid_argument = rs
regions_after rs bad_alloc = rs
regions_after rs (allocated r b) = r ∷ rs

-- The regions that a sequence of calls has returned, the newest first.
unfoldable pub allocate_all : List Request → Arena → List Region → List Region × Arena
allocate_all [] a rs = (rs, a)
allocate_all (q ∷ qs) a rs =
    let r = allocate a q.bytes q.alignment q.fresh in
    allocate_all qs (arena_after a r) (regions_after rs r)
