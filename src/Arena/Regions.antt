-- ===== src/Arena/Regions.antt =====
-- The regions that an arena hands out: aligned, in its blocks, and apart from each other.
use native.Mathlib.Nat.{mod-add-mod, mod_self, mod-lt}
use lsm_tree.Prelude.{
  ℕ, ◌+◌, ◌-◌, ◌%◌, ◌^◌, ◌≤◌, ◌<◌, ◌≡◌, ◌⊎◌, inl, inr, refl, sym, ap, ◌∙◌, ◌≢◌, false-true, Option,
  none, some, List, [], ◌∷◌, ◌||◌, arith, ltb, ◌==◌, Bool-cases,
}
use lsm_tree.Arena
use lsm_tree.Arena.Powers.{two_pow-power, power-two_pow}
use lsm_tree.Arena.{
  Region, Arena, new_arena, pad_for, Allocation, invalid_argument, bad_alloc, allocated, next_size,
  with_block, take_bytes, take_fresh, is_power_of_two, allocate, Request, arena_after,
  regions_after, allocate_all,
}

abbrev pub Apart : Region → Region → Type 0
Apart r s = (r.base + r.size ≤ s.base) ⊎ (s.base + s.size ≤ r.base)

abbrev pub ApartFrom : Region → List Region → Type 0
ApartFrom r [] = Unit {0}
ApartFrom r (s ∷ ss) = Apart r s × ApartFrom r ss

-- No two of the regions meet.
abbrev pub AllApart : List Region → Type 0
AllApart [] = Unit {0}
AllApart (r ∷ rs) = ApartFrom r rs × AllApart rs

abbrev pub Within : Region → Region → Type 0
Within r b = (b.base ≤ r.base) × (r.base + r.size ≤ b.base + b.size)

abbrev pub InSome : Region → List Region → Type 0
InSome r [] = ⊥
InSome r (b ∷ bs) = Within r b ⊎ InSome r bs

abbrev pub AllInSome : List Region → List Region → Type 0
AllInSome [] bs = Unit {0}
AllInSome (r ∷ rs) bs = InSome r bs × AllInSome rs bs

abbrev pub all_blocks : Arena → List Region
all_blocks a = a.current ∷ a.older

-- What is left of the current block.
abbrev pub rest_of : Arena → Region
rest_of a = record { base = a.current.base + a.offset; size = a.current.size - a.offset }

-- An arena and the regions that it has handed out.
pub record IsArena (a : Arena) (rs : List Region) : Type 0 where
  pub bound : a.offset ≤ a.current.size
  pub within : AllInSome rs (all_blocks a)
  pub left : ApartFrom (rest_of a) rs
  pub apart : AllApart rs

pub pad_for-aligns : (p alignment : ℕ) → 0 < alignment → (p + pad_for p alignment) % alignment ≡ 0
unfolding pad_for
pad_for-aligns p alignment l = elim (Bool-cases (p % alignment == 0)) [
  | inl t ↦ rw t (ap (λ x. x % alignment) {y = p} (omega arith) ∙ ground arith)
  | inr f ↦ rw f (
      sym (mod-add-mod p alignment (alignment - p % alignment))
      ∙ ap (λ x. x % alignment) (let below = mod-lt p l in omega (arith, below))
      ∙ mod_self alignment)
]

-- A part of a region is apart from what the region is apart from.
ApartFrom-part : (r s : Region) (rs : List Region) → Within r s → ApartFrom s rs → ApartFrom r rs
ApartFrom-part r s [] w a = tt
ApartFrom-part r s (t ∷ rs) w a = (
  elim a.0 [ inl l ↦ inl (omega (arith, w.0, w.1)) | inr l ↦ inr (omega (arith, w.0, w.1)) ],
  ApartFrom-part r s rs w a.1,
)

ApartFrom-block : (b r : Region) (bs : List Region) → ApartFrom b bs → InSome r bs → Apart b r
ApartFrom-block b r [] a i = absurd i
ApartFrom-block b r (c ∷ bs) a (inl w) = elim a.0 [
  | inl l ↦ inl (omega (arith, w.0, w.1))
  | inr l ↦ inr (omega (arith, w.0, w.1))
]
ApartFrom-block b r (c ∷ bs) a (inr i) = ApartFrom-block b r bs a.1 i

ApartFrom-blocks :
    (b : Region) (rs bs : List Region) → ApartFrom b bs → AllInSome rs bs → ApartFrom b rs
ApartFrom-blocks b [] bs a i = tt
ApartFrom-blocks b (r ∷ rs) bs a i = (ApartFrom-block b r bs a i.0, ApartFrom-blocks b rs bs a i.1)

AllInSome-more : (b : Region) (rs bs : List Region) → AllInSome rs bs → AllInSome rs (b ∷ bs)
AllInSome-more b [] bs i = tt
AllInSome-more b (r ∷ rs) bs i = (inr i.0, AllInSome-more b rs bs i.1)

-- What a call gives but for its test of the alignment: an error for its reason, or an aligned region
-- of the size that was asked for, apart from all that are out.
abbrev pub IsGranted : Request → List Region → Allocation → Type 0
IsGranted q rs invalid_argument = Unit {0}
IsGranted q rs bad_alloc = (2 ^ 64 - 1 - q.alignment < q.bytes) ⊎ (q.fresh ≡ none)
IsGranted q rs (allocated r b) =
    ((r.base % q.alignment ≡ 0) × (r.size ≡ q.bytes)) × IsArena b (r ∷ rs)

-- The alignment is none of the powers of two where it is rejected, and is one of them else.
abbrev pub IsTested : Request → Allocation → Type 0
IsTested q invalid_argument = (k : ℕ) → q.alignment ≢ 2 ^ k
IsTested q bad_alloc = (k : ℕ) × (q.alignment ≡ 2 ^ k)
IsTested q (allocated r b) = (k : ℕ) × (q.alignment ≡ 2 ^ k)

abbrev pub IsAllocation : Request → List Region → Allocation → Type 0
IsAllocation q rs x = IsTested q x × IsGranted q rs x

bump-IsGranted :
    (a : Arena) (q : Request) (rs : List Region) (pad : ℕ)
    → IsArena a rs
    → pad + q.bytes ≤ a.current.size - a.offset
    → (a.current.base + a.offset + pad) % q.alignment ≡ 0
    → IsGranted q rs (Arena.bump a q.bytes pad)
unfolding Arena.bump
bump-IsGranted a q rs pad i l m =
    let inside : a.offset ≤ a.current.size = i.bound in
    (
      (m, refl),
      record {
        bound = omega arith;
        within = (inl (omega arith, omega arith), i.within);
        left =
            (inr (omega arith), ApartFrom-part _ (rest_of a) rs (omega arith, omega arith) i.left);
        apart = (ApartFrom-part _ (rest_of a) rs (omega arith, omega arith) i.left, i.apart);
      },
    )

with_block-IsArena :
    (a : Arena) (rs : List Region) (base size : ℕ)
    → IsArena a rs
    → ApartFrom (record { base = base; size = size }) (all_blocks a)
    → IsArena (with_block a base size) rs
with_block-IsArena a rs base size i f = record {
  bound = omega arith;
  within = AllInSome-more _ rs (all_blocks a) i.within;
  left =
      ApartFrom-part _ (record { base = base; size = size }) rs (omega arith, omega arith)
        (ApartFrom-blocks _ rs (all_blocks a) f i.within);
  apart = i.apart;
}

-- new char[] gives a block that is apart from the blocks that are there.
abbrev pub Fresh : Arena → ℕ → ℕ → Option ℕ → Type 0
Fresh a bytes alignment none = Unit {0}
Fresh a bytes alignment (some base) =
    ApartFrom (record { base = base; size = next_size a bytes alignment }) (all_blocks a)

pad_for-le : (p alignment : ℕ) → pad_for p alignment ≤ alignment
unfolding pad_for
pad_for-le p alignment = ground arith

take_fresh-IsGranted :
    (a : Arena) (q : Request) (rs : List Region)
    → 0 < q.alignment
    → IsArena a rs
    → (fresh : Option ℕ) → (q.fresh ≡ fresh)
    → Fresh a q.bytes q.alignment fresh
    → IsGranted q rs (take_fresh a q.bytes q.alignment fresh)
take_fresh-IsGranted a q rs l i none e f = inr e
take_fresh-IsGranted a q rs l i (some base) e f =
    let size = next_size a q.bytes q.alignment in
    let short = pad_for-le base q.alignment in
    let aligned : (base + 0 + pad_for base q.alignment) % q.alignment ≡ 0 =
      ap (λ p. (p + pad_for base q.alignment) % q.alignment) {y = base} (omega arith)
      ∙ pad_for-aligns base q.alignment l in
    bump-IsGranted (with_block a base size) q rs (pad_for base q.alignment)
      (with_block-IsArena a rs base size i f) (ground (arith, short)) aligned

take_bytes-IsGranted :
    (a : Arena) (q : Request) (rs : List Region)
    → 0 < q.alignment
    → IsArena a rs
    → Fresh a q.bytes q.alignment q.fresh
    → IsGranted q rs (take_bytes a q.bytes q.alignment q.fresh)
unfolding take_bytes
take_bytes-IsGranted a q rs l i f =
    let pad = pad_for (a.current.base + a.offset) q.alignment in
    let remaining = a.current.size - a.offset in
    elim (Bool-cases (ltb remaining pad || ltb (remaining - pad) q.bytes)) [
      | inr u ↦
          rw (take_bytes, u)
            (bump-IsGranted a q rs pad i (ground arith)
              (pad_for-aligns (a.current.base + a.offset) q.alignment l))
      | inl t ↦ rw (take_bytes, t) (take_fresh-IsGranted a q rs l i q.fresh refl f)
    ]

take_bytes-IsTested :
    (a : Arena) (q : Request) (fresh : Option ℕ)
    → (k : ℕ) × (q.alignment ≡ 2 ^ k)
    → IsTested q (take_bytes a q.bytes q.alignment fresh)
unfolding take_bytes Arena.bump
take_bytes-IsTested a q fresh p =
    let pad = pad_for (a.current.base + a.offset) q.alignment in
    let remaining = a.current.size - a.offset in
    elim (Bool-cases (ltb remaining pad || ltb (remaining - pad) q.bytes)) [
      | inr u ↦ rw (take_bytes, u) p
      | inl t ↦ rw (take_bytes, t) (given fresh)
    ]
  where
    given : (f : Option ℕ) → IsTested q (take_fresh a q.bytes q.alignment f)
    given none = p
    given (some base) = p

-- A call of allocate in an arena that keeps to its blocks, if new char[] gives a block that does not
-- meet those that are there. It throws invalid_argument if the alignment is none of the powers of
-- two, and only then; it throws bad_alloc only for a size too near to 2 ^ 64 or where new char[]
-- fails; else it returns a region of the size that was asked for, at a multiple of the alignment,
-- within a block, that meets no region that was returned before.
pub allocate-IsAllocation :
    (a : Arena) (q : Request) (rs : List Region)
    → IsArena a rs
    → Fresh a q.bytes q.alignment q.fresh
    → IsAllocation q rs (allocate a q.bytes q.alignment q.fresh)
unfolding allocate
allocate-IsAllocation a q rs i f = elim (Bool-cases (is_power_of_two q.alignment)) [
  | inr u ↦
      rw (allocate, u) (λ k e. false-true (sym u ∙ ap is_power_of_two e ∙ two_pow-power k), tt)
  | inl t ↦
      let some_bytes : 0 < q.alignment = unfold is_power_of_two in ground arith in
      let power = power-two_pow q.alignment q.alignment (omega arith) t in
      elim (Bool-cases (ltb (2 ^ 64 - 1 - q.alignment) q.bytes)) [
        | inl o ↦ rw (allocate, t, o) (power, inl (ground arith))
        | inr o ↦
            rw (allocate, t, o)
              (take_bytes-IsTested a q q.fresh power, take_bytes-IsGranted a q rs some_bytes i f)
      ]
]

-- new char[] is honest in every call of a sequence.
abbrev pub Honest : List Request → Arena → Type 0
Honest [] a = Unit {0}
Honest (q ∷ qs) a =
    Fresh a q.bytes q.alignment q.fresh
    × Honest qs (arena_after a (allocate a q.bytes q.alignment q.fresh))

after-IsArena :
    (a : Arena) (q : Request) (rs : List Region) (x : Allocation)
    → IsArena a rs
    → IsAllocation q rs x
    → IsArena (arena_after a x) (regions_after rs x)
after-IsArena a q rs invalid_argument i k = i
after-IsArena a q rs bad_alloc i k = i
after-IsArena a q rs (allocated r b) i k = k.1.1

-- After any sequence of calls, those that throw included, if new char[] gives blocks that do not
-- meet those that are there: the regions that the calls returned lie within the blocks, and no two
-- of them meet, nor does one of them meet what is left of the current block.
pub allocate_all-IsArena :
    (qs : List Request) (a : Arena) (rs : List Region)
    → IsArena a rs
    → Honest qs a
    → IsArena (allocate_all qs a rs).1 (allocate_all qs a rs).0
unfolding allocate_all
allocate_all-IsArena [] a rs i h = i
allocate_all-IsArena (q ∷ qs) a rs i h =
    allocate_all-IsArena qs _ _ (after-IsArena a q rs _ i (allocate-IsAllocation a q rs i h.0)) h.1
