-- ===== src/Prelude/Bits.antt =====
-- Single bits of words: what `w | x` and `w & (1 << b)` do to bit `b`.
use Prim.Native.Nat.{
  ℕ, zero, suc, ◌+◌, ◌*◌, ◌/◌, ◌%◌, ◌^◌, ◌≤◌, min, max, digits, bit_and, bit_or, bit_and-bitwise,
  bit_or-bitwise,
}
use mathlib.Core.Path.{◌≡◌, refl, ap}
use native.Mathlib.Nat.{pow-suc}
use native.Mathlib.Omega.{arith}

-- The digit recursion behind the native operations does not depend on its fuel, if that suffices.
module _ (rest : ℕ → ℕ) (op : ℕ → ℕ → ℕ) where
  same_digits : (f g w x : ℕ) → w ≤ f → w ≤ g → digits rest op f w x ≡ digits rest op g w x
  same_digits f zero (suc w) x p q = absurd (omega arith)
  same_digits zero g (suc w) x p q = absurd (omega arith)
  same_digits zero zero zero x p q = refl
  same_digits zero (suc g) zero x p q = refl
  same_digits (suc f) zero zero x p q = refl
  same_digits (suc f) (suc g) zero x p q = refl
  same_digits (suc f) (suc g) (suc w) x p q =
      ap (λ d. d * 2 + op (suc w % 2) (x % 2))
        (same_digits f g (suc w / 2) (x / 2) (omega arith) (omega arith))

or_digits : (w x : ℕ) → bit_or w x ≡ bit_or (w / 2) (x / 2) * 2 + max (w % 2) (x % 2)
or_digits zero x = omega (arith, bit_or-bitwise 0 x, bit_or-bitwise 0 (x / 2))
or_digits (suc w) x = omega (
  arith,
  bit_or-bitwise (suc w) x,
  bit_or-bitwise (suc w / 2) (x / 2),
  same_digits (λ y. y) max w (suc w / 2) (suc w / 2) (x / 2) (omega arith) (omega arith),
)

pub and_digits : (w x : ℕ) → bit_and w x ≡ bit_and (w / 2) (x / 2) * 2 + min (w % 2) (x % 2)
and_digits zero x = omega (arith, bit_and-bitwise 0 x, bit_and-bitwise 0 (x / 2))
and_digits (suc w) x = omega (
  arith,
  bit_and-bitwise (suc w) x,
  bit_and-bitwise (suc w / 2) (x / 2),
  same_digits (λ y. 0) min w (suc w / 2) (suc w / 2) (x / 2) (omega arith) (omega arith),
)

-- Bit `b` of `w`.
unfoldable pub bit : ℕ → ℕ → ℕ
bit zero w = w % 2
bit (suc b) w = bit b (w / 2)

pub bit-bit_or : (b w x : ℕ) → bit b (bit_or w x) ≡ max (bit b w) (bit b x)
unfolding bit
bit-bit_or zero w x = omega (arith, or_digits w x)
bit-bit_or (suc b) w x =
    let half : bit_or w x / 2 ≡ bit_or (w / 2) (x / 2) = omega (arith, or_digits w x) in
    rw half (bit-bit_or b (w / 2) (x / 2))

bit_and-zero_below : (n w : ℕ) → w ≤ n → bit_and w 0 ≡ 0
bit_and-zero_below n zero h = bit_and-bitwise 0 0
bit_and-zero_below zero (suc w) h = absurd (omega arith)
bit_and-zero_below (suc n) (suc w) h =
    omega (arith, and_digits (suc w) 0, bit_and-zero_below n (suc w / 2) (omega arith))

-- `w & (1 << b)` is bit `b` in its place.
pub bit_and-two_pow : (b w : ℕ) → bit_and w (2 ^ b) ≡ bit b w * 2 ^ b
unfolding bit
bit_and-two_pow zero w =
    omega (arith, and_digits w 1, bit_and-zero_below (w / 2) (w / 2) (omega arith))
bit_and-two_pow (suc b) w =
    let twice : 2 ^ suc b ≡ 2 ^ b * 2 = pow-suc 2 b in
    let half : 2 ^ suc b / 2 ≡ 2 ^ b = omega arith in
    let digits_of : bit_and w (2 ^ suc b) ≡ bit_and (w / 2) (2 ^ b) * 2 =
      rw (← half) (omega (arith, and_digits w (2 ^ suc b))) in
    grind (arith, digits_of, bit_and-two_pow b (w / 2))

pub bit-two_pow : (b : ℕ) → bit b (2 ^ b) ≡ 1
unfolding bit
bit-two_pow zero = refl
bit-two_pow (suc b) =
    let half : 2 ^ suc b / 2 ≡ 2 ^ b = omega (arith, pow-suc 2 b) in rw half (bit-two_pow b)
