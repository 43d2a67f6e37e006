-- ===== src/Arena/Powers.antt =====
-- The alignments that an arena takes: its bit test accepts the powers of two and nothing else.
use lsm_tree.Prelude.{
  ℕ, zero, suc, ◌+◌, ◌-◌, ◌*◌, ◌/◌, ◌%◌, ◌^◌, ◌≤◌, ◌≡◌, ◌⊎◌, inl, inr, refl, sym, ap, ◌∙◌, true,
  false, false-true, arith,
}
use lsm_tree.Prelude.Bits.{and_digits}
use Prim.Native.Nat.{bit_and}
use native.Mathlib.Nat.{pow-suc}
use lsm_tree.Arena.{is_power_of_two}

-- An even word less one has its upper bits less one, and is odd.
and_even : (m : ℕ) → bit_and (suc m * 2) (suc m * 2 - 1) ≡ bit_and (suc m) m * 2
and_even m =
    let d = and_digits (suc m * 2) (suc m * 2 - 1) in
    let a : suc m * 2 / 2 ≡ suc m = omega arith in
    let b : (suc m * 2 - 1) / 2 ≡ m = omega arith in
    let c : suc m * 2 % 2 ≡ 0 = omega arith in d ∙ rw (a, b, c) (omega arith)

power-double : (m : ℕ) → is_power_of_two (suc m * 2) ≡ is_power_of_two (suc m)
unfolding is_power_of_two
power-double m = ground (arith, and_even m)

and_self : (fuel m : ℕ) → m ≤ fuel → bit_and m m ≡ m
and_self fuel zero l = refl
and_self zero (suc m) l = absurd (omega arith)
and_self (suc fuel) (suc m) l =
    omega (arith, and_digits (suc m) (suc m), and_self fuel (suc m / 2) (omega arith))

-- An odd word above one shares its upper bits with the word before it.
and_odd : (m : ℕ) → bit_and (suc m * 2 + 1) (suc m * 2) ≡ suc m * 2
and_odd m =
    let d = and_digits (suc m * 2 + 1) (suc m * 2) in
    let a : (suc m * 2 + 1) / 2 ≡ suc m = omega arith in
    let b : suc m * 2 / 2 ≡ suc m = omega arith in
    d ∙ rw (a, b) (omega (arith, and_self (suc m) (suc m) (omega arith)))

power-odd : (m : ℕ) → is_power_of_two (suc m * 2 + 1) ≡ false
unfolding is_power_of_two
power-odd m =
    let less : suc m * 2 + 1 - 1 ≡ suc m * 2 = omega arith in ground (arith, and_odd m, less)

two_pow-suc : (k : ℕ) → (m : ℕ) × (2 ^ k ≡ suc m)
two_pow-suc zero = (0, refl)
two_pow-suc (suc k) = let (m, e) = two_pow-suc k in (m + suc m, pow-suc 2 k ∙ omega arith)

-- One, twice a word, or twice a word and one.
halves :
    (m : ℕ) → (suc m ≡ 1) ⊎ (((n : ℕ) × (suc m ≡ suc n * 2)) ⊎ ((n : ℕ) × (suc m ≡ suc n * 2 + 1)))
halves zero = inl refl
halves (suc zero) = inr (inl (0, refl))
halves (suc (suc m)) = elim (halves m) [
  | inl z ↦ inr (inr (0, omega arith))
  | inr (inl (n, e)) ↦ inr (inl (suc n, omega arith))
  | inr (inr (n, e)) ↦ inr (inr (suc n, omega arith))
]

pub two_pow-power : (k : ℕ) → is_power_of_two (2 ^ k) ≡ true
unfolding is_power_of_two
two_pow-power zero = refl
two_pow-power (suc k) =
    let (m, e) = two_pow-suc k in
    let twice : 2 ^ suc k ≡ suc m * 2 = pow-suc 2 k ∙ ap (λ x. x * 2) e in
    ap is_power_of_two twice ∙ power-double m ∙ sym (ap is_power_of_two e) ∙ two_pow-power k

-- A word that the test accepts is a power of two.
pub power-two_pow : (fuel m : ℕ) → m ≤ fuel → is_power_of_two m ≡ true → (k : ℕ) × (m ≡ 2 ^ k)
power-two_pow fuel zero l p = absurd (unfold is_power_of_two in false-true p)
power-two_pow zero (suc m) l p = absurd (omega arith)
power-two_pow (suc fuel) (suc m) l p = elim (halves m) [
  | inl z ↦ (0, z)
  | inr (inl (n, e)) ↦
      let (k, f) =
        power-two_pow fuel (suc n) (omega arith)
          (sym (power-double n) ∙ sym (ap is_power_of_two e) ∙ p) in
      (suc k, e ∙ ap (λ x. x * 2) f ∙ sym (pow-suc 2 k))
  | inr (inr (n, e)) ↦ absurd (false-true (sym (power-odd n) ∙ sym (ap is_power_of_two e) ∙ p))
]
