-- ===== src/Bloom/Probes.antt =====
-- The probe step is odd, so the eight probes of a key are eight different bits.
use Prim.Native.Nat.{bit_or}
use lsm_tree.Prelude.{ℕ, zero, suc, ◌+◌, ◌-◌, ◌*◌, ◌%◌, ◌<◌, ◌≡◌, ◌≢◌, arith, ap, ◌∙◌}
use lsm_tree.Prelude.Bits.{bit, bit-bit_or}
use lsm_tree.Keys.{Key}
use lsm_tree.Bloom.{Hashes, hash, probe, avalanche}

or_one-odd : (x : ℕ) → bit_or x 1 % 2 ≡ 1
unfolding bit
or_one-odd x = omega (arith, bit-bit_or 0 x 1)

avalanche-odd : (x : ℕ) → avalanche x % 2 ≡ 1
unfolding avalanche
avalanche-odd x = or_one-odd _

-- h2 |= 1ULL
pub hash-odd : (k : Key) → (hash k).h2 % 2 ≡ 1
unfolding hash
hash-odd k = avalanche-odd _

-- 64-bit wrap-around does not show in the low nine bits.
probe-low : (h : Hashes) (i : ℕ) → probe h i ≡ (h.h1 + i * h.h2) % 512
unfolding probe
probe-low h i = omega arith

apart : (x s d : ℕ) → s % 2 ≡ 1 → 0 < d → d < 8 → (x + d * s) % 512 ≢ x % 512
apart x s zero o p q = absurd (omega arith)
apart x s (suc zero) o p q = omega arith
apart x s (suc (suc zero)) o p q = omega arith
apart x s (suc (suc (suc zero))) o p q = omega arith
apart x s (suc (suc (suc (suc zero)))) o p q = omega arith
apart x s (suc (suc (suc (suc (suc zero))))) o p q = omega arith
apart x s (suc (suc (suc (suc (suc (suc zero)))))) o p q = omega arith
apart x s (suc (suc (suc (suc (suc (suc (suc zero))))))) o p q = omega arith
apart x s (suc (suc (suc (suc (suc (suc (suc (suc d)))))))) o p q = absurd (omega arith)

spread : (a s i d : ℕ) → a + (i + d) * s ≡ a + i * s + d * s
spread a s i d = omega arith

pub probe-ne_of_lt : (h : Hashes) (i j : ℕ) → h.h2 % 2 ≡ 1 → i < j → j < 8 → probe h i ≢ probe h j
probe-ne_of_lt h i j o l b e =
    let d = j - i in
    let split : j ≡ i + d = omega arith in
    let moved : h.h1 + j * h.h2 ≡ h.h1 + i * h.h2 + d * h.h2 =
      ap (λ (t : ℕ). h.h1 + t * h.h2) split ∙ spread h.h1 h.h2 i d in
    let same : (h.h1 + i * h.h2 + d * h.h2) % 512 ≡ (h.h1 + i * h.h2) % 512 =
      rw (← moved) (omega (arith, probe-low h i, probe-low h j)) in
    apart (h.h1 + i * h.h2) h.h2 d o (omega arith) (omega arith) same

-- For every key, two different probes among the eight stand for two different bits of the block.
pub probes_distinct : (k : Key) (i j : ℕ) → i < j → j < 8 → probe (hash k) i ≢ probe (hash k) j
probes_distinct k i j l b = probe-ne_of_lt (hash k) i j (hash-odd k) l b
