-- ===== src/Bloom/Bits.antt =====
-- Setting a bit of a block sets that bit and clears none.
use Prim.Native.Nat.{bit_and, bit_or}
use native.Mathlib.Nat.{one-le-pow}
use lsm_tree.Prelude.{
  ℕ, zero, suc, ◌+◌, ◌*◌, ◌/◌, ◌%◌, ◌^◌, ◌≤◌, ◌<◌, ◌≡◌, refl, ◌∙◌, true, false, [], ◌∷◌, arith,
  ◌==◌, if◌then◌else◌, get_or, set, length, length-set,
}
use lsm_tree.Prelude.Bits.{bit, bit-bit_or, bit_and-two_pow, bit-two_pow}
use lsm_tree.Bloom.{Block, Hashes, probe, set_bit, test_bit, set_probes, test_probes}

times_test : (x p : ℕ) → 1 ≤ p → (x * p == 0) ≡ (x == 0)
times_test zero p h = ground arith
times_test (suc x) p h = let pos : 0 < suc x * p = grind arith in ground arith

word_test : (w b : ℕ) → (bit_and w (2 ^ b) == 0) ≡ (bit b w == 0)
word_test w b =
    rw (bit_and-two_pow b w) (times_test (bit b w) (2 ^ b) (one-le-pow b 2 (omega arith)))

-- `test_bit`, as bit `n % 64` of word `n / 64`.
test_bit-bit :
    (block : Block) (n : ℕ)
    → test_bit block n ≡ (if bit (n % 64) (get_or block (n / 64) 0) == 0 then false else true)
unfolding test_bit
test_bit-bit block n = rw (word_test (get_or block (n / 64) 0) (n % 64))

abbrev or_word : Block → ℕ → ℕ → Block
or_word block i x = set block i (bit_or (get_or block i 0) x)

or_word_grows :
    (block : Block) (i j x b : ℕ)
    → bit b (get_or block j 0) ≤ bit b (get_or (or_word block i x) j 0)
or_word_grows [] i j x b = omega arith
or_word_grows (w ∷ ws) zero zero x b = omega (arith, bit-bit_or b w x)
or_word_grows (w ∷ ws) zero (suc j) x b = omega arith
or_word_grows (w ∷ ws) (suc i) zero x b = omega arith
or_word_grows (w ∷ ws) (suc i) (suc j) x b = or_word_grows ws i j x b

or_word_sets :
    (block : Block) (i x b : ℕ)
    → i < length block
    → bit b x ≤ bit b (get_or (or_word block i x) i 0)
or_word_sets [] i x b h = elim h [ ]
or_word_sets (w ∷ ws) zero x b h = omega (arith, bit-bit_or b w x)
or_word_sets (w ∷ ws) (suc i) x b h = or_word_sets ws i x b (omega arith)

pub test_bit-set_bit :
    (block : Block) (m n : ℕ) → test_bit block n ≡ true → test_bit (set_bit block m) n ≡ true
unfolding set_bit
test_bit-set_bit block m n h = rw (test_bit-bit (set_bit block m) n) (
    ground
      (arith, test_bit-bit block n, or_word_grows block (m / 64) (n / 64) (2 ^ (m % 64)) (n % 64)))

pub test_bit-set_bit_self :
    (block : Block) (n : ℕ) → n < 64 * length block → test_bit (set_bit block n) n ≡ true
unfolding set_bit
test_bit-set_bit_self block n h = rw (test_bit-bit (set_bit block n) n) (
    ground (
      arith,
      or_word_sets block (n / 64) (2 ^ (n % 64)) (n % 64) (omega arith),
      bit-two_pow (n % 64),
    ))

pub length-set_bit : (block : Block) (n : ℕ) → length (set_bit block n) ≡ length block
unfolding set_bit
length-set_bit block n = length-set block (n / 64) _

pub length-set_probes :
    (n i : ℕ) (h : Hashes) (block : Block) → length (set_probes n i h block) ≡ length block
unfolding set_probes
length-set_probes zero i h block = refl
length-set_probes (suc n) i h block =
    length-set_probes n (i + 1) h (set_bit block (probe h i)) ∙ length-set_bit block (probe h i)

-- Setting a bit keeps every probe that succeeded.
pub test_probes-set_bit :
    (n i : ℕ) (h : Hashes) (block : Block) (m : ℕ)
    → test_probes n i h block ≡ true
    → test_probes n i h (set_bit block m) ≡ true
unfolding test_probes
test_probes-set_bit zero i h block m t = refl
test_probes-set_bit (suc n) i h block m t =
    ground (arith, test_bit-set_bit block m (probe h i), test_probes-set_bit n (i + 1) h block m)

pub test_probes-set_probes :
    (n i : ℕ) (h : Hashes) (m j : ℕ) (g : Hashes) (block : Block)
    → test_probes n i h block ≡ true
    → test_probes n i h (set_probes m j g block) ≡ true
unfolding set_probes
test_probes-set_probes n i h zero j g block t = t
test_probes-set_probes n i h (suc m) j g block t =
    test_probes-set_probes n i h m (j + 1) g (set_bit block (probe g j))
      (test_probes-set_bit n i h block (probe g j) t)

test_bit-set_probes :
    (n : ℕ) (m j : ℕ) (g : Hashes) (block : Block)
    → test_bit block n ≡ true
    → test_bit (set_probes m j g block) n ≡ true
unfolding set_probes
test_bit-set_probes n zero j g block t = t
test_bit-set_probes n (suc m) j g block t =
    test_bit-set_probes n m (j + 1) g (set_bit block (probe g j))
      (test_bit-set_bit block (probe g j) n t)

probe-lt : (h : Hashes) (i : ℕ) → probe h i < 512
unfolding probe
probe-lt h i = omega arith

-- After the loop of `insert` the loop of `mayContain` succeeds.
pub test_probes-set_probes_self :
    (n i : ℕ) (h : Hashes) (block : Block)
    → length block ≡ 8
    → test_probes n i h (set_probes n i h block) ≡ true
unfolding set_probes test_probes
test_probes-set_probes_self zero i h block l = refl
test_probes-set_probes_self (suc n) i h block l =
    let p = probe h i in
    rw
      (test_bit-set_probes p n (i + 1) h (set_bit block p)
        (test_bit-set_bit_self block p (omega (arith, probe-lt h i))))
      (test_probes-set_probes_self n (i + 1) h (set_bit block p) (length-set_bit block p ∙ l))
