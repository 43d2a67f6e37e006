-- ===== src/Bloom.antt =====
-- The block Bloom filter: src/sstable/block_bloom_filter.h.
pub mod Bits
pub mod Probes
pub mod Members
use Prim.Native.Nat.{bit_and, bit_or, bit_xor}
use mathlib.Core.List.{foldl}
use lsm_tree.Prelude.{
  ℕ, zero, suc, ◌+◌, ◌*◌, ◌/◌, ◌%◌, ◌^◌, Bool, true, false, List, [], ◌∷◌, ◌==◌, if◌then◌else◌,
  get_or, set, replicate,
}
use lsm_tree.Keys.{Key}

-- A block is `uint64_t bits[8]`.
abbrev pub Block : Type 0
Block = List ℕ

pub record BloomFilter : Type 0 where
  pub blocks : List Block
  pub num_blocks : ℕ
  pub num_hashes : ℕ

abbrev pub empty_block : Block
empty_block = replicate 8 0

-- The constructor, from the number of bits that its floating-point formula gives.
unfoldable pub new_filter : ℕ → BloomFilter
new_filter total_bits =
    let blocks = (total_bits + 511) / 512 in
    let count = if blocks == 0 then 1 else blocks in
    record { blocks = replicate count empty_block; num_blocks = count; num_hashes = 8 }

pub record Hashes : Type 0 where
  pub h1 : ℕ
  pub h2 : ℕ

-- One byte of the key: both hashes, in 64 bits.
hash_byte : Hashes → ℕ → Hashes
hash_byte h c =
    let mixed = bit_xor h.h2 c * 0x9E3779B97F4A7C15 % 2 ^ 64 in
    record {
      h1 = bit_xor h.h1 c * 1099511628211 % 2 ^ 64;
      h2 = bit_or (mixed * 2 ^ 27 % 2 ^ 64) (mixed / 2 ^ 37);
    }

-- The final avalanche of h2; the last step makes it odd.
avalanche : ℕ → ℕ
avalanche h2 =
    let a = bit_xor h2 (h2 / 2 ^ 33) in
    let b = a * 0xff51afd7ed558ccd % 2 ^ 64 in bit_or (bit_xor b (b / 2 ^ 29)) 1

unfoldable pub hash : Key → Hashes
unfolding hash_byte avalanche
hash key =
    let h = foldl hash_byte (record { h1 = 14695981039346656037; h2 = 1099511628211 }) key in
    record { h1 = h.h1; h2 = avalanche h.h2 }

-- bit_idx = (h1 + i * h2) % 512, in 64 bits
unfoldable pub probe : Hashes → ℕ → ℕ
probe h i = (h.h1 + i * h.h2 % 2 ^ 64) % 2 ^ 64 % 512

-- block.bits[bit_idx / 64] |= (1ULL << (bit_idx % 64))
unfoldable pub set_bit : Block → ℕ → Block
set_bit block bit_idx =
    set block (bit_idx / 64) (bit_or (get_or block (bit_idx / 64) 0) (2 ^ (bit_idx % 64)))

-- block.bits[bit_idx / 64] & (1ULL << (bit_idx % 64))
unfoldable pub test_bit : Block → ℕ → Bool
test_bit block bit_idx =
    if bit_and (get_or block (bit_idx / 64) 0) (2 ^ (bit_idx % 64)) == 0 then false else true

-- The loops over i of insert and mayContain; the first argument counts the rounds left.
unfoldable pub set_probes : ℕ → ℕ → Hashes → Block → Block
set_probes zero i h block = block
set_probes (suc n) i h block = set_probes n (i + 1) h (set_bit block (probe h i))

unfoldable pub test_probes : ℕ → ℕ → Hashes → Block → Bool
test_probes zero i h block = true
test_probes (suc n) i h block =
    if test_bit block (probe h i) then test_probes n (i + 1) h block else false

unfoldable pub insert : Key → BloomFilter → BloomFilter
insert key f =
    let h = hash key in
    let block_idx = h.h1 % f.num_blocks in
    let block = set_probes f.num_hashes 0 h (get_or f.blocks block_idx empty_block) in
    record f { blocks = set f.blocks block_idx block }

unfoldable pub may_contain : BloomFilter → Key → Bool
may_contain f key =
    let h = hash key in
    test_probes f.num_hashes 0 h (get_or f.blocks (h.h1 % f.num_blocks) empty_block)
