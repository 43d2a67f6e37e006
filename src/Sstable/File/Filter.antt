-- ===== src/Sstable/File/Filter.antt =====
-- The bytes of a filter: BloomFilter::serialize, deserialize, and deserializeBloom.
use lsm_tree.Prelude.{
  ℕ, ◌+◌, ◌-◌, ◌*◌, ◌/◌, ◌%◌, ◌^◌, ◌<◌, ◌≡◌, refl, sym, ap, ◌∙◌, true, false, some, List, [], ◌∷◌,
  ◌++◌, arith, ltb, leb, length, bytes_le, append_assoc, append-nil, slice-append, length-append,
  length-bytes_le, read_le-bytes_le_eight, drop-append,
}
use lsm_tree.Bloom.{Block, BloomFilter}
use lsm_tree.Sstable.File.{
  words_bytes, serialize, serialize_bloom, words_of, blocks_of, deserialize, tell, available,
  deserialize_bloom, at_least_one,
}
use lsm_tree.Sstable.File.Parts.{at, length-parts, read_bytes-part, read_eight}

abbrev pub WordsFit : List ℕ → Type 0
WordsFit [] = Unit {0}
WordsFit (w ∷ ws) = (w < 2 ^ 64) × WordsFit ws

-- Blocks of eight words of 64 bits.
abbrev pub BlocksFit : List Block → Type 0
BlocksFit [] = Unit {0}
BlocksFit (b ∷ bs) = ((length b ≡ 8) × WordsFit b) × BlocksFit bs

words_of-words_bytes : (ws : List ℕ) → WordsFit ws → words_of (length ws) (words_bytes ws) ≡ ws
unfolding words_of words_bytes
words_of-words_bytes [] f = refl
words_of-words_bytes (w ∷ ws) f =
    let word = bytes_le 8 w in
    rw
      (
        slice-append [] word (words_bytes ws) 0 8 refl (sym (length-bytes_le 8 w)),
        drop-append 8 word (words_bytes ws) (sym (length-bytes_le 8 w)),
        read_le-bytes_le_eight w f.0,
        words_of-words_bytes ws f.1,
      )
      refl

length-words_bytes : (ws : List ℕ) → length (words_bytes ws) ≡ 8 * length ws
unfolding words_bytes
length-words_bytes [] = refl
length-words_bytes (w ∷ ws) = omega (
  arith,
  length-append (bytes_le 8 w) (words_bytes ws),
  length-bytes_le 8 w,
  length-words_bytes ws,
)

length-serialize : (bs : List Block) → BlocksFit bs → length (serialize bs) ≡ length bs * 64
unfolding serialize
length-serialize [] f = refl
length-serialize (b ∷ bs) f = omega (
  arith,
  length-append (words_bytes b) (serialize bs),
  length-words_bytes b,
  f.0.0,
  length-serialize bs f.1,
)

blocks_of-serialize : (bs : List Block) → BlocksFit bs → blocks_of (length bs) (serialize bs) ≡ bs
unfolding blocks_of serialize
blocks_of-serialize [] f = refl
blocks_of-serialize (b ∷ bs) f =
    let size : 64 ≡ length (words_bytes b) = omega (arith, length-words_bytes b, f.0.0) in
    let words : words_of 8 (words_bytes b) ≡ b =
      ap (λ n. words_of n (words_bytes b)) (sym f.0.0) ∙ words_of-words_bytes b f.0.1 in
    rw
      (
        slice-append [] (words_bytes b) (serialize bs) 0 64 refl size,
        drop-append 64 (words_bytes b) (serialize bs) size,
        words,
        blocks_of-serialize bs f.1,
      )
      refl

-- A filter whose counts and words a uint64_t holds.
pub record FilterFits (f : BloomFilter) : Type 0 where
  pub count : length f.blocks ≡ f.num_blocks
  pub some_block : 0 < f.num_blocks
  pub some_hash : 0 < f.num_hashes
  pub hashes : f.num_hashes < 2 ^ 64
  pub blocks : BlocksFit f.blocks

deserialize-serialize :
    (f : BloomFilter)
    → FilterFits f
    → deserialize f.num_blocks f.num_hashes (serialize f.blocks) ≡ f
unfolding deserialize
deserialize-serialize f v =
    let size = length-serialize f.blocks v.blocks in
    let one : at_least_one f.num_blocks ≡ f.num_blocks = let p = v.some_block in ground arith in
    let hash : at_least_one f.num_hashes ≡ f.num_hashes = let p = v.some_hash in ground arith in
    let enough : leb (f.num_blocks * 64) (length (serialize f.blocks)) ≡ true =
      rw (size, v.count) (ground arith) in
    let blocks : blocks_of f.num_blocks (serialize f.blocks) ≡ f.blocks =
      ap (λ n. blocks_of n (serialize f.blocks)) (sym v.count)
      ∙ blocks_of-serialize f.blocks v.blocks in
    rw (one, hash, enough, blocks) refl

-- The bound that deserializeBloom computes, in front of a footer of 16 bytes.
available-footer :
    (size n k : ℕ) → size < 2 ^ 64 → size ≡ n + k * 64 + 16 → available size n / 64 ≡ k
unfolding available
available-footer size n k l e =
    let below : (n + 16) % 2 ^ 64 ≡ n + 16 = omega arith in
    let inside : leb (n + 16) size ≡ true = ground arith in rw (below, inside) (omega arith)

pub deserialize_bloom-part :
    (buf a c : List ℕ) (n : ℕ) (f : BloomFilter) (stale : ℕ × ℕ)
    → buf ≡ a ++ serialize_bloom f ++ c
    → n ≡ length a
    → length c ≡ 16
    → length buf < 2 ^ 64
    → FilterFits f
    → deserialize_bloom buf (at n) stale ≡ some (f, at (n + 8 + 8 + f.num_blocks * 64))
unfolding deserialize_bloom serialize_bloom tell
deserialize_bloom-part buf a c n f stale e p q l v =
    let h = bytes_le 8 f.num_hashes in
    let b = bytes_le 8 f.num_blocks in
    let raw = serialize f.blocks in
    let parts : buf ≡ a ++ h ++ (b ++ raw ++ c) = e ∙ simp append_assoc in
    let parts_b : buf ≡ a ++ h ++ b ++ (raw ++ c) = e ∙ simp append_assoc in
    let parts_raw : buf ≡ a ++ h ++ b ++ raw ++ c = e ∙ simp append_assoc in
    let in_a = length-append a h in
    let in_h = length-append (a ++ h) b in
    let size_h = length-bytes_le 8 f.num_hashes in
    let size_b = length-bytes_le 8 f.num_blocks in
    let size : length raw ≡ f.num_blocks * 64 =
      length-serialize f.blocks v.blocks ∙ ap (λ m. m * 64) v.count in
    let whole = length-parts buf (a ++ h ++ b) raw c parts_raw in
    let at_b : n + 8 ≡ length (a ++ h) = omega (arith, in_a, size_h) in
    let at_raw : n + 8 + 8 ≡ length (a ++ h ++ b) = omega (arith, in_a, in_h, size_h, size_b) in
    let total : length buf ≡ n + 8 + 8 + f.num_blocks * 64 + 16 =
      omega (arith, whole, at_raw, size, q) in
    let bound : available (length buf) (n + 8 + 8) / 64 ≡ f.num_blocks =
      available-footer (length buf) (n + 8 + 8) f.num_blocks l total in
    let few : f.num_blocks < 2 ^ 64 = omega (arith, total) in
    let fits : ltb f.num_blocks f.num_blocks ≡ false = ground arith in
    let none_left : f.num_blocks * 64 - length raw ≡ 0 = omega (arith, size) in
    rw
      (
        deserialize_bloom,
        read_eight buf a (b ++ raw ++ c) n f.num_hashes parts p v.hashes,
        read_eight buf (a ++ h) (raw ++ c) (n + 8) f.num_blocks parts_b at_b few,
        bound,
        fits,
        read_bytes-part buf (a ++ h ++ b) raw c (n + 8 + 8) (f.num_blocks * 64) parts_raw at_raw
            (sym size),
        none_left,
        append-nil raw,
      )
      (ap (λ x. some (x, at (n + 8 + 8 + f.num_blocks * 64))) (deserialize-serialize f v))
