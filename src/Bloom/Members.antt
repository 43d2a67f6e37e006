-- ===== src/Bloom/Members.antt =====
-- The filter has no false negatives.
use native.Mathlib.Decide.{ℕ_discrete}
use lsm_tree.Prelude.{
  ℕ, zero, suc, ◌+◌, ◌/◌, ◌%◌, ◌<◌, ◌≡◌, ◌⊎◌, inl, inr, refl, ◌∙◌, true, List, [], ◌∷◌, arith, ◌==◌,
  if◌then◌else◌, get_or, set, length, length-set, get_or-set_self, get_or-set_ne, replicate,
  length-replicate,
}
use lsm_tree.Keys.{Key}
use lsm_tree.Bloom.{
  Block, BloomFilter, hash, empty_block, new_filter, insert, may_contain, set_probes,
}
use lsm_tree.Bloom.Bits.{length-set_probes, test_probes-set_probes, test_probes-set_probes_self}

abbrev pub AllBlocks : List Block → Type 0
AllBlocks [] = Unit {0}
AllBlocks (b ∷ bs) = (length b ≡ 8) × AllBlocks bs

-- As many blocks of eight words as the filter counts, and at least one.
pub record IsFilter (f : BloomFilter) : Type 0 where
  pub count : length f.blocks ≡ f.num_blocks
  pub some_block : 0 < f.num_blocks
  pub words : AllBlocks f.blocks

AllBlocks-get : (bs : List Block) (i : ℕ) → AllBlocks bs → length (get_or bs i empty_block) ≡ 8
AllBlocks-get [] i a = refl
AllBlocks-get (b ∷ bs) zero a = a.0
AllBlocks-get (b ∷ bs) (suc i) a = AllBlocks-get bs i a.1

AllBlocks-set :
    (bs : List Block) (i : ℕ) (b : Block) → length b ≡ 8 → AllBlocks bs → AllBlocks (set bs i b)
AllBlocks-set [] i b l a = tt
AllBlocks-set (c ∷ bs) zero b l a = (l, a.1)
AllBlocks-set (c ∷ bs) (suc i) b l a = (a.0, AllBlocks-set bs i b l a.1)

AllBlocks-replicate : (n : ℕ) → AllBlocks (replicate n empty_block)
AllBlocks-replicate zero = tt
AllBlocks-replicate (suc n) = (refl, AllBlocks-replicate n)

-- The constructor's filter is well formed, whatever the formula gives.
pub new_filter-IsFilter : (total_bits : ℕ) → IsFilter (new_filter total_bits)
unfolding new_filter
new_filter-IsFilter total_bits =
    let count = if (total_bits + 511) / 512 == 0 then 1 else (total_bits + 511) / 512 in
    record {
      count = length-replicate count empty_block;
      some_block = ground arith;
      words = AllBlocks-replicate count;
    }

module _ (f : BloomFilter) (v : IsFilter f) where
  block_of : Key → Block
  block_of k = get_or f.blocks ((hash k).h1 % f.num_blocks) empty_block

  pub insert-IsFilter : (k : Key) → IsFilter (insert k f)
  unfolding insert
  insert-IsFilter k =
      let i = (hash k).h1 % f.num_blocks in
      let b = get_or f.blocks i empty_block in
      record {
        count = length-set f.blocks i _ ∙ v.count;
        some_block = v.some_block;
        words =
            AllBlocks-set f.blocks i _
              (length-set_probes f.num_hashes 0 (hash k) b ∙ AllBlocks-get f.blocks i v.words)
              v.words;
      }

  pub may_contain-insert_self : (k : Key) → may_contain (insert k f) k ≡ true
  unfolding insert may_contain
  may_contain-insert_self k =
      let i = (hash k).h1 % f.num_blocks in
      let b = get_or f.blocks i empty_block in
      let h = v.count in
      let pos = v.some_block in
      rw
        (get_or-set_self f.blocks i (set_probes f.num_hashes 0 (hash k) b) empty_block
          (grind arith))
        (test_probes-set_probes_self f.num_hashes 0 (hash k) b (AllBlocks-get f.blocks i v.words))

  pub may_contain-insert : (j k : Key) → may_contain f k ≡ true → may_contain (insert j f) k ≡ true
  unfolding insert may_contain
  may_contain-insert j k h =
      let m = (hash j).h1 % f.num_blocks in
      let n = (hash k).h1 % f.num_blocks in
      let b = set_probes f.num_hashes 0 (hash j) (get_or f.blocks m empty_block) in
      let pos = v.some_block in
      elim (ℕ_discrete m n) [
        | yes e ↦
            let inside : n < length f.blocks = rw (v.count) (grind arith) in
            rw (e, get_or-set_self f.blocks n _ empty_block inside)
              (test_probes-set_probes f.num_hashes 0 (hash k) f.num_hashes 0 (hash j)
                (get_or f.blocks n empty_block) h)
        | no d ↦ rw (get_or-set_ne f.blocks m n b empty_block d) h
      ]

-- The loop of SSTable::write over the keys of a table.
unfoldable pub insert_all : List Key → BloomFilter → BloomFilter
insert_all [] f = f
insert_all (k ∷ ks) f = insert_all ks (insert k f)

pub insert_all-keeps :
    (ks : List Key) (f : BloomFilter) (k : Key)
    → IsFilter f
    → may_contain f k ≡ true
    → may_contain (insert_all ks f) k ≡ true
unfolding insert_all
insert_all-keeps [] f k v h = h
insert_all-keeps (j ∷ ks) f k v h =
    insert_all-keeps ks (insert j f) k (insert-IsFilter f v j) (may_contain-insert f v j k h)

-- `k` is one of the keys.
abbrev pub IsAmong : Key → List Key → Type 0
IsAmong k [] = ⊥
IsAmong k (j ∷ ks) = (j ≡ k) ⊎ IsAmong k ks

-- Every key that was inserted, before or after any others, may be contained.
pub may_contain-insert_all :
    (ks : List Key) (f : BloomFilter) (k : Key)
    → IsFilter f
    → IsAmong k ks
    → may_contain (insert_all ks f) k ≡ true
unfolding insert_all
may_contain-insert_all [] f k v a = absurd a
may_contain-insert_all (j ∷ ks) f k v (inl e) =
    insert_all-keeps ks (insert j f) k (insert-IsFilter f v j)
      (rw e (may_contain-insert_self f v k))
may_contain-insert_all (j ∷ ks) f k v (inr a) =
    may_contain-insert_all ks (insert j f) k (insert-IsFilter f v j) a
