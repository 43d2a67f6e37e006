-- ===== src/Cache/Evict.antt =====
-- The eviction loop: it keeps the byte count and the distinct keys, and ends within the limits.
use lsm_tree.Prelude.{
  ℕ, zero, suc, ◌+◌, ◌-◌, ◌^◌, ◌≤◌, ◌<◌, ◌≡◌, refl, ap, ◌∙◌, false, none, List, [], ◌∷◌, arith,
  Bool-cases, inl, inr, length,
}
use lsm_tree.Cache.{
  CacheKey, Node, BlockCache, add_word, sub_word, find_node, last_bytes, without_last, over_limit,
  pop_back, evict_loop, evict_if_needed, cache_key_eq,
}

unfoldable pub total : List Node → ℕ
total [] = 0
total (n ∷ ns) = n.byte_size + total ns

-- No key has two nodes, as in the map.
abbrev pub Distinct : List Node → Type 0
Distinct [] = Unit {0}
Distinct (n ∷ ns) = (find_node n.key ns ≡ none) × Distinct ns

-- The byte count is the sum of the nodes' sizes.
pub record IsTallied (c : BlockCache) : Type 0 where
  pub counted : c.current_bytes ≡ total c.lru_list
  pub word : total c.lru_list < 2 ^ 64
  pub distinct : Distinct c.lru_list

pub sub_word-lt : (a b : ℕ) → b ≤ a → a < 2 ^ 64 → sub_word a b ≡ a - b
unfolding sub_word
sub_word-lt a b l w = omega arith

pub add_word-lt : (a b : ℕ) → a + b < 2 ^ 64 → add_word a b ≡ a + b
unfolding add_word
add_word-lt a b l = omega arith

total-last : (ns : List Node) → total (without_last ns) + last_bytes ns ≡ total ns
unfolding total without_last last_bytes
total-last [] = refl
total-last (n ∷ []) = omega arith
total-last (n ∷ m ∷ ns) = omega (arith, total-last (m ∷ ns))

length-without_last : (ns : List Node) → length (without_last ns) ≡ length ns - 1
unfolding without_last
length-without_last [] = refl
length-without_last (n ∷ []) = refl
length-without_last (n ∷ m ∷ ns) = omega (arith, length-without_last (m ∷ ns))

find-without_last :
    (k : CacheKey) (ns : List Node) → find_node k ns ≡ none → find_node k (without_last ns) ≡ none
unfolding find_node without_last
find-without_last k [] f = refl
find-without_last k (n ∷ []) f = refl
find-without_last k (n ∷ m ∷ ns) f = elim (Bool-cases (cache_key_eq n.key k)) [
  | inl t ↦ absurd (ground arith)
  | inr u ↦ rw u (find-without_last k (m ∷ ns) (rw u at f))
]

Distinct-without_last : (ns : List Node) → Distinct ns → Distinct (without_last ns)
unfolding without_last
Distinct-without_last [] d = tt
Distinct-without_last (n ∷ []) d = tt
Distinct-without_last (n ∷ m ∷ ns) d =
    (find-without_last n.key (m ∷ ns) d.0, Distinct-without_last (m ∷ ns) d.1)

pop_back-IsTallied : (c : BlockCache) → IsTallied c → IsTallied (pop_back c)
unfolding pop_back
pop_back-IsTallied c i =
    let t = total-last c.lru_list in
    record {
      counted =
          ap (λ b. sub_word b (last_bytes c.lru_list)) i.counted
          ∙ sub_word-lt (total c.lru_list) (last_bytes c.lru_list) (omega arith) i.word
          ∙ omega arith;
      word = let w = i.word in omega arith;
      distinct = Distinct-without_last c.lru_list i.distinct;
    }

-- What eviction leaves: a cache within both limits.
pub record IsCache (c : BlockCache) : Type 0 where
  pub tallied : IsTallied c
  pub blocks : length c.lru_list ≤ c.capacity
  pub bytes : total c.lru_list ≤ c.max_bytes

over_limit-false : (c : BlockCache) → IsTallied c → over_limit c ≡ false → IsCache c
unfolding over_limit
over_limit-false c i o = record {
  tallied = i;
  blocks = ground arith;
  bytes = let q = i.counted in ground arith;
}

empty-over_limit : (c : BlockCache) → IsTallied c → c.lru_list ≡ [] → over_limit c ≡ false
unfolding over_limit
empty-over_limit c i e =
    let none_left : c.current_bytes ≡ 0 = i.counted ∙ ap total e ∙ unfold total in refl in
    let no_nodes : length c.lru_list ≡ 0 = ap length e in ground arith

length-zero : (ns : List Node) → length ns ≤ 0 → ns ≡ []
length-zero [] l = refl
length-zero (n ∷ ns) l = absurd (omega arith)

evict_loop-IsCache :
    (fuel : ℕ) (c : BlockCache)
    → length c.lru_list ≤ fuel
    → IsTallied c
    → IsCache (evict_loop fuel c)
unfolding evict_loop
evict_loop-IsCache zero c l i =
    over_limit-false c i (empty-over_limit c i (length-zero c.lru_list l))
evict_loop-IsCache (suc fuel) c l i = elim (Bool-cases (over_limit c)) [
  | inl t ↦ rw t (
      evict_loop-IsCache fuel (pop_back c)
        (unfold pop_back in (omega (arith, length-without_last c.lru_list)))
        (pop_back-IsTallied c i))
  | inr f ↦ rw f (over_limit-false c i f)
]

pub evict-IsCache : (c : BlockCache) → IsTallied c → IsCache (evict_if_needed c)
unfolding evict_if_needed
evict-IsCache c i = evict_loop-IsCache (length c.lru_list) c (omega arith) i
