-- ===== src/Cache/Runs.antt =====
-- Any sequence of calls keeps the cache within its limits.
use lsm_tree.Prelude.{
  ℕ, zero, suc, ◌+◌, ◌^◌, ◌≤◌, ◌<◌, ◌≡◌, refl, ◌∙◌, List, [], ◌∷◌, arith, Bool-cases, inl, inr,
  length,
}
use lsm_tree.Keys.{Key}
use lsm_tree.Sstable.Entries.{Entry}
use lsm_tree.Cache.{
  CacheKey, BlockCache, Sizes, calculate_block_bytes, new_cache, cache_get, cache_put,
  invalidate_path, cache_clear, evict_loop, evict_if_needed, over_limit, pop_back,
}
use lsm_tree.Cache.Evict.{total, Distinct, IsCache}
use lsm_tree.Cache.Bounds.{get-IsCache, put-IsCache, invalidate-IsCache, find-cases}

-- A call of the cache.
pub data Call : Type 0 where
  ask : CacheKey → Call
  store : CacheKey → List Entry → Call
  forget : Key → Call
  reset : Call

abbrev pub call : Sizes → BlockCache → Call → BlockCache
call sizes c (ask k) = (cache_get c k).1
call sizes c (store k es) = cache_put sizes c k es
call sizes c (forget path) = invalidate_path c path
call sizes c reset = cache_clear c

abbrev pub calls : Sizes → BlockCache → List Call → BlockCache
calls sizes c [] = c
calls sizes c (x ∷ xs) = calls sizes (call sizes c x) xs

-- No inserted block overflows the byte count of a cache with this limit.
abbrev pub Room : Sizes → ℕ → Call → Type 0
Room sizes max_bytes (ask k) = Unit {0}
Room sizes max_bytes (store k es) = max_bytes + calculate_block_bytes sizes es < 2 ^ 64
Room sizes max_bytes (forget path) = Unit {0}
Room sizes max_bytes reset = Unit {0}

abbrev pub AllRoom : Sizes → ℕ → List Call → Type 0
AllRoom sizes max_bytes [] = Unit {0}
AllRoom sizes max_bytes (x ∷ xs) = Room sizes max_bytes x × AllRoom sizes max_bytes xs

evict_loop-limits :
    (fuel : ℕ) (c : BlockCache)
    → ((evict_loop fuel c).capacity ≡ c.capacity) × ((evict_loop fuel c).max_bytes ≡ c.max_bytes)
unfolding evict_loop pop_back
evict_loop-limits zero c = (refl, refl)
evict_loop-limits (suc fuel) c = elim (Bool-cases (over_limit c)) [
  | inl t ↦ rw t (evict_loop-limits fuel (pop_back c))
  | inr f ↦ rw f (refl, refl)
]

get-limits :
    (c : BlockCache) (k : CacheKey)
    → ((cache_get c k).1.capacity ≡ c.capacity) × ((cache_get c k).1.max_bytes ≡ c.max_bytes)
unfolding cache_get
get-limits c k = elim (find-cases k c.lru_list) [
  | inl f ↦ rw (cache_get, f) (refl, refl)
  | inr h ↦ rw (cache_get, h.at) (refl, refl)
]

put-limits :
    (sizes : Sizes) (c : BlockCache) (k : CacheKey) (es : List Entry)
    → ((cache_put sizes c k es).capacity ≡ c.capacity)
      × ((cache_put sizes c k es).max_bytes ≡ c.max_bytes)
unfolding cache_put evict_if_needed
put-limits sizes c k es = elim (find-cases k c.lru_list) [
  | inl f ↦ rw (cache_put, f) (evict_loop-limits _ _)
  | inr h ↦ rw (cache_put, h.at) (evict_loop-limits _ _)
]

call-limits :
    (sizes : Sizes) (c : BlockCache) (x : Call)
    → ((call sizes c x).capacity ≡ c.capacity) × ((call sizes c x).max_bytes ≡ c.max_bytes)
unfolding invalidate_path cache_clear
call-limits sizes c (ask k) = get-limits c k
call-limits sizes c (store k es) = put-limits sizes c k es
call-limits sizes c (forget path) = (refl, refl)
call-limits sizes c reset = (refl, refl)

clear-IsCache : (c : BlockCache) → IsCache (cache_clear c)
unfolding cache_clear total
clear-IsCache c = record {
  tallied = record { counted = refl; word = omega arith; distinct = tt };
  blocks = omega arith;
  bytes = omega arith;
}

call-IsCache :
    (sizes : Sizes) (c : BlockCache) (x : Call)
    → IsCache c
    → Room sizes c.max_bytes x
    → IsCache (call sizes c x)
call-IsCache sizes c (ask k) i r = get-IsCache c k i
call-IsCache sizes c (store k es) i r = put-IsCache sizes c k es i r
call-IsCache sizes c (forget path) i r = invalidate-IsCache c path i
call-IsCache sizes c reset i r = clear-IsCache c

calls-IsCache :
    (sizes : Sizes) (xs : List Call) (c : BlockCache)
    → IsCache c
    → AllRoom sizes c.max_bytes xs
    → IsCache (calls sizes c xs)
calls-IsCache sizes [] c i r = i
calls-IsCache sizes (x ∷ xs) c i r =
    calls-IsCache sizes xs (call sizes c x) (call-IsCache sizes c x i r.0)
      (rw (call-limits sizes c x).1 r.1)

calls-limits :
    (sizes : Sizes) (xs : List Call) (c : BlockCache)
    → ((calls sizes c xs).capacity ≡ c.capacity) × ((calls sizes c xs).max_bytes ≡ c.max_bytes)
calls-limits sizes [] c = (refl, refl)
calls-limits sizes (x ∷ xs) c =
    let here = call-limits sizes c x in
    let rest = calls-limits sizes xs (call sizes c x) in (rest.0 ∙ here.0, rest.1 ∙ here.1)

-- What holds of a cache with the given limits.
pub record Bounded (capacity max_bytes : ℕ) (c : BlockCache) : Type 0 where
  pub blocks : length c.lru_list ≤ capacity
  pub bytes : c.current_bytes ≤ max_bytes
  pub counted : c.current_bytes ≡ total c.lru_list
  pub distinct : Distinct c.lru_list

-- After any sequence of lookups, inserts, invalidations and clears, none of which inserts a block
-- so large that the 64-bit byte count could wrap, a cache has at most its capacity of blocks and
-- at most its limit of bytes, its byte count is the sum over its blocks, and no key has two blocks.
pub calls-Bounded :
    (sizes : Sizes) (capacity max_bytes : ℕ) (xs : List Call)
    → AllRoom sizes max_bytes xs
    → Bounded capacity max_bytes (calls sizes (new_cache capacity max_bytes) xs)
unfolding new_cache cache_clear
calls-Bounded sizes capacity max_bytes xs r =
    let c = new_cache capacity max_bytes in
    let limits = calls-limits sizes xs c in
    let cap : (calls sizes c xs).capacity ≡ capacity = limits.0 in
    let most : (calls sizes c xs).max_bytes ≡ max_bytes = limits.1 in
    let i = calls-IsCache sizes xs c (clear-IsCache c) r in
    let blocks = i.blocks in
    let bytes = i.bytes in
    let counted = i.tallied.counted in
    record {
      blocks = omega arith;
      bytes = omega arith;
      counted = counted;
      distinct = i.tallied.distinct;
    }
