-- ===== src/Cache/Reads.antt =====
-- A read through the cache answers what a read of the table answers.
use lsm_tree.Prelude.{
  ℕ, zero, suc, ◌-◌, ◌<◌, ◌≡◌, refl, sym, ap, ◌∙◌, true, false, Option, none, some, List, [], ◌∷◌,
  arith, Bool-cases, inl, inr, subst, leb, length, slice,
}
use lsm_tree.Keys.{Key}
use lsm_tree.Bloom.{may_contain}
use lsm_tree.Sstable.Entries.{Entry}
use lsm_tree.Sstable.Format.{parse_block_entries, parse_loop}
use lsm_tree.Sstable.Build.{Table}
use lsm_tree.Sstable.Search.{find_slot, find_slot-IsSlot}
use lsm_tree.Sstable.Read.{offset_at, block_end, read_block, scan_block, get}
use lsm_tree.Cache.{
  CacheKey, Node, BlockCache, Sizes, find_node, erase_node, cache_get, cache_put, pop_back,
  without_last, evict_loop, evict_if_needed, over_limit, cache_key_eq, cached_get, read_through,
}
use lsm_tree.Cache.Bounds.{find-cases, find-key, cache_key_eq→eq}

-- Every node holds the block that its key stands for.
abbrev pub Holds : (CacheKey → List Entry) → List Node → Type 0
Holds block [] = Unit {0}
Holds block (n ∷ ns) = (n.value ≡ block n.key) × Holds block ns

module _ (block : CacheKey → List Entry) where
  Holds-erase : (k : CacheKey) (ns : List Node) → Holds block ns → Holds block (erase_node k ns)
  unfolding erase_node
  Holds-erase k [] h = tt
  Holds-erase k (n ∷ ns) h = elim (Bool-cases (cache_key_eq n.key k)) [
    | inl t ↦ rw t h.1
    | inr u ↦ rw u (h.0, Holds-erase k ns h.1)
  ]

  Holds-find :
      (k : CacheKey) (ns : List Node) (n : Node)
      → Holds block ns
      → find_node k ns ≡ some n
      → n.value ≡ block n.key
  unfolding find_node
  Holds-find k [] n h f = absurd (ground arith)
  Holds-find k (m ∷ ns) n h f = elim (Bool-cases (cache_key_eq m.key k)) [
    | inl t ↦
        let same : some m ≡ some n = rw t at f in
        let here = h.0 in
        let it : m ≡ n = ground arith in subst (λ (x : Node). x.value ≡ block x.key) it here
    | inr u ↦ Holds-find k ns n h.1 (rw u at f)
  ]

  Holds-without_last : (ns : List Node) → Holds block ns → Holds block (without_last ns)
  unfolding without_last
  Holds-without_last [] h = tt
  Holds-without_last (n ∷ []) h = tt
  Holds-without_last (n ∷ m ∷ ns) h = (h.0, Holds-without_last (m ∷ ns) h.1)

  Holds-evict_loop :
      (fuel : ℕ) (c : BlockCache)
      → Holds block c.lru_list
      → Holds block (evict_loop fuel c).lru_list
  unfolding evict_loop
  Holds-evict_loop zero c h = h
  Holds-evict_loop (suc fuel) c h = elim (Bool-cases (over_limit c)) [
    | inl t ↦
        rw t
          (Holds-evict_loop fuel (pop_back c) (unfold pop_back in Holds-without_last c.lru_list h))
    | inr f ↦ rw f h
  ]

  Holds-put :
      (sizes : Sizes) (c : BlockCache) (k : CacheKey) (es : List Entry)
      → es ≡ block k
      → Holds block c.lru_list
      → Holds block (cache_put sizes c k es).lru_list
  unfolding cache_put evict_if_needed
  Holds-put sizes c k es e h = elim (find-cases k c.lru_list) [
    | inl f ↦ rw f (Holds-evict_loop _ _ (e, h))
    | inr n ↦ rw n.at (Holds-evict_loop _ _ (e, Holds-erase k c.lru_list h))
  ]

  -- What a read through the cache gives: the answer of the table, and a cache that still holds
  -- the right blocks.
  pub record IsRead (t : Table) (key : Key) (r : Option (Option Key) × BlockCache) : Type 0 where
    pub answer : r.0 ≡ get t key
    pub holds : Holds block r.1.lru_list

  module _ (sizes : Sizes) (t : Table) (path : Key)
      (blocks : (slot : ℕ)
        → slot < length t.index
        → block (record { sstable_path = path; block_offset = offset_at t.index slot })
          ≡ read_block t slot) where
    slice_empty : (n : ℕ) (bytes : List ℕ) (start : ℕ) → n ≡ 0 → slice bytes start n ≡ []
    unfolding slice
    slice_empty n bytes start z = rw z refl

    parse_empty : parse_block_entries [] ≡ []
    unfolding parse_block_entries parse_loop
    parse_empty = refl

    no_bytes :
        (slot : ℕ) (key : Key)
        → leb (block_end t slot) (offset_at t.index slot) ≡ true
        → scan_block key (read_block t slot) ≡ none
    unfolding read_block
    no_bytes slot key l =
        rw
          (
            slice_empty (block_end t slot - offset_at t.index slot) t.content
                (offset_at t.index slot) (ground arith),
            parse_empty,
          )
          (unfold scan_block in refl)

    -- The read of a slot's block, on a hit and on a miss.
    slot_read :
        (c : BlockCache) (slot : ℕ) (key : Key)
        → slot < length t.index
        → Holds block c.lru_list
        → (let at : CacheKey = record {
          sstable_path = path;
          block_offset = offset_at t.index slot;
        } in
            let r = read_through sizes t at slot key (cache_get c at) in
            (r.0 ≡ scan_block key (read_block t slot)) × Holds block r.1.lru_list)
    unfolding cache_get read_through
    slot_read c slot key in_index h =
        let at : CacheKey = record { sstable_path = path; block_offset = offset_at t.index slot } in
        elim (find-cases at c.lru_list) [
          | inl f ↦ elim (Bool-cases (leb (block_end t slot) (offset_at t.index slot))) [
            | inl e ↦ rw (cache_get, f, read_through, e) (sym (no_bytes slot key e), h)
            | inr n ↦
                rw (cache_get, f, read_through, n)
                  (refl, Holds-put sizes c at (read_block t slot) (sym (blocks slot in_index)) h)
          ]
          | inr n ↦
              let same : n.node.key ≡ at =
                cache_key_eq→eq n.node.key at (find-key at c.lru_list n.node n.at) in
              let held = Holds-find at c.lru_list n.node h n.at in
              rw (cache_get, n.at, read_through)
                (
                  ap (scan_block key) (held ∙ ap block same ∙ blocks slot in_index),
                  (held, Holds-erase at c.lru_list h),
                )
        ]

    get_slot :
        (key : Key)
        → may_contain t.bloom key ≡ true
        → leb (length t.index) 0 ≡ false
        → scan_block key (read_block t (find_slot t.index key)) ≡ get t key
    unfolding get
    get_slot key m n =
        let slot = find_slot t.index key in
        elim (Bool-cases (leb (block_end t slot) (offset_at t.index slot))) [
          | inl e ↦ rw (m, n, e) (no_bytes slot key e)
          | inr f ↦ rw (m, n, f)
        ]

    -- A read through a cache whose nodes hold the blocks of their tables answers, hit or miss, what
    -- a read of the table without the cache answers, and leaves nodes that hold such blocks.
    pub cached_get-IsRead :
        (c : BlockCache) (key : Key)
        → Holds block c.lru_list
        → IsRead t key (cached_get sizes c path t key)
    unfolding cached_get get
    cached_get-IsRead c key h = elim (Bool-cases (may_contain t.bloom key)) [
      | inr f ↦ rw f (record { answer = rw (get, f); holds = h })
      | inl m ↦ elim (Bool-cases (leb (length t.index) 0)) [
        | inl z ↦ rw (m, z) (record { answer = rw (get, m, z); holds = h })
        | inr n ↦
            let slot = find_slot t.index key in
            let in_index = find_slot-IsSlot t.index key (ground arith) in
            let last = in_index.to in
            let some_line : 0 < length t.index = ground arith in
            let r = slot_read c slot key (omega arith) h in
            rw (m, n) (record { answer = r.0 ∙ get_slot key m n; holds = r.1 })
      ]
    ]
