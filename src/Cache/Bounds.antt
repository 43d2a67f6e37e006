-- ===== src/Cache/Bounds.antt =====
-- Every operation of the cache keeps it within its limits, with the right byte count.
use lsm_tree.Prelude.{
  ℕ, suc, ◌+◌, ◌-◌, ◌^◌, ◌⊎◌, ◌≤◌, ◌<◌, ◌≡◌, refl, sym, ap, ◌∙◌, true, false, none, some, List, [],
  ◌∷◌, arith, Bool-cases, inl, inr, length,
}
use lsm_tree.Keys.{Key, key_eq, key_eq→eq, key_eq_refl}
use lsm_tree.Sstable.Entries.{Entry}
use lsm_tree.Cache.{
  CacheKey, Node, BlockCache, Sizes, calculate_block_bytes, cache_key_eq, add_word, sub_word,
  find_node, erase_node, cache_get, cache_put, erase_path, invalidate_path,
}
use lsm_tree.Cache.Evict.{total, Distinct, IsCache, evict-IsCache, sub_word-lt, add_word-lt}

pub cache_key_eq→eq : (a b : CacheKey) → cache_key_eq a b ≡ true → a ≡ b
unfolding cache_key_eq
cache_key_eq→eq a b h =
    let offsets : a.block_offset ≡ b.block_offset = ground arith in
    let paths : key_eq a.sstable_path b.sstable_path ≡ true = ground arith in
    ap (λ p. record { sstable_path = p; block_offset = a.block_offset })
      (key_eq→eq a.sstable_path b.sstable_path paths)
    ∙ ap (λ o. record { sstable_path = b.sstable_path; block_offset = o }) offsets

find-erase_none :
    (j k : CacheKey) (ns : List Node) → find_node j ns ≡ none → find_node j (erase_node k ns) ≡ none
unfolding find_node erase_node
find-erase_none j k [] f = refl
find-erase_none j k (n ∷ ns) f = elim (Bool-cases (cache_key_eq n.key j)) [
  | inl t ↦ absurd (ground arith)
  | inr u ↦
      let rest : find_node j ns ≡ none = rw u at f in ground (arith, find-erase_none j k ns rest)
]

find-erase_self :
    (k : CacheKey) (ns : List Node) → Distinct ns → find_node k (erase_node k ns) ≡ none
unfolding find_node erase_node
find-erase_self k [] d = refl
find-erase_self k (n ∷ ns) d = elim (Bool-cases (cache_key_eq n.key k)) [
  | inl t ↦ rw (t, ← cache_key_eq→eq n.key k t) d.0
  | inr u ↦ rw (u, u) (find-erase_self k ns d.1)
]

Distinct-erase : (k : CacheKey) (ns : List Node) → Distinct ns → Distinct (erase_node k ns)
unfolding erase_node
Distinct-erase k [] d = tt
Distinct-erase k (n ∷ ns) d = elim (Bool-cases (cache_key_eq n.key k)) [
  | inl t ↦ rw t d.1
  | inr u ↦ rw u (find-erase_none n.key k ns d.0, Distinct-erase k ns d.1)
]

total-erase :
    (k : CacheKey) (ns : List Node) (n : Node)
    → find_node k ns ≡ some n
    → n.byte_size + total (erase_node k ns) ≡ total ns
unfolding find_node erase_node total
total-erase k [] n f = absurd (ground arith)
total-erase k (m ∷ ns) n f = elim (Bool-cases (cache_key_eq m.key k)) [
  | inl t ↦ let same : some m ≡ some n = rw t at f in rw t (ground arith)
  | inr u ↦ let rest = total-erase k ns n (rw u at f) in rw u (omega arith)
]

length-erase :
    (k : CacheKey) (ns : List Node) (n : Node)
    → find_node k ns ≡ some n
    → suc (length (erase_node k ns)) ≡ length ns
unfolding find_node erase_node
length-erase k [] n f = absurd (ground arith)
length-erase k (m ∷ ns) n f = elim (Bool-cases (cache_key_eq m.key k)) [
  | inl t ↦ rw t
  | inr u ↦ rw u (ap suc (length-erase k ns n (rw u at f)))
]

pub find-key :
    (k : CacheKey) (ns : List Node) (n : Node)
    → find_node k ns ≡ some n
    → cache_key_eq n.key k ≡ true
unfolding find_node
find-key k [] n f = absurd (ground arith)
find-key k (m ∷ ns) n f = elim (Bool-cases (cache_key_eq m.key k)) [
  | inl t ↦ let same : some m ≡ some n = rw t at f in ground arith
  | inr u ↦ find-key k ns n (rw u at f)
]

pub record Hit (k : CacheKey) (ns : List Node) : Type 0 where
  pub node : Node
  pub at : find_node k ns ≡ some node

pub find-cases : (k : CacheKey) (ns : List Node) → (find_node k ns ≡ none) ⊎ Hit k ns
unfolding find_node
find-cases k [] = inl refl
find-cases k (n ∷ ns) = elim (Bool-cases (cache_key_eq n.key k)) [
  | inl t ↦ inr (record { node = n; at = rw t })
  | inr u ↦ elim (find-cases k ns) [
    | inl f ↦ inl (rw u f)
    | inr h ↦ inr (record { node = h.node; at = rw u h.at })
  ]
]

Distinct-front :
    (k : CacheKey) (ns : List Node) (n : Node)
    → cache_key_eq n.key k ≡ true
    → Distinct ns
    → Distinct (n ∷ erase_node k ns)
Distinct-front k ns n e d =
    (rw (cache_key_eq→eq n.key k e) (find-erase_self k ns d), Distinct-erase k ns d)

cache_key_eq_refl : (k : CacheKey) → cache_key_eq k k ≡ true
unfolding cache_key_eq
cache_key_eq_refl k = ground (arith, key_eq_refl k.sstable_path)

pub get-IsCache : (c : BlockCache) (k : CacheKey) → IsCache c → IsCache (cache_get c k).1
unfolding cache_get
get-IsCache c k i = elim (find-cases k c.lru_list) [
  | inl f ↦ rw (cache_get, f) i
  | inr h ↦
      let same : total (h.node ∷ erase_node k c.lru_list) ≡ total c.lru_list =
        unfold total in total-erase k c.lru_list h.node h.at in
      rw (cache_get, h.at)
        (record {
          tallied = record {
            counted = i.tallied.counted ∙ sym same;
            word = let w = i.tallied.word in omega arith;
            distinct =
                Distinct-front k c.lru_list h.node (find-key k c.lru_list h.node h.at)
                  i.tallied.distinct;
          };
          blocks = let b = i.blocks in omega (arith, length-erase k c.lru_list h.node h.at);
          bytes = let b = i.bytes in omega arith;
        })
]

pub put-IsCache :
    (sizes : Sizes) (c : BlockCache) (k : CacheKey) (es : List Entry)
    → IsCache c
    → c.max_bytes + calculate_block_bytes sizes es < 2 ^ 64
    → IsCache (cache_put sizes c k es)
unfolding cache_put
put-IsCache sizes c k es i room =
    let new = calculate_block_bytes sizes es in
    let node : Node = record { key = k; value = es; byte_size = new } in
    let bytes = i.bytes in
    let word = i.tallied.word in
    elim (find-cases k c.lru_list) [
      | inl f ↦ rw f (
          evict-IsCache _ (record {
            counted =
                ap (λ b. add_word b new) i.tallied.counted
                ∙ add_word-lt (total c.lru_list) new (omega arith)
                ∙ unfold total in omega arith;
            word = unfold total in omega arith;
            distinct = (f, i.tallied.distinct);
          }))
      | inr h ↦
          let split = total-erase k c.lru_list h.node h.at in
          rw h.at (
            evict-IsCache _ (record {
              counted =
                  ap (λ b. add_word (sub_word b h.node.byte_size) new) i.tallied.counted
                  ∙ ap (λ b. add_word b new)
                      (sub_word-lt (total c.lru_list) h.node.byte_size (omega arith) word)
                  ∙ add_word-lt (total c.lru_list - h.node.byte_size) new (omega arith)
                  ∙ unfold total in omega arith;
              word = unfold total in omega arith;
              distinct = Distinct-front k c.lru_list node (cache_key_eq_refl k) i.tallied.distinct;
            }))
    ]

find-tail :
    (k : CacheKey) (n : Node) (ns : List Node) → find_node k (n ∷ ns) ≡ none → find_node k ns ≡ none
unfolding find_node
find-tail k n ns f = ground arith

find-head :
    (k : CacheKey) (n : Node) (ns : List Node)
    → find_node k (n ∷ ns) ≡ none
    → cache_key_eq n.key k ≡ false
unfolding find_node
find-head k n ns f = ground arith

find-cons :
    (k : CacheKey) (n : Node) (ns : List Node)
    → cache_key_eq n.key k ≡ false
    → find_node k ns ≡ none
    → find_node k (n ∷ ns) ≡ none
unfolding find_node
find-cons k n ns e f = rw e f

total-cons : (n : Node) (ns : List Node) → total (n ∷ ns) ≡ n.byte_size + total ns
unfolding total
total-cons n ns = refl

record Erased (path : Key) (bytes : ℕ) (ns : List Node) : Type 0 where
  sum : (erase_path path bytes ns).1 + total ns ≡ bytes + total (erase_path path bytes ns).0
  fewer : total (erase_path path bytes ns).0 ≤ total ns
  count : length (erase_path path bytes ns).0 ≤ length ns
  finds : (k : CacheKey) → find_node k ns ≡ none → find_node k (erase_path path bytes ns).0 ≡ none
  distinct : Distinct (erase_path path bytes ns).0

erase_path-Erased :
    (path : Key) (bytes : ℕ) (ns : List Node)
    → Distinct ns
    → total ns ≤ bytes
    → bytes < 2 ^ 64
    → Erased path bytes ns
erase_path-Erased path bytes [] d l w =
    unfold erase_path in
    record { sum = refl; fewer = omega arith; count = omega arith; finds = λ k f. f; distinct = tt }
erase_path-Erased path bytes (n ∷ ns) d l w =
    let sizes : total (n ∷ ns) ≡ n.byte_size + total ns = total-cons n ns in
    elim (Bool-cases (key_eq n.key.sstable_path path)) [
      | inl t ↦
          let left : sub_word bytes n.byte_size ≡ bytes - n.byte_size =
            sub_word-lt bytes n.byte_size (omega arith) w in
          let e = erase_path-Erased path (bytes - n.byte_size) ns d.1 (omega arith) (omega arith) in
          let here : erase_path path bytes (n ∷ ns) ≡ erase_path path (bytes - n.byte_size) ns =
            unfold erase_path in rw (t, left) in
          record {
            sum = rw here (let q = e.sum in omega arith);
            fewer = rw here (let q = e.fewer in omega arith);
            count = rw here (let q = e.count in omega arith);
            finds = λ k f. rw here (e.finds k (find-tail k n ns f));
            distinct = rw here e.distinct;
          }
      | inr u ↦
          let e = erase_path-Erased path bytes ns d.1 (omega arith) w in
          let kept = erase_path path bytes ns in
          let here : erase_path path bytes (n ∷ ns) ≡ (n ∷ kept.0, kept.1) =
            unfold erase_path in rw u in
          record {
            sum = rw here (let q = e.sum in omega (arith, sizes, total-cons n kept.0));
            fewer = rw here (let q = e.fewer in omega (arith, sizes, total-cons n kept.0));
            count = rw here (let q = e.count in omega arith);
            finds = λ k f.
                rw here
                  (find-cons k n kept.0 (find-head k n ns f) (e.finds k (find-tail k n ns f)));
            distinct = rw here (e.finds n.key d.0, e.distinct);
          }
    ]

pub invalidate-IsCache :
    (c : BlockCache) (path : Key) → IsCache c → IsCache (invalidate_path c path)
unfolding invalidate_path
invalidate-IsCache c path i =
    let same = i.tallied.counted in
    let word = i.tallied.word in
    let blocks = i.blocks in
    let bytes = i.bytes in
    let e =
      erase_path-Erased path c.current_bytes c.lru_list i.tallied.distinct (omega arith)
        (omega arith) in
    let sum = e.sum in
    let fewer = e.fewer in
    let count = e.count in
    record {
      tallied = record { counted = omega arith; word = omega arith; distinct = e.distinct };
      blocks = omega arith;
      bytes = omega arith;
    }
