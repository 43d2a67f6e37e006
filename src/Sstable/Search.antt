-- ===== src/Sstable/Search.antt =====
-- The binary search of SSTable::get and SSTable::findBlock over the sparse index.
use lsm_tree.Prelude.{
  ℕ, zero, suc, ◌+◌, ◌-◌, ◌/◌, ◌≤◌, ◌<◌, ◌≡◌, ◌⊎◌, inl, inr, refl, true, false, List, [], arith,
  ltb, if◌then◌else◌, length, get_or, Bool-cases,
}
use lsm_tree.Keys.{Key, key_lt}

abbrev pub key_at : List (Key × ℕ) → ℕ → Key
key_at index i = (get_or index i ([], 0)).0

-- while (lo < hi) { mid = lo + (hi - lo + 1) / 2; if (index_[mid].first <= key) lo = mid; else
-- hi = mid - 1; }, with fuel for the distance that is left.
unfoldable pub search_loop : ℕ → List (Key × ℕ) → Key → ℕ → ℕ → ℕ
search_loop zero index key lo hi = lo
search_loop (suc fuel) index key lo hi =
    let mid = lo + (hi - lo + 1) / 2 in
    let right = search_loop fuel index key mid hi in
    let left = search_loop fuel index key lo (mid - 1) in
    let rest = if key_lt key (key_at index mid) then left else right in
    if ltb lo hi then rest else lo

-- The slot of a key in an index that is not empty.
unfoldable pub find_slot : List (Key × ℕ) → Key → ℕ
find_slot index key = search_loop (length index) index key 0 (length index - 1)

-- Of the slots from `lo` to `hi`, `r` is the last whose key is not above `key`, or `lo`.
pub record IsSlot (index : List (Key × ℕ)) (key : Key) (lo hi r : ℕ) : Type 0 where
  pub from : lo ≤ r
  pub to : r ≤ hi
  pub here : (r ≡ lo) ⊎ (key_lt key (key_at index r) ≡ false)
  pub next : (r ≡ hi) ⊎ (key_lt key (key_at index (r + 1)) ≡ true)

search_right :
    {index : List (Key × ℕ)} {key : Key} {lo mid hi r : ℕ}
    → lo ≤ mid
    → key_lt key (key_at index mid) ≡ false
    → IsSlot index key mid hi r
    → IsSlot index key lo hi r
search_right {index} {key} {lo} {mid} {hi} {r} l k s = record {
  from = omega (arith, s.from);
  to = s.to;
  here = elim s.here [ inl e ↦ inr (rw e k) | inr h ↦ inr h ];
  next = s.next;
}

search_left :
    {index : List (Key × ℕ)} {key : Key} {lo mid hi r : ℕ}
    → 0 < mid
    → mid ≤ hi
    → key_lt key (key_at index mid) ≡ true
    → IsSlot index key lo (mid - 1) r
    → IsSlot index key lo hi r
search_left {index} {key} {lo} {mid} {hi} {r} p l k s = record {
  from = s.from;
  to = omega (arith, s.to);
  here = s.here;
  next = elim s.next [
    | inl e ↦ let same : r + 1 ≡ mid = omega arith in inr (rw same k)
    | inr h ↦ inr h
  ];
}

-- The loop ends at such a slot: it needs no more rounds than there are slots to choose from.
pub search_loop-IsSlot :
    (fuel : ℕ) (index : List (Key × ℕ)) (key : Key) (lo hi : ℕ)
    → lo ≤ hi
    → hi - lo ≤ fuel
    → IsSlot index key lo hi (search_loop fuel index key lo hi)
unfolding search_loop
search_loop-IsSlot zero index key lo hi l f = record {
  from = omega arith;
  to = l;
  here = inl refl;
  next = inl (omega arith);
}
search_loop-IsSlot (suc fuel) index key lo hi l f = elim (Bool-cases (ltb lo hi)) [
  | inr e ↦ rw e (record { from = omega arith; to = l; here = inl refl; next = inl (ground arith) })
  | inl t ↦
      let mid = lo + (hi - lo + 1) / 2 in
      let open_range : lo < hi = ground arith in
      elim (Bool-cases (key_lt key (key_at index mid))) [
        | inl k ↦
            rw (t, k)
              (search_left (omega arith) (omega arith) k
                (search_loop-IsSlot fuel index key lo (mid - 1) (omega arith) (omega arith)))
        | inr k ↦
            rw (t, k)
              (search_right (omega arith) k
                (search_loop-IsSlot fuel index key mid hi (omega arith) (omega arith)))
      ]
]

-- In an index with at least one line, the search ends at a slot of the index whose key is not above
-- `key`, unless that is the first slot, and whose next slot's key, if there is one, is above `key`.
pub find_slot-IsSlot :
    (index : List (Key × ℕ)) (key : Key)
    → 0 < length index
    → IsSlot index key 0 (length index - 1) (find_slot index key)
unfolding find_slot
find_slot-IsSlot index key h =
    search_loop-IsSlot (length index) index key 0 (length index - 1) (omega arith) (omega arith)
