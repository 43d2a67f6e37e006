-- ===== src/Memtable/Writes.antt =====
-- put and del of a memtable: what it holds then, and the counts that it keeps.
use lsm_tree.Prelude.{
  ℕ, ◌+◌, ◌%◌, ◌^◌, ◌≤◌, ◌<◌, ◌≡◌, inl, inr, refl, sym, ap, ◌∙◌, Bool, true, false, Option, none,
  some, List, [], ◌∷◌, arith, Bool-cases, if◌then◌else◌, leb, length,
}
use lsm_tree.Keys.{Key, key_eq}
use lsm_tree.Sstable.Entries.{Ascending, entry_lookup}
use lsm_tree.Sstable.Iterate.{skip_below}
use lsm_tree.Memtable.{
  Tower, Memtable, is_key, value_size, replaced_bytes, skip_list_insert, adjust_value_bytes,
  memtable_put, memtable_del, memtable_get, memtable_entries, seek, entries,
}
use lsm_tree.Memtable.Find.{IsSkipList, from, find-from}
use lsm_tree.Memtable.Insert.{
  insert_in, insert-insert_in, insert_in-IsSkipList, lookup-insert_in, tally, tally-insert_in,
  length-insert_in, entries-from, Ascending-entries, found-lookup,
}

-- A memtable with the right counts, whose bytes fit the counter.
pub record IsMemtable (m : Memtable) : Type 0 where
  pub list : IsSkipList m.list
  pub bytes : m.current_bytes ≡ tally m.list
  pub room : tally m.list < 2 ^ 64
  pub count : m.count ≡ length m.list

-- `m'` is `m` after a write of a key: it reads as `m` but for that key, and its iterator walks
-- what it reads, in order.
pub record IsWrite (m m' : Memtable) (key : Key) (value : Option Key) : Type 0 where
  pub valid : IsMemtable m'
  pub reads :
      (j : Key) → memtable_get m' j ≡ (if key_eq key j then some value else memtable_get m j)
  pub sorted : Ascending (memtable_entries m')
  pub walks : (j : Key) → entry_lookup j (memtable_entries m') ≡ memtable_get m' j
  pub seeks : (j : Key) → seek m' j ≡ skip_below j (memtable_entries m')

inserted-nodes :
    (key : Key) (value : Option Key) (height : ℕ) (ns : List Tower)
    → IsSkipList ns
    → (skip_list_insert key value height ns).nodes ≡ insert_in key value height ns
unfolding skip_list_insert
inserted-nodes key value height ns s =
    rw (find-from key ns s) (insert-insert_in key value height ns)

get-lookup :
    (m : Memtable) (j : Key)
    → IsSkipList m.list
    → memtable_get m j ≡ entry_lookup j (entries m.list)
unfolding memtable_get
get-lookup m j s = rw (find-from j m.list s) (found-lookup j m.list s)

pub get-entries :
    (m : Memtable) (j : Key) → IsMemtable m → memtable_get m j ≡ entry_lookup j (memtable_entries m)
unfolding memtable_entries
get-entries m j i = get-lookup m j i.list

pub seek-entries :
    (m : Memtable) (j : Key) → IsMemtable m → seek m j ≡ skip_below j (memtable_entries m)
unfolding seek memtable_entries
seek-entries m j i = rw (find-from j m.list i.list) (entries-from j m.list)

pub entries-Ascending : (m : Memtable) → IsMemtable m → Ascending (memtable_entries m)
unfolding memtable_entries
entries-Ascending m i = Ascending-entries m.list i.list

module _ (m : Memtable) (key : Key) (value : Option Key) (height : ℕ) (tall : 0 < height)
    (i : IsMemtable m) where
  -- Any memtable with the nodes of the insert and the right counts.
  nodes-IsWrite :
      (m' : Memtable)
      → m'.list ≡ (skip_list_insert key value height m.list).nodes
      → m'.current_bytes ≡ tally (insert_in key value height m.list)
      → tally (insert_in key value height m.list) < 2 ^ 64
      → m'.count ≡ length (insert_in key value height m.list)
      → IsWrite m m' key value
  unfolding memtable_entries seek
  nodes-IsWrite m' nodes bytes room count =
      let same : m'.list ≡ insert_in key value height m.list =
        nodes ∙ inserted-nodes key value height m.list i.list in
      let list : IsSkipList m'.list =
        rw same (insert_in-IsSkipList key value height m.list tall i.list) in
      record {
        valid = record {
          list = list;
          bytes = bytes ∙ ap tally (sym same);
          room = rw same room;
          count = count ∙ ap length (sym same);
        };
        reads = λ j.
            get-lookup m' j list
            ∙ ap (λ ns. entry_lookup j (entries ns)) same
            ∙ lookup-insert_in j key value height m.list i.list
            ∙ ap (λ r. if key_eq key j then some value else r) (sym (get-lookup m j i.list));
        sorted = Ascending-entries m'.list list;
        walks = λ j. sym (get-lookup m' j list);
        seeks = λ j. rw (find-from j m'.list list) (entries-from j m'.list);
      }

adjusted :
    (current old new after : ℕ)
    → after + old ≡ current + new
    → current < 2 ^ 64
    → after < 2 ^ 64
    → adjust_value_bytes current old new ≡ after
unfolding adjust_value_bytes
adjusted current old new after e c a = elim (Bool-cases (leb old new)) [
  | inl t ↦ let le : old ≤ new = ground arith in rw t (omega arith)
  | inr f ↦ let lt : new < old = ground arith in rw f (omega arith)
]

inserted-is_key :
    (key : Key) (value : Option Key) (height : ℕ) (ns : List Tower)
    → IsSkipList ns
    → (skip_list_insert key value height ns).inserted
      ≡ (if is_key key (from key ns) then false else true)
unfolding skip_list_insert
inserted-is_key key value height ns s = rw (find-from key ns s)

replaced-from :
    (key : Key) (value : Option Key) (height : ℕ) (ns : List Tower)
    → IsSkipList ns
    → (skip_list_insert key value height ns).replaced_value_bytes ≡ replaced_bytes key (from key ns)
unfolding skip_list_insert
replaced-from key value height ns s = rw (find-from key ns s)

no_replaced : (key : Key) (ns : List Tower) → is_key key ns ≡ false → replaced_bytes key ns ≡ 0
unfolding replaced_bytes is_key
no_replaced key [] f = refl
no_replaced key (n ∷ ns) f = rw f

length-tally : (ns : List Tower) → length ns ≤ tally ns
unfolding tally
length-tally [] = omega arith
length-tally (n ∷ ns) = omega (arith, length-tally ns)

module _ (m : Memtable) (key : Key) (value : Option Key) (height : ℕ) (i : IsMemtable m)
    (room : tally m.list + (length key + value_size value + 8) < 2 ^ 64) where
  after : List Tower
  after = insert_in key value height m.list

  is_there : Bool
  is_there = is_key key (from key m.list)

  -- The key was there: its value is replaced.
  there_bytes :
      is_there ≡ true
      → adjust_value_bytes m.current_bytes
          (skip_list_insert key value height m.list).replaced_value_bytes
          (value_size value)
        ≡ tally after
  unfolding after is_there
  there_bytes t =
      let sum : tally after + replaced_bytes key (from key m.list)
          ≡ tally m.list + value_size value =
        rw t at (tally-insert_in key value height m.list) in
      ap
        (λ b.
          adjust_value_bytes b (skip_list_insert key value height m.list).replaced_value_bytes
            (value_size value))
        i.bytes
      ∙ ap (λ o. adjust_value_bytes (tally m.list) o (value_size value))
          (replaced-from key value height m.list i.list)
      ∙ adjusted (tally m.list) (replaced_bytes key (from key m.list)) (value_size value)
          (tally after) sum i.room (omega arith)

  there_rest : is_there ≡ true → (tally after < 2 ^ 64) × (m.count ≡ length after)
  unfolding after is_there
  there_rest t =
      let sum : tally after + replaced_bytes key (from key m.list)
          ≡ tally m.list + value_size value =
        rw t at (tally-insert_in key value height m.list) in
      let more : length after ≡ length m.list + 0 =
        rw t at (length-insert_in key value height m.list) in
      let count = i.count in (omega arith, omega arith)

  -- The key was not there: a node is added.
  added_counts :
      is_there ≡ false
      → ((m.current_bytes + (length key + value_size value + 8)) % 2 ^ 64 ≡ tally after)
        × ((tally after < 2 ^ 64) × ((m.count + 1) % 2 ^ 64 ≡ length after))
  unfolding after is_there
  added_counts f =
      let sum : tally after + replaced_bytes key (from key m.list)
          ≡ tally m.list + (length key + value_size value + 8) =
        rw f at (tally-insert_in key value height m.list) in
      let more : length after ≡ length m.list + 1 =
        rw f at (length-insert_in key value height m.list) in
      let zero_old = no_replaced key (from key m.list) f in
      let count = i.count in
      let bytes = i.bytes in
      let few = length-tally m.list in (omega arith, (omega arith, omega arith))

  there_flag : is_there ≡ true → (skip_list_insert key value height m.list).inserted ≡ false
  unfolding is_there
  there_flag t = inserted-is_key key value height m.list i.list ∙ rw t

  added_flag : is_there ≡ false → (skip_list_insert key value height m.list).inserted ≡ true
  unfolding is_there
  added_flag f = inserted-is_key key value height m.list i.list ∙ rw f

-- A put into a valid memtable, with room for the bytes of the new pair, gives a valid memtable that
-- reads as before except that the key has the value; its iterator walks what it reads in
-- increasing order, and seek starts it at the first key not below the one that is sought.
pub put-IsWrite :
    (m : Memtable) (key value : Key) (height : ℕ)
    → 0 < height
    → IsMemtable m
    → tally m.list + (length key + length value + 8) < 2 ^ 64
    → IsWrite m (memtable_put m key value height) key (some value)
unfolding memtable_put value_size after
put-IsWrite m key value height tall i room =
    elim (Bool-cases (is_there m key (some value) height i room)) [
      | inl t ↦
          let rest = there_rest m key (some value) height i room t in
          rw (memtable_put, there_flag m key (some value) height i room t)
            (nodes-IsWrite m key (some value) height tall i _ refl
              (there_bytes m key (some value) height i room t) rest.0 rest.1)
      | inr f ↦
          let c = added_counts m key (some value) height i room f in
          rw (memtable_put, added_flag m key (some value) height i room f)
            (nodes-IsWrite m key (some value) height tall i _ refl c.0 c.1.0 c.1.1)
    ]

-- A del in a valid memtable, with room for the bytes of a tombstone, gives a valid memtable that
-- reads as before except that the key has a tombstone.
pub del-IsWrite :
    (m : Memtable) (key : Key) (height : ℕ)
    → 0 < height
    → IsMemtable m
    → tally m.list + (length key + 0 + 8) < 2 ^ 64
    → IsWrite m (memtable_del m key height) key none
unfolding memtable_del value_size after
del-IsWrite m key height tall i room = elim (Bool-cases (is_there m key none height i room)) [
  | inl t ↦
      let rest = there_rest m key none height i room t in
      rw (memtable_del, there_flag m key none height i room t)
        (nodes-IsWrite m key none height tall i _ refl (there_bytes m key none height i room t)
          rest.0 rest.1)
  | inr f ↦
      let c = added_counts m key none height i room f in
      rw (memtable_del, added_flag m key none height i room f)
        (nodes-IsWrite m key none height tall i _ refl
          (ap (λ n. (m.current_bytes + n) % 2 ^ 64) (omega arith) ∙ c.0) c.1.0 c.1.1)
]

tally-list :
    (key : Key) (value : Option Key) (height : ℕ) (ns : List Tower)
    → IsSkipList ns
    → tally (skip_list_insert key value height ns).nodes
      ≤ tally ns + (length key + value_size value + 8)
tally-list key value height ns s =
    let sum = tally-insert_in key value height ns in
    rw (inserted-nodes key value height ns s) (ground arith)

-- What a write adds to the count at most.
pub tally-put :
    (m : Memtable) (key value : Key) (height : ℕ)
    → IsMemtable m
    → tally (memtable_put m key value height).list ≤ tally m.list + (length key + length value + 8)
unfolding memtable_put value_size
tally-put m key value height i = ground (arith, tally-list key (some value) height m.list i.list)

pub tally-del :
    (m : Memtable) (key : Key) (height : ℕ)
    → IsMemtable m
    → tally (memtable_del m key height).list ≤ tally m.list + (length key + 8)
unfolding memtable_del value_size
tally-del m key height i = ground (arith, tally-list key none height m.list i.list)
