-- ===== src/Engine/Writes/Kept.antt =====
-- A valid engine, and flushMemtable on it, whatever throws.
use lsm_tree.Prelude.{
  ℕ, ◌≡◌, ◌⊎◌, inl, refl, sym, ap, ◌∙◌, true, Option, none, some, List, [], ◌∷◌, ◌++◌, arith,
  if◌then◌else◌,
}
use lsm_tree.Keys.{Key, key_eq}
use lsm_tree.Sstable.Build.{Table, write}
use lsm_tree.Sstable.Read.{get}
use lsm_tree.Sstable.Read.Get.{get-write}
use lsm_tree.Memtable.{memtable_get, memtable_entries}
use lsm_tree.Memtable.Writes.{IsMemtable, get-entries}
use lsm_tree.Merge.Winners.{live}
use lsm_tree.Merge.Open.{or_else}
use lsm_tree.Wal.Record.{EntryType, put, del}
use lsm_tree.Wal.Record as Record
use lsm_tree.Compaction.Directory.{File}
use lsm_tree.Compaction.Run.Held.{tables_of}
use lsm_tree.Engine.{engine_get, get_tables}
use lsm_tree.Engine.Sources.{AllWritten, WrittenBy}
use lsm_tree.Engine.Writes.{LsmEngine, Outcome, with_table, with_store, read}

-- What a record of the log makes of its key.
unfoldable pub value_of : Record.Entry → Option Key
value_of e = elim e.type [ put ↦ some e.value | del ↦ none ]

-- The last record of a key in the log, as a version.
unfoldable pub last_record : Key → List Record.Entry → Option (Option Key)
last_record k [] = none
last_record k (e ∷ es) =
    or_else (last_record k es) (if key_eq e.key k then some (value_of e) else none)

-- The version of a key behind the memtable's: what the tables hold of it.
abbrev pub below : LsmEngine → Key → Option (Option Key)
below e k = get_tables (tables_of e.store.tables) k

-- The value is what one of the records says of the key.
abbrev pub Thrown : Key → List Record.Entry → Option Key → Type 0
Thrown k [] v = ⊥
Thrown k (e ∷ es) v = ((key_eq e.key k ≡ true) × (v ≡ value_of e)) ⊎ Thrown k es v

-- A read that goes by the log finds what a read finds, or what a thrown write was to write.
abbrev pub Agrees : Key → List Record.Entry → Option Key → Option Key → Type 0
Agrees k thrown v w = (v ≡ w) ⊎ Thrown k thrown v

-- A valid engine: the memtable is valid, the tables were written, and a read that goes by the log
-- in the place of the memtable finds what a read finds, or, for the key of a write that threw
-- behind its record, what that write was to write. `thrown` has those records.
pub record IsEngine (bits : ℕ → ℕ) (thrown : List Record.Entry) (e : LsmEngine) : Type 0 where
  pub mem : IsMemtable e.mem
  pub wrote : AllWritten bits (tables_of e.store.tables)
  pub recovers :
      (k : Key)
      → Agrees k thrown
          (live (or_else (last_record k e.log) (below e k)))
          (live (or_else (memtable_get e.mem k) (below e k)))

pub read-live :
    (e : LsmEngine) (k : Key) → read e k ≡ live (or_else (memtable_get e.mem k) (below e k))
unfolding read engine_get
read-live e k = ground arith

-- The engine `e'` is valid and reads as `e`.
pub record IsKept (bits : ℕ → ℕ) (thrown : List Record.Entry) (e e' : LsmEngine) : Type 0 where
  pub valid : IsEngine bits thrown e'
  pub reads : (k : Key) → read e' k ≡ read e k

pub IsKept-trans :
    (bits : ℕ → ℕ) (thrown : List Record.Entry) (e f g : LsmEngine)
    → IsKept bits thrown e f
    → IsKept bits thrown f g
    → IsKept bits thrown e g
IsKept-trans bits thrown e f g a b = record { valid = b.valid; reads = λ k. b.reads k ∙ a.reads k }

pub IsKept-refl :
    (bits : ℕ → ℕ) (thrown : List Record.Entry) (e : LsmEngine)
    → IsEngine bits thrown e
    → IsKept bits thrown e e
IsKept-refl bits thrown e i = record { valid = i; reads = λ k. refl }

-- An engine that has the same log, memtable and open tables.
pub same-IsKept :
    (bits : ℕ → ℕ) (thrown : List Record.Entry) (e : LsmEngine) (files : List File) (counter : ℕ)
    → IsEngine bits thrown e
    → IsKept bits thrown e
        (with_store e (record { files = files; tables = e.store.tables; counter = counter }))
unfolding read
same-IsKept bits thrown e files counter i = record {
  valid = record { mem = i.mem; wrote = i.wrote; recovers = i.recovers };
  reads = λ k. refl;
}

get_tables-push :
    (ts : List Table) (t : Table) (k : Key)
    → get_tables (ts ++ t ∷ []) k ≡ or_else (get t k) (get_tables ts k)
unfolding get_tables
get_tables-push [] t k = ground arith
get_tables-push (u ∷ ts) t k = ground (arith, get_tables-push ts t k)

tables_of-push :
    (fs : List File) (f : File) → tables_of (fs ++ f ∷ []) ≡ tables_of fs ++ f.table ∷ []
tables_of-push [] f = refl
tables_of-push (g ∷ fs) f = ap (◌∷◌ g.table) (tables_of-push fs f)

AllWritten-push :
    (bits : ℕ → ℕ) (ts : List Table) (t : Table)
    → AllWritten bits ts
    → WrittenBy bits t
    → AllWritten bits (ts ++ t ∷ [])
AllWritten-push bits [] t a w = (w, tt)
AllWritten-push bits (u ∷ ts) t a w = (a.0, AllWritten-push bits ts t a.1 w)

-- Behind the others the memtable's table answers first of the tables, with the memtable's version.
pub pushed :
    (bits : ℕ → ℕ) (thrown : List Record.Entry) (e : LsmEngine) (t : Table)
    → IsEngine bits thrown e
    → write bits (memtable_entries e.mem) ≡ some t
    → (k : Key) → below (with_table e t) k ≡ or_else (memtable_get e.mem k) (below e k)
pushed bits thrown e t i w k =
    ap (λ ts. get_tables ts k) (tables_of-push e.store.tables _)
    ∙ get_tables-push (tables_of e.store.tables) t k
    ∙ ap (λ v. or_else v (below e k))
        (get-write bits (memtable_entries e.mem) t k w ∙ sym (get-entries e.mem k i.mem))

-- A table behind the others that holds the memtable's versions changes nothing.
pushed-Agrees :
    (k : Key) (thrown : List Record.Entry) (l m b : Option (Option Key))
    → Agrees k thrown (live (or_else l b)) (live (or_else m b))
    → Agrees k thrown (live (or_else l (or_else m b))) (live (or_else m (or_else m b)))
pushed-Agrees k thrown none none b a = inl refl
pushed-Agrees k thrown none (some v) b a = inl refl
pushed-Agrees k thrown (some x) none b a = a
pushed-Agrees k thrown (some x) (some v) b a = a

-- The memtable's table is behind the others, and the memtable is still there.
pub with_table-IsKept :
    (bits : ℕ → ℕ) (thrown : List Record.Entry) (e : LsmEngine) (t : Table)
    → IsEngine bits thrown e
    → write bits (memtable_entries e.mem) ≡ some t
    → IsKept bits thrown e (with_table e t)
with_table-IsKept bits thrown e t i w = record {
  valid = record {
    mem = i.mem;
    wrote = rw (tables_of-push e.store.tables _) (
        AllWritten-push bits (tables_of e.store.tables) t i.wrote
          (record { entries = memtable_entries e.mem; wrote = w }));
    recovers = λ k. rw (pushed bits thrown e t i w k) (
        pushed-Agrees k thrown (last_record k e.log) (memtable_get e.mem k) (below e k)
          (i.recovers k));
  };
  reads = λ k.
      read-live (with_table e t) k
      ∙ rw (pushed bits thrown e t i w k) (ground arith)
      ∙ sym (read-live e k);
}

-- What the first half of flushMemtable leaves; if it returns, the table is behind the others.
pub record IsAdded (bits : ℕ → ℕ) (thrown : List Record.Entry) (e : LsmEngine) (r : Outcome)
    : Type 0 where
  pub kept : IsKept bits thrown e r.engine
  pub added :
      r.returned ≡ true
      → (t : Table) × ((write bits (memtable_entries e.mem) ≡ some t) × (r.engine ≡ with_table e t))
