-- ===== src/Engine/Writes.antt =====
-- The writing half of LSMEngine, src/db/lsm_engine.cpp: put, del, flush, flushMemtable and
-- recoverFromWAL, each under the exclusive lock. The log is the list of its records; what the file
-- system, the allocator and the fault points answer is a `Weather`.
pub mod Kept
pub mod Flush
pub mod Updates
pub mod Recovery
use lsm_tree.Prelude.{
  ℕ, zero, suc, ◌+◌, Bool, true, false, Option, none, some, List, [], ◌∷◌, ◌++◌, map, ◌==◌,
  if◌then◌else◌,
}
use lsm_tree.Keys.{Key}
use lsm_tree.Sstable.Build.{Table, write}
use lsm_tree.Memtable.{
  Memtable, new_memtable, memtable_put, memtable_del, memtable_entries, is_full,
}
use lsm_tree.Wal.Record.{EntryType, put, del}
use lsm_tree.Wal.Record as Record
use lsm_tree.Compaction.Directory.{FileName, File, put_file}
use lsm_tree.Compaction.Run.{World, Store, Staging, is_staged, is_absent, is_left, run}
use lsm_tree.Engine.{engine_get}

-- wal_, memtable_max_bytes_, memtable_, and the files, sstables_ and sst_counter_.
pub record LsmEngine : Type 0 where
  pub log : List Record.Entry
  pub max_bytes : ℕ
  pub mem : Memtable
  pub store : Store

-- How wal_.clear() ends: it returns, or it throws with the log as it was, or with an empty log.
pub data Clearing : Type 0 where
  is_cleared is_kept is_emptied : Clearing

-- How wal_.appendPut and appendDel end: they return, or they throw with the log as it was, or they
-- throw when the log has the record already, as at the fault point behind the submission.
pub data Appending : Type 0 where
  is_appended is_refused is_behind : Appending

-- What the calls of one write answer; where one throws, its answer is `false`. `write_ok` is the
-- memtable's put or del, which throws bad_alloc before it changes the list.
pub record Weather : Type 0 where
  pub append : Appending
  pub write_ok : Bool
  pub height : ℕ
  pub before_sst_ok : Bool
  pub table : Staging
  pub open_ok : Bool
  pub after_sst_ok : Bool
  pub memtable_ok : Bool
  pub clear : Clearing
  pub after_wal_clear_ok : Bool
  pub compaction : World
  pub wait_ok : Bool

-- Whether a call returned, and the engine that it leaves.
pub record Outcome : Type 0 where
  pub returned : Bool
  pub engine : LsmEngine

abbrev pub level0_name : ℕ → FileName
level0_name counter = record { level = 0; counter = counter; is_tmp = false }

-- The table under its name, which sst_counter_ then does not give again.
abbrev pub with_file : LsmEngine → Table → LsmEngine
with_file e t = record {
  log = e.log;
  max_bytes = e.max_bytes;
  mem = e.mem;
  store = record {
    files = put_file (level0_name e.store.counter) t e.store.files;
    tables = e.store.tables;
    counter = e.store.counter + 1;
  };
}

abbrev pub with_counter : LsmEngine → LsmEngine
with_counter e = record {
  log = e.log;
  max_bytes = e.max_bytes;
  mem = e.mem;
  store = record { files = e.store.files; tables = e.store.tables; counter = e.store.counter + 1 };
}

-- sstables_.push_back behind SSTable::write
abbrev pub with_table : LsmEngine → Table → LsmEngine
with_table e t = record {
  log = e.log;
  max_bytes = e.max_bytes;
  mem = e.mem;
  store = record {
    files = put_file (level0_name e.store.counter) t e.store.files;
    tables = e.store.tables ++ record { name = level0_name e.store.counter; table = t } ∷ [];
    counter = e.store.counter + 1;
  };
}

-- The first half of flushMemtable: the memtable as a table of level 0.
unfoldable pub add_table : (ℕ → ℕ) → Weather → LsmEngine → Outcome
add_table bits w e =
    if w.before_sst_ok
    then elim (write bits (memtable_entries e.mem)) [
      | none ↦ record { returned = false; engine = with_counter e }
      | some t ↦ elim w.table [
        | is_absent ↦ record { returned = false; engine = with_counter e }
        | is_left ↦ record { returned = false; engine = with_file e t }
        | is_staged ↦
            if w.open_ok
            then record { returned = w.after_sst_ok; engine = with_table e t }
            else record { returned = false; engine = with_file e t }
      ]
    ]
    else record { returned = false; engine = e }

abbrev pub with_log : LsmEngine → List Record.Entry → LsmEngine
with_log e log = record { log = log; max_bytes = e.max_bytes; mem = e.mem; store = e.store }

abbrev pub with_store : LsmEngine → Store → LsmEngine
with_store e store = record { log = e.log; max_bytes = e.max_bytes; mem = e.mem; store = store }

-- The log is gone and the replacement is in place.
abbrev pub emptied : LsmEngine → LsmEngine
emptied e = record {
  log = [];
  max_bytes = e.max_bytes;
  mem = new_memtable e.max_bytes;
  store = e.store;
}

abbrev pub compacted : (ℕ → ℕ) → World → LsmEngine → Outcome
compacted bits w e =
    let r = run bits w e.store in record { returned = r.returned; engine = with_store e r.store }

-- The second half: the replacement memtable, the log, the compaction.
unfoldable pub drop_log : (ℕ → ℕ) → Weather → LsmEngine → Outcome
drop_log bits w e =
    if w.memtable_ok
    then elim w.clear [
      | is_kept ↦ record { returned = false; engine = e }
      | is_emptied ↦ record { returned = false; engine = with_log e [] }
      | is_cleared ↦
          if w.after_wal_clear_ok
          then compacted bits w.compaction (emptied e)
          else record { returned = false; engine = emptied e }
    ]
    else record { returned = false; engine = e }

-- memtable_->empty()
unfoldable pub is_empty : Memtable → Bool
is_empty m = m.count == 0

unfoldable pub flush_memtable : (ℕ → ℕ) → Weather → LsmEngine → Outcome
flush_memtable bits w e =
    let r = add_table bits w e in
    if is_empty e.mem
    then record { returned = true; engine = e }
    else if r.returned
    then drop_log bits w r.engine
    else r

-- LSMEngine::flush
unfoldable pub flush : (ℕ → ℕ) → Weather → LsmEngine → Outcome
flush bits w e =
    if is_empty e.mem then record { returned = true; engine = e } else flush_memtable bits w e

-- What put and del do behind the memtable: a flush when it is full, then the wait for the log.
unfoldable pub finish_write : (ℕ → ℕ) → Weather → LsmEngine → Outcome
finish_write bits w e =
    let r =
      if is_full e.mem then flush_memtable bits w e else record { returned = true; engine = e } in
    record { returned = if r.returned then w.wait_ok else false; engine = r.engine }

abbrev pub logged : LsmEngine → Record.Entry → Memtable → LsmEngine
logged e entry mem = record {
  log = e.log ++ entry ∷ [];
  max_bytes = e.max_bytes;
  mem = mem;
  store = e.store;
}

-- The record to the log, the write to the memtable `mem`, and what is behind them.
unfoldable pub write_through : (ℕ → ℕ) → Weather → LsmEngine → Record.Entry → Memtable → Outcome
write_through bits w e entry mem = elim w.append [
  | is_refused ↦ record { returned = false; engine = e }
  | is_behind ↦ record { returned = false; engine = logged e entry e.mem }
  | is_appended ↦
      if w.write_ok
      then finish_write bits w (logged e entry mem)
      else record { returned = false; engine = logged e entry e.mem }
]

unfoldable pub engine_put : (ℕ → ℕ) → Weather → LsmEngine → Key → Key → Outcome
engine_put bits w e key value =
    write_through bits w e (record { type = put; key = key; value = value })
      (memtable_put e.mem key value w.height)

unfoldable pub engine_del : (ℕ → ℕ) → Weather → LsmEngine → Key → Outcome
engine_del bits w e key =
    write_through bits w e (record { type = del; key = key; value = [] })
      (memtable_del e.mem key w.height)

-- LSMEngine::get
unfoldable pub read : LsmEngine → Key → Option Key
read e key = engine_get e.mem (map (λ f. f.table) e.store.tables) key

-- One round of recoverFromWAL.
unfoldable pub replay_entry : Record.Entry → ℕ → Memtable → Memtable
replay_entry e height m = elim e.type [
  | put ↦ memtable_put m e.key e.value height
  | del ↦ memtable_del m e.key height
]

-- recoverFromWAL: the `i`-th write draws the height `heights i`.
unfoldable pub replay : (ℕ → ℕ) → ℕ → List Record.Entry → Memtable → Memtable
replay heights i [] m = m
replay heights i (e ∷ es) m = replay heights (i + 1) es (replay_entry e (heights i) m)
