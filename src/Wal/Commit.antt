-- ===== src/Wal/Commit.antt =====
-- Group commit: WAL::waitDurable, sync and clear, with any number of threads that interleave.
-- A step is what a thread does under one hold of mu_ or sync_mu_, or one fdatasync between them.
-- `synced` has the writes that the last fdatasync of this log found landed; `issued` the writes
-- that have a ticket for this log, each with its end. Neither is read by the code.
pub mod Invariant
pub mod Frames
pub mod Clears
pub mod Steps
pub mod Durable
use lsm_tree.Prelude.{
  ℕ, ◌+◌, ◌^◌, ◌≤◌, ◌<◌, ◌≡◌, ◌≢◌, ◌⊎◌, Bool, true, false, Option, none, some, List, [], ◌∷◌, ◌==◌,
  if◌then◌else◌, length, max,
}
use lsm_tree.Keys.{Key}
use lsm_tree.Wal.Record.{EntryType, entry_buffer, entry_size, align_up}
use lsm_tree.Wal.Ring.{PendingWrite, Log, Event, Wait, drain}
use lsm_tree.Wal.Ring.Tracked.{Write, AllWhole, AllWholeWaits, has_failed}
use lsm_tree.Wal.Append.{Ticket, AppendError, ok, err, Calls, write_entry, ClearCalls, clear_log}
use lsm_tree.Wal.Append.Effect.{IsWholeCall}

-- Where a thread stands. `waiting` is at the head of the loop of waitDurable; `leading` has set
-- sync_in_progress_; `syncing` has drained, with the target that it noted; `synced` has come back
-- from fdatasync; `failing` has an error to report. The write is the one that the thread cares for.
pub data Pc : Type 0 where
  idle thrown : Pc
  waiting failing returned : Ticket → Write → Pc
  leading : Ticket → Write → ℕ → Pc
  syncing synced_up : Ticket → Write → ℕ → ℕ → Pc

pub record System : Type 0 where
  pub log : Log
  pub sync_in_progress : Bool
  pub durable_end : ℕ
  pub sync_calls : ℕ
  pub synced : List PendingWrite
  pub issued : List (ℕ × Write)
  pub pc : ℕ → Pc

abbrev pub set_pc : (ℕ → Pc) → ℕ → Pc → ℕ → Pc
set_pc pc i p j = if j == i then p else pc j

abbrev pub Issued : ℕ → Write → List (ℕ × Write) → Type 0
Issued n r [] = ⊥
Issued n r (x ∷ xs) = ((x.0 ≡ n) × (x.1 ≡ r)) ⊎ Issued n r xs

-- if (error.empty() && epoch_.load() == epoch) durable_end_ = std::max(durable_end_, target)
unfoldable pub publish_end : System → ℕ → ℕ → ℕ
publish_end s epoch target =
    if s.log.epoch == epoch then max s.durable_end target else s.durable_end

-- The size of a record on disk.
unfoldable pub room_for : Key → Key → ℕ
room_for key value = align_up (entry_size (length key) (length value))

abbrev pub appended : System → Calls → EntryType → Key → Key → Log
appended s calls type key value = (write_entry calls type key value s.log).1

pub data Step (s : System) : System → Type 0 where
  -- appendPut and appendDel
  append :
      (i : ℕ) (calls : Calls) (type : EntryType) (key value : Key) (t : Ticket)
      → s.pc i ≡ idle
      → IsWholeCall calls
      → s.log.write_offset + room_for key value < 2 ^ 64
      → (write_entry calls type key value s.log).0 ≡ ok t
      → Step s (record s {
        log = appended s calls type key value;
        issued =
            (t.end, record { offset = s.log.write_offset; buf = entry_buffer type key value })
            ∷ s.issued;
        pc =
            set_pc s.pc i (
              waiting t
                (record { offset = s.log.write_offset; buf = entry_buffer type key value }));
      })
  append_throws :
      (i : ℕ) (calls : Calls) (type : EntryType) (key value : Key) (e : AppendError)
      → s.pc i ≡ idle
      → IsWholeCall calls
      → s.log.write_offset + room_for key value < 2 ^ 64
      → (write_entry calls type key value s.log).0 ≡ err e
      → Step s (record s { log = appended s calls type key value; pc = set_pc s.pc i thrown })
  -- sync(), which waits for all that has a ticket, here for the one write `r`
  sync :
      (i n : ℕ) (r : Write)
      → s.pc i ≡ idle
      → Issued n r s.issued
      → Step s (record s {
        pc = set_pc s.pc i (waiting (record { epoch = s.log.epoch; end = s.log.write_offset }) r);
      })
  return_flushed :
      (i : ℕ) (t : Ticket) (r : Write)
      → s.pc i ≡ waiting t r
      → t.epoch ≢ s.log.epoch
      → Step s (record s { pc = set_pc s.pc i (returned t r) })
  return_durable :
      (i : ℕ) (t : Ticket) (r : Write)
      → s.pc i ≡ waiting t r
      → t.epoch ≡ s.log.epoch
      → t.end ≤ s.durable_end
      → Step s (record s { pc = set_pc s.pc i (returned t r) })
  lead :
      (i : ℕ) (t : Ticket) (r : Write)
      → s.pc i ≡ waiting t r
      → t.epoch ≡ s.log.epoch
      → s.durable_end < t.end
      → s.sync_in_progress ≡ false
      → Step s (record s { sync_in_progress = true; pc = set_pc s.pc i (leading t r s.log.epoch) })
  drained :
      (i : ℕ) (t : Ticket) (r : Write) (e : ℕ) (events : List Event) (waits : List Wait) (w : Log)
      → s.pc i ≡ leading t r e
      → AllWhole events
      → AllWholeWaits waits
      → drain events waits s.log ≡ some w
      → has_failed w ≡ false
      → Step s (record s { log = w; pc = set_pc s.pc i (syncing t r e w.write_offset) })
  drain_fails :
      (i : ℕ) (t : Ticket) (r : Write) (e : ℕ) (events : List Event) (waits : List Wait) (w : Log)
      → s.pc i ≡ leading t r e
      → AllWhole events
      → AllWholeWaits waits
      → drain events waits s.log ≡ some w
      → has_failed w ≡ true
      → Step s (record s { log = w; pc = set_pc s.pc i (failing t r) })
  -- fdatasync returned 0: what had landed is stable.
  fdatasync :
      (i : ℕ) (t : Ticket) (r : Write) (e target : ℕ)
      → s.pc i ≡ syncing t r e target
      → Step s (record s {
        sync_calls = s.sync_calls + 1;
        synced = s.log.landed;
        pc = set_pc s.pc i (synced_up t r e target);
      })
  -- a fault point before it, or an error of it, which counts as a call
  fdatasync_fails :
      (i : ℕ) (t : Ticket) (r : Write) (e target : ℕ) (called : Bool)
      → s.pc i ≡ syncing t r e target
      → Step s (record s {
        sync_calls = s.sync_calls + (if called then 1 else 0);
        pc = set_pc s.pc i (failing t r);
      })
  -- the fault point behind it
  synced_fails :
      (i : ℕ) (t : Ticket) (r : Write) (e target : ℕ)
      → s.pc i ≡ synced_up t r e target
      → Step s (record s { pc = set_pc s.pc i (failing t r) })
  publish :
      (i : ℕ) (t : Ticket) (r : Write) (e target : ℕ)
      → s.pc i ≡ synced_up t r e target
      → Step s (record s {
        sync_in_progress = false;
        durable_end = publish_end s e target;
        pc = set_pc s.pc i (waiting t r);
      })
  publish_fails :
      (i : ℕ) (t : Ticket) (r : Write)
      → s.pc i ≡ failing t r
      → Step s (record s { sync_in_progress = false; pc = set_pc s.pc i thrown })
  -- clear(), which waits until no leader runs
  clear :
      (calls : ClearCalls) (w : Log)
      → s.sync_in_progress ≡ false
      → AllWhole calls.events
      → AllWholeWaits calls.waits
      → clear_log calls s.log ≡ some (true, w)
      → Step s (record s { log = w; durable_end = 0; synced = []; issued = [] })

-- A log that was just opened, at the end of what is there.
abbrev pub opened : ℕ → System
opened size = record {
  log = record {
    queue = [];
    in_flight = [];
    ring_ready = true;
    pending_cqes = 0;
    cancel_retries = 0;
    write_offset = size;
    epoch = 0;
    failure = none;
    landed = [];
  };
  sync_in_progress = false;
  durable_end = 0;
  sync_calls = 0;
  synced = [];
  issued = [];
  pc = λ i. idle;
}

pub data Reach (size : ℕ) : System → Type 0 where
  start : Reach size (opened size)
  later : {s u : System} → Reach size s → Step s u → Reach size u
