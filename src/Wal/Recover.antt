-- ===== src/Wal/Recover.antt =====
-- The parser of WAL::recover over the bytes that were read from the log.
pub mod RoundTrip
pub mod Damage
pub mod Image
use mathlib.Core.Bool.{◌||◌, not, ◌&&◌}
use lsm_tree.Prelude.{
  ℕ, zero, suc, ◌+◌, ◌*◌, ◌/◌, ◌<◌, Bool, true, false, Option, none, some, List, [], ◌∷◌, ◌++◌, ltb,
  ◌==◌, if◌then◌else◌, length, slice, read_le,
}
use lsm_tree.Keys.{Key}
use lsm_tree.Wal.Record.{Entry, EntryType, put, del, crc32, entry_size, align_up}

-- offset = ((entry_start / 512) + 1) * 512
unfoldable pub next_block : ℕ → ℕ
next_block entry_start = (entry_start / 512 + 1) * 512

-- The outcome of one round: the entry that is pushed, if any, and the offset to go on from.
pub record Round : Type 0 where
  pub entry : Option Entry
  pub next : ℕ

abbrev skip : ℕ → Round
skip entry_start = record { entry = none; next = next_block entry_start }

-- The tests after the checksum has been read: the checksum, then the type byte.
unfoldable pub accept : ℕ → ℕ → ℕ → ℕ → Key → Key → ℕ → Round
accept entry_start type klen vlen key value stored_crc =
    if not (stored_crc == crc32 type key value)
    then skip entry_start
    else if not (type == 0x01) && not (type == 0x02)
    then skip entry_start
    else record {
      entry = some (record { type = if type == 0x01 then put else del; key = key; value = value });
      next = entry_start + align_up (entry_size klen vlen);
    }

-- Key, value and checksum of a record whose two lengths have been read.
unfoldable pub read_fields : List ℕ → ℕ → ℕ → ℕ → ℕ → Round
read_fields buf entry_start type klen vlen =
    let offset = entry_start + 9 in
    if ltb (length buf) (offset + klen + vlen + 4)
    then skip entry_start
    else accept entry_start type klen vlen (slice buf offset klen) (slice buf (offset + klen) vlen)
        (read_le (slice buf (offset + klen + vlen) 4))

-- One round of the loop at `entry_start`.
unfoldable pub parse_round : List ℕ → ℕ → Round
parse_round buf entry_start =
    let type = read_le (slice buf entry_start 1) in
    if type == 0
    then skip entry_start
    else if ltb (length buf) (entry_start + 1 + 8)
    then skip entry_start
    else read_fields buf entry_start type (read_le (slice buf (entry_start + 1) 4))
        (read_le (slice buf (entry_start + 5) 4))

abbrev pub push : List Entry → Option Entry → List Entry
push entries none = entries
push entries (some e) = entries ++ e ∷ []

-- while (offset < total). `none`: the fuel ran out.
unfoldable pub recover_loop : ℕ → List ℕ → ℕ → List Entry → Option (List Entry)
recover_loop zero buf offset entries = none
recover_loop (suc fuel) buf offset entries =
    let round = parse_round buf offset in
    let rest = recover_loop fuel buf round.next (push entries round.entry) in
    if ltb offset (length buf) then rest else some entries

-- Each round advances by a byte at least.
unfoldable pub recover : List ℕ → Option (List Entry)
recover buf = recover_loop (length buf + 1) buf 0 []
