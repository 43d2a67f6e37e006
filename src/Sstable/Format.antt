-- ===== src/Sstable/Format.antt =====
-- The bytes of entries: SSTable::writeEntry and writeString, and parseBlockEntries.
pub mod RoundTrip
use lsm_tree.Prelude.{
  ℕ, zero, suc, ◌+◌, ◌-◌, ◌%◌, ◌^◌, Bool, true, false, Option, none, some, List, [], ◌∷◌, ◌++◌, leb,
  ltb, ◌==◌, if◌then◌else◌, length, slice, read_le, bytes_le,
}
use lsm_tree.Keys.{Key}
use lsm_tree.Sstable.Entries.{Entry}

-- the length as a uint32_t, and the bytes; longer strings are refused by `fits_length_field`
unfoldable pub write_string : Key → List ℕ
write_string s = bytes_le 4 (length s % 2 ^ 32) ++ s

-- s.size() > numeric_limits<uint32_t>::max() throws
unfoldable pub fits_length_field : Key → Bool
fits_length_field s = leb (length s) (2 ^ 32 - 1)

-- e.value.value_or("")
abbrev pub value_or_empty : Option Key → Key
value_or_empty none = []
value_or_empty (some v) = v

-- e.value.has_value() ? 0 : 1
abbrev pub tombstone_byte : Option Key → ℕ
tombstone_byte none = 1
tombstone_byte (some v) = 0

unfoldable pub write_entry : Entry → List ℕ
unfolding write_string
write_entry e =
    (tombstone_byte e.value ∷ []) ++ write_string e.key ++ write_string (value_or_empty e.value)

unfoldable pub write_entries : List Entry → List ℕ
write_entries [] = []
write_entries (e ∷ es) = write_entry e ++ write_entries es

-- One round of the loop of parseBlockEntries: the entry and the next offset, or the end.
abbrev pub Round : Type 0
Round = Option (Entry × ℕ)

unfoldable pub parse_value : List ℕ → ℕ → ℕ → Key → ℕ → Round
parse_value buf tombstone offset key val_len =
    if ltb (length buf) (offset + val_len)
    then none
    else some (
      record {
        key = key;
        value = if tombstone == 0 then some (slice buf offset val_len) else none;
      },
      offset + val_len,
    )

unfoldable pub parse_key : List ℕ → ℕ → ℕ → ℕ → Round
parse_key buf tombstone offset key_len =
    if ltb (length buf) (offset + key_len + 4)
    then none
    else parse_value buf tombstone (offset + key_len + 4) (slice buf offset key_len)
        (read_le (slice buf (offset + key_len) 4))

unfoldable pub parse_entry : List ℕ → ℕ → Round
parse_entry buf offset =
    parse_key buf (read_le (slice buf offset 1)) (offset + 5) (read_le (slice buf (offset + 1) 4))

-- while (offset + 9 <= size); every round moves on by nine bytes at least.
unfoldable pub parse_loop : ℕ → List ℕ → ℕ → List Entry → List Entry
parse_loop zero buf offset entries = entries
parse_loop (suc fuel) buf offset entries =
    let rest : List Entry = elim (parse_entry buf offset) [
      | none ↦ entries
      | some (e, next) ↦ parse_loop fuel buf next (entries ++ e ∷ [])
    ] in
    if ltb (length buf) (offset + 9) then entries else rest

unfoldable pub parse_block_entries : List ℕ → List Entry
parse_block_entries buf = parse_loop (length buf + 1) buf 0 []
