-- ===== src/Wal/Record.antt =====
-- One log record: the checksum of WAL::crc32 and the buffer that WAL::writeEntry fills.
use Prim.Native.Nat.{bit_and, bit_xor}
use mathlib.Core.List.{foldl}
use lsm_tree.Prelude.{
  ℕ, zero, suc, ◌+◌, ◌-◌, ◌*◌, ◌/◌, ◌%◌, ◌^◌, ◌≤◌, ◌<◌, ◌≡◌, List, [], ◌∷◌, ◌++◌, arith, length,
  replicate, bytes_le, length-append, length-bytes_le, length-replicate,
}
use lsm_tree.Keys.{Key}

-- WAL::Entry::Type
pub data EntryType : Type 0 where
  put del : EntryType

-- WAL::Entry
pub record Entry : Type 0 where
  pub type : EntryType
  pub key : Key
  pub value : Key

-- The enumerators' values, PUT = 0x01 and DEL = 0x02.
unfoldable pub type_byte : EntryType → ℕ
type_byte put = 0x01
type_byte del = 0x02

-- crc = (crc >> 1) ^ (0xEDB88320 & -(crc & 1)), in 32 bits
crc_shift : ℕ → ℕ
crc_shift crc = bit_xor (crc / 2) (bit_and 0xEDB88320 ((2 ^ 32 - bit_and crc 1) % 2 ^ 32))

crc_rounds : ℕ → ℕ → ℕ
unfolding crc_shift
crc_rounds zero crc = crc
crc_rounds (suc n) crc = crc_rounds n (crc_shift crc)

-- the lambda `update` of crc32
crc_update : ℕ → ℕ → ℕ
unfolding crc_rounds
crc_update crc byte = crc_rounds 8 (bit_xor crc byte)

unfoldable pub crc32 : ℕ → Key → Key → ℕ
unfolding crc_update
crc32 type key value =
    bit_xor (foldl crc_update (foldl crc_update (crc_update 0xFFFFFFFF type) key) value) 0xFFFFFFFF
    % 2 ^ 32

pub crc32-lt : (type : ℕ) (key value : Key) → crc32 type key value < 2 ^ 32
unfolding crc32
crc32-lt type key value = omega arith

-- the bytes of a record before its padding
unfoldable pub entry_size : ℕ → ℕ → ℕ
entry_size klen vlen = 1 + 4 + 4 + klen + vlen + 4

-- (size + 511) & ~511
unfoldable pub align_up : ℕ → ℕ
align_up size = (size + 511) / 512 * 512

-- type, klen and vlen as the casts to uint32_t leave them, key, value, crc
unfoldable pub entry_body : EntryType → Key → Key → List ℕ
entry_body type key value =
    (type_byte type ∷ [])
    ++ bytes_le 4 (length key % 2 ^ 32)
    ++ bytes_le 4 (length value % 2 ^ 32)
    ++ key
    ++ value
    ++ bytes_le 4 (crc32 (type_byte type) key value)

-- the buffer that is submitted: the body and the zeros of the memset up to the aligned size
unfoldable pub entry_buffer : EntryType → Key → Key → List ℕ
entry_buffer type key value =
    let size = entry_size (length key) (length value) in
    entry_body type key value ++ replicate (align_up size - size) 0

pub le-align_up : (n : ℕ) → n ≤ align_up n
unfolding align_up
le-align_up n = omega arith

pub align_up-lt : (n : ℕ) → align_up n < n + 512
unfolding align_up
align_up-lt n = omega arith

pub align_up-mod : (n : ℕ) → align_up n % 512 ≡ 0
unfolding align_up
align_up-mod n = omega arith

pub length-entry_body :
    (type : EntryType) (key value : Key)
    → length (entry_body type key value) ≡ entry_size (length key) (length value)
unfolding entry_body entry_size
length-entry_body type key value = simp (length-append, length-bytes_le) (omega arith)

pub length-entry_buffer :
    (type : EntryType) (key value : Key)
    → length (entry_buffer type key value) ≡ align_up (entry_size (length key) (length value))
unfolding entry_buffer
length-entry_buffer type key value =
    simp (length-append, length-replicate, length-entry_body)
      (omega (arith, le-align_up (entry_size (length key) (length value))))
