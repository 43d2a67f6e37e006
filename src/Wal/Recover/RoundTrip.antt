-- ===== src/Wal/Recover/RoundTrip.antt =====
-- What WAL::recover gives back of records that WAL::writeEntry laid out.
use lsm_tree.Prelude.{
  ℕ, ◌+◌, ◌-◌, ◌%◌, ◌^◌, ◌≤◌, ◌<◌, ◌≡◌, refl, sym, false, some, List, [], ◌∷◌, ◌++◌, arith, ltb,
  ◌==◌, length, slice, read_le, slice-append, append_assoc, length-append, bytes_le,
  length-bytes_le, read_le-bytes_le_four, replicate,
}
use lsm_tree.Keys.{Key}
use lsm_tree.Wal.Record.{
  EntryType, put, del, crc32, crc32-lt, entry_size, entry_body, type_byte, entry_buffer, align_up,
  length-entry_buffer, le-align_up,
}
use lsm_tree.Wal.Recover.{Round, parse_round, read_fields, accept}

abbrev pub Fits : Key → Type 0
Fits k = length k < 2 ^ 32

read_le_byte : (b : ℕ) → read_le (b ∷ []) ≡ b
unfolding read_le
read_le_byte b = omega arith

accept-eq_crc :
    (start : ℕ) (t : EntryType) (klen vlen : ℕ) (k v : Key)
    → accept start (type_byte t) klen vlen k v (crc32 (type_byte t) k v) ≡ record {
      entry = some (record { type = t; key = k; value = v });
      next = start + align_up (entry_size klen vlen);
    }
unfolding accept type_byte
accept-eq_crc start put klen vlen k v = ground arith
accept-eq_crc start del klen vlen k v = ground arith

type_byte_nonzero : (t : EntryType) → (type_byte t == 0) ≡ false
unfolding type_byte
type_byte_nonzero put = refl
type_byte_nonzero del = refl

-- A record anywhere in a log, between any bytes.
module _ (pre post : List ℕ) (t : EntryType) (k v : Key) (hk : Fits k) (hv : Fits v) where
  abbrev buf : List ℕ
  buf = pre ++ entry_buffer t k v ++ post

  abbrev pad : List ℕ
  pad =
      replicate (align_up (entry_size (length k) (length v)) - entry_size (length k) (length v)) 0
      ++ post

  abbrev kb : List ℕ
  kb = bytes_le 4 (length k % 2 ^ 32)

  abbrev vb : List ℕ
  vb = bytes_le 4 (length v % 2 ^ 32)

  abbrev cb : List ℕ
  cb = bytes_le 4 (crc32 (type_byte t) k v)

  field :
      (a b c : List ℕ) (n m : ℕ)
      → buf ≡ a ++ b ++ c
      → n ≡ length a
      → m ≡ length b
      → slice buf n m ≡ b
  field a b c n m e p q = rw e (slice-append a b c n m p q)

  at_type : slice buf (length pre) 1 ≡ type_byte t ∷ []
  unfolding entry_buffer entry_body
  at_type =
      field pre (type_byte t ∷ []) (kb ++ vb ++ k ++ v ++ cb ++ pad) _ _ (simp append_assoc) refl
        refl

  at_klen : slice buf (length pre + 1) 4 ≡ kb
  unfolding entry_buffer entry_body
  at_klen =
      field (pre ++ type_byte t ∷ []) kb (vb ++ k ++ v ++ cb ++ pad) _ _ (simp append_assoc)
        (simp length-append) (sym (length-bytes_le 4 _))

  at_vlen : slice buf (length pre + 5) 4 ≡ vb
  unfolding entry_buffer entry_body
  at_vlen =
      field (pre ++ type_byte t ∷ [] ++ kb) vb (k ++ v ++ cb ++ pad) _ _ (simp append_assoc)
        (simp (length-append, length-bytes_le) (omega arith)) (sym (length-bytes_le 4 _))

  at_key : slice buf (length pre + 9) (length k) ≡ k
  unfolding entry_buffer entry_body
  at_key =
      field (pre ++ type_byte t ∷ [] ++ kb ++ vb) k (v ++ cb ++ pad) _ _ (simp append_assoc)
        (simp (length-append, length-bytes_le) (omega arith)) refl

  at_value : slice buf (length pre + 9 + length k) (length v) ≡ v
  unfolding entry_buffer entry_body
  at_value =
      field (pre ++ type_byte t ∷ [] ++ kb ++ vb ++ k) v (cb ++ pad) _ _ (simp append_assoc)
        (simp (length-append, length-bytes_le) (omega arith)) refl

  at_crc : slice buf (length pre + 9 + length k + length v) 4 ≡ cb
  unfolding entry_buffer entry_body
  at_crc =
      field (pre ++ type_byte t ∷ [] ++ kb ++ vb ++ k ++ v) cb pad _ _ (simp append_assoc)
        (simp (length-append, length-bytes_le) (omega arith)) (sym (length-bytes_le 4 _))

  length-buf : length buf ≡ length pre + align_up (entry_size (length k) (length v)) + length post
  length-buf = simp (length-append, length-entry_buffer)

  size_ge : 13 + length k + length v ≤ align_up (entry_size (length k) (length v))
  unfolding entry_size
  size_ge = omega (arith, le-align_up (entry_size (length k) (length v)))

  within : (n : ℕ) → n ≤ length pre + 13 + length k + length v → ltb (length buf) n ≡ false
  within n h = grind (arith, length-buf, size_ge)

  kb-read : read_le kb ≡ length k
  kb-read = let e : length k % 2 ^ 32 ≡ length k = omega arith in rw e (read_le-bytes_le_four _ hk)

  vb-read : read_le vb ≡ length v
  vb-read = let e : length v % 2 ^ 32 ≡ length v = omega arith in rw e (read_le-bytes_le_four _ hv)

  cb-read : read_le cb ≡ crc32 (type_byte t) k v
  cb-read = read_le-bytes_le_four _ (crc32-lt (type_byte t) k v)

  abbrev pub parsed : Round
  parsed = record {
    entry = some (record { type = t; key = k; value = v });
    next = length pre + align_up (entry_size (length k) (length v));
  }

  -- The parser takes the record back, and goes on behind its padding.
  pub parse_round-entry_buffer : parse_round buf (length pre) ≡ parsed
  unfolding parse_round read_fields
  parse_round-entry_buffer =
      rw
        (
          at_type,
          read_le_byte,
          type_byte_nonzero t,
          within (length pre + 1 + 8) (omega arith),
          at_klen,
          at_vlen,
          kb-read,
          vb-read,
          within (length pre + 9 + length k + length v + 4) (omega arith),
          at_key,
          at_value,
          at_crc,
          cb-read,
        )
        (accept-eq_crc (length pre) t (length k) (length v) k v)
