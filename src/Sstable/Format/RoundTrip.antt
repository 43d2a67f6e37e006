-- ===== src/Sstable/Format/RoundTrip.antt =====
-- parseBlockEntries takes back the entries that writeEntry laid out.
use lsm_tree.Prelude.{
  ℕ, zero, suc, ◌+◌, ◌%◌, ◌^◌, ◌≤◌, ◌<◌, ◌≡◌, refl, sym, ap, ◌∙◌, false, none, some, List, [], ◌∷◌,
  ◌++◌, arith, ltb, ◌==◌, if◌then◌else◌, length, slice, read_le, slice-append, append_assoc,
  length-append, bytes_le, length-bytes_le, read_le-bytes_le_four, append-nil,
}
use lsm_tree.Keys.{Key}
use lsm_tree.Sstable.Entries.{Entry}
use lsm_tree.Sstable.Format.{
  write_entry, write_entries, value_or_empty, tombstone_byte, parse_entry, parse_key, parse_value,
  parse_loop, parse_block_entries,
}

-- Both strings fit the 32-bit length fields.
abbrev pub Fits : Entry → Type 0
Fits e = (length e.key < 2 ^ 32) × (length (value_or_empty e.value) < 2 ^ 32)

abbrev pub AllFit : List Entry → Type 0
AllFit [] = Unit {0}
AllFit (e ∷ es) = Fits e × AllFit es

-- size_t entry_bytes = 1 + 4 + key + 4 + value
unfoldable pub entry_bytes : Entry → ℕ
entry_bytes e = 1 + 4 + length e.key + 4 + length (value_or_empty e.value)

pub length-write_entry : (e : Entry) → length (write_entry e) ≡ entry_bytes e
unfolding write_entry entry_bytes
length-write_entry e = simp (length-append, length-bytes_le) (omega arith)

pub read_le_byte : (b : ℕ) → read_le (b ∷ []) ≡ b
unfolding read_le
read_le_byte b = omega arith

-- An entry anywhere in a buffer.
module _ (pre post : List ℕ) (e : Entry) (fits : Fits e) where
  abbrev pub buf : List ℕ
  buf = pre ++ write_entry e ++ post

  abbrev pub v : Key
  v = value_or_empty e.value

  abbrev pub kb : List ℕ
  kb = bytes_le 4 (length e.key % 2 ^ 32)

  abbrev pub vb : List ℕ
  vb = bytes_le 4 (length v % 2 ^ 32)

  field :
      (a b c : List ℕ) (n m : ℕ)
      → buf ≡ a ++ b ++ c
      → n ≡ length a
      → m ≡ length b
      → slice buf n m ≡ b
  field a b c n m q h k = rw q (slice-append a b c n m h k)

  pub at_tombstone : slice buf (length pre) 1 ≡ tombstone_byte e.value ∷ []
  unfolding write_entry
  at_tombstone =
      field pre (tombstone_byte e.value ∷ []) (kb ++ e.key ++ vb ++ v ++ post) _ _
        (simp append_assoc) refl refl

  pub at_key_len : slice buf (length pre + 1) 4 ≡ kb
  unfolding write_entry
  at_key_len =
      field (pre ++ tombstone_byte e.value ∷ []) kb (e.key ++ vb ++ v ++ post) _ _
        (simp append_assoc) (simp length-append) (sym (length-bytes_le 4 _))

  pub at_key : slice buf (length pre + 5) (length e.key) ≡ e.key
  unfolding write_entry
  at_key =
      field (pre ++ tombstone_byte e.value ∷ [] ++ kb) e.key (vb ++ v ++ post) _ _
        (simp append_assoc) (simp (length-append, length-bytes_le) (omega arith)) refl

  pub at_val_len : slice buf (length pre + 5 + length e.key) 4 ≡ vb
  unfolding write_entry
  at_val_len =
      field (pre ++ tombstone_byte e.value ∷ [] ++ kb ++ e.key) vb (v ++ post) _ _
        (simp append_assoc) (simp (length-append, length-bytes_le) (omega arith))
        (sym (length-bytes_le 4 _))

  pub at_value : slice buf (length pre + 5 + length e.key + 4) (length v) ≡ v
  unfolding write_entry
  at_value =
      field (pre ++ tombstone_byte e.value ∷ [] ++ kb ++ e.key ++ vb) v post _ _ (simp append_assoc)
        (simp (length-append, length-bytes_le) (omega arith)) refl

  pub length-buf : length buf ≡ length pre + entry_bytes e + length post
  length-buf = simp (length-append, length-write_entry)

  within : (n : ℕ) → n ≤ length pre + entry_bytes e → ltb (length buf) n ≡ false
  within n h = grind (arith, length-buf)

  pub kb-read : read_le kb ≡ length e.key
  kb-read =
      let q : length e.key % 2 ^ 32 ≡ length e.key = omega arith in
      rw q (read_le-bytes_le_four _ fits.0)

  pub vb-read : read_le vb ≡ length v
  vb-read =
      let q : length v % 2 ^ 32 ≡ length v = omega arith in rw q (read_le-bytes_le_four _ fits.1)

  pub value-back : (if tombstone_byte e.value == 0 then some v else none) ≡ e.value
  value-back = ground arith

  -- The parser takes the entry back and goes on behind it.
  pub parse_entry-write_entry : parse_entry buf (length pre) ≡ some (e, length pre + entry_bytes e)
  unfolding parse_entry parse_key parse_value entry_bytes
  parse_entry-write_entry =
      rw
        (
          at_tombstone,
          read_le_byte,
          at_key_len,
          kb-read,
          within (length pre + 5 + length e.key + 4) (omega arith),
          at_key,
          at_val_len,
          vb-read,
          within (length pre + 5 + length e.key + 4 + length v) (omega arith),
          at_value,
          value-back,
        )
        (ap (λ n. some (e, n)) (omega arith))

loop_end :
    (fuel : ℕ) (buf : List ℕ) (offset : ℕ) (acc : List Entry)
    → length buf ≤ offset
    → parse_loop (suc fuel) buf offset acc ≡ acc
unfolding parse_loop
loop_end fuel buf offset acc h = ground arith

loop_round :
    (fuel : ℕ) (buf : List ℕ) (offset next : ℕ) (acc : List Entry) (e : Entry)
    → offset + 9 ≤ length buf
    → parse_entry buf offset ≡ some (e, next)
    → parse_loop (suc fuel) buf offset acc ≡ parse_loop fuel buf next (acc ++ e ∷ [])
unfolding parse_loop
loop_round fuel buf offset next acc e h p = rw p (ground arith)

parse_loop-write_entries :
    (es : List Entry) (fuel : ℕ) (pre : List ℕ) (acc : List Entry)
    → AllFit es
    → length es < fuel
    → parse_loop fuel (pre ++ write_entries es) (length pre) acc ≡ acc ++ es
parse_loop-write_entries es zero pre acc fits f = absurd (omega arith)
parse_loop-write_entries [] (suc fuel) pre acc fits f =
    unfold write_entries in
    rw (append-nil pre, append-nil acc) (loop_end fuel pre (length pre) acc (omega arith))
parse_loop-write_entries (e ∷ es) (suc fuel) pre acc fits f =
    let pre' = pre ++ write_entry e in
    let split : pre ++ write_entries (e ∷ es) ≡ pre' ++ write_entries es =
      unfold write_entries in sym (append_assoc pre (write_entry e) (write_entries es)) in
    let grown : length pre' ≡ length pre + entry_bytes e =
      length-append pre (write_entry e) ∙ ap (◌+◌ (length pre)) (length-write_entry e) in
    let total : length (pre' ++ write_entries es) ≡ length pre' + length (write_entries es) =
      length-append pre' (write_entries es) in
    let nine : 9 ≤ entry_bytes e = unfold entry_bytes in omega arith in
    rw
      (
        split,
        loop_round fuel (pre' ++ write_entries es) (length pre) (length pre + entry_bytes e) acc e
            (omega arith) (parse_entry-write_entry pre (write_entries es) e fits.0),
        ← grown,
      )
      (parse_loop-write_entries es fuel pre' (acc ++ e ∷ []) fits.1 (omega arith)
        ∙ append_assoc acc (e ∷ []) es)

pub length-le-write_entries : (es : List Entry) → length es ≤ length (write_entries es)
unfolding write_entries
length-le-write_entries [] = omega arith
length-le-write_entries (e ∷ es) =
    let nine : 9 ≤ entry_bytes e = unfold entry_bytes in omega arith in
    omega (
      arith,
      length-append (write_entry e) (write_entries es),
      length-write_entry e,
      length-le-write_entries es,
    )

-- The bytes of entries whose keys and values fit the length fields parse back to those entries,
-- tombstones included.
pub parse_block_entries-write_entries :
    (es : List Entry) → AllFit es → parse_block_entries (write_entries es) ≡ es
unfolding parse_block_entries
parse_block_entries-write_entries es fits =
    parse_loop-write_entries es (length (write_entries es) + 1) [] [] fits
      (omega (arith, length-le-write_entries es))
