-- ===== src/Sstable/File/RoundTrip.antt =====
-- The constructor of SSTable reads the table that SSTable::write laid out.
use lsm_tree.Prelude.{
  none-some, subst, ℕ, ◌+◌, ◌-◌, ◌*◌, ◌/◌, ◌^◌, ◌≤◌, ◌<◌, ◌≡◌, inl, inr, refl, sym, ap, ◌∙◌, false,
  Option, none, some, List, [], ◌++◌, arith, ltb, leb, if◌then◌else◌, length, slice, read_le,
  bytes_le, append_assoc, append-nil, slice-append, length-append, length-bytes_le,
  read_le-bytes_le_eight, Bool-cases,
}
use lsm_tree.Sstable.Entries.{Entry}
use lsm_tree.Sstable.Build.{Table, write}
use lsm_tree.Sstable.Build.Blocks.{first_key}
use lsm_tree.Sstable.Read.Get.{IsWritten, write-some}
use lsm_tree.Sstable.Iterate.{last_key}
use lsm_tree.Sstable.File.Last.{open_keys-IsWritten}
use lsm_tree.Sstable.File.{
  write_index, serialize_bloom, index_bytes, bloom_offset, write_file, seek_to, open_sections,
  open_file, Opened,
}
use lsm_tree.Sstable.File.{file_bytes}
use lsm_tree.Sstable.File.Parts.{
  LinesFit, length-parts, read_four, read_index-lines, write_index-le,
}
use lsm_tree.Sstable.File.Filter.{FilterFits, deserialize_bloom-part}

bytes_or_none : Option (List ℕ) → List ℕ
bytes_or_none none = []
bytes_or_none (some b) = b

written :
    (t : Table) (buf : List ℕ)
    → write_file t ≡ some buf
    → (length t.index < 2 ^ 32) × (buf ≡ file_bytes t)
unfolding write_file bytes_or_none
written t buf w = elim (Bool-cases (leb (length t.index) (2 ^ 32 - 1))) [
  | inl k ↦
      let same : write_file t ≡ some (file_bytes t) = rw (write_file, k) refl in
      (ground arith, ap bytes_or_none (sym w ∙ same))
  | inr k ↦
      let same : write_file t ≡ none = rw (write_file, k) refl in absurd (none-some (sym same ∙ w))
]

-- The constructor, from the offsets in the footer on.
module _ (t : Table) (stale : ℕ × ℕ) (few : length t.index < 2 ^ 32) (lines : LinesFit t.index)
    (v : FilterFits t.bloom) (small : length (file_bytes t) < 2 ^ 64) (es : List Entry)
    (w : IsWritten es t) where
  abbrev now_open : Opened
  now_open = record { table = t; smallest = first_key es; largest = last_key [] es }

  abbrev count_bytes : List ℕ
  count_bytes = bytes_le 4 (length t.index)

  abbrev rows : List ℕ
  rows = write_index t.index

  abbrev filter : List ℕ
  filter = serialize_bloom t.bloom

  abbrev first : List ℕ
  first = bytes_le 8 (length t.content)

  abbrev second : List ℕ
  second = bytes_le 8 (bloom_offset t)

  file-parts : file_bytes t ≡ t.content ++ count_bytes ++ rows ++ filter ++ first ++ second
  unfolding file_bytes index_bytes
  file-parts = simp append_assoc

  bloom_offset-length : bloom_offset t ≡ length t.content + 4 + length rows
  unfolding bloom_offset index_bytes
  bloom_offset-length =
      omega (arith, length-append count_bytes rows, length-bytes_le 4 (length t.index))

  length-footer : length (first ++ second) ≡ 16
  length-footer = omega (
    arith,
    length-append first second,
    length-bytes_le 8 (length t.content),
    length-bytes_le 8 (bloom_offset t),
  )

  length-file : length (file_bytes t) ≡ bloom_offset t + length filter + 16
  length-file =
      let parts : file_bytes t ≡ (t.content ++ count_bytes ++ rows) ++ filter ++ (first ++ second) =
        file-parts ∙ simp append_assoc in
      omega (
        arith,
        length-parts (file_bytes t) _ filter (first ++ second) parts,
        length-footer,
        length-append (t.content ++ count_bytes) rows,
        length-append t.content count_bytes,
        length-bytes_le 4 (length t.index),
        bloom_offset-length,
      )

  sections : open_sections (file_bytes t) stale (length t.content) (bloom_offset t) ≡ some now_open
  unfolding open_sections seek_to
  sections =
      let buf = file_bytes t in
      let n = length t.content in
      let parts_count : buf ≡ t.content ++ count_bytes ++ (rows ++ filter ++ first ++ second) =
        file-parts ∙ simp append_assoc in
      let parts_rows : buf ≡ t.content ++ count_bytes ++ rows ++ (filter ++ first ++ second) =
        file-parts ∙ simp append_assoc in
      let parts_filter : buf ≡ t.content ++ count_bytes ++ rows ++ filter ++ (first ++ second) =
        file-parts ∙ simp append_assoc in
      let parts_content : buf
          ≡ [] ++ t.content ++ (count_bytes ++ rows ++ filter ++ first ++ second) =
        file-parts ∙ simp append_assoc in
      let at_rows : n + 4 ≡ length (t.content ++ count_bytes) =
        omega (arith, length-append t.content count_bytes, length-bytes_le 4 (length t.index)) in
      let at_filter : bloom_offset t ≡ length (t.content ++ count_bytes ++ rows) =
        omega
          (arith, at_rows, length-append (t.content ++ count_bytes) rows, bloom_offset-length) in
      let region : bloom_offset t - n ≡ 4 + length rows = omega (arith, bloom_offset-length) in
      let enough : ltb ((if leb 4 (4 + length rows) then 4 + length rows - 4 else 0) / 12)
            (length t.index)
          ≡ false =
        let least : 12 * length t.index ≤ length rows = write_index-le t.index in ground arith in
      let content : slice buf 0 n ≡ t.content =
        ap (λ l. slice l 0 n) parts_content ∙ slice-append [] t.content _ 0 n refl refl in
      rw
        (
          open_sections,
          read_four buf t.content (rows ++ filter ++ first ++ second) n (length t.index) parts_count
              refl few,
          region,
          enough,
          read_index-lines buf (t.content ++ count_bytes) t.index (filter ++ first ++ second)
              (n + 4) parts_rows at_rows lines,
          deserialize_bloom-part buf (t.content ++ count_bytes ++ rows) (first ++ second)
              (bloom_offset t) t.bloom stale parts_filter at_filter length-footer small v,
          content,
        )
        (open_keys-IsWritten es t buf (count_bytes ++ rows ++ filter ++ first ++ second)
          (bloom_offset t + 8 + 8 + t.bloom.num_blocks * 64) w (file-parts ∙ simp append_assoc))

  opened : open_file (file_bytes t) stale ≡ some now_open
  unfolding open_file
  opened =
      let buf = file_bytes t in
      let n = length t.content in
      let body = t.content ++ count_bytes ++ rows ++ filter in
      let size = length-file in
      let parts_first : buf ≡ body ++ first ++ second = file-parts in
      let parts_second : buf ≡ body ++ first ++ second ++ [] = file-parts ∙ sym (append-nil _) in
      let in_body = length-parts buf body first second parts_first in
      let in_first = length-append body first in
      let size_first = length-bytes_le 8 n in
      let size_second = length-bytes_le 8 (bloom_offset t) in
      let at_first : length buf - 16 ≡ length body =
        omega (arith, in_body, size_first, size_second) in
      let at_second : length buf - 8 ≡ length (body ++ first) =
        omega (arith, in_body, in_first, size_first, size_second) in
      let offset = bloom_offset-length in
      let index_at : read_le (slice buf (length buf - 16) 8) ≡ n =
        ap (λ l. read_le (slice l (length buf - 16) 8)) parts_first
        ∙ ap read_le (slice-append body first second _ 8 at_first (sym size_first))
        ∙ read_le-bytes_le_eight n (omega (arith, small, size, offset)) in
      let bloom_at : read_le (slice buf (length buf - 8) 8) ≡ bloom_offset t =
        ap (λ l. read_le (slice l (length buf - 8) 8)) parts_second
        ∙ ap read_le (slice-append (body ++ first) second [] _ 8 at_second (sym size_second))
        ∙ read_le-bytes_le_eight (bloom_offset t) (omega (arith, small, size)) in
      let long : ltb (length buf) 16 ≡ false = ground arith in
      let inside : ltb (length buf) n ≡ false = ground arith in
      let inside_bloom : ltb (length buf) (bloom_offset t) ≡ false = ground arith in
      let ordered : ltb (bloom_offset t) n ≡ false = ground arith in
      rw (open_file, index_at, bloom_at, long, inside, inside_bloom, ordered) sections

-- The file that SSTable::write makes of its entries opens as the table that it laid out, with the
-- key of the first entry as the smallest and that of the last entry as the largest, if the index
-- offsets and counts fit their fields, if the filter has a block and a hash, and if the file has
-- fewer than 2 ^ 64 bytes.
pub open_file-write_file :
    (total_bits : ℕ → ℕ) (es : List Entry) (t : Table) (stale : ℕ × ℕ) (buf : List ℕ)
    → write total_bits es ≡ some t
    → write_file t ≡ some buf
    → LinesFit t.index
    → FilterFits t.bloom
    → length buf < 2 ^ 64
    → open_file buf stale
      ≡ some (record { table = t; smallest = first_key es; largest = last_key [] es })
open_file-write_file total_bits es t stale buf wrote w lines v small =
    let laid = written t buf w in
    subst
      (λ b.
        length b < 2 ^ 64
        → open_file b stale
          ≡ some (record { table = t; smallest = first_key es; largest = last_key [] es }))
      (sym laid.1) (λ l. opened t stale laid.0 lines v l es (write-some total_bits es t wrote))
      small
