-- ===== src/Sstable/File/Parts.antt =====
-- Reads of a file at the parts that it is made of: words, strings, the lines of the index.
use lsm_tree.Prelude.{
  ℕ, ◌+◌, ◌-◌, ◌*◌, ◌%◌, ◌^◌, ◌≤◌, ◌<◌, ◌≡◌, refl, sym, ap, ◌∙◌, true, false, some, List, [], ◌∷◌,
  ◌++◌, arith, ltb, leb, length, slice, bytes_le, append_assoc, append-nil, slice-append,
  length-append, length-bytes_le, read_le-bytes_le_four, read_le-bytes_le_eight,
}
use lsm_tree.Keys.{Key}
use lsm_tree.Sstable.Format.{write_string}
use lsm_tree.Sstable.File.{write_index, Stream, read_bytes, read_uint, read_string, read_index}

abbrev pub at : ℕ → Stream
at pos = record { pos = pos; has_failed = false }

pub length-parts :
    (buf a b c : List ℕ) → buf ≡ a ++ b ++ c → length buf ≡ length a + (length b + length c)
length-parts buf a b c e =
    let all : length buf ≡ length (a ++ b ++ c) = ap (λ (l : List ℕ). length l) e in
    omega (arith, all, length-append (a ++ b) c, length-append a b)

-- A read of a part of the buffer.
pub read_bytes-part :
    (buf a b c : List ℕ) (n m : ℕ)
    → buf ≡ a ++ b ++ c
    → n ≡ length a
    → m ≡ length b
    → read_bytes buf (at n) m ≡ (b, at (n + m))
unfolding read_bytes
read_bytes-part buf a b c n m e p q =
    let whole : length buf ≡ length a + (length b + length c) = length-parts buf a b c e in
    let inside : leb (n + m) (length buf) ≡ true = ground arith in
    let part : slice buf n m ≡ b = ap (λ l. slice l n m) e ∙ slice-append a b c n m p q in
    rw (inside, part) refl

pub read_four :
    (buf a c : List ℕ) (n v : ℕ)
    → buf ≡ a ++ bytes_le 4 v ++ c
    → n ≡ length a
    → v < 2 ^ 32
    → read_uint buf (at n) 4 ≡ (v, at (n + 4))
unfolding read_uint
read_four buf a c n v e p l =
    rw (read_bytes-part buf a (bytes_le 4 v) c n 4 e p (sym (length-bytes_le 4 v)))
      (ap (λ x. (x, at (n + 4))) (read_le-bytes_le_four v l))

pub read_eight :
    (buf a c : List ℕ) (n v : ℕ)
    → buf ≡ a ++ bytes_le 8 v ++ c
    → n ≡ length a
    → v < 2 ^ 64
    → read_uint buf (at n) 8 ≡ (v, at (n + 8))
unfolding read_uint
read_eight buf a c n v e p l =
    rw (read_bytes-part buf a (bytes_le 8 v) c n 8 e p (sym (length-bytes_le 8 v)))
      (ap (λ x. (x, at (n + 8))) (read_le-bytes_le_eight v l))

pub read_string-part :
    (buf a c : List ℕ) (n : ℕ) (k : Key)
    → buf ≡ a ++ write_string k ++ c
    → n ≡ length a
    → length k < 2 ^ 32
    → read_string buf (at n) (length buf) ≡ some (k, at (n + 4 + length k))
unfolding read_string write_string
read_string-part buf a c n k e p l =
    let len = bytes_le 4 (length k) in
    let small : length k % 2 ^ 32 ≡ length k = omega arith in
    let parts : buf ≡ a ++ len ++ (k ++ c) = e ∙ rw small (simp append_assoc) in
    let tail : buf ≡ a ++ len ++ k ++ c = parts ∙ simp append_assoc in
    let size = length-parts buf (a ++ len) k c tail in
    let before : n + 4 ≡ length (a ++ len) =
      omega (arith, length-append a len, length-bytes_le 4 (length k)) in
    let fits : ltb (length buf) (length k) ≡ false = ground arith in
    let none_left : length k - length k ≡ 0 = omega arith in
    rw
      (
        read_four buf a (k ++ c) n (length k) parts p l,
        read_bytes-part buf (a ++ len) k c (n + 4) (length k) tail before refl,
        fits,
        none_left,
      )
      (ap (λ x. some (x, at (n + 4 + length k))) (append-nil k))

-- The lines of an index that a uint64_t and the length fields hold.
abbrev pub LinesFit : List (Key × ℕ) → Type 0
LinesFit [] = Unit {0}
LinesFit (l ∷ ls) = ((length l.0 < 2 ^ 32) × (l.1 < 2 ^ 64)) × LinesFit ls

pub length-write_string : (k : Key) → length (write_string k) ≡ 4 + length k
unfolding write_string
length-write_string k =
    omega (
      arith,
      length-append (bytes_le 4 (length k % 2 ^ 32)) k,
      length-bytes_le 4 (length k % 2 ^ 32),
    )

pub read_index-lines :
    (buf a : List ℕ) (ls : List (Key × ℕ)) (c : List ℕ) (n : ℕ)
    → buf ≡ a ++ write_index ls ++ c
    → n ≡ length a
    → LinesFit ls
    → read_index (length ls) buf (at n) ≡ some (ls, at (n + length (write_index ls)))
unfolding read_index write_index
read_index-lines buf a [] c n e p f = ap (λ m. some ([], at m)) (omega arith)
read_index-lines buf a (l ∷ ls) c n e p f =
    let key = write_string l.0 in
    let word = bytes_le 8 l.1 in
    let rest = write_index ls in
    let parts : buf ≡ a ++ key ++ (word ++ rest ++ c) = e ∙ simp append_assoc in
    let parts_word : buf ≡ a ++ key ++ word ++ (rest ++ c) = e ∙ simp append_assoc in
    let parts_rest : buf ≡ a ++ key ++ word ++ rest ++ c = e ∙ simp append_assoc in
    let in_a = length-append a key in
    let in_key = length-append (a ++ key) word in
    let key_size = length-write_string l.0 in
    let word_size = length-bytes_le 8 l.1 in
    let at_word : n + 4 + length l.0 ≡ length (a ++ key) = omega (arith, in_a, key_size) in
    let at_rest : n + 4 + length l.0 + 8 ≡ length ((a ++ key) ++ word) =
      omega (arith, in_a, in_key, key_size, word_size) in
    let size : length (key ++ word ++ rest) ≡ 4 + length l.0 + 8 + length rest =
      omega
        (arith, length-append (key ++ word) rest, length-append key word, key_size, word_size) in
    let word_read =
      read_eight buf (a ++ key) (rest ++ c) (n + 4 + length l.0) l.1 parts_word at_word f.0.1 in
    rw
      (
        read_index,
        read_string-part buf a (word ++ rest ++ c) n l.0 parts p f.0.0,
        word_read,
        read_index-lines buf ((a ++ key) ++ word) ls c (n + 4 + length l.0 + 8) parts_rest at_rest
            f.1,
        word_read,
      )
      (ap (λ m. some (l ∷ ls, at m)) (omega (arith, size)))

pub write_index-le : (ls : List (Key × ℕ)) → 12 * length ls ≤ length (write_index ls)
unfolding write_index
write_index-le [] = omega arith
write_index-le (l ∷ ls) = omega (
  arith,
  length-append (write_string l.0 ++ bytes_le 8 l.1) (write_index ls),
  length-append (write_string l.0) (bytes_le 8 l.1),
  length-write_string l.0,
  length-bytes_le 8 l.1,
  write_index-le ls,
)
