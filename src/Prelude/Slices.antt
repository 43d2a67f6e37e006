-- ===== src/Prelude/Slices.antt =====
-- Slices of byte buffers (`data + offset`, `size`), and little-endian words.
use Prim.Native.Nat.{ℕ, zero, suc, ◌+◌, ◌*◌, ◌/◌, ◌%◌, ◌^◌, ◌≤◌, ◌<◌}
use mathlib.Core.Path.{◌≡◌, refl, ap, ◌∙◌}
use mathlib.Core.List.{List, [], ◌∷◌, ◌++◌, append_assoc}
use native.Mathlib.Omega.{arith}
use lsm_tree.Prelude.Lists.{length, take, drop}

module _ {ℓ} {A : Type ℓ} where
  -- `size` elements from position `offset`
  unfoldable pub slice : List A → ℕ → ℕ → List A
  slice buf offset size = take size (drop offset buf)

  pub drop-append : (n : ℕ) (xs ys : List A) → n ≡ length xs → drop n (xs ++ ys) ≡ ys
  drop-append zero [] ys h = refl
  drop-append zero (x ∷ xs) ys h = absurd (omega arith)
  drop-append (suc n) [] ys h = absurd (omega arith)
  drop-append (suc n) (x ∷ xs) ys h = drop-append n xs ys (omega arith)

  pub take-append : (n : ℕ) (xs ys : List A) → n ≡ length xs → take n (xs ++ ys) ≡ xs
  take-append zero [] ys h = refl
  take-append zero (x ∷ xs) ys h = absurd (omega arith)
  take-append (suc n) [] ys h = absurd (omega arith)
  take-append (suc n) (x ∷ xs) ys h = ap (◌∷◌ x) (take-append n xs ys (omega arith))

  pub slice-append :
      (a b c : List A) (n m : ℕ) → n ≡ length a → m ≡ length b → slice (a ++ b ++ c) n m ≡ b
  unfolding slice
  slice-append a b c n m p q =
      ap (take m) (ap (drop n) (append_assoc a b c) ∙ drop-append n a (b ++ c) p)
      ∙ take-append m b c q

-- The `n` little-endian bytes of `v`, as memcpy from an unsigned integer writes them.
unfoldable pub bytes_le : ℕ → ℕ → List ℕ
bytes_le zero v = []
bytes_le (suc n) v = (v % 256) ∷ bytes_le n (v / 256)

unfoldable pub read_le : List ℕ → ℕ
read_le [] = 0
read_le (b ∷ bs) = b + 256 * read_le bs

pub length-bytes_le : (n v : ℕ) → length (bytes_le n v) ≡ n
unfolding bytes_le
length-bytes_le zero v = refl
length-bytes_le (suc n) v = ap suc (length-bytes_le n (v / 256))

pub read_le-bytes_le_four : (v : ℕ) → v < 2 ^ 32 → read_le (bytes_le 4 v) ≡ v
unfolding bytes_le read_le
read_le-bytes_le_four v h = omega arith

pub read_le-bytes_le_eight : (v : ℕ) → v < 2 ^ 64 → read_le (bytes_le 8 v) ≡ v
unfolding bytes_le read_le
read_le-bytes_le_eight v h = omega arith

module _ {ℓ} {A : Type ℓ} where
  pub drop_past : (xs ys : List A) (o n : ℕ) → n ≡ length xs + o → drop n (xs ++ ys) ≡ drop o ys
  drop_past [] ys o n h = let e : n ≡ o = omega arith in rw e
  drop_past (x ∷ xs) ys o zero h = absurd (omega arith)
  drop_past (x ∷ xs) ys o (suc n) h = drop_past xs ys o n (omega arith)

  take-append_le : (n : ℕ) (xs ys : List A) → n ≤ length xs → take n (xs ++ ys) ≡ take n xs
  take-append_le zero xs ys h = refl
  take-append_le (suc n) [] ys h = absurd (omega arith)
  take-append_le (suc n) (x ∷ xs) ys h = ap (◌∷◌ x) (take-append_le n xs ys (omega arith))

  slice-append_le :
      (xs ys : List A) (o n : ℕ) → o + n ≤ length xs → slice (xs ++ ys) o n ≡ slice xs o n
  unfolding slice
  slice-append_le xs ys zero n h = take-append_le n xs ys (omega arith)
  slice-append_le [] ys (suc o) n h = absurd (omega arith)
  slice-append_le (x ∷ xs) ys (suc o) n h = slice-append_le xs ys o n (omega arith)

  -- A slice that lies inside the middle part.
  pub slice_inside :
      (a b c : List A) (o n : ℕ)
      → o + n ≤ length b
      → slice (a ++ b ++ c) (length a + o) n ≡ slice b o n
  unfolding slice
  slice_inside a b c o n h =
      ap (take n) (ap (drop (length a + o)) (append_assoc a b c) ∙ drop_past a (b ++ c) o _ refl)
      ∙ slice-append_le b c o n h
