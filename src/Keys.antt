-- ===== src/Keys.antt =====
-- std::string keys: byte lists compared as `std::string::operator<` and `==` compare them.
use lsm_tree.Prelude.{
  ℕ, ◌≡◌, refl, Bool, true, false, List, [], ◌∷◌, arith, ltb, ◌==◌, if◌then◌else◌,
}

abbrev pub Key : Type 0
Key = List ℕ

unfoldable pub key_lt : Key → Key → Bool
key_lt [] [] = false
key_lt [] (y ∷ ys) = true
key_lt (x ∷ xs) [] = false
key_lt (x ∷ xs) (y ∷ ys) = if ltb x y then true else if x == y then key_lt xs ys else false

unfoldable pub key_eq : Key → Key → Bool
key_eq [] [] = true
key_eq [] (y ∷ ys) = false
key_eq (x ∷ xs) [] = false
key_eq (x ∷ xs) (y ∷ ys) = if x == y then key_eq xs ys else false

pub key_eq→eq : (a b : Key) → key_eq a b ≡ true → a ≡ b
unfolding key_eq
key_eq→eq [] [] h = refl
key_eq→eq [] (y ∷ ys) h = ground arith
key_eq→eq (x ∷ xs) [] h = ground arith
key_eq→eq (x ∷ xs) (y ∷ ys) h = ground (arith, key_eq→eq xs ys)

pub key_eq_refl : (a : Key) → key_eq a a ≡ true
unfolding key_eq
key_eq_refl [] = refl
key_eq_refl (x ∷ xs) = ground (arith, key_eq_refl xs)

pub eq→key_eq : (a b : Key) → a ≡ b → key_eq a b ≡ true
eq→key_eq a b h = ground (arith, key_eq_refl a)

pub key_eq_sym : (a b : Key) → key_eq a b ≡ key_eq b a
unfolding key_eq
key_eq_sym [] [] = refl
key_eq_sym [] (y ∷ ys) = refl
key_eq_sym (x ∷ xs) [] = refl
key_eq_sym (x ∷ xs) (y ∷ ys) = ground (arith, key_eq_sym xs ys)

pub key_lt_irrefl : (a : Key) → key_lt a a ≡ false
unfolding key_lt
key_lt_irrefl [] = refl
key_lt_irrefl (x ∷ xs) = ground (arith, key_lt_irrefl xs)

pub key_lt_trans : (a b c : Key) → key_lt a b ≡ true → key_lt b c ≡ true → key_lt a c ≡ true
unfolding key_lt
key_lt_trans [] [] c h k = ground arith
key_lt_trans [] (y ∷ ys) [] h k = ground arith
key_lt_trans [] (y ∷ ys) (z ∷ zs) h k = refl
key_lt_trans (x ∷ xs) [] c h k = ground arith
key_lt_trans (x ∷ xs) (y ∷ ys) [] h k = ground arith
key_lt_trans (x ∷ xs) (y ∷ ys) (z ∷ zs) h k = ground (arith, key_lt_trans xs ys zs)

-- Of two keys neither of which is smaller, each is the other.
pub key_lt_antisym : (a b : Key) → key_lt a b ≡ false → key_lt b a ≡ false → key_eq a b ≡ true
unfolding key_lt key_eq
key_lt_antisym [] [] h k = refl
key_lt_antisym [] (y ∷ ys) h k = ground arith
key_lt_antisym (x ∷ xs) [] h k = ground arith
key_lt_antisym (x ∷ xs) (y ∷ ys) h k = ground (arith, key_lt_antisym xs ys)

pub key_lt_asym : (a b : Key) → key_lt a b ≡ true → key_lt b a ≡ false
unfolding key_lt
key_lt_asym [] [] h = ground arith
key_lt_asym [] (y ∷ ys) h = refl
key_lt_asym (x ∷ xs) [] h = ground arith
key_lt_asym (x ∷ xs) (y ∷ ys) h = ground (arith, key_lt_asym xs ys)

pub key_lt→ne : (a b : Key) → key_lt a b ≡ true → key_eq a b ≡ false
unfolding key_lt key_eq
key_lt→ne [] [] h = ground arith
key_lt→ne [] (y ∷ ys) h = refl
key_lt→ne (x ∷ xs) [] h = refl
key_lt→ne (x ∷ xs) (y ∷ ys) h = ground (arith, key_lt→ne xs ys)
