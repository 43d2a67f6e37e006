-- ===== src/Engine/Load/Names.antt =====
-- The name that sstPath gives and the name that loadSSTables reads.
use lsm_tree.Prelude.{
  ℕ, zero, suc, ◌+◌, ◌-◌, ◌*◌, ◌/◌, ◌%◌, ◌≤◌, ◌<◌, ◌≡◌, inl, inr, refl, ◌∙◌, true, false, some, [],
  ◌∷◌, ◌++◌, arith, ltb, ◌==◌, if◌then◌else◌, length, replicate, Bool-cases, length-append,
}
use lsm_tree.Keys.{Key, key_eq}
use lsm_tree.Engine.Load.{
  decimal_loop, decimal, padded, stem_of, split_dash, only_digits, all_digits, stoll_loop,
  parse_number, parse_numbers, parse_stem, int_max,
}

-- The numbers that have `fuel` digits at most.
room : ℕ → ℕ
room zero = 1
room (suc fuel) = 10 * room fuel

stoll-append :
    (acc : ℕ) (xs : Key) (c : ℕ)
    → stoll_loop acc (xs ++ c ∷ []) ≡ stoll_loop acc xs * 10 + (c - b'0')
unfolding stoll_loop
stoll-append acc [] c = refl
stoll-append acc (x ∷ xs) c = stoll-append (acc * 10 + (x - b'0')) xs c

stoll-decimal_loop : (fuel n : ℕ) → n < room fuel → stoll_loop 0 (decimal_loop fuel n) ≡ n
unfolding decimal_loop stoll_loop room
stoll-decimal_loop zero n l = omega arith
stoll-decimal_loop (suc fuel) n l = elim (Bool-cases (ltb n 10)) [
  | inl t ↦ rw t (ground arith)
  | inr f ↦
      let rest = stoll-decimal_loop fuel (n / 10) (omega arith) in
      let big : 10 ≤ n = ground arith in
      rw f (stoll-append 0 (decimal_loop fuel (n / 10)) (b'0' + n % 10) ∙ omega arith)
]

only_digits-append :
    (xs ys : Key) → only_digits xs ≡ true → only_digits ys ≡ true → only_digits (xs ++ ys) ≡ true
unfolding only_digits
only_digits-append [] ys h k = k
only_digits-append (x ∷ xs) ys h k = ground (arith, only_digits-append xs ys)

only_digits-decimal_loop : (fuel n : ℕ) → only_digits (decimal_loop fuel n) ≡ true
unfolding decimal_loop only_digits
only_digits-decimal_loop zero n = refl
only_digits-decimal_loop (suc fuel) n =
    let digit : only_digits ((b'0' + n % 10) ∷ []) ≡ true = ground arith in
    elim (Bool-cases (ltb n 10)) [
      | inl t ↦ rw t digit
      | inr f ↦ rw f (
          only_digits-append (decimal_loop fuel (n / 10)) ((b'0' + n % 10) ∷ [])
            (only_digits-decimal_loop fuel (n / 10)) digit)
    ]

only_digits-replicate : (k : ℕ) → only_digits (replicate k b'0') ≡ true
unfolding only_digits
only_digits-replicate zero = refl
only_digits-replicate (suc k) = only_digits-replicate k

stoll-replicate : (k : ℕ) (ds : Key) → stoll_loop 0 (replicate k b'0' ++ ds) ≡ stoll_loop 0 ds
unfolding stoll_loop
stoll-replicate zero ds = refl
stoll-replicate (suc k) ds = stoll-replicate k ds

split_dash-digits :
    (ds cs : Key) → only_digits ds ≡ true → split_dash (ds ++ b'-' ∷ cs) ≡ some (ds, cs)
unfolding split_dash only_digits
split_dash-digits [] cs h = refl
split_dash-digits (d ∷ ds) cs h =
    let digit : only_digits ds ≡ true = ground arith in
    let other : (d == b'-') ≡ false = ground arith in rw (other, split_dash-digits ds cs digit) refl

length-decimal : (n : ℕ) → 0 < length (decimal n)
unfolding decimal decimal_loop
length-decimal n =
    omega (
      arith,
      length-append (if ltb n 10 then [] else decimal_loop 9 (n / 10)) ((b'0' + n % 10) ∷ []),
    )

all_digits-append : (xs : Key) (n : ℕ) → only_digits xs ≡ true → all_digits (xs ++ decimal n) ≡ true
unfolding all_digits decimal
all_digits-append xs n h =
    let long : 0 < length (xs ++ decimal n) =
      omega (arith, length-append xs (decimal n), length-decimal n) in
    let digits = only_digits-append xs (decimal n) h (only_digits-decimal_loop 10 n) in ground arith

parse_number-int : (v : Key) (n : ℕ) → n ≤ int_max → stoll_loop 0 v ≡ n → parse_number v ≡ some n
unfolding parse_number
parse_number-int v n l e = rw e (ground arith)

int_room : room 10 ≡ 10000000000
unfolding room
int_room = refl

stoll-decimal : (n : ℕ) → n ≤ int_max → stoll_loop 0 (decimal n) ≡ n
unfolding decimal
stoll-decimal n l = stoll-decimal_loop 10 n (omega (arith, int_room))

-- The level and the counter that loadSSTables reads from the name that sstPath gives are those it
-- was given, for every level and counter that an int holds.
pub parse_stem-stem_of :
    (level counter : ℕ)
    → level ≤ int_max
    → counter ≤ int_max
    → parse_stem (stem_of level counter) ≡ some (level, counter)
unfolding parse_stem stem_of padded parse_numbers key_eq decimal
parse_stem-stem_of level counter l k =
    let zeros : Key = replicate (6 - length (decimal counter)) b'0' in
    let first : all_digits (decimal level) ≡ true =
      all_digits-append [] level (only_digits-replicate 0) in
    let second : all_digits (zeros ++ decimal counter) ≡ true =
      all_digits-append zeros counter (only_digits-replicate (6 - length (decimal counter))) in
    let level_read = parse_number-int (decimal level) level l (stoll-decimal level l) in
    let counter_read = parse_number-int (zeros ++ decimal counter) counter k (
      stoll-replicate (6 - length (decimal counter)) (decimal counter) ∙ stoll-decimal counter k) in
    let split =
      split_dash-digits (decimal level) (zeros ++ decimal counter)
        (only_digits-decimal_loop 10 level) in
    rw (split, first, second, level_read, counter_read) refl
