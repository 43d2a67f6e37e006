-- ===== src/Merge/Order.antt =====
-- The heap order is a strict total order on cursors of distinct ranks.
use lsm_tree.Prelude.{ℕ, ◌≡◌, ◌≢◌, Bool, true, false, arith, ltb}
use lsm_tree.Keys.{
  key_lt_trans, key_lt_asym, key_lt_antisym, key_lt→ne, key_eq→eq, key_eq_refl, key_eq_sym,
  key_lt_irrefl,
}
use lsm_tree.Merge.{Cursor, before}

-- A strict total order on ranks.
pub record IsPrecedence (wins : ℕ → ℕ → Bool) : Type 0 where
  pub trans : (a b c : ℕ) → wins a b ≡ true → wins b c ≡ true → wins a c ≡ true
  pub asym : (a b : ℕ) → wins a b ≡ true → wins b a ≡ false
  pub total : (a b : ℕ) → a ≢ b → wins a b ≡ false → wins b a ≡ true

pub ltb-IsPrecedence : IsPrecedence ltb
ltb-IsPrecedence = record {
  trans = λ a b c h k. ground arith;
  asym = λ a b h. ground arith;
  total = λ a b n h. ground arith;
}

-- The later of two positions wins.
abbrev pub gtb : ℕ → ℕ → Bool
gtb a b = ltb b a

pub gtb-IsPrecedence : IsPrecedence gtb
gtb-IsPrecedence = record {
  trans = λ a b c h k. ground arith;
  asym = λ a b h. ground arith;
  total = λ a b n h. ground arith;
}

module _ {wins : ℕ → ℕ → Bool} (p : IsPrecedence wins) where
  pub before_trans :
      (a b c : Cursor) → before wins a b ≡ true → before wins b c ≡ true → before wins a c ≡ true
  unfolding before
  before_trans a b c h k =
      let x = a.entry.key in
      let y = b.entry.key in
      let z = c.entry.key in
      ground (
        arith,
        p.trans a.rank b.rank c.rank,
        key_lt_trans x y z,
        key_eq→eq x y,
        key_eq→eq y z,
        key_eq→eq x z,
        key_eq_refl x,
        key_eq_refl y,
        key_lt_irrefl x,
        key_lt_asym x y,
        key_lt→ne x z,
      )

  pub before_total :
      (a b : Cursor) → a.rank ≢ b.rank → before wins a b ≡ false → before wins b a ≡ true
  unfolding before
  before_total a b n h =
      let x = a.entry.key in
      let y = b.entry.key in
      ground (arith, p.total a.rank b.rank n, key_eq_sym x y, key_lt_antisym x y)
