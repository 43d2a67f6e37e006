-- ===== src/Sstable/Build/Blocks.antt =====
-- The blocks behind the sparse index: how the data section is cut.
use lsm_tree.Prelude.{
  ℕ, ◌+◌, ◌<◌, ◌≡◌, inl, inr, refl, sym, ap, ◌∙◌, true, false, List, [], ◌∷◌, ◌++◌, arith, leb,
  ◌==◌, ◌||◌, length, length-append, append_assoc, append-nil, concat, concat-append, Bool-cases,
  subst,
}
use lsm_tree.Keys.{Key}
use lsm_tree.Sstable.Entries.{Entry}
use lsm_tree.Sstable.Format.{write_entry, write_entries}
use lsm_tree.Sstable.Build.{Builder, new_builder, add_entry, build_loop, target_block_size}

abbrev pub first_key : List Entry → Key
first_key [] = []
first_key (e ∷ es) = e.key

-- The index of blocks whose first byte is at `offset`.
unfoldable pub index_from : ℕ → List (List Entry) → List (Key × ℕ)
index_from offset [] = []
index_from offset (b ∷ bs) =
    (first_key b, offset) ∷ index_from (offset + length (write_entries b)) bs

abbrev pub NoneEmpty : List (List Entry) → Type 0
NoneEmpty [] = Unit {0}
NoneEmpty (b ∷ bs) = (0 < length b) × NoneEmpty bs

pub write_entries-append :
    (xs ys : List Entry) → write_entries (xs ++ ys) ≡ write_entries xs ++ write_entries ys
unfolding write_entries
write_entries-append [] ys = refl
write_entries-append (e ∷ xs) ys =
    ap (◌++◌ (write_entry e)) (write_entries-append xs ys)
    ∙ sym (append_assoc (write_entry e) (write_entries xs) (write_entries ys))

index_from-append :
    (o : ℕ) (xs ys : List (List Entry))
    → index_from o (xs ++ ys)
      ≡ index_from o xs ++ index_from (o + length (write_entries (concat xs))) ys
unfolding index_from
index_from-append o [] ys = unfold write_entries in ap (λ n. index_from n ys) (omega arith)
index_from-append o (x ∷ xs) ys =
    let w = length (write_entries x) in
    let sum : o + w + length (write_entries (concat xs))
        ≡ o + length (write_entries (x ++ concat xs)) =
      omega (
        arith,
        ap length (write_entries-append x (concat xs)),
        length-append (write_entries x) (write_entries (concat xs)),
      ) in
    ap (◌∷◌ (first_key x, o))
      (index_from-append (o + w) xs ys ∙ ap (λ n. index_from (o + w) xs ++ index_from n ys) sum)

NoneEmpty-append : (xs ys : List (List Entry)) → NoneEmpty xs → NoneEmpty ys → NoneEmpty (xs ++ ys)
NoneEmpty-append [] ys a b = b
NoneEmpty-append (x ∷ xs) ys a b = (a.0, NoneEmpty-append xs ys a.1 b)

-- The builder has written the blocks of `full` and, behind them, the entries of `cur` so far.
record Built (full : List (List Entry)) (cur : List Entry) (b : Builder) : Type 0 where
  out : b.out ≡ write_entries (concat full ++ cur)
  index : b.index ≡ index_from 0 (full ++ cur ∷ [])
  filled : NoneEmpty full
  started : 0 < length cur

-- A builder that holds `es`, cut into blocks.
pub record Cut (es : List Entry) (b : Builder) : Type 0 where
  pub blocks : List (List Entry)
  pub whole : concat blocks ≡ es
  pub filled : NoneEmpty blocks
  pub out : b.out ≡ write_entries es
  pub index : b.index ≡ index_from 0 blocks

Built-Cut :
    (full : List (List Entry)) (cur : List Entry) (b : Builder)
    → Built full cur b
    → Cut (concat full ++ cur) b
Built-Cut full cur b v = record {
  blocks = full ++ cur ∷ [];
  whole = concat-append full (cur ∷ []) ∙ ap (◌++◌ (concat full)) (append-nil cur);
  filled = NoneEmpty-append full (cur ∷ []) v.filled (v.started, tt);
  out = v.out;
  index = v.index;
}

write_one : (e : Entry) → write_entries (e ∷ []) ≡ write_entry e
unfolding write_entries
write_one e = append-nil (write_entry e)

first_key-append : (cur es : List Entry) → 0 < length cur → first_key (cur ++ es) ≡ first_key cur
first_key-append [] es h = elim h [ ]
first_key-append (e ∷ cur) es h = refl

grow_block :
    (full : List (List Entry)) (cur : List Entry) (b : Builder) (i : ℕ) (e : Entry)
    → Built full cur b
    → (i == 0 || leb target_block_size b.block_bytes) ≡ false
    → Built full (cur ++ e ∷ []) (add_entry i e b)
unfolding add_entry index_from
grow_block full cur b i e v h = rw h (record {
  out =
      ap (λ o. o ++ write_entry e) v.out
      ∙ ap (◌++◌ (write_entries (concat full ++ cur))) (sym (write_one e))
      ∙ sym (write_entries-append (concat full ++ cur) (e ∷ []))
      ∙ ap write_entries (append_assoc (concat full) cur (e ∷ []));
  index =
      v.index
      ∙ index_from-append 0 full (cur ∷ [])
      ∙ ap (λ k. index_from 0 full ++ (k, 0 + length (write_entries (concat full))) ∷ [])
          (sym (first_key-append cur (e ∷ []) v.started))
      ∙ sym (index_from-append 0 full ((cur ++ e ∷ []) ∷ []));
  filled = v.filled;
  started = omega (arith, length-append cur (e ∷ []));
})

next_block :
    (full : List (List Entry)) (cur : List Entry) (b : Builder) (i : ℕ) (e : Entry)
    → Built full cur b
    → (i == 0 || leb target_block_size b.block_bytes) ≡ true
    → Built (full ++ cur ∷ []) (e ∷ []) (add_entry i e b)
unfolding add_entry index_from
next_block full cur b i e v h =
    let all : concat (full ++ cur ∷ []) ≡ concat full ++ cur =
      concat-append full (cur ∷ []) ∙ ap (◌++◌ (concat full)) (append-nil cur) in
    rw h (record {
      out =
          ap (λ o. o ++ write_entry e) v.out
          ∙ ap (◌++◌ (write_entries (concat full ++ cur))) (sym (write_one e))
          ∙ sym (write_entries-append (concat full ++ cur) (e ∷ []))
          ∙ ap (λ l. write_entries (l ++ e ∷ [])) (sym all);
      index =
          ap (λ x. x ++ (e.key, length b.out) ∷ []) v.index
          ∙ ap (λ n. index_from 0 (full ++ cur ∷ []) ++ (e.key, n) ∷ [])
              (ap length (v.out ∙ ap write_entries (sym all)) ∙ omega arith)
          ∙ sym (index_from-append 0 (full ++ cur ∷ []) ((e ∷ []) ∷ []));
      filled = NoneEmpty-append full (cur ∷ []) v.filled (v.started, tt);
      started = omega arith;
    })

first_block : (e : Entry) → Built [] (e ∷ []) (add_entry 0 e new_builder)
unfolding add_entry index_from
first_block e = record { out = sym (write_one e); index = refl; filled = tt; started = omega arith }

build_loop-Cut :
    (es : List Entry) (i : ℕ) (full : List (List Entry)) (cur : List Entry) (b : Builder)
    → Built full cur b
    → Cut (concat full ++ cur ++ es) (build_loop i es b)
unfolding build_loop
build_loop-Cut [] i full cur b v = rw (append-nil (concat full ++ cur)) (Built-Cut full cur b v)
build_loop-Cut (e ∷ es) i full cur b v =
    elim (Bool-cases (i == 0 || leb target_block_size b.block_bytes)) [
      | inl t ↦
          let all : concat (full ++ cur ∷ []) ≡ concat full ++ cur =
            concat-append full (cur ∷ []) ∙ ap (◌++◌ (concat full)) (append-nil cur) in
          subst (λ l. Cut l (build_loop (i + 1) es (add_entry i e b)))
            (ap (λ l. l ++ e ∷ [] ++ es) all ∙ append_assoc (concat full ++ cur) (e ∷ []) es)
            (build_loop-Cut es (i + 1) (full ++ cur ∷ []) (e ∷ []) (add_entry i e b)
              (next_block full cur b i e v t))
      | inr f ↦
          subst (λ l. Cut l (build_loop (i + 1) es (add_entry i e b)))
            (ap (λ l. l ++ es) (sym (append_assoc (concat full) cur (e ∷ [])))
              ∙ append_assoc (concat full ++ cur) (e ∷ []) es)
            (build_loop-Cut es (i + 1) full (cur ++ e ∷ []) (add_entry i e b)
              (grow_block full cur b i e v f))
    ]

-- Whatever entries it is given, the builder writes them all, in order, and its index has one line
-- for each block: the block's first key, and the offset of its first byte.
pub build-Cut : (es : List Entry) → Cut es (build_loop 0 es new_builder)
unfolding build_loop
build-Cut [] =
    unfold write_entries index_from in
    record { blocks = []; whole = refl; filled = tt; out = refl; index = refl }
build-Cut (e ∷ es) = build_loop-Cut es 1 [] (e ∷ []) (add_entry 0 e new_builder) (first_block e)
