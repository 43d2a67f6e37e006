-- ===== src/Wal/Recover/Damage.antt =====
-- What a damaged stretch of the log is, and that a round of recovery passes it over.
use mathlib.Core.Bool.{not, ◌&&◌}
use lsm_tree.Prelude.{
  ℕ, zero, suc, take, drop, ◌+◌, ◌%◌, ◌<◌, ◌≡◌, ◌≢◌, ◌⊎◌, inl, inr, refl, ap, none, List, [], ◌∷◌,
  ◌++◌, arith, ltb, ◌==◌, if◌then◌else◌, length, slice, read_le, length-append,
}
use lsm_tree.Wal.Record.{crc32}
use lsm_tree.Wal.Recover.{Round, parse_round, read_fields, accept, next_block}

abbrev pub field : List ℕ → ℕ → ℕ → ℕ
field b offset size = read_le (slice b offset size)

-- What stands at the start of the bytes `b` is no record: its type byte is 0, there is no room for
-- its fields, its lengths reach beyond the end of the log, its checksum does not match, or its type
-- byte is that of no type.
abbrev pub IsDamaged : List ℕ → Type 0
IsDamaged b =
    (field b 0 1 ≡ 0)
    ⊎ ((length b < 9)
        ⊎ ((length b < 13 + field b 1 4 + field b 5 4)
            ⊎ ((field b (9 + field b 1 4 + field b 5 4) 4
                  ≢ crc32 (field b 0 1) (slice b 9 (field b 1 4))
                      (slice b (9 + field b 1 4) (field b 5 4)))
                ⊎ ((field b 0 1 ≢ 1) × (field b 0 1 ≢ 2)))))

next_block_aligned : (n : ℕ) → n % 512 ≡ 0 → next_block n ≡ n + 512
unfolding next_block
next_block_aligned n h = omega arith

-- A slice behind the first bytes.
slice-behind :
    (pre c : List ℕ) (m o n : ℕ) → m ≡ length pre + o → slice (pre ++ c) m n ≡ slice c o n
unfolding slice
slice-behind [] c m o n e = ap (λ x. take n (drop x c)) {y = o} (omega arith)
slice-behind (x ∷ pre) c zero o n e = absurd (omega arith)
slice-behind (x ∷ pre) c (suc m) o n e = slice-behind pre c m o n (omega arith)

-- The tests of a round, in their order: each leads to the next block.
abbrev Fails : ℕ → ℕ → ℕ → ℕ → ℕ → ℕ → ℕ → Type 0
Fails type len start klen vlen stored crc =
    (type ≡ 0)
    ⊎ ((len < start + 9)
        ⊎ ((len < start + (13 + klen + vlen)) ⊎ ((stored ≢ crc) ⊎ ((type ≢ 1) × (type ≢ 2)))))

skipped :
    (type len start klen vlen stored crc : ℕ) (s r : Round)
    → Fails type len start klen vlen stored crc
    → (if type == 0
        then s
        else if ltb len (start + 1 + 8)
        then s
        else if ltb len (start + 9 + klen + vlen + 4)
        then s
        else if not (stored == crc)
        then s
        else if not (type == 1) && not (type == 2)
        then s
        else r)
      ≡ s
skipped type len start klen vlen stored crc s r (inl z) = ground arith
skipped type len start klen vlen stored crc s r (inr (inl l)) = ground arith
skipped type len start klen vlen stored crc s r (inr (inr (inl l))) = ground arith
skipped type len start klen vlen stored crc s r (inr (inr (inr (inl n)))) = ground arith
skipped type len start klen vlen stored crc s r (inr (inr (inr (inr (a, b))))) = ground arith

-- What is damaged in a part of a log fails there.
fails :
    (type len total start klen vlen stored crc : ℕ)
    → total ≡ start + len
    → Fails type len 0 klen vlen stored crc
    → Fails type total start klen vlen stored crc
fails type len total start klen vlen stored crc e (inl z) = inl z
fails type len total start klen vlen stored crc e (inr (inl l)) = inr (inl (omega arith))
fails type len total start klen vlen stored crc e (inr (inr (inl l))) =
    inr (inr (inl (omega arith)))
fails type len total start klen vlen stored crc e (inr (inr (inr r))) = inr (inr (inr r))

pub parse_round-damaged :
    (pre c : List ℕ)
    → length pre % 512 ≡ 0
    → IsDamaged c
    → parse_round (pre ++ c) (length pre) ≡ record { entry = none; next = length pre + 512 }
unfolding parse_round read_fields accept
parse_round-damaged pre c whole d =
    let kl = field c 1 4 in
    let vl = field c 5 4 in
    let total : length (pre ++ c) ≡ length pre + length c = length-append pre c in
    rw
      (
        slice-behind pre c (length pre) 0 1 (omega arith),
        slice-behind pre c (length pre + 1) 1 4 refl,
        slice-behind pre c (length pre + 5) 5 4 refl,
        slice-behind pre c (length pre + 9) 9 kl refl,
        slice-behind pre c (length pre + 9 + kl) (9 + kl) vl (omega arith),
        slice-behind pre c (length pre + 9 + kl + vl) (9 + kl + vl) 4 (omega arith),
        next_block_aligned (length pre) whole,
      )
      (skipped (field c 0 1) (length (pre ++ c)) (length pre) kl vl (field c (9 + kl + vl) 4)
        (crc32 (field c 0 1) (slice c 9 kl) (slice c (9 + kl) vl)) _ _
        (fails (field c 0 1) (length c) (length (pre ++ c)) (length pre) kl vl _ _ total
          (from_start d)))
  where
    from_start :
        IsDamaged c
        → Fails
            (field c 0 1)
            (length c)
            0
            (field c 1 4)
            (field c 5 4)
            (field c (9 + field c 1 4 + field c 5 4) 4)
            (crc32
              (field c 0 1)
              (slice c 9 (field c 1 4))
              (slice c (9 + field c 1 4) (field c 5 4)))
    from_start (inl z) = inl z
    from_start (inr (inl l)) = inr (inl (omega arith))
    from_start (inr (inr (inl l))) = inr (inr (inl (omega arith)))
    from_start (inr (inr (inr r))) = inr (inr (inr r))
