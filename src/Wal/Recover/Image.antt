-- ===== src/Wal/Recover/Image.antt =====
-- Whole logs: records and damaged blocks in any order, and what WAL::recover makes of them.
use lsm_tree.Prelude.{
  ℕ, zero, suc, ◌+◌, ◌%◌, ◌≤◌, ◌<◌, ◌≡◌, ◌⊎◌, inl, inr, refl, ap, ◌∙◌, Option, none, some, List, [],
  ◌∷◌, ◌++◌, arith, length, lt→ltb, append_assoc, append-nil, length-append,
}
use lsm_tree.Wal.Record.{
  Entry, entry_size, entry_buffer, length-entry_buffer, align_up-mod, le-align_up,
}
use lsm_tree.Wal.Recover.{Round, recover, recover_loop, parse_round, push}
use lsm_tree.Wal.Recover.RoundTrip.{Fits, parse_round-entry_buffer}
use lsm_tree.Wal.Recover.Damage.{IsDamaged, parse_round-damaged}

-- A stretch of the log: an intact record, or a 512-byte block that is damaged.
pub data Chunk : Type 0 where
  intact : Entry → Chunk
  damaged : List ℕ → Chunk

abbrev pub chunk_bytes : Chunk → List ℕ
chunk_bytes (intact e) = entry_buffer e.type e.key e.value
chunk_bytes (damaged b) = b

pub image : List Chunk → List ℕ
image [] = []
image (c ∷ cs) = chunk_bytes c ++ image cs

-- A record whose strings fit their length fields, or a block that is damaged where it stands, in
-- front of the bytes `rest`.
abbrev pub IsChunk : Chunk → List ℕ → Type 0
IsChunk (intact e) rest = Fits e.key × Fits e.value
IsChunk (damaged b) rest = (length b ≡ 512) × IsDamaged (b ++ rest)

abbrev pub AreChunks : List Chunk → List ℕ → Type 0
AreChunks [] tail = Unit {0}
AreChunks (c ∷ cs) tail = IsChunk c (image cs ++ tail) × AreChunks cs tail

-- What stands behind the last whole block: nothing, or the start of a record that was torn.
abbrev pub IsTorn : List ℕ → Type 0
IsTorn tail = (length tail ≡ 0) ⊎ ((length tail ≤ 512) × IsDamaged tail)

abbrev pub chunk_entry : Chunk → Option Entry
chunk_entry (intact e) = some e
chunk_entry (damaged b) = none

pub survivors : List Chunk → List Entry
survivors [] = []
survivors (intact e ∷ cs) = e ∷ survivors cs
survivors (damaged b ∷ cs) = survivors cs

abbrev step : List ℕ → Chunk → Round
step pre c = record { entry = chunk_entry c; next = length pre + length (chunk_bytes c) }

parse_round-chunk :
    (pre post : List ℕ) (c : Chunk)
    → IsChunk c post
    → length pre % 512 ≡ 0
    → parse_round (pre ++ chunk_bytes c ++ post) (length pre) ≡ step pre c
parse_round-chunk pre post (intact e) h whole =
    rw (length-entry_buffer e.type e.key e.value)
      (parse_round-entry_buffer pre post e.type e.key e.value h.0 h.1)
parse_round-chunk pre post (damaged b) h whole =
    rw (append_assoc pre b post, parse_round-damaged pre (b ++ post) whole h.1, h.0) refl

pub chunk_blocks :
    (c : Chunk) (rest : List ℕ)
    → IsChunk c rest
    → (length (chunk_bytes c) % 512 ≡ 0) × (0 < length (chunk_bytes c))
unfolding entry_size
chunk_blocks (intact e) rest h =
    let n = entry_size (length e.key) (length e.value) in
    rw (length-entry_buffer e.type e.key e.value) (align_up-mod n, omega (arith, le-align_up n))
chunk_blocks (damaged b) rest h = (omega arith, omega arith)

loop_end :
    (fuel : ℕ) (buf : List ℕ) (offset : ℕ) (acc : List Entry)
    → length buf ≤ offset
    → recover_loop (suc fuel) buf offset acc ≡ some acc
unfolding recover_loop
loop_end fuel buf offset acc h = ground arith

loop_round :
    (fuel : ℕ) (buf : List ℕ) (offset : ℕ) (acc : List Entry) (r : Round)
    → offset < length buf
    → parse_round buf offset ≡ r
    → recover_loop (suc fuel) buf offset acc ≡ recover_loop fuel buf r.next (push acc r.entry)
unfolding recover_loop
loop_round fuel buf offset acc r h p = rw (p, lt→ltb offset (length buf) h)

push-survivors :
    (acc : List Entry) (c : Chunk) (cs : List Chunk)
    → push acc (chunk_entry c) ++ survivors cs ≡ acc ++ survivors (c ∷ cs)
unfolding survivors
push-survivors acc (intact e) cs = append_assoc acc (e ∷ []) (survivors cs)
push-survivors acc (damaged b) cs = refl

-- The end of the log.
recover_loop-torn :
    (fuel : ℕ) (pre tail : List ℕ) (acc : List Entry)
    → length pre % 512 ≡ 0
    → IsTorn tail
    → length tail < suc fuel
    → recover_loop (suc fuel) (pre ++ tail) (length pre) acc ≡ some acc
recover_loop-torn fuel pre [] acc whole torn f =
    loop_end fuel (pre ++ []) (length pre) acc (omega (arith, length-append {A = ℕ} pre []))
recover_loop-torn zero pre (x ∷ tail) acc whole torn f = absurd (omega arith)
recover_loop-torn (suc fuel) pre (x ∷ tail) acc whole (inl z) f = absurd (omega arith)
recover_loop-torn (suc fuel) pre (x ∷ tail) acc whole (inr (short, d)) f =
    let total : length (pre ++ x ∷ tail) ≡ length pre + length (x ∷ tail) =
      length-append pre (x ∷ tail) in
    loop_round (suc fuel) (pre ++ x ∷ tail) (length pre) acc
      (record { entry = none; next = length pre + 512 }) (omega arith)
      (parse_round-damaged pre (x ∷ tail) whole d)
    ∙ loop_end fuel (pre ++ x ∷ tail) (length pre + 512) acc (omega arith)

recover_loop-image :
    (cs : List Chunk) (tail : List ℕ) (fuel : ℕ) (pre : List ℕ) (acc : List Entry)
    → AreChunks cs tail
    → IsTorn tail
    → length pre % 512 ≡ 0
    → length cs + length tail < fuel
    → recover_loop fuel (pre ++ (image cs ++ tail)) (length pre) acc ≡ some (acc ++ survivors cs)
recover_loop-image cs tail zero pre acc h torn whole f = absurd (omega arith)
recover_loop-image [] tail (suc fuel) pre acc h torn whole f =
    unfold image survivors in
    rw (append-nil acc) (recover_loop-torn fuel pre tail acc whole torn (omega arith))
recover_loop-image (c ∷ cs) tail (suc fuel) pre acc h torn whole f =
    let rest = image cs ++ tail in
    let blocks = chunk_blocks c rest h.0 in
    let pre' = pre ++ chunk_bytes c in
    let split : pre ++ (image (c ∷ cs) ++ tail) ≡ pre' ++ rest =
      unfold image in simp append_assoc in
    let grown : length pre' ≡ length pre + length (chunk_bytes c) =
      length-append pre (chunk_bytes c) in
    let total : length (pre' ++ rest) ≡ length pre' + length rest = length-append pre' rest in
    rw
      (
        split,
        loop_round fuel (pre' ++ rest) (length pre) acc (step pre c) (omega arith)
            (parse_round-chunk pre rest c h.0 whole),
        ← grown,
      )
      (recover_loop-image cs tail fuel pre' (push acc (chunk_entry c)) h.1 torn (omega arith)
          (omega arith)
        ∙ ap some (push-survivors acc c cs))

length-le-image :
    (cs : List Chunk) (tail : List ℕ) → AreChunks cs tail → length cs ≤ length (image cs)
unfolding image
length-le-image [] tail h = omega arith
length-le-image (c ∷ cs) tail h = omega (
  arith,
  length-append (chunk_bytes c) (image cs),
  (chunk_blocks c (image cs ++ tail) h.0).1,
  length-le-image cs tail h.1,
)

-- A log made of intact records and damaged 512-byte blocks in any order, with what is left of a
-- torn record at its end or nothing. A block is damaged if what parses at its start, in the log
-- from there on, has type byte 0, a length beyond the end of the log, a checksum that does not
-- match, or a type byte of no type. Recovery ends, returns every intact record in log order, and
-- nothing else.
pub recover-image :
    (cs : List Chunk) (tail : List ℕ)
    → AreChunks cs tail
    → IsTorn tail
    → recover (image cs ++ tail) ≡ some (survivors cs)
unfolding recover
recover-image cs tail h torn =
    recover_loop-image cs tail (length (image cs ++ tail) + 1) [] [] h torn (omega arith)
      (omega (arith, length-le-image cs tail h, length-append (image cs) tail))
