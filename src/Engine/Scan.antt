-- ===== src/Engine/Scan.antt =====
-- A scan is the range of the keys that a point read finds, in order, up to the limit.
use lsm_tree.Prelude.{
  ℕ, zero, suc, ◌+◌, ◌≤◌, ◌≡◌, refl, sym, ap, ◌∙◌, true, false, Option, none, some, List, [], ◌∷◌,
  ◌++◌, arith, Bool-cases, inl, inr, ltb, if◌then◌else◌, length, take, append_assoc, append-nil,
  length-append,
}
use lsm_tree.Keys.{Key}
use lsm_tree.Sstable.Entries.{Entry, AllAbove}
use lsm_tree.Merge.{Cursor, Heap}
use lsm_tree.Merge.Order.{ltb-IsPrecedence}
use lsm_tree.Merge.Heap.{IsHeap}
use lsm_tree.Merge.Rounds.{NextHeap, drop_advance-NextHeap}
use lsm_tree.Merge.Winners.{keep, winners, winners-AllAbove}
use lsm_tree.Engine.{past_end, scan_next, give, scan_loop}
use lsm_tree.Engine.Skipped.{past_end_trans}

-- The pairs of a list of live entries, up to the end of the range.
unfoldable pub until : Option Key → List Entry → List (Key × Key)
until end [] = []
until end (e ∷ es) = if past_end end e.key then [] else give e [] ++ until end es

until-above :
    (end : Option Key) (k : Key) (es : List Entry)
    → past_end end k ≡ true
    → AllAbove k es
    → until end es ≡ []
unfolding until
until-above end k [] p a = refl
until-above end k (e ∷ es) p a = rw (past_end_trans end k e.key p a.0)

until-keep_past :
    (end : Option Key) (e : Entry) (es : List Entry)
    → past_end end e.key ≡ true
    → AllAbove e.key es
    → until end (keep e es) ≡ []
unfolding until
until-keep_past end e es p a = ground (arith, until-above end e.key es p a)

until-keep_value :
    (end : Option Key) (k : Key) (v : Option Key) (es : List Entry)
    → past_end end k ≡ false
    → until end (keep (record { key = k; value = v }) es)
      ≡ give (record { key = k; value = v }) [] ++ until end es
unfolding until give
until-keep_value end k none es p = refl
until-keep_value end k (some w) es p = rw p

until-keep :
    (end : Option Key) (e : Entry) (es : List Entry)
    → past_end end e.key ≡ false
    → until end (keep e es) ≡ give e [] ++ until end es
until-keep end e es p = until-keep_value end e.key e.value es p

give-append : (e : Entry) (out : List (Key × Key)) → give e out ≡ out ++ give e []
unfolding give
give-append e out =
    elim e.value
      as (λ v.
        elim v [ none ↦ out | some w ↦ out ++ (e.key, w) ∷ [] ]
        ≡ out ++ elim v [ none ↦ [] | some w ↦ (e.key, w) ∷ [] ]) [
          | none ↦ sym (append-nil out)
          | some w ↦ refl
        ]

length-give_value :
    (k : Key) (v : Option Key) (out : List (Key × Key))
    → length (give (record { key = k; value = v }) out) ≤ length out + 1
unfolding give
length-give_value k none out = omega arith
length-give_value k (some w) out = omega (arith, length-append out ((k, w) ∷ []))

length-give : (e : Entry) (out : List (Key × Key)) → length (give e out) ≤ length out + 1
length-give e out = length-give_value e.key e.value out

take_full : (out more : List (Key × Key)) → take (length out) (out ++ more) ≡ out
take_full [] more = refl
take_full (x ∷ out) more = ap (◌∷◌ x) (take_full out more)

pub take_all : (n : ℕ) (out : List (Key × Key)) → length out ≤ n → take n out ≡ out
take_all zero [] l = refl
take_all zero (x ∷ out) l = absurd (omega arith)
take_all (suc n) [] l = refl
take_all (suc n) (x ∷ out) l = ap (◌∷◌ x) (take_all n out (omega arith))

pub scan_next-NextHeap :
    (c : Cursor) (h : Heap) → IsHeap ltb (c ∷ h) → NextHeap ltb c h (scan_next c h)
unfolding scan_next
scan_next-NextHeap c h i = drop_advance-NextHeap ltb-IsPrecedence c h i

-- The loop hands out the live winners up to the end of the range and to the limit.
pub scan_loop-until :
    (fuel : ℕ) (end : Option Key) (limit : ℕ) (h : Heap) (out : List (Key × Key))
    → IsHeap ltb h
    → length out ≤ limit
    → scan_loop fuel end limit h out ≡ take limit (out ++ until end (winners scan_next fuel h))
unfolding scan_loop winners
scan_loop-until zero end limit h out i l =
    unfold until in rw (append-nil out) (sym (take_all limit out l))
scan_loop-until (suc fuel) end limit [] out i l =
    unfold until in rw (append-nil out) (sym (take_all limit out l))
scan_loop-until (suc fuel) end limit (c ∷ h) out i l = elim (Bool-cases (ltb (length out) limit)) [
  | inr full ↦ let n : limit ≡ length out = ground arith in rw (full, n) (sym (take_full out _))
  | inl room ↦
      let d = scan_next-NextHeap c h i in
      let ws = winners scan_next fuel (scan_next c h) in
      let up : AllAbove c.entry.key ws =
        winners-AllAbove ltb-IsPrecedence scan_next scan_next-NextHeap fuel (scan_next c h)
          c.entry.key d.heap d.above in
      elim (Bool-cases (past_end end c.entry.key)) [
        | inl p ↦
            rw (room, p, until-keep_past end c.entry ws p up, append-nil out)
              (sym (take_all limit out l))
        | inr q ↦
            rw (room, q, until-keep end c.entry ws q)
              (scan_loop-until fuel end limit (scan_next c h) (give c.entry out) d.heap
                  (let g = length-give c.entry out in ground arith)
                ∙ ap (take limit) (
                    ap (λ o. o ++ until end ws) (give-append c.entry out)
                    ∙ append_assoc out (give c.entry []) (until end ws)))
      ]
]
