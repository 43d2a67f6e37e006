-- ===== src/Sstable/File/Last.antt =====
-- The end of the constructor of SSTable: the last block is read through to the largest key.
use lsm_tree.Prelude.{
  ℕ, zero, suc, ◌+◌, ◌-◌, ◌≤◌, ◌<◌, ◌≡◌, refl, sym, ap, ◌∙◌, true, false, some, List, [], ◌∷◌, ◌++◌,
  arith, ltb, length, append_assoc, length-append, concat, lt→ltb, ◌==◌, Bool-cases, inl, inr,
  subst, concat-append,
}
use lsm_tree.Keys.{Key}
use lsm_tree.Sstable.Entries.{Entry}
use lsm_tree.Sstable.Format.{
  write_string, write_entry, write_entries, value_or_empty, tombstone_byte,
}
use lsm_tree.Sstable.Format.RoundTrip.{AllFit, Fits, length-write_entry, entry_bytes}
use lsm_tree.Sstable.Build.{Table}
use lsm_tree.Sstable.Build.Blocks.{first_key, index_from, NoneEmpty, write_entries-append}
use lsm_tree.Sstable.Read.{offset_at}
use lsm_tree.Sstable.Read.Slots.{split, length-index_from, offset_at-block}
use lsm_tree.Sstable.Read.Get.{IsWritten}
use lsm_tree.Sstable.Read.Within.{AllFit-right, NoneEmpty-right}
use lsm_tree.Sstable.Iterate.{last_key, smallest_key}
use lsm_tree.Sstable.Iterate.KeyRange.{last_key-append, head_pos, smallest_key-IsWritten}
use lsm_tree.Sstable.File.{tell, read_entry_key, read_last, seek_to, open_keys}
use lsm_tree.Sstable.File.Parts.{
  at, read_bytes-part, read_string-part, length-write_string, length-parts,
}

-- An entry in the file, behind `a` and in front of `c`.
read_entry_key-part :
    (buf a c : List ℕ) (n : ℕ) (e : Entry)
    → buf ≡ a ++ write_entry e ++ c
    → n ≡ length a
    → Fits e
    → read_entry_key buf (at n) ≡ some (e.key, at (n + length (write_entry e)))
unfolding read_entry_key write_entry
read_entry_key-part buf a c n e p q f =
    let flag = tombstone_byte e.value ∷ [] in
    let key = write_string e.key in
    let value = write_string (value_or_empty e.value) in
    let parts : buf ≡ a ++ flag ++ (key ++ value ++ c) = p ∙ simp append_assoc in
    let parts_key : buf ≡ a ++ flag ++ key ++ (value ++ c) = p ∙ simp append_assoc in
    let parts_value : buf ≡ a ++ flag ++ key ++ value ++ c = p ∙ simp append_assoc in
    let size_key = length-write_string e.key in
    let size_value = length-write_string (value_or_empty e.value) in
    let at_key : n + 1 ≡ length (a ++ flag) = omega (arith, length-append a flag) in
    let at_value : n + 1 + 4 + length e.key ≡ length (a ++ flag ++ key) =
      omega (arith, at_key, length-append (a ++ flag) key, size_key) in
    let size : length (flag ++ key ++ value)
        ≡ 1 + (4 + length e.key) + (4 + length (value_or_empty e.value)) =
      omega
        (arith, length-append (flag ++ key) value, length-append flag key, size_key, size_value) in
    rw
      (
        read_entry_key,
        read_bytes-part buf a flag (key ++ value ++ c) n 1 parts q refl,
        read_string-part buf (a ++ flag) (value ++ c) (n + 1) e.key parts_key at_key f.0,
        read_string-part buf (a ++ flag ++ key) c (n + 1 + 4 + length e.key)
            (value_or_empty e.value) parts_value at_value f.1,
      )
      (ap (λ m. some (e.key, at m)) (omega (arith, size)))

-- Entries up to the index.
pub read_last-entries :
    (es : List Entry) (fuel : ℕ) (buf a c : List ℕ) (n index_at : ℕ) (key : Key)
    → buf ≡ a ++ write_entries es ++ c
    → n ≡ length a
    → index_at ≡ n + length (write_entries es)
    → AllFit es
    → length es < fuel
    → read_last fuel buf (at n) index_at key ≡ some (last_key key es)
unfolding read_last tell write_entries
read_last-entries es zero buf a c n index_at key p q i f l = absurd (omega arith)
read_last-entries [] (suc fuel) buf a c n index_at key p q i f l =
    let over : ltb n index_at ≡ false = ground arith in rw (read_last, over) refl
read_last-entries (e ∷ es) (suc fuel) buf a c n index_at key p q i f l =
    let first = write_entry e in
    let rest = write_entries es in
    let parts : buf ≡ a ++ first ++ (rest ++ c) = p ∙ simp append_assoc in
    let parts_rest : buf ≡ (a ++ first) ++ rest ++ c = p ∙ simp append_assoc in
    let both = length-append first rest in
    let size = length-write_entry e in
    let some_bytes : 0 < length first = unfold entry_bytes in omega (arith, size) in
    let under : ltb n index_at ≡ true = lt→ltb n index_at (omega (arith, both)) in
    let here : n + length first ≡ length (a ++ first) = omega (arith, length-append a first) in
    rw (read_last, under, read_entry_key-part buf a (rest ++ c) n e parts q f.0)
      (read_last-entries es fuel buf (a ++ first) c (n + length first) index_at e.key parts_rest
        here (omega (arith, both)) f.1 (omega arith))

count-le : (es : List Entry) → length es ≤ length (write_entries es)
unfolding write_entries
count-le [] = omega arith
count-le (e ∷ es) =
    let size : 0 < length (write_entry e) =
      unfold entry_bytes in omega (arith, length-write_entry e) in
    omega (arith, count-le es, length-append (write_entry e) (write_entries es))

no_blocks : (bs : List (List Entry)) (es : List Entry) → length bs ≡ 0 → concat bs ≡ es → es ≡ []
no_blocks [] es z whole = sym whole
no_blocks (b ∷ bs) es z whole = absurd (omega arith)

-- The keys that the constructor of a written table sets, in a file that begins with its data
-- section.
pub open_keys-IsWritten :
    (es : List Entry) (t : Table) (buf c : List ℕ) (m : ℕ)
    → IsWritten es t
    → buf ≡ t.content ++ c
    → open_keys buf (at m) (length t.content) t
      ≡ some (record { table = t; smallest = first_key es; largest = last_key [] es })
unfolding open_keys seek_to smallest_key
open_keys-IsWritten es t buf c m w p =
    let lines : length t.index ≡ length w.blocks =
      ap length w.index ∙ length-index_from 0 w.blocks in
    elim (Bool-cases (length t.index == 0)) [
      | inl z ↦
          let nothing = no_blocks w.blocks es (ground arith) w.whole in
          rw (open_keys, z, nothing) refl
      | inr n ↦
          let s = split w.blocks (length t.index - 1) (ground arith) in
          let content = w.content ∙ ap (λ bs. write_entries (concat bs)) s.whole in
          let index = w.index ∙ ap (index_from 0) s.whole in
          let at_end : concat (s.before ++ s.at ∷ s.behind) ≡ es =
            ap concat (sym s.whole) ∙ w.whole in
          let two : concat (s.before ++ s.at ∷ s.behind)
              ≡ concat s.before ++ concat (s.at ∷ s.behind) =
            concat-append s.before (s.at ∷ s.behind) in
          let fits = subst AllFit two (subst AllFit (sym at_end) w.fits) in
          let filled =
            NoneEmpty-right s.before (s.at ∷ s.behind) (subst NoneEmpty s.whole w.filled) in
          let first = write_entries (concat s.before) in
          let last = concat (s.at ∷ s.behind) in
          let laid : t.content ≡ first ++ write_entries last =
            content ∙ ap write_entries two ∙ write_entries-append (concat s.before) last in
          let parts : buf ≡ first ++ write_entries last ++ c = p ∙ ap (λ x. x ++ c) laid in
          let offset : offset_at t.index (length t.index - 1) ≡ length first =
            ap (offset_at t.index) (sym s.place)
            ∙ offset_at-block t s.before s.at s.behind content index in
          let size : length t.content ≡ length first + length (write_entries last) =
            ap length laid ∙ length-append first (write_entries last) in
          let whole = length-parts buf first (write_entries last) c parts in
          let largest : last_key [] last ≡ last_key [] es =
            sym (last_key-append [] [] (concat s.before) last (head_pos s.at s.behind filled))
            ∙ ap (last_key []) (sym two ∙ at_end) in
          rw
            (
              open_keys,
              n,
              offset,
              read_last-entries last (length buf + 1) buf first c (length first) (length t.content)
                  [] parts refl size (AllFit-right (concat s.before) last fits)
                  (omega (arith, count-le last, whole)),
              largest,
            )
            (ap (λ k. some (record { table = t; smallest = k; largest = last_key [] es }))
              (smallest_key-IsWritten es t w))
    ]
