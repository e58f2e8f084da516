-- ===== src/Snapshot/Encode/Defragments.antt =====
-- A write of fsyncd/src/snapshot/forward.rs with the blocks that it overlaps, moved to a new block.
use fsyncer.Base.{
  ℕ, zero, suc, ◌+◌, ◌-◌, min, ◌&&◌, ◌<◌, ◌≡◌, refl, subst, ◌∙◌, List, [], ◌∷◌, length, get_or,
  Option, none, some, Outcome, ok, err, panic, ◌>>=◌, ltb, leb, ◌==◌, if-cases, arith,
}
use fsyncer.Snapshot.{Block, DataList, FreeList}
use fsyncer.Snapshot.Ordered.{last_entry}
use fsyncer.Snapshot.Encode.{
  Encoded, copy, move_from, move_file_range, move_part, buf_size, encode_overlaps, assembled,
  moved_parts, defragment_into, release, defragment,
}
use fsyncer.Snapshot.Encode.Written.{
  IsWritten, written-at, get-insert, IfOk, allocate-size, encode_fresh-IsWritten,
}

move_from-outside :
    (fuel : ℕ) (bytes : ℕ → ℕ) (from to size offset a : ℕ)
    → a < to
    → move_from fuel bytes from to size offset a ≡ bytes a
move_from-outside zero bytes from to size offset a h = refl
move_from-outside (suc fuel) bytes from to size offset a h =
    let len = min (size - offset) buf_size in
    let copied = copy bytes (from + offset) (to + offset) len in
    if-cases {A = ℕ → ℕ} (λ f. f a ≡ bytes a) (ltb offset size)
      (λ e.
        move_from-outside fuel copied from to size (offset + buf_size) a h
        ∙ if-cases (λ v. v ≡ bytes a) (leb (to + offset) a && ltb a (to + offset + len))
            (λ e. ground arith) (λ e. refl))
      (λ e. refl)

move_part-outside :
    (bytes : ℕ → ℕ) (from to size a : ℕ) → a < to → move_part bytes from to size a ≡ bytes a
unfolding move_file_range
move_part-outside bytes from to size a h =
    if-cases {A = ℕ → ℕ} (λ f. f a ≡ bytes a) (size == 0) (λ e. refl)
      (λ e. move_from-outside size bytes from to size 0 a h)

pub IfOk-then :
    {A B : Type 0} (Q : A → Type 0) (P : B → Type 0) (m : Outcome A) (f : A → Outcome B)
    → IfOk Q m
    → ((a : A) → Q a → IfOk P (f a))
    → IfOk P (m >>= f)
IfOk-then Q P (ok a) f h g = g a h
IfOk-then Q P (err kind) f h g = tt
IfOk-then Q P panic f h g = tt

-- The two copies leave the buffer between them.
moved_parts-written :
    (bytes : ℕ → ℕ) (first last : Block) (location : ℕ) (buf : List ℕ) (front back i : ℕ)
    → i < length buf
    → moved_parts bytes first last location buf front back (location + front + i) ≡ get_or buf i 0
moved_parts-written bytes first last location buf front back i h =
    move_part-outside _ (last.location + (last.size - back)) (location + (front + length buf)) back
      (location + front + i) (omega arith)
    ∙ written-at (move_part bytes first.location location front) buf (location + front) i h

defragment_into-IsWritten :
    (e : Encoded) (overlaps : List (ℕ × Block)) (o : ℕ) (first : Block) (o' : ℕ) (last : Block)
    (offset : ℕ) (buf : List ℕ) (found : Block × FreeList)
    → found.0.size ≡ offset - o + length buf + (o' + last.size - (offset + length buf))
    → IfOk
        (IsWritten offset buf)
        (defragment_into e overlaps (o, first) (o', last) offset buf found)
defragment_into-IsWritten e overlaps o first o' last offset buf (block, free) size =
    by_released (release overlaps e.blocks free)
  where
    by_released :
        (m : Outcome (DataList × FreeList))
        → IfOk (IsWritten offset buf) (
            m
            >>= assembled
                (moved_parts e.bytes first last block.location buf
                  (offset - o)
                  (o' + last.size - (offset + length buf)))
                (min o offset)
                block)
    by_released (ok released) = record {
      start = min o offset;
      block = block;
      there = get-insert (min o offset) block released.0;
      before = omega arith;
      behind = omega (arith, size);
      bytes = λ i h.
          subst
            (λ n.
              moved_parts e.bytes first last block.location buf (offset - o)
                (o' + last.size - (offset + length buf)) (block.location + n + i)
              ≡ get_or buf i 0)
            (omega arith)
            (moved_parts-written e.bytes first last block.location buf (offset - o) _ i h);
    }
    by_released (err kind) = tt
    by_released panic = tt

defragment-IsWritten :
    (e : Encoded) (overlaps : List (ℕ × Block)) (first last : ℕ × Block) (offset : ℕ) (buf : List ℕ)
    → IfOk (IsWritten offset buf) (defragment e overlaps first last offset buf)
unfolding defragment
defragment-IsWritten e overlaps (o, first) (o', last) offset buf =
    IfOk-then _ (IsWritten offset buf) _
      (defragment_into e overlaps (o, first) (o', last) offset buf)
      (allocate-size e.free (offset - o + length buf + (o' + last.size - (offset + length buf)))
        none)
      (defragment_into-IsWritten e overlaps o first o' last offset buf)

pub encode_overlaps-IsWritten :
    (e : Encoded) (overlaps : List (ℕ × Block)) (offset : ℕ) (buf : List ℕ)
    → IfOk (IsWritten offset buf) (encode_overlaps e overlaps offset buf)
encode_overlaps-IsWritten e [] offset buf = encode_fresh-IsWritten e offset buf
encode_overlaps-IsWritten e (first ∷ overlaps) offset buf = by_last (last_entry overlaps)
  where
    by_last :
        (r : Option (ℕ × Block))
        → IfOk (IsWritten offset buf) (elim r [
          | none ↦ defragment e (first ∷ overlaps) first first offset buf
          | some last ↦ defragment e (first ∷ overlaps) first last offset buf
        ])
    by_last none = defragment-IsWritten e (first ∷ overlaps) first first offset buf
    by_last (some last) = defragment-IsWritten e (first ∷ overlaps) first last offset buf
