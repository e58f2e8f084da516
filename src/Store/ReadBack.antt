-- ===== src/Store/ReadBack.antt =====
-- What `write_inner` of fsyncd/src/journal/store.rs wrote is what the forward iterator reads there.
use native.Mathlib.Nat.{mod-add-mod, mod-eq_of_lt, mod_self}
use fsyncer.Base.{
  ℕ, ◌+◌, ◌%◌, ◌≤◌, ◌<◌, ◌≡◌, refl, sym, ap, ◌∙◌, false, List, [], ◌∷◌, length, take, drop, Option,
  some, ok, leb, lt→ltb, ltb_past, le→leb, arith, inl, inr, ◌⊎◌,
}
use fsyncer.Common.Words.{le_bytes}
use fsyncer.Common.Files.{pwrite, slice, slice-pwrite, length-pwrite}
use fsyncer.Store.{
  Journal, block_size, align_up_always, file_off, write_at, make_room, append, entry_bytes,
  next_block, mark_end, space_in_block,
}
use fsyncer.Store.Geometry.{
  IsWellFormed, align_up-bounds, file_off-fits, write-bytes, make_room-IsWellFormed,
  length-entry_bytes,
}
use fsyncer.Store.Appends.{IsPlaced, append-IsPlaced, make_room-IsRoomier}
use fsyncer.Store.Forward.{read_at, is_zero, skip_end}
use fsyncer.Store.Reads.{
  take-take, slice-pwrite_before, slice-pwrite_behind, read_at-ok, is_zero-size, entry_bytes-size,
}

module _ {Entry : Type 0} (deserialize : List ℕ → Option Entry) (crc32 : List ℕ → ℕ)
    (content : List ℕ) (short : length content + 12 < block_size) where
  pub read_at-size :
      (j j' : Journal) (start : ℕ) (p : IsPlaced crc32 content j j' start)
      → read_at j' start 4 ≡ ok (le_bytes 4 (length content + 12))
  read_at-size j j' start p =
      let off = file_off j' start in
      read_at-ok j' start 4 (omega (arith, p.contiguous)) (omega (arith, p.contiguous, p.filled))
      ∙ ap ok (
          sym (take-take 4 (length content + 12) (drop off j'.ring) (omega arith))
          ∙ ap (λ l. take 4 l) p.bytes
          ∙ entry_bytes-size crc32 j.header.trans_ctr content)

  pub read_at-entry :
      (j j' : Journal) (start : ℕ) (p : IsPlaced crc32 content j j' start)
      → read_at j' start (length content + 12) ≡ ok (entry_bytes crc32 j.header.trans_ctr content)
  read_at-entry j j' start p =
      read_at-ok j' start (length content + 12) (omega (arith, p.contiguous))
        (omega (arith, p.contiguous, p.filled))
      ∙ ap ok p.bytes

-- The start of the next block in the file: behind the block of the tail, or the file's start.
next_off :
    (j : Journal)
    → IsWellFormed j
    → (file_off j (align_up_always j.header.tail block_size)
        ≡ file_off j j.header.tail + space_in_block j)
      ⊎ ((file_off j (align_up_always j.header.tail block_size) ≡ 0)
          × (file_off j j.header.tail + space_in_block j ≡ j.size))
next_off j w = elim (le-cases (file_off j j.header.tail + space_in_block j) j.size in_ring) [
  | inl inside ↦ inl (unfold file_off in (moved ∙ mod-eq_of_lt inside))
  | inr at_end ↦
      inr (unfold file_off in (moved ∙ ap (λ n. n % j.size) at_end ∙ mod_self j.size), at_end)
]
  where
    space-eq : j.header.tail + space_in_block j ≡ align_up_always j.header.tail block_size
    space-eq = omega (arith, (align_up-bounds j.header.tail).0)

    in_ring : file_off j j.header.tail + space_in_block j ≤ j.size
    in_ring = file_off-fits j j.header.tail (space_in_block j) w (omega (arith, space-eq))

    moved :
        align_up_always j.header.tail block_size % j.size
        ≡ (j.header.tail % j.size + space_in_block j) % j.size
    moved =
        ap (λ n. n % j.size) (sym space-eq)
        ∙ sym (mod-add-mod j.header.tail j.size (space_in_block j))

    le-cases : (m n : ℕ) → m ≤ n → (m < n) ⊎ (m ≡ n)
    le-cases m n h = ground (arith, h)

-- In a ring of two blocks or more the end mark survives the entry in the next block.
mark-survives :
    (j : Journal) (entry : List ℕ)
    → (w : IsWellFormed j) → 2 ≤ w.blocks
    → 4 ≤ space_in_block j
    → length entry < block_size
    → slice
        (pwrite
          (pwrite j.ring (file_off j j.header.tail) (0 ∷ 0 ∷ 0 ∷ 0 ∷ []))
          (file_off j (align_up_always j.header.tail block_size))
          entry)
        (file_off j j.header.tail)
        4
      ≡ 0 ∷ 0 ∷ 0 ∷ 0 ∷ []
mark-survives j entry w two mark_fits short =
    elim (next_off j w) [
      | inl behind ↦
          slice-pwrite_before marked _ entry at 4 (omega (arith, behind, mark_fits))
            (omega (arith, length_marked, behind, in_ring))
      | inr (start, at_end) ↦
          slice-pwrite_behind marked _ entry at 4
            (omega (arith, start, at_end, short, two, w.size, block_or_less))
            (omega (arith, start, short, two, w.size, length_marked))
    ]
    ∙ slice-pwrite j.ring at (0 ∷ 0 ∷ 0 ∷ 0 ∷ [])
  where
    at : ℕ
    at = file_off j j.header.tail

    marked : List ℕ
    marked = pwrite j.ring at (0 ∷ 0 ∷ 0 ∷ 0 ∷ [])

    bounds :
        (j.header.tail < align_up_always j.header.tail block_size)
        × (align_up_always j.header.tail block_size ≤ j.header.tail + block_size)
    bounds = ((align_up-bounds j.header.tail).0, (align_up-bounds j.header.tail).1)

    block_or_less : space_in_block j ≤ block_size
    block_or_less = omega (arith, bounds.1)

    in_ring : file_off j j.header.tail + space_in_block j ≤ j.size
    in_ring = file_off-fits j j.header.tail (space_in_block j) w (omega (arith, bounds.0))

    length_marked : length marked ≡ j.size
    length_marked =
        write-bytes j j.header.tail (0 ∷ 0 ∷ 0 ∷ 0 ∷ []) w (omega (arith, mark_fits, bounds.0))

module _ (crc32 : List ℕ → ℕ) (content : List ℕ) (short : length content + 12 < block_size)
    (j : Journal) (w : IsWellFormed j) (two : 2 ≤ w.blocks) where
  abbrev pub roomy : Journal
  roomy = make_room j (length content + 12)

  abbrev pub after : Journal
  after = append crc32 roomy (length content + 12) content

  pub placed : IsPlaced crc32 content j after roomy.header.tail
  placed =
      let (w', space) = make_room-IsWellFormed j (length content + 12) w short in
      append-IsPlaced crc32 j roomy content (make_room-IsRoomier j (length content + 12)) w' space

  -- The journal after the end mark and the step to the next block.
  abbrev marked : Journal
  marked = next_block (write_at j j.header.tail (0 ∷ 0 ∷ 0 ∷ 0 ∷ []))

  read_at-mark :
      4 ≤ space_in_block j
      → read_at (append crc32 marked (length content + 12) content) j.header.tail 4
        ≡ ok (0 ∷ 0 ∷ 0 ∷ 0 ∷ [])
  unfolding next_block file_off
  read_at-mark fits =
      read_at-ok (append crc32 marked (length content + 12) content) j.header.tail 4
        (omega (arith, w.size, w.some_blocks)) in_file
      ∙ ap ok (
          mark-survives j entry w two fits
            (omega (arith, short, length-entry_bytes crc32 j.header.trans_ctr content)))
    where
      entry : List ℕ
      entry = entry_bytes crc32 j.header.trans_ctr content

      ring : List ℕ
      ring = pwrite j.ring (file_off j j.header.tail) (0 ∷ 0 ∷ 0 ∷ 0 ∷ [])

      mark_fits : j.header.tail + 4 ≤ align_up_always j.header.tail block_size
      mark_fits = omega (arith, fits, (align_up-bounds j.header.tail).0)

      in_file :
          file_off (append crc32 marked (length content + 12) content) j.header.tail + 4
          ≤ length (append crc32 marked (length content + 12) content).ring
      in_file = omega (
        arith,
        file_off-fits j j.header.tail 4 w mark_fits,
        write-bytes j j.header.tail (0 ∷ 0 ∷ 0 ∷ 0 ∷ []) w mark_fits,
        length-pwrite ring (file_off j (align_up_always j.header.tail block_size)) entry,
      )

  skip_end-marked :
      4 ≤ space_in_block j
      → skip_end (append crc32 marked (length content + 12) content) j.header.tail
        ≡ ok marked.header.tail
  unfolding skip_end is_zero
  skip_end-marked fits =
      rw (ltb_past (space_in_block j) 4 fits) (rw (read_at-mark fits) (unfold next_block in refl))

  skip_end-short :
      (j' : Journal)
      → space_in_block j < 4
      → skip_end j' j.header.tail ≡ ok (align_up_always j.header.tail block_size)
  unfolding skip_end
  skip_end-short j' no_mark = rw (lt→ltb (space_in_block j) 4 no_mark) refl

  skip_end-here :
      (j' : Journal) (start : ℕ) (p : IsPlaced crc32 content j j' start)
      → start ≡ j.header.tail
      → length content + 12 ≤ space_in_block j
      → skip_end j' j.header.tail ≡ ok j.header.tail
  unfolding skip_end
  skip_end-here j' start p here enough =
      rw (ltb_past (space_in_block j) 4 (omega (arith, enough))) (
        rw
          (ap (λ off. read_at j' off 4) (sym here)
            ∙ read_at-size (λ bytes. some bytes) crc32 content short j j' start p)
          (rw (is_zero-size (length content + 12) (omega arith) short) refl))

  make_room-marked : space_in_block j < length content + 12 → 4 ≤ space_in_block j → roomy ≡ marked
  unfolding make_room mark_end
  make_room-marked full fits =
      rw (lt→ltb (space_in_block j) (length content + 12) full)
        (rw (le→leb 4 (space_in_block j) fits) refl)

  make_room-short :
      space_in_block j < length content + 12
      → space_in_block j < 4
      → roomy.header.tail ≡ align_up_always j.header.tail block_size
  unfolding make_room mark_end next_block
  make_room-short full no_mark =
      rw (lt→ltb (space_in_block j) (length content + 12) full)
        (rw (leb_short (space_in_block j) no_mark) refl)
    where
      leb_short : (n : ℕ) → n < 4 → leb 4 n ≡ false
      leb_short n h = ground (arith, h)

  make_room-here : length content + 12 ≤ space_in_block j → roomy ≡ j
  unfolding make_room
  make_room-here enough = rw (ltb_past (space_in_block j) (length content + 12) enough) refl

  -- The reader at the old tail skips to where the entry is.
  pub skip_end-after : skip_end after j.header.tail ≡ ok roomy.header.tail
  skip_end-after = elim (lt-cases (space_in_block j) (length content + 12)) [
    | inl full ↦ elim (lt-cases (space_in_block j) 4) [
      | inl no_mark ↦ skip_end-short after no_mark ∙ sym (ap ok (make_room-short full no_mark))
      | inr fits ↦ rw (make_room-marked full fits) (skip_end-marked fits)
    ]
    | inr enough ↦
        skip_end-here after roomy.header.tail placed
          (ap (λ r. r.header.tail) (make_room-here enough)) enough
        ∙ sym (ap (λ r. ok r.header.tail) (make_room-here enough))
  ]
    where
      lt-cases : (m n : ℕ) → (m < n) ⊎ (n ≤ m)
      lt-cases m n = ground arith
