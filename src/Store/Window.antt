-- ===== src/Store/Window.antt =====
-- The bytes of the live window of the ring of fsyncd/src/journal/store.rs, while an entry is written
-- behind it.
use native.Mathlib.Nat.{mod-add-mod, mod-eq_of_lt, mod-eq-sub-mod, mod-lt}
use fsyncer.Base.{
  ℕ, ◌+◌, ◌-◌, ◌%◌, ◌≤◌, ◌<◌, ◌≡◌, refl, sym, ap, ◌∙◌, List, [], ◌∷◌, length, ok, true, ltb, leb,
  arith, Bool-cases, inl, inr, ◌⊎◌,
}
use fsyncer.Common.Files.{pwrite, slice, length-pwrite}
use fsyncer.Store.{
  Journal, block_size, align_up_always, file_off, write_at, make_room, append, entry_bytes,
  next_block, mark_end, space_in_block,
}
use fsyncer.Store.Geometry.{IsWellFormed, file_off-fits, make_room-IsWellFormed, length-entry_bytes}
use fsyncer.Store.Appends.{IsRoomier, make_room-IsRoomier}
use fsyncer.Store.Forward.{read_at}
use fsyncer.Store.Reads.{slice-pwrite_before, slice-pwrite_behind, read_at-ok}

-- Two ranges that follow each other within the size of a ring do not meet in it.
apart :
    (size off len at n : ℕ)
    → 0 < size
    → off + len ≤ at
    → at + n ≤ off + size
    → (off % size + len ≤ at % size) ⊎ (at % size + n ≤ off % size)
apart size off len at n pos behind within = elim (lt-cases (off % size + (at - off)) size) [
  | inl inside ↦ inl (omega (arith, moved, mod-eq_of_lt inside, behind))
  | inr wraps ↦ inr (omega (arith, moved, wrapped wraps, behind, within, wraps))
]
  where
    lt-cases : (m n : ℕ) → (m < n) ⊎ (n ≤ m)
    lt-cases m n = ground arith

    moved : at % size ≡ (off % size + (at - off)) % size
    moved = ap (λ a. a % size) (omega (arith, behind)) ∙ sym (mod-add-mod off size (at - off))

    wrapped :
        size ≤ off % size + (at - off)
        → (off % size + (at - off)) % size ≡ off % size + (at - off) - size
    wrapped h = mod-eq-sub-mod h ∙ mod-eq_of_lt (omega (arith, mod-lt off pos, behind, within, h))

-- A reader of the window from `low` to the tail of `j` gets the same bytes in `j'`.
abbrev pub Keeps : Journal → Journal → ℕ → Type 0
Keeps j j' low =
    (off len : ℕ)
    → low ≤ off
    → off + len ≤ j.header.tail
    → off + len ≤ align_up_always off block_size
    → read_at j' off len ≡ read_at j off len

-- A write at the tail that stays in its block and does not come round to `low`.
write_at-Keeps :
    (j : Journal) (low : ℕ) (buf : List ℕ)
    → IsWellFormed j
    → j.header.tail + length buf ≤ align_up_always j.header.tail block_size
    → j.header.tail + length buf ≤ low + j.size
    → Keeps j (write_at j j.header.tail buf) low
unfolding file_off
write_at-Keeps j low buf w fits within off len above below one_block =
    read_at-ok (write_at j at buf) off len (omega (arith, w.size, w.some_blocks))
      (omega (arith, in_ring, filled, w.bytes))
    ∙ ap ok same
    ∙ sym (
        read_at-ok j off len (omega (arith, w.size, w.some_blocks))
          (omega (arith, in_ring, w.bytes)))
  where
    at : ℕ
    at = j.header.tail

    in_ring : off % j.size + len ≤ j.size
    in_ring = file_off-fits j off len w one_block

    buf_in_ring : at % j.size + length buf ≤ j.size
    buf_in_ring = file_off-fits j at (length buf) w fits

    filled : length (pwrite j.ring (at % j.size) buf) ≡ j.size
    filled = omega (arith, length-pwrite j.ring (at % j.size) buf, buf_in_ring, w.bytes)

    same :
        slice (pwrite j.ring (at % j.size) buf) (off % j.size) len ≡ slice j.ring (off % j.size) len
    same =
        elim (apart j.size off len at (length buf) (omega (arith, w.size, w.some_blocks)) below
          (omega (arith, within, above))) [
            | inl before ↦
                slice-pwrite_before j.ring (at % j.size) buf (off % j.size) len before
                  (omega (arith, buf_in_ring, w.bytes))
            | inr behind ↦
                slice-pwrite_behind j.ring (at % j.size) buf (off % j.size) len behind
                  (omega (arith, buf_in_ring, w.bytes))
          ]

mark_end-Keeps :
    (j : Journal) (low : ℕ)
    → IsWellFormed j
    → align_up_always j.header.tail block_size ≤ low + j.size
    → Keeps j (next_block (mark_end j)) low
unfolding mark_end next_block file_off
mark_end-Keeps j low w within off len above below one_block =
    elim (Bool-cases (leb 4 (space_in_block j))) [
      | inl fits ↦ rw fits (
          write_at-Keeps j low (0 ∷ 0 ∷ 0 ∷ 0 ∷ []) w (ground (arith, fits))
            (ground (arith, fits, within)) off len above below one_block)
      | inr short ↦ rw short refl
    ]

pub make_room-tail :
    (j : Journal) (esize : ℕ)
    → ltb (space_in_block j) esize ≡ true
    → (make_room j esize).header.tail ≡ align_up_always j.header.tail block_size
unfolding make_room next_block mark_end
make_room-tail j esize full = rw full (elim (Bool-cases (leb 4 (space_in_block j))) [
  | inl fits ↦ rw fits refl
  | inr short ↦ rw short refl
])

make_room-Keeps :
    (j : Journal) (esize low : ℕ)
    → IsWellFormed j
    → (make_room j esize).header.tail ≤ low + j.size
    → Keeps j (make_room j esize) low
make_room-Keeps j esize low w within off len above below one_block =
    elim (Bool-cases (ltb (space_in_block j) esize)) [
      | inl full ↦
          unfold make_room in
          rw full (
            mark_end-Keeps j low w (omega (arith, make_room-tail j esize full, within)) off len
              above below one_block)
      | inr enough ↦ unfold make_room in rw enough refl
    ]

-- Writing an entry keeps the window behind its head.
pub append-Keeps :
    (crc32 : List ℕ → ℕ) (content : List ℕ) (j : Journal) (low : ℕ)
    → IsWellFormed j
    → length content + 12 < block_size
    → (make_room j (length content + 12)).header.tail + (length content + 12) ≤ low + j.size
    → Keeps j (append crc32 (make_room j (length content + 12)) (length content + 12) content) low
unfolding file_off
append-Keeps crc32 content j low w short within off len above below one_block =
    write_at-Keeps r low (entry_bytes crc32 r.header.trans_ctr content) room.0
      (omega (arith, room.1, bytes)) (omega (arith, within, bytes, roomier.size)) off len above
      (omega (arith, below, roomier.after)) one_block
    ∙ make_room-Keeps j (length content + 12) low w (omega (arith, within)) off len above below
        one_block
  where
    r : Journal
    r = make_room j (length content + 12)

    room :
        IsWellFormed r
        × (r.header.tail + (length content + 12) ≤ align_up_always r.header.tail block_size)
    room = make_room-IsWellFormed j (length content + 12) w short

    roomier : IsRoomier j r
    roomier = make_room-IsRoomier j (length content + 12)

    bytes : length (entry_bytes crc32 r.header.trans_ctr content) ≡ length content + 12
    bytes = length-entry_bytes crc32 r.header.trans_ctr content
