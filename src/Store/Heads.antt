-- ===== src/Store/Heads.antt =====
-- Where the head of the ring of fsyncd/src/journal/store.rs is after making room, and the checksum of
-- an entry.
use fsyncer.Base.{
  ℕ, ◌+◌, ◌%◌, ◌^◌, ◌<◌, ◌≡◌, ◌≢◌, refl, ap, ◌∙◌, List, ◌++◌, length, ok, ltb, arith, Bool-cases,
  inl, inr, ◌⊎◌, ==_refl, ltb_past, take-append, drop-append, length-append, true, ◌-◌, leb, ◌==◌,
}
use fsyncer.Common.Words.{le_bytes, length-le_bytes, le_value-le_bytes_4}
use fsyncer.Store.{
  Journal, block_size, align_up_always, make_room, entry_bytes, next_block, mark_end,
  space_in_block,
}
use fsyncer.Store.Window.{make_room-tail}
use fsyncer.Store.Backward.{checked}

mark_end-header : (j : Journal) → (mark_end j).header ≡ j.header
unfolding mark_end
mark_end-header j = elim (Bool-cases (leb 4 (space_in_block j))) [
  | inl fits ↦ rw fits refl
  | inr short ↦ rw short refl
]

mark_end-size : (j : Journal) → (mark_end j).size ≡ j.size
unfolding mark_end
mark_end-size j = elim (Bool-cases (leb 4 (space_in_block j))) [
  | inl fits ↦ rw fits refl
  | inr short ↦ rw short refl
]

next_block-head :
    (j : Journal)
    → ((next_block j).header.head ≡ j.header.head)
      ⊎ (((next_block j).header.head ≡ j.header.head + block_size)
          × (j.header.head + j.size ≡ align_up_always j.header.tail block_size))
unfolding next_block
next_block-head j =
    elim (Bool-cases (j.header.head + j.size == align_up_always j.header.tail block_size)) [
      | inl full ↦ rw full (inr (refl, ground (arith, full)))
      | inr free ↦ rw free (inl refl)
    ]

-- Where the head is after making room: where it was, or a block further if the ring was full.
pub make_room-head :
    (j : Journal) (esize : ℕ)
    → ((make_room j esize).header.head ≡ j.header.head)
      ⊎ (((make_room j esize).header.head ≡ j.header.head + block_size)
          × (j.header.head + j.size ≡ align_up_always j.header.tail block_size)
          × ((make_room j esize).header.tail ≡ align_up_always j.header.tail block_size))
make_room-head j esize = elim (Bool-cases (ltb (space_in_block j) esize)) [
  | inl full ↦ elim (next_block-head (mark_end j)) [
    | inl same ↦ inl (unfold make_room in rw full (same ∙ ap (λ h. h.head) (mark_end-header j)))
    | inr (moved, whole) ↦ inr (
      unfold make_room in rw full (moved ∙ ap (λ h. h.head + block_size) (mark_end-header j)),
      omega (
        arith,
        whole,
        mark_end-size j,
        ap (λ h. h.head) (mark_end-header j),
        ap (λ h. align_up_always h.tail block_size) (mark_end-header j),
      ),
      make_room-tail j esize full,
    )
  ]
  | inr enough ↦ inl (unfold make_room in rw enough refl)
]

-- Where an entry does not fit, the tail is inside of its block.
pub inside_block :
    (j : Journal) (esize : ℕ)
    → esize < block_size
    → space_in_block j < esize
    → j.header.tail % block_size ≢ 0
unfolding align_up_always
inside_block j esize short full aligned = omega (arith, short, full, aligned)

checked_lem :
    (crc32 : List ℕ → ℕ) (front : List ℕ)
    → ((bytes : List ℕ) → crc32 bytes < 2 ^ 32)
    → checked crc32 (front ++ le_bytes 4 (crc32 front)) ≡ ok true
unfolding checked
checked_lem crc32 front bounded =
    rw (ltb_past (length (front ++ le_bytes 4 (crc32 front))) 4 (omega (arith, size))) (
      rw less (
        rw (drop-append front (le_bytes 4 (crc32 front))) (
          rw (take-append front (le_bytes 4 (crc32 front))) (
            rw (le_value-le_bytes_4 (crc32 front) (bounded front))
              (rw (==_refl (crc32 front)) refl)))))
  where
    size : length (front ++ le_bytes 4 (crc32 front)) ≡ length front + 4
    size =
        length-append front (le_bytes 4 (crc32 front))
        ∙ ap (λ n. length front + n) (length-le_bytes 4 (crc32 front))

    less : length (front ++ le_bytes 4 (crc32 front)) - 4 ≡ length front
    less = omega (arith, size)

pub entry_bytes-sums :
    (crc32 : List ℕ → ℕ)
    → ((bytes : List ℕ) → crc32 bytes < 2 ^ 32)
    → (id : ℕ) (content : List ℕ) → checked crc32 (entry_bytes crc32 id content) ≡ ok true
unfolding entry_bytes
entry_bytes-sums crc32 bounded id content =
    checked_lem crc32 (le_bytes 4 (length content + 12) ++ (le_bytes 4 id ++ content)) bounded
