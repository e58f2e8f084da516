-- ===== src/Store/Appends.antt =====
-- What `write_inner` of fsyncd/src/journal/store.rs does to the journal.
use native.Mathlib.Nat.{add-mod_right}
use fsyncer.Base.{
  ==_ne, Bool-cases, inl, inr, ◌==◌, ℕ, ◌+◌, ◌%◌, ◌^◌, ◌≤◌, ◌<◌, ◌≡◌, ◌≢◌, refl, sym, ap, ◌∙◌, List,
  length, ok, ltb, leb, lt→ltb, ltb_past, arith, Bool-cases, inl, inr,
}
use fsyncer.Common.Files.{pwrite, slice, slice-pwrite}
use fsyncer.Store.{
  Journal, block_size, align_up_always, file_off, make_room, write_inner, append, entry_bytes,
  next_block, mark_end, space_in_block,
}
use fsyncer.Store.Geometry.{
  IsWellFormed, align_up-bounds, file_off-fits, write-bytes, next_tail-fits, length-entry_bytes,
}

-- What making room leaves alone.
pub record IsRoomier (j j' : Journal) : Type 0 where
  pub size : j'.size ≡ j.size
  pub trans : j'.header.trans_ctr ≡ j.header.trans_ctr
  pub after : j.header.tail ≤ j'.header.tail

pub make_room-IsRoomier : (j : Journal) (esize : ℕ) → IsRoomier j (make_room j esize)
unfolding make_room next_block mark_end
make_room-IsRoomier j esize = elim (Bool-cases (ltb (space_in_block j) esize)) [
  | inl full ↦ rw full (elim (Bool-cases (leb 4 (space_in_block j))) [
    | inl marked ↦ rw marked (record {
      size = refl;
      trans = refl;
      after = omega (arith, (align_up-bounds j.header.tail).0);
    })
    | inr short ↦ rw short (record {
      size = refl;
      trans = refl;
      after = omega (arith, (align_up-bounds j.header.tail).0);
    })
  ])
  | inr enough ↦ rw enough (record { size = refl; trans = refl; after = omega arith })
]

-- The entry with `content` at the offset `start` of the journal `j'`, after it was written to `j`.
pub record IsPlaced (crc32 : List ℕ → ℕ) (content : List ℕ) (j j' : Journal) (start : ℕ)
    : Type 0 where
  pub after : j.header.tail ≤ start
  pub ends : j'.header.tail ≡ start + (length content + 12)
  pub one_block : j'.header.tail ≤ align_up_always start block_size
  pub contiguous : file_off j' start + (length content + 12) ≤ j'.size
  pub bytes :
      slice j'.ring (file_off j' start) (length content + 12)
      ≡ entry_bytes crc32 j.header.trans_ctr content
  pub filled : length j'.ring ≡ j'.size
  pub next_id : j'.header.trans_ctr ≡ (j.header.trans_ctr + 1) % 2 ^ 32
  pub window : j'.header.tail ≤ j'.header.head + j'.size
  pub keeps : j'.header.tail ≢ j'.header.head + j'.size → IsWellFormed j'

pub write_inner-ok :
    (crc32 : List ℕ → ℕ) (j : Journal) (content : List ℕ)
    → length content + 12 < block_size
    → 0 < j.size
    → write_inner crc32 j content
      ≡ ok (append crc32 (make_room j (length content + 12)) (length content + 12) content)
unfolding write_inner
write_inner-ok crc32 j content h some_bytes =
    rw (lt→ltb (length content + 12) block_size h)
      (rw (==_ne j.size 0 (omega (arith, some_bytes))) refl)

-- A write that returns has the journal that it returns.
pub write_inner-append :
    (crc32 : List ℕ → ℕ) (j next : Journal) (content : List ℕ)
    → write_inner crc32 j content ≡ ok next
    → append crc32 (make_room j (length content + 12)) (length content + 12) content ≡ next
unfolding write_inner
write_inner-append crc32 j next content wrote =
    elim (Bool-cases (ltb (length content + 12) block_size)) [
      | inl short ↦ elim (Bool-cases (j.size == 0)) [
        | inl empty ↦ absurd (ground (arith, short, empty, wrote))
        | inr full ↦ ground (arith, short, full, wrote)
      ]
      | inr long ↦ absurd (ground (arith, long, wrote))
    ]

pub append-IsPlaced :
    (crc32 : List ℕ → ℕ) (j r : Journal) (content : List ℕ)
    → IsRoomier j r
    → IsWellFormed r
    → r.header.tail + (length content + 12) ≤ align_up_always r.header.tail block_size
    → IsPlaced crc32 content j (append crc32 r (length content + 12) content) r.header.tail
unfolding file_off
append-IsPlaced crc32 j r content room w h =
    let entry = entry_bytes crc32 r.header.trans_ctr content in
    let fits = next_tail-fits r w in
    record {
      after = room.after;
      ends = refl;
      one_block = h;
      contiguous = file_off-fits r r.header.tail (length content + 12) w h;
      bytes =
          ap
            (λ n.
              slice (pwrite r.ring (file_off r r.header.tail) entry) (file_off r r.header.tail) n)
            (sym (length-entry_bytes crc32 r.header.trans_ctr content))
          ∙ slice-pwrite r.ring (file_off r r.header.tail) entry
          ∙ ap (λ t. entry_bytes crc32 t content) room.trans;
      filled =
          write-bytes r r.header.tail entry w
            (omega (arith, h, length-entry_bytes crc32 r.header.trans_ctr content));
      next_id = ap (λ t. (t + 1) % 2 ^ 32) room.trans;
      window = omega (arith, h, fits);
      keeps = λ not_full. record {
        blocks = w.blocks;
        some_blocks = w.some_blocks;
        size = w.size;
        bytes =
            write-bytes r r.header.tail entry w
              (omega (arith, h, length-entry_bytes crc32 r.header.trans_ctr content));
        aligned = w.aligned;
        ordered = omega (arith, w.ordered);
        room = omega (arith, not_full, h, fits);
      };
    }

pub make_room-at_start :
    (j : Journal) (esize : ℕ)
    → j.header.tail % block_size ≡ 0
    → esize < block_size
    → make_room j esize ≡ j
unfolding make_room align_up_always
make_room-at_start j esize aligned h =
    rw (ltb_past (space_in_block j) esize (omega (arith, aligned, h))) refl

file_off-full :
    (j : Journal)
    → j.header.tail ≡ j.header.head + j.size
    → file_off j j.header.tail ≡ file_off j j.header.head
unfolding file_off
file_off-full j full = ap (λ off. off % j.size) full ∙ add-mod_right j.header.head j.size
