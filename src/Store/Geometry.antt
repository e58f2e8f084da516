-- ===== src/Store/Geometry.antt =====
-- Where the journal of fsyncd/src/journal/store.rs puts an entry in its ring of blocks.
use native.Mathlib.Nat.{mod-mod_of_dvd, mod-lt, dvd-mul_left}
use Prim.Native.Nat.{◌∣◌}
use mathlib.Core.Path.{subst}
use fsyncer.Base.{
  ℕ, ◌+◌, ◌*◌, ◌%◌, ◌≤◌, ◌<◌, ◌≡◌, sym, List, [], ◌∷◌, ◌++◌, length, ltb, leb, arith, Bool-cases,
  inl, inr, length-append,
}
use fsyncer.Common.Words.{le_bytes, length-le_bytes}
use fsyncer.Common.Files.{pwrite, length-pwrite}
use fsyncer.Store.{
  Journal, block_size, align_up_always, file_off, make_room, entry_bytes, next_block, mark_end,
  space_in_block,
}

-- A ring of whole blocks, at least one, with a window of live bytes from a block's start on that
-- has not filled the ring.
pub record IsWellFormed (j : Journal) : Type 0 where
  pub blocks : ℕ
  pub some_blocks : 0 < blocks
  pub size : j.size ≡ blocks * block_size
  pub bytes : length j.ring ≡ j.size
  pub aligned : j.header.head % block_size ≡ 0
  pub ordered : j.header.head ≤ j.header.tail
  pub room : j.header.tail < j.header.head + j.size

pub align_up-bounds :
    (off : ℕ)
    → (off < align_up_always off block_size)
      × (align_up_always off block_size ≤ off + block_size)
      × (align_up_always off block_size % block_size ≡ 0)
unfolding align_up_always
align_up-bounds off = (omega arith, omega arith, omega arith)

file_off-block :
    (j : Journal) (off : ℕ) → IsWellFormed j → file_off j off % block_size ≡ off % block_size
unfolding file_off
file_off-block j off w =
    mod-mod_of_dvd block_size off
      (subst (λ n. block_size ∣ n) (sym w.size) (dvd-mul_left block_size w.blocks))

-- What does not leave its block is contiguous in the file.
pub file_off-fits :
    (j : Journal) (off n : ℕ)
    → IsWellFormed j
    → off + n ≤ align_up_always off block_size
    → file_off j off + n ≤ j.size
unfolding align_up_always
file_off-fits j off n w h = omega (arith, h, w.size, file_off-block j off w, file_off-lt)
  where
    file_off-lt : file_off j off < j.size
    file_off-lt = unfold file_off in mod-lt off (omega (arith, w.size, w.some_blocks))

pub write-bytes :
    (j : Journal) (off : ℕ) (buf : List ℕ)
    → IsWellFormed j
    → off + length buf ≤ align_up_always off block_size
    → length (pwrite j.ring (file_off j off) buf) ≡ j.size
write-bytes j off buf w h = omega (
  arith,
  length-pwrite j.ring (file_off j off) buf,
  file_off-fits j off (length buf) w h,
  w.bytes,
)

pub next_tail-fits :
    (j : Journal)
    → IsWellFormed j
    → align_up_always j.header.tail block_size ≤ j.header.head + j.size
unfolding align_up_always
next_tail-fits j w = omega (arith, w.aligned, w.room, w.size)

-- The next block in the ring, with the head moved out of its way.
next_block-IsWellFormed : (j : Journal) → IsWellFormed j → IsWellFormed (next_block j)
unfolding next_block
next_block-IsWellFormed j w =
    let bounds = align_up-bounds j.header.tail in
    let fits = next_tail-fits j w in
    record {
      blocks = w.blocks;
      some_blocks = w.some_blocks;
      size = w.size;
      bytes = w.bytes;
      aligned = ground (arith, w.aligned);
      ordered = ground (arith, w.ordered, w.some_blocks, w.size, bounds.0, fits);
      room = ground (arith, w.room, fits, w.some_blocks, w.size);
    }

mark_end-IsWellFormed : (j : Journal) → IsWellFormed j → IsWellFormed (mark_end j)
unfolding mark_end
mark_end-IsWellFormed j w = elim (Bool-cases (leb 4 (space_in_block j))) [
  | inl fits ↦ rw fits (record {
    blocks = w.blocks;
    some_blocks = w.some_blocks;
    size = w.size;
    bytes = write-bytes j j.header.tail (0 ∷ 0 ∷ 0 ∷ 0 ∷ []) w (ground (arith, fits));
    aligned = w.aligned;
    ordered = w.ordered;
    room = w.room;
  })
  | inr short ↦ rw short w
]

next_block-space :
    (j : Journal) (esize : ℕ)
    → esize < block_size
    → (next_block j).header.tail + esize ≤ align_up_always (next_block j).header.tail block_size
unfolding next_block align_up_always
next_block-space j esize h = omega (arith, h)

-- There is room for the entry in the block of the tail, and the ring stays as it should be.
pub make_room-IsWellFormed :
    (j : Journal) (esize : ℕ)
    → IsWellFormed j
    → esize < block_size
    → IsWellFormed (make_room j esize)
      × ((make_room j esize).header.tail + esize
          ≤ align_up_always (make_room j esize).header.tail block_size)
unfolding make_room
make_room-IsWellFormed j esize w h = elim (Bool-cases (ltb (space_in_block j) esize)) [
  | inl full ↦ rw full (
    next_block-IsWellFormed (mark_end j) (mark_end-IsWellFormed j w),
    next_block-space (mark_end j) esize h,
  )
  | inr enough ↦ rw enough (w, ground (arith, enough, (align_up-bounds j.header.tail).0))
]

pub length-entry_bytes :
    (crc32 : List ℕ → ℕ) (trans_id : ℕ) (content : List ℕ)
    → length (entry_bytes crc32 trans_id content) ≡ length content + 12
unfolding entry_bytes
length-entry_bytes crc32 trans_id content =
    let size = le_bytes 4 (length content + 12) in
    let trans = le_bytes 4 trans_id in
    let front = size ++ (trans ++ content) in
    omega (
      arith,
      length-append front (le_bytes 4 (crc32 front)),
      length-append size (trans ++ content),
      length-append trans content,
      length-le_bytes 4 (length content + 12),
      length-le_bytes 4 trans_id,
      length-le_bytes 4 (crc32 front),
    )
