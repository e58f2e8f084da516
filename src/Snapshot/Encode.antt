-- ===== src/Snapshot/Encode.antt =====
-- `encode_write` of fsyncd/src/snapshot/forward.rs: a write put into the data of a file, next to or
-- together with the blocks that it overlaps or touches.
pub mod Overlaps
pub mod Written
pub mod Defragments
pub mod ReadBack
use Prim.Native.Nat.{compare}
use mathlib.Core.List.{reverse}
use fsyncer.Base.{
  ℕ, zero, suc, ◌+◌, ◌-◌, min, Bool, ◌&&◌, List, [], ◌∷◌, length, get_or, none, some, Outcome, ok,
  panic, ◌>>=◌, ltb, leb, ◌==◌, if◌then◌else◌,
}
use fsyncer.Common.Paths.{FilePath}
use fsyncer.Snapshot.{Block, DataList, FreeList, File, FileType, Snapshot, default_file}
use fsyncer.Snapshot.Ordered.{Tree, get, insert, remove, last_entry, order_path}
use fsyncer.Snapshot.Space.{allocate, deallocate}

-- `write_all_at`.
abbrev pub write_all_at : (ℕ → ℕ) → List ℕ → ℕ → ℕ → ℕ
write_all_at bytes buf location a =
    if leb location a then get_or buf (a - location) (bytes a) else bytes a

abbrev pub buf_size : ℕ
buf_size = 16384

-- `read_exact_at` and `write_all_at` of `len` bytes.
abbrev pub copy : (ℕ → ℕ) → ℕ → ℕ → ℕ → ℕ → ℕ
copy bytes from to len a = if leb to a && ltb a (to + len) then bytes (from + (a - to)) else bytes a

-- The loop of `move_file_range` from `offset` on; each step moves at least a byte.
abbrev pub move_from : ℕ → (ℕ → ℕ) → ℕ → ℕ → ℕ → ℕ → ℕ → ℕ
move_from zero bytes from to size offset = bytes
move_from (suc fuel) bytes from to size offset =
    let len = min (size - offset) buf_size in
    let rest =
      move_from fuel (copy bytes (from + offset) (to + offset) len) from to size
        (offset + buf_size) in
    if ltb offset size then rest else bytes

unfoldable pub move_file_range : (ℕ → ℕ) → ℕ → ℕ → ℕ → ℕ → ℕ
move_file_range bytes from to size = move_from size bytes from to size 0

-- `entry(path).or_insert(..)`: the file there, or an opened one.
unfoldable pub get_or_open : Tree FilePath File → FilePath → File
get_or_open files path = elim (get order_path path files) [
  | none ↦ record default_file { ty = FileType.opened; contents = some [] }
  | some file ↦ file
]

abbrev pub take_while : {A : Type 0} → (A → Bool) → List A → List A
take_while p [] = []
take_while p (x ∷ xs) = let rest = take_while p xs in if p x then x ∷ rest else []

-- The blocks that overlap the write or touch it.
unfoldable pub overlaps_of : DataList → ℕ → ℕ → List (ℕ × Block)
overlaps_of blocks offset len = reverse (
    take_while (λ e. leb offset (e.0 + e.1.size))
      (reverse (take_while (λ e. leb e.0 (offset + len)) blocks)))

abbrev pub merge_limit : ℕ
merge_limit = 1048576

-- Blocks that only touch the write are left alone if they are large.
abbrev pub without_first : ℕ → List (ℕ × Block) → List (ℕ × Block)
without_first offset [] = []
without_first offset ((o, b) ∷ overlaps) =
    if ltb merge_limit b.size && (o + b.size == offset) then overlaps else (o, b) ∷ overlaps

abbrev pub without_last : ℕ → List (ℕ × Block) → List (ℕ × Block)
without_last end [] = []
without_last end ((o, b) ∷ []) = if ltb merge_limit b.size && (o == end) then [] else (o, b) ∷ []
without_last end (e ∷ e' ∷ overlaps) = e ∷ without_last end (e' ∷ overlaps)

-- What a write leaves: the bytes, the blocks of the file and the free regions.
pub record Encoded : Type 0 where
  pub bytes : ℕ → ℕ
  pub blocks : DataList
  pub free : FreeList

-- `deallocate` of `data.remove(..).unwrap()` for each block that was copied.
abbrev pub release : List (ℕ × Block) → DataList → FreeList → Outcome (DataList × FreeList)
release [] blocks free = ok (blocks, free)
release ((o, b) ∷ overlaps) blocks free = elim (get compare o blocks) [
  | none ↦ panic
  | some block ↦ release overlaps (remove compare o blocks) (deallocate free block)
]

abbrev pub move_part : (ℕ → ℕ) → ℕ → ℕ → ℕ → ℕ → ℕ
move_part bytes from to size = if size == 0 then bytes else move_file_range bytes from to size

unfoldable pub encode_fresh : Encoded → ℕ → List ℕ → Outcome Encoded
encode_fresh e offset buf = allocate e.free (length buf) none >>= λ found. ok (record {
  bytes = write_all_at e.bytes buf found.0.location;
  blocks = insert compare offset found.0 e.blocks;
  free = found.1;
})

abbrev pub assembled : (ℕ → ℕ) → ℕ → Block → DataList × FreeList → Outcome Encoded
assembled bytes start block released =
    ok (record { bytes = bytes; blocks = insert compare start block released.0; free = released.1 })

-- The copies, once there is a new block.
abbrev pub moved_parts : (ℕ → ℕ) → Block → Block → ℕ → List ℕ → ℕ → ℕ → ℕ → ℕ
moved_parts bytes first last location buf first_exclusive last_exclusive =
    let moved_first = move_part bytes first.location location first_exclusive in
    let written = write_all_at moved_first buf (location + first_exclusive) in
    move_part written (last.location + (last.size - last_exclusive))
      (location + (first_exclusive + length buf)) last_exclusive

abbrev pub defragment_into :
    Encoded
    → List (ℕ × Block)
    → ℕ × Block
    → ℕ × Block
    → ℕ
    → List ℕ
    → Block × FreeList
    → Outcome Encoded
defragment_into e overlaps (first_offset, first) (last_offset, last) offset buf found =
    let bytes =
      moved_parts e.bytes first last found.0.location buf (offset - first_offset)
        (last_offset + last.size - (offset + length buf)) in
    release overlaps e.blocks found.1 >>= assembled bytes (min first_offset offset) found.0

-- The write with the parts of the first and the last overlap that stand out, in one new block.
unfoldable pub defragment :
    Encoded → List (ℕ × Block) → ℕ × Block → ℕ × Block → ℕ → List ℕ → Outcome Encoded
defragment e overlaps (first_offset, first) (last_offset, last) offset buf =
    let first_exclusive = offset - first_offset in
    let last_exclusive = last_offset + last.size - (offset + length buf) in
    allocate e.free (first_exclusive + length buf + last_exclusive) none
    >>= defragment_into e overlaps (first_offset, first) (last_offset, last) offset buf

abbrev pub encode_overlaps : Encoded → List (ℕ × Block) → ℕ → List ℕ → Outcome Encoded
encode_overlaps e [] offset buf = encode_fresh e offset buf
encode_overlaps e (first ∷ overlaps) offset buf = elim (last_entry overlaps) [
  | none ↦ defragment e (first ∷ overlaps) first first offset buf
  | some last ↦ defragment e (first ∷ overlaps) first last offset buf
]

abbrev pub encode_general : Encoded → List (ℕ × Block) → ℕ → List ℕ → Outcome Encoded
encode_general e overlaps offset buf =
    encode_overlaps e (without_last (offset + length buf) (without_first offset overlaps)) offset
      buf

-- A write behind the only block that it overlaps, once there is a region for the rest: the block
-- grows if the region is behind it.
abbrev pub extend_by : Encoded → ℕ → Block → ℕ → List ℕ → Block × FreeList → Outcome Encoded
extend_by e o b offset buf found =
    if found.0.location == b.location + b.size
    then ok (record {
      bytes = write_all_at e.bytes buf (found.0.location - (o + b.size - offset));
      blocks =
          insert compare o (record { location = b.location; size = b.size + found.0.size })
            e.blocks;
      free = found.1;
    })
    else encode_general (record e { free = deallocate found.1 found.0 }) ((o, b) ∷ []) offset buf

unfoldable pub extend : Encoded → ℕ → Block → ℕ → List ℕ → Outcome Encoded
extend e o b offset buf =
    allocate e.free (length buf - (o + b.size - offset)) (some (b.location + b.size))
    >>= extend_by e o b offset buf

abbrev pub encode_single : Encoded → ℕ → Block → ℕ → List ℕ → Outcome Encoded
encode_single e o b offset buf =
    if leb o offset && leb (offset + length buf) (o + b.size)
    then ok (record e { bytes = write_all_at e.bytes buf (b.location + (offset - o)) })
    else (if ltb o offset
        then extend e o b offset buf
        else encode_general e ((o, b) ∷ []) offset buf)

abbrev pub encode_with : Encoded → List (ℕ × Block) → ℕ → List ℕ → Outcome Encoded
encode_with e ((o, b) ∷ []) offset buf = encode_single e o b offset buf
encode_with e overlaps offset buf = encode_general e overlaps offset buf

unfoldable pub encode : Encoded → ℕ → List ℕ → Outcome Encoded
encode e offset buf = encode_with e (overlaps_of e.blocks offset (length buf)) offset buf

unfoldable pub encode_write : Snapshot → FilePath → ℕ → List ℕ → Outcome Snapshot
encode_write snapshot path offset buf =
    let file = get_or_open snapshot.files path in
    elim file.contents [
      | none ↦ panic
      | some blocks ↦
          (encode
              (record { bytes = snapshot.serialised; blocks = blocks; free = snapshot.free_list })
              offset buf
            >>= λ e. ok (record {
              serialised = e.bytes;
              files =
                  insert order_path path (record file { contents = some e.blocks }) snapshot.files;
              free_list = e.free;
            }))
    ]
