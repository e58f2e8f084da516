-- ===== src/Snapshot/Apply/Broken.antt =====
-- Snapshots that cannot be applied: `SnapshotApply` of fsyncd/src/snapshot/forward.rs after
-- `merge_from` of two short journals.
use fsyncer.Base.{
  ℕ, zero, suc, ◌<◌, ◌≡◌, refl, List, [], ◌∷◌, length, All, Option, none, some, ok, panic, arith,
}
use fsyncer.Common.{VfsCall, FileSecurity}
use fsyncer.Common.Paths.{FilePath}
use fsyncer.Snapshot.{Block, FreeList, File, FileType, Snapshot, default_file}
use fsyncer.Snapshot.Ordered.{insert, get}
use fsyncer.Snapshot.Space.{allocate}
use fsyncer.Snapshot.Encode.{
  write_all_at, encode, encode_write, encode_fresh, overlaps_of, get_or_open,
}
use fsyncer.Snapshot.Merge.{set_attr, merge_call, merge_from}
use fsyncer.Snapshot.Merge.Names.{order_path_refl}
use fsyncer.Snapshot.Apply.{
  apply, next, next_file, next_attribute, making, made, from_bytes_with_nul, yield, Attrs,
}
use fsyncer.Snapshot.Apply.Calls.{Calls, Yields}

abbrev pub no_files : (ℕ → ℕ) → FreeList → Snapshot
no_files bytes free = record { serialised = bytes; files = []; free_list = free }

abbrev written : (ℕ → ℕ) → FreeList → FilePath → ℕ → List ℕ → Block → Snapshot
written bytes free path offset buf block = record {
  serialised = write_all_at bytes buf block.location;
  files =
      (path, record default_file { ty = FileType.opened; contents = some ((offset, block) ∷ []) })
      ∷ [];
  free_list = free;
}

-- A journal of one write to a file that was there before, for which there is room: the snapshot is
-- made, and applying it panics at the first call.
pub next-write :
    (bytes : ℕ → ℕ) (free free' : FreeList) (path : FilePath) (offset : ℕ) (buf : List ℕ)
    (block : Block)
    → allocate free (length buf) none ≡ ok (block, free')
    → (s : Snapshot) × ((merge_from (no_files bytes free) (VfsCall.write path offset buf ∷ [])
          ≡ ok s)
        × (next (apply s) ≡ panic))
unfolding merge_from merge_call encode_write encode encode_fresh overlaps_of get_or_open apply next
    next_file next_attribute making default_file
next-write bytes free free' path offset buf block found =
    (written bytes free' path offset buf block, (rw found refl, refl))

from_bytes-panic : (name : List ℕ) → All (λ b. 0 < b) name → from_bytes_with_nul name ≡ panic
from_bytes-panic [] h = refl
from_bytes-panic (zero ∷ name) (pos, h) = absurd (omega arith)
from_bytes-panic (suc b ∷ name) (pos, h) = rw (from_bytes-panic name h, from_bytes_with_nul) refl

abbrev new_with : FilePath → ℕ → ℕ → ℕ → ℕ → Option Attrs → File
new_with path flags uid gid mode attrs = record default_file {
  uid = some uid;
  gid = some gid;
  mode = some mode;
  ty = FileType.new_file flags;
  contents = some [];
  xattrs = attrs;
}

abbrev only : (ℕ → ℕ) → FreeList → FilePath → File → Snapshot
only bytes free path file = record {
  serialised = bytes;
  files = (path, file) ∷ [];
  free_list = free;
}

get_or_open-only : (path : FilePath) (file : File) → get_or_open ((path, file) ∷ []) path ≡ file
unfolding get_or_open
get_or_open-only path file = rw (order_path_refl path, get_or_open, get) refl

merge-setxattr :
    (bytes : ℕ → ℕ) (free : FreeList) (path : FilePath) (file : File) (name value : List ℕ)
    (flags : ℕ)
    → merge_call (only bytes free path file) (VfsCall.setxattr path name value flags)
      ≡ ok (only bytes free path (set_attr name (some value) file))
unfolding merge_call
merge-setxattr bytes free path file name value flags =
    rw (get_or_open-only path file) (rw (order_path_refl path, insert) refl)

-- A journal that makes a file and sets an extended attribute of it, whose name has no zero byte:
-- the snapshot is made, and applying it makes the file and then panics.
pub apply-setxattr :
    (bytes : ℕ → ℕ) (free : FreeList) (path : FilePath) (flags uid gid mode : ℕ)
    (name value : List ℕ) (attr_flags : ℕ)
    → All (λ b. 0 < b) name
    → (s : Snapshot) × ((merge_from (no_files bytes free) (
            VfsCall.create path flags (FileSecurity.unix uid gid) mode
            ∷ VfsCall.setxattr path name value attr_flags
            ∷ [])
          ≡ ok s)
        × Yields
            (apply s)
            (Calls.then (VfsCall.create path flags (FileSecurity.unix uid gid) mode) Calls.panics))
unfolding merge_from merge_call get_or_open apply next next_file next_attribute making made
    default_file
apply-setxattr bytes free path flags uid gid mode name value attr_flags h =
    let file = new_with path flags uid gid mode none in
    let named = new_with path flags uid gid mode (some ((name, some value) ∷ [])) in
    (
      only bytes free path named,
      (
        rw (merge-setxattr bytes free path file name value attr_flags) refl,
        Yields.at_call refl (Yields.at_panic (rw (from_bytes-panic name h, yield) refl)),
      ),
    )
