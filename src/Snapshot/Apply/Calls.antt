-- ===== src/Snapshot/Apply/Calls.antt =====
-- The calls that `SnapshotApply` of fsyncd/src/snapshot/forward.rs goes through, file by file.
use fsyncer.Base.{ℕ, ◌≡◌, [], ◌∷◌, Option, none, some, Outcome, ok, err, panic}
use fsyncer.Common.{VfsCall, FileSecurity, Times}
use fsyncer.Common.Paths.{FilePath}
use fsyncer.Snapshot.{DataList, File, FileSize}
use fsyncer.Snapshot.Ordered.{Tree}
use fsyncer.Snapshot.Apply.{SnapshotApply, next, making, made, read_bytes, attr_call, Attrs}

-- Calls up to the end, or up to a panic.
pub data Calls : Type 0 where
  ends panics : Calls
  then : VfsCall → Calls → Calls

abbrev pub and_then : Outcome VfsCall → Calls → Calls
and_then (ok call) calls = Calls.then call calls
and_then _ calls = Calls.panics

abbrev pub xattr_calls : FilePath → Attrs → Calls → Calls
xattr_calls path [] calls = calls
xattr_calls path (attr ∷ attrs) calls =
    and_then (attr_call path attr) (xattr_calls path attrs calls)

abbrev pub owner_calls : FilePath → Option ℕ → Option ℕ → Calls → Calls
owner_calls path (some uid) (some gid) calls =
    Calls.then (VfsCall.security path (FileSecurity.unix uid gid)) calls
owner_calls path _ _ calls = calls

abbrev pub mode_calls : FilePath → Option ℕ → Calls → Calls
mode_calls path none calls = calls
mode_calls path (some mode) calls = Calls.then (VfsCall.chmod path mode) calls

abbrev pub size_calls : FilePath → FileSize → Calls → Calls
size_calls path FileSize.unknown calls = calls
size_calls path (FileSize.exactly size) calls = Calls.then (VfsCall.truncate path size) calls
size_calls path (FileSize.more_than size) calls = Calls.then (VfsCall.fallocate path 0 0 size) calls

abbrev pub time_calls : FilePath → Option Times → Calls → Calls
time_calls path none calls = calls
time_calls path (some timespec) calls = Calls.then (VfsCall.utimens path timespec) calls

abbrev pub some_xattrs : FilePath → Option Attrs → Calls → Calls
some_xattrs path none calls = calls
some_xattrs path (some attrs) calls = xattr_calls path attrs calls

-- The calls for the attributes of a file: owner, mode, size, times, extended attributes.
abbrev pub attribute_calls : FilePath → File → Option Attrs → Calls → Calls
attribute_calls path file attrs calls = owner_calls path file.uid file.gid (
    mode_calls path file.mode
      (size_calls path file.size (time_calls path file.time (some_xattrs path attrs calls))))

abbrev pub write_calls : (ℕ → ℕ) → FilePath → DataList → Calls → Calls
write_calls bytes path [] calls = calls
write_calls bytes path ((offset, block) ∷ blocks) calls =
    Calls.then (VfsCall.write path offset (read_bytes bytes block.location block.size))
      (write_calls bytes path blocks calls)

-- `next` called until it gives nothing, or panics.
pub data Yields : SnapshotApply → Calls → Type 0 where
  at_end : {st : SnapshotApply} → next st ≡ ok none → Yields st Calls.ends
  at_panic : {st : SnapshotApply} → next st ≡ panic → Yields st Calls.panics
  at_call :
      {st st' : SnapshotApply} {call : VfsCall} {calls : Calls}
      → next st ≡ ok (some (call, st'))
      → Yields st' calls
      → Yields st (Calls.then call calls)

abbrev pub blocks_calls : (ℕ → ℕ) → FilePath → Option DataList → Calls → Calls
blocks_calls bytes path none calls = calls
blocks_calls bytes path (some blocks) calls = write_calls bytes path blocks calls

-- What a snapshot of made files stands for: for each file the call that makes it, the writes of its
-- blocks, and the calls for its attributes.
abbrev pub file_calls : (ℕ → ℕ) → FilePath → File → VfsCall → Calls → Calls
file_calls bytes path file call calls = Calls.then call (
    blocks_calls bytes path file.contents
      (attribute_calls path (made file file.ty) file.xattrs calls))

abbrev pub snapshot_calls : (ℕ → ℕ) → Tree FilePath File → Calls
snapshot_calls bytes [] = Calls.ends
snapshot_calls bytes ((path, file) ∷ files) = elim (making path file file.ty) [
  | ok call ↦ elim call [
    | some c ↦ file_calls bytes path file c (snapshot_calls bytes files)
    | none ↦ Calls.panics
  ]
  | err kind ↦ Calls.panics
  | panic ↦ Calls.panics
]
