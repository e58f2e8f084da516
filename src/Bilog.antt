-- ===== src/Bilog.antt =====
-- fsyncd/src/journal/bilog.rs: the entries of a bidirectional journal. An entry holds the exclusive
-- or of the state before a call and the state after it, so that it can be applied in both
-- directions. Each kind of entry has a module with `new`, `xor`, `apply` and `old`, the methods of
-- the trait `Bilog`; the type parameter that tells old, new and xor states apart is dropped.
--
-- `crc` is the digest of the `crc` crate (`Bilog.Digest`), `fspath` the root of the backing store
-- and `host` its state.
pub mod Digest
pub mod Chmod
pub mod Chown
pub mod Utimens
pub mod Rename
pub mod Dir
pub mod Symlink
pub mod Link
pub mod Node
pub mod File
pub mod Truncate
pub mod Write
pub mod Xattr
pub mod Attributes
pub mod Names
pub mod Sizes
pub mod Writes
pub mod Values
use Prim.Native.Nat.{bit_and}
use fsyncer.Base.{
  ℕ, true, false, Bool, List, [], ◌∷◌, inl, inr, ◌||◌, ltb, Option, none, some, Outcome, ok, err,
  panic, ◌>>=◌, if◌then◌else◌, ◌==◌,
}
use fsyncer.Common.{VfsCall, unix}
use fsyncer.Common.Paths.{FilePath}
use fsyncer.Host.{Host, Stat, translate_and_stat, stat_or_missing}
use fsyncer.FileStore.{recover}
use Chmod.{BilogChmod}
use Chown.{BilogChown}
use Utimens.{BilogUtimens}
use Rename.{BilogRename}
use Dir.{BilogDir}
use Symlink.{BilogSymlink}
use Link.{BilogLink}
use Node.{BilogNode}
use File.{BilogFile}
use Truncate.{BilogTruncate}
use Write.{BilogWrite}
use Xattr.{BilogXattr}

pub data BilogEntry : Type 0 where
  chmod : BilogChmod → BilogEntry
  chown : BilogChown → BilogEntry
  utimens : BilogUtimens → BilogEntry
  rename : BilogRename → BilogEntry
  dir : BilogDir → BilogEntry
  symlink : BilogSymlink → BilogEntry
  link : BilogLink → BilogEntry
  node : BilogNode → BilogEntry
  file : BilogFile → BilogEntry
  filestore : (path : FilePath) (token : ℕ) → BilogEntry
  truncate : BilogTruncate → BilogEntry
  write : BilogWrite → BilogEntry
  xattr : BilogXattr → BilogEntry

-- The file types of `st_mode`, from libc on Linux.
abbrev pub s_iflnk : ℕ
s_iflnk = 0o120000

abbrev pub s_ifreg : ℕ
s_ifreg = 0o100000

abbrev is_special : ℕ → Bool
is_special ftype = ftype == 0o060000 || ftype == 0o020000 || ftype == 0o010000 || ftype == 0o140000

-- `mode & S_IFMT`.
abbrev pub file_type : ℕ → ℕ
file_type mode = bit_and mode 0o170000

module _ (crc : List ℕ → ℕ) where
  -- The arm of `try_from` for `unlink`, after the file was looked at.
  unfoldable pub unlink_entry : FilePath → FilePath → Host → Stat → Outcome BilogEntry
  unlink_entry path fspath host stbuf =
      let call = VfsCall.unlink path in
      let ftype = file_type stbuf.st_mode in
      if ftype == s_iflnk
      then (do
        new ← Symlink.new call
        old ← Symlink.old new fspath host
        ok (symlink (Symlink.xor old new)))
      else if ftype == s_ifreg
      then (if ltb 1 stbuf.st_nlink
          then (do
            new ← Link.new call
            old ← Link.old new fspath host
            ok (link (Link.xor old new)))
          else if stbuf.st_size == 0
          then (do
            new ← File.new call
            old ← File.old new fspath host
            ok (file (File.xor old new)))
          else ok (filestore path 0))
      else if is_special ftype
      then (do new ← Node.new call; old ← Node.old new fspath host; ok (node (Node.xor old new)))
      else panic

  unfoldable pub try_from : VfsCall → FilePath → Host → Outcome BilogEntry
  try_from (VfsCall.mknod path mode rdev (unix uid gid)) fspath host =
      ok (
        node
          (record { path = path; mode = mode; rdev = rdev; exists = true; uid = uid; gid = gid }))
  try_from (VfsCall.mkdir path (unix uid gid) mode) fspath host =
      ok (dir (record { path = path; mode = mode; uid = uid; gid = gid; dir_exists = true }))
  try_from (VfsCall.rmdir path) fspath host = do
    new ← Dir.new (VfsCall.rmdir path)
    old ← Dir.old new fspath host
    ok (dir (Dir.xor old new))
  try_from (VfsCall.unlink path) fspath host = do
    stbuf ← translate_and_stat path fspath host
    unlink_entry path fspath host stbuf
  try_from (VfsCall.symlink from to (unix uid gid)) fspath host =
      ok (symlink (record { from = from; to = to; uid = uid; gid = gid; to_exists = true }))
  try_from (VfsCall.rename from to flags) fspath host =
      ok (rename (record { from = from; to = to; from_exists = true }))
  try_from (VfsCall.link from to (unix uid gid)) fspath host =
      ok (link (record { from = from; to = to; to_exists = true; uid = uid; gid = gid }))
  try_from (VfsCall.chmod path mode) fspath host = do
    new ← Chmod.new crc (VfsCall.chmod path mode)
    old ← Chmod.old crc new fspath host
    ok (chmod (Chmod.xor old new))
  try_from (VfsCall.security path security) fspath host = do
    new ← Chown.new crc (VfsCall.security path security)
    old ← Chown.old crc new fspath host
    ok (chown (Chown.xor old new))
  try_from (VfsCall.truncate path size) fspath host = do
    new ← Truncate.new crc (VfsCall.truncate path size)
    old ← Truncate.old crc (inl new) fspath host
    ok (truncate (Truncate.xor old new))
  try_from (VfsCall.write path offset buf) fspath host = do
    new ← Write.new crc (VfsCall.write path offset buf)
    old ← Write.old crc new fspath host
    x ← Write.xor old new
    ok (write x)
  try_from (VfsCall.setxattr path name value flags) fspath host = do
    new ← Xattr.new crc (VfsCall.setxattr path name value flags)
    old ← Xattr.old crc new fspath host
    x ← Xattr.xor old new
    ok (xattr x)
  try_from (VfsCall.removexattr path name) fspath host = do
    new ← Xattr.new crc (VfsCall.removexattr path name)
    old ← Xattr.old crc new fspath host
    x ← Xattr.xor old new
    ok (xattr x)
  try_from (VfsCall.create path flags (unix uid gid) mode) fspath host =
      ok (file (record { path = path; mode = mode; exists = false; uid = uid; gid = gid }))
  try_from (VfsCall.utimens path timespec) fspath host = do
    new ← Utimens.new crc (VfsCall.utimens path timespec)
    old ← Utimens.old crc new fspath host
    ok (utimens (Utimens.xor old new))
  try_from _ fspath host = panic

  -- The arm of `apply` for `filestore`.
  abbrev apply_filestore : FilePath → ℕ → FilePath → Host → Option Stat → Outcome VfsCall
  apply_filestore path token fspath host none = recover fspath token path host
  apply_filestore path token fspath host (some stbuf) = ok (VfsCall.unlink path)

  unfoldable pub apply : BilogEntry → FilePath → Host → Outcome VfsCall
  apply (chmod x) fspath host = do o ← Chmod.old crc x fspath host; Chmod.apply crc x o
  apply (chown x) fspath host = do o ← Chown.old crc x fspath host; Chown.apply crc x o
  apply (utimens x) fspath host = do o ← Utimens.old crc x fspath host; Utimens.apply crc x o
  apply (rename x) fspath host = do o ← Rename.old x; Rename.apply x o
  apply (dir x) fspath host = do o ← Dir.old x fspath host; Dir.apply x o
  apply (symlink x) fspath host = do o ← Symlink.old x fspath host; Symlink.apply x o
  apply (link x) fspath host = do o ← Link.old x fspath host; Link.apply x o
  apply (node x) fspath host = do o ← Node.old x fspath host; Node.apply x o
  apply (file x) fspath host = do o ← File.old x fspath host; File.apply x o
  apply (truncate x) fspath host = do
    o ← Truncate.old crc (inr x) fspath host
    Truncate.apply crc x o
  apply (write x) fspath host = do o ← Write.old crc x fspath host; Write.apply crc x o
  apply (xattr x) fspath host = do o ← Xattr.old crc x fspath host; Xattr.apply crc x o
  apply (filestore path token) fspath host = do
    found ← stat_or_missing (translate_and_stat path fspath host)
    apply_filestore path token fspath host found

  -- The entry that a call leaves in the journal, written before the call and applied later.
  abbrev pub replay : VfsCall → FilePath → Host → Host → Outcome VfsCall
  replay call fspath before later = do entry ← try_from call fspath before; apply entry fspath later

unfoldable pub affected_paths : BilogEntry → List FilePath
affected_paths (chmod c) = c.path ∷ []
affected_paths (chown c) = c.path ∷ []
affected_paths (utimens c) = c.path ∷ []
affected_paths (rename c) = c.from ∷ c.to ∷ []
affected_paths (dir c) = c.path ∷ []
affected_paths (symlink c) = c.to ∷ []
affected_paths (link c) = c.to ∷ []
affected_paths (node c) = c.path ∷ []
affected_paths (file c) = c.path ∷ []
affected_paths (filestore path token) = path ∷ []
affected_paths (truncate c) = c.path ∷ []
affected_paths (write c) = c.path ∷ []
affected_paths (xattr c) = c.path ∷ []
