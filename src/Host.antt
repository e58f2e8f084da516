-- ===== src/Host.antt =====
-- What the operating system answers about the backing store, and the two helpers of
-- fsyncd/src/journal/mod.rs that ask it.
--
-- A `Host` is one state of the file system: the answers of `lstat`, `readlink`, `open` with reads,
-- `lgetxattr` and the `walkdir` crate. It is a parameter of the model, so that a call before and a
-- call after a change are calls with two hosts.
use fsyncer.Base.{
  ℕ, List, [], ◌∷◌, Option, none, some, Outcome, ok, err, panic, ◌>>=◌, ErrorKind, if◌then◌else◌,
  ◌==◌, Bool, true, false,
}
use fsyncer.Common.Paths.{FilePath, translate_path}

-- `struct stat`, the fields that the code reads.
pub record Stat : Type 0 where
  pub st_mode : ℕ
  pub st_uid : ℕ
  pub st_gid : ℕ
  pub st_rdev : ℕ
  pub st_size : ℕ
  pub st_nlink : ℕ
  pub st_ino : ℕ
  pub st_atime : ℕ
  pub st_atime_nsec : ℕ
  pub st_mtime : ℕ
  pub st_mtime_nsec : ℕ

-- An entry of `WalkDir`: the inode, and the path below the directory that was walked, that
-- directory's own path in front.
pub record DirEntry : Type 0 where
  pub ino : ℕ
  pub path : FilePath

pub record Host : Type 0 where
  pub lstat : FilePath → Outcome Stat
  -- `read_link` behind `to_str().unwrap()`: a panic where the path that is read is no text.
  pub read_link : FilePath → Outcome FilePath
  -- The bytes of a file that `File::open` opens for reading.
  pub open_file : FilePath → Outcome (List ℕ)
  pub lgetxattr : FilePath → List ℕ → Outcome (List ℕ)
  pub walk_dir : FilePath → List (Outcome DirEntry)

unfoldable pub translate_and_stat : FilePath → FilePath → Host → Outcome Stat
translate_and_stat path fspath host = host.lstat (translate_path path fspath)

unfoldable pub first_with_ino : ℕ → List (Outcome DirEntry) → Outcome (Option FilePath)
first_with_ino ino [] = ok none
first_with_ino ino (entry ∷ entries) = do
  e ← entry
  if e.ino == ino then ok (some e.path) else first_with_ino ino entries

unfoldable pub find_hardlink : ℕ → FilePath → Host → Outcome (Option FilePath)
unfolding first_with_ino
find_hardlink ino intree host = first_with_ino ino (host.walk_dir intree)

-- A missing file is a value for the callers: `none`. Any other error goes on.
unfoldable pub stat_or_missing : Outcome Stat → Outcome (Option Stat)
stat_or_missing (ok st) = ok (some st)
stat_or_missing (err ErrorKind.not_found) = ok none
stat_or_missing (err e) = err e
stat_or_missing panic = panic

pub data JournalType : Type 0 where
  invalid bilog forward undo : JournalType

infix 50 ◌is◌
abbrev pub ◌is◌ : JournalType → JournalType → Bool
JournalType.invalid is JournalType.invalid = true
JournalType.bilog is JournalType.bilog = true
JournalType.forward is JournalType.forward = true
JournalType.undo is JournalType.undo = true
t is t' = false
