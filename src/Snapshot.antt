-- ===== src/Snapshot.antt =====
-- fsyncd/src/snapshot/forward.rs: a snapshot is a journal of calls merged into one state for each
-- file, with the data that was written in one file behind it.
--
-- Sums of offsets and sizes are those of ℕ: the free regions are parts of the 2 ^ 64 - 1 bytes
-- behind the header, and only the end of the last of them can pass 2 ^ 64; no block lies behind it.
-- Reading and writing the file of the data succeeds; a byte that was not written is any number. The
-- header, `open` and `finalize`, which read and write it, are not modelled.
pub mod Ordered
pub mod Space
pub mod Encode
pub mod Merge
pub mod Apply
use fsyncer.Base.{ℕ, Bool, List, Option, none, some, [], ltb}
use fsyncer.Common.{Times}
use fsyncer.Common.Paths.{FilePath}
use Ordered.{Tree}

pub record Block : Type 0 where
  pub location : ℕ
  pub size : ℕ

-- A `BTreeMap<usize, Block>`, by the offset in the file, and one by the offset of a free region.
abbrev pub DataList : Type 0
DataList = Tree ℕ Block

abbrev pub FreeList : Type 0
FreeList = Tree ℕ ℕ

pub data FileType : Type 0 where
  invalid opened directory : FileType
  new_file : (flags : ℕ) → FileType
  special : (rdev : ℕ) → FileType
  symlink hardlink moved : FilePath → FileType

pub data FileSize : Type 0 where
  unknown : FileSize
  more_than exactly : ℕ → FileSize

pub record File : Type 0 where
  pub uid : Option ℕ
  pub gid : Option ℕ
  pub mode : Option ℕ
  pub size : FileSize
  pub xattrs : Option (List (List ℕ × Option (List ℕ)))
  pub time : Option Times
  pub ty : FileType
  pub contents : Option DataList

-- `File::default()`.
unfoldable pub default_file : File
default_file = record {
  uid = none;
  gid = none;
  mode = none;
  size = FileSize.unknown;
  xattrs = none;
  time = none;
  ty = FileType.invalid;
  contents = none;
}

-- The bytes of `serialised`, `files` and `free_list`.
pub record Snapshot : Type 0 where
  pub serialised : ℕ → ℕ
  pub files : Tree FilePath File
  pub free_list : FreeList
