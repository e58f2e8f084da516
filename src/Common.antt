-- ===== src/Common.antt =====
-- fsyncd/src/common/mod.rs and common/file_security.rs: the calls that are replicated and
-- journalled, and the messages between the server and its clients.
--
-- Integers are native numbers; an `i64` is its bit pattern below 2 ^ 64 (`Common.Words`). Paths are
-- sequences of components (`Common.Paths`), C strings and buffers are lists of bytes.
pub mod Words
pub mod Paths
pub mod Buffers
pub mod Files
use fsyncer.Base.{ℕ, Bool, Option, List, bit_xor}
use Paths.{FilePath}

-- `Timespec`, with its `BitXor`.
pub record Timespec : Type 0 where
  pub high : ℕ
  pub low : ℕ

unfoldable pub xor_timespec : Timespec → Timespec → Timespec
xor_timespec a b = record { high = bit_xor a.high b.high; low = bit_xor a.low b.low }

-- `[Timespec; 3]`.
pub record Times : Type 0 where
  pub atime : Timespec
  pub mtime : Timespec
  pub third : Timespec

pub data FileSecurity : Type 0 where
  windows : List ℕ → Option ℕ → FileSecurity
  unix : ℕ → ℕ → FileSecurity
  portable : Option (List ℕ) → Option (List ℕ) → FileSecurity

-- `VFSCall`, the fields in the source's order.
pub data VfsCall : Type 0 where
  mknod : (path : FilePath) (mode rdev : ℕ) (security : FileSecurity) → VfsCall
  mkdir : (path : FilePath) (security : FileSecurity) (mode : ℕ) → VfsCall
  unlink : (path : FilePath) → VfsCall
  rmdir : (path : FilePath) → VfsCall
  symlink : (from to : FilePath) (security : FileSecurity) → VfsCall
  rename : (from to : FilePath) (flags : ℕ) → VfsCall
  link : (from to : FilePath) (security : FileSecurity) → VfsCall
  chmod : (path : FilePath) (mode : ℕ) → VfsCall
  truncate : (path : FilePath) (size : ℕ) → VfsCall
  write : (path : FilePath) (offset : ℕ) (buf : List ℕ) → VfsCall
  diff_write : (path : FilePath) (offset : ℕ) (buf : List ℕ) → VfsCall
  fallocate : (path : FilePath) (mode offset length : ℕ) → VfsCall
  setxattr : (path : FilePath) (name value : List ℕ) (flags : ℕ) → VfsCall
  removexattr : (path : FilePath) (name : List ℕ) → VfsCall
  create : (path : FilePath) (flags : ℕ) (security : FileSecurity) (mode : ℕ) → VfsCall
  utimens : (path : FilePath) (timespec : Times) → VfsCall
  fsync : (path : FilePath) (isdatasync : ℕ) → VfsCall
  truncating_write : (path : FilePath) (offset : ℕ) (buf : List ℕ) (length : ℕ) → VfsCall
  security : (path : FilePath) (security : FileSecurity) → VfsCall

pub data ClientMode : Type 0 where
  mode_async mode_sync mode_semisync mode_flushsync mode_control : ClientMode

-- The bits of `CompMode` and `Options`.
pub record CompMode : Type 0 where
  pub rt_dssc_zlib : Bool
  pub rt_dssc_chunked : Bool
  pub rt_dssc_zstd : Bool
  pub stream_zstd : Bool
  pub stream_lz4 : Bool

pub record Options : Type 0 where
  pub initial_rsync : Bool

pub record InitMsg : Type 0 where
  pub mode : ClientMode
  pub dsthash : ℕ
  pub compress : CompMode
  pub iolimit_bps : ℕ
  pub options : Options

pub data ClientAck : Type 0 where
  ack : ClientAck
  dead : ClientAck
  ret_code : ℕ → ClientAck

pub record AckMsg : Type 0 where
  pub retcode : ClientAck
  pub tid : ℕ

pub data FsyncerMsg : Type 0 where
  init_msg : InitMsg → FsyncerMsg
  async_op : VfsCall → FsyncerMsg
  sync_op : VfsCall → ℕ → FsyncerMsg
  ack_msg : AckMsg → FsyncerMsg
  cork : ℕ → FsyncerMsg
  ack_cork : ℕ → FsyncerMsg
  uncork : FsyncerMsg
  nop : FsyncerMsg
