-- ===== src/Kernel.antt =====
-- The system calls that fsyncd/src/common/ops_unix.rs and fsyncd/src/client/dispatch_unix.rs make,
-- and programs of them.
--
-- A program is the tree of its calls: what it does next depends on the answer. The operating system
-- is whatever answers them, so that two equal programs do the same on every system. C strings are
-- paths and byte lists; none holds a zero byte. A `c_int` is its bit pattern below 2 ^ 32.
pub mod Xmp
pub mod Roots
pub mod Running
use fsyncer.Base.{ℕ, ◌-◌, ◌%◌, List}
use fsyncer.Common.{Timespec}
use fsyncer.Common.Paths.{FilePath}

-- `Either<*const c_char, c_int>`: a path, or an open file.
pub data Target : Type 0 where
  left : FilePath → Target
  right : ℕ → Target

-- The functions of libc, with the pair for a path and for an open file under one name: `chmod` and
-- `fchmod`, `chown` and `fchown`, `truncate64` and `ftruncate`, `utimensat` and `futimens`,
-- `lsetxattr` and `fsetxattr`, `lremovexattr` and `fremovexattr`. `open_options` is
-- `OpenOptions::new().write(true).open`, and `open_flags` is `open`.
pub data SysCall : Type 0 where
  mkfifo : (path : FilePath) (mode : ℕ) → SysCall
  mknod : (path : FilePath) (mode rdev : ℕ) → SysCall
  mkdir : (path : FilePath) (mode : ℕ) → SysCall
  unlink : (path : FilePath) → SysCall
  rmdir : (path : FilePath) → SysCall
  symlink : (from to : FilePath) → SysCall
  lchown : (path : FilePath) (uid gid : ℕ) → SysCall
  renameat2 : (from to : FilePath) (flags : ℕ) → SysCall
  link : (from to : FilePath) → SysCall
  chmod : Target → (mode : ℕ) → SysCall
  chown : Target → (uid gid : ℕ) → SysCall
  truncate : Target → (size : ℕ) → SysCall
  pwrite : (fd : ℕ) (buf : List ℕ) (offset : ℕ) → SysCall
  fallocate : (fd mode offset length : ℕ) → SysCall
  setxattr : Target → (name value : List ℕ) (flags : ℕ) → SysCall
  removexattr : Target → (name : List ℕ) → SysCall
  open_flags : (path : FilePath) (flags mode : ℕ) → SysCall
  open_options : (path : FilePath) → SysCall
  utimens : Target → (atime mtime : Timespec) → SysCall
  fdatasync : (fd : ℕ) → SysCall
  fsync : (fd : ℕ) → SysCall
  close : (fd : ℕ) → SysCall

-- A result other than -1, or -1 with `errno`.
pub data Answer : Type 0 where
  returned : ℕ → Answer
  failed : ℕ → Answer

pub data Program (A : Type 0) : Type 0 where
  done : A → Program A
  call : SysCall → (Answer → Program A) → Program A
  panicked : Program A

-- What a program of the source goes on with.
abbrev pub bind : {A B : Type 0} → Program A → (A → Program B) → Program B
bind (Program.done a) f = f a
bind (Program.call s k) f = Program.call s (λ answer. bind (k answer) f)
bind Program.panicked f = Program.panicked

abbrev pub two_31 : ℕ
two_31 = 0x80000000

abbrev pub two_32 : ℕ
two_32 = 0x100000000

-- The bit pattern of the negated integer.
abbrev pub negated : ℕ → ℕ
negated n = (two_32 - n % two_32) % two_32

unfoldable pub neg_errno : ℕ → ℕ
neg_errno errno = negated errno
