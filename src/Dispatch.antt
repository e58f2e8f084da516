-- ===== src/Dispatch.antt =====
-- fsyncd/src/client/dispatch_unix.rs: what a client does for a call of the server, with `with_file`
-- of fsyncd/src/common/mod.rs.
pub mod Same
pub mod Placed
pub mod Below
pub mod Reporting
pub mod Codes
pub mod Copies
use fsyncer.Base.{ℕ, Bool, List, Option, none, some, leb, if◌then◌else◌}
use fsyncer.Common.{VfsCall, FileSecurity}
use fsyncer.Common.Paths.{FilePath, translate_path}
use fsyncer.Kernel.{Target, SysCall, Answer, Program, bind, two_31}
use fsyncer.Kernel.Xmp.{
  xmp_mknod, xmp_mkdir, xmp_unlink, xmp_rmdir, xmp_symlink, xmp_rename, xmp_link, xmp_chmod,
  xmp_chown, xmp_truncate, xmp_write, xmp_fallocate, xmp_setxattr, xmp_removexattr, xmp_create,
  xmp_utimens, xmp_fsync,
}

-- `File::from_raw_fd`, which is dropped.
abbrev pub close_with : ℕ → ℕ → Program ℕ
close_with fd res = Program.call (SysCall.close fd) (λ answer. Program.done res)

-- What `with_file` does with the open file; `map_err(raw_os_error)` and `err_or_ok` make the error
-- number of a failed `open` the result.
abbrev pub use_file : (ℕ → Program ℕ) → Answer → Program ℕ
use_file f (Answer.failed errno) = Program.done errno
use_file f (Answer.returned fd) = bind (f fd) (close_with fd)

unfoldable pub with_file : FilePath → (ℕ → Program ℕ) → Program ℕ
with_file path f = Program.call (SysCall.open_options path) (use_file f)

-- `res < 0`.
abbrev pub is_negative : ℕ → Bool
is_negative res = leb two_31 res

-- The closure of `truncating_write`.
unfoldable pub write_and_truncate : List ℕ → ℕ → ℕ → ℕ → Program ℕ
write_and_truncate buf offset length fd = bind (xmp_write buf offset fd) (λ res.
    if is_negative res
    then Program.done res
    else bind (xmp_truncate (Target.right fd) length)
        (λ tres. if is_negative tres then Program.done tres else Program.done res))

-- `if fd != -1 { close(fd); }`.
abbrev pub close_created : Option ℕ × ℕ → Program ℕ
close_created (none, res) = Program.done res
close_created (some fd, res) = close_with fd res

unfoldable pub dispatch : VfsCall → FilePath → Program ℕ
dispatch (VfsCall.mknod path mode rdev (FileSecurity.unix uid gid)) root =
    xmp_mknod (translate_path path root) mode rdev uid gid
dispatch (VfsCall.mkdir path (FileSecurity.unix uid gid) mode) root =
    xmp_mkdir (translate_path path root) mode uid gid
dispatch (VfsCall.unlink path) root = xmp_unlink (translate_path path root)
dispatch (VfsCall.rmdir path) root = xmp_rmdir (translate_path path root)
dispatch (VfsCall.symlink from to (FileSecurity.unix uid gid)) root =
    xmp_symlink from (translate_path to root) uid gid
dispatch (VfsCall.rename from to flags) root =
    xmp_rename (translate_path from root) (translate_path to root) flags
dispatch (VfsCall.link from to (FileSecurity.unix uid gid)) root =
    xmp_link (translate_path from root) (translate_path to root) uid gid
dispatch (VfsCall.chmod path mode) root = xmp_chmod (Target.left (translate_path path root)) mode
dispatch (VfsCall.security path (FileSecurity.unix uid gid)) root =
    xmp_chown (Target.left (translate_path path root)) uid gid
dispatch (VfsCall.truncate path size) root =
    xmp_truncate (Target.left (translate_path path root)) size
dispatch (VfsCall.write path offset buf) root =
    with_file (translate_path path root) (xmp_write buf offset)
dispatch (VfsCall.truncating_write path offset buf length) root =
    with_file (translate_path path root) (write_and_truncate buf offset length)
dispatch (VfsCall.fallocate path mode offset length) root =
    with_file (translate_path path root) (xmp_fallocate mode offset length)
dispatch (VfsCall.setxattr path name value flags) root =
    xmp_setxattr (Target.left (translate_path path root)) name value flags
dispatch (VfsCall.removexattr path name) root =
    xmp_removexattr (Target.left (translate_path path root)) name
dispatch (VfsCall.create path flags (FileSecurity.unix uid gid) mode) root =
    bind (xmp_create (translate_path path root) mode flags uid gid) close_created
dispatch (VfsCall.utimens path timespec) root =
    xmp_utimens (Target.left (translate_path path root)) timespec.atime timespec.mtime
dispatch (VfsCall.fsync path isdatasync) root =
    with_file (translate_path path root) (xmp_fsync isdatasync)
dispatch _ root = Program.panicked
