-- ===== src/Dispatch/Codes.antt =====
-- The codes that `dispatch` (fsyncd/src/client/dispatch_unix.rs) returns for a failure of a system
-- call.
use fsyncer.Base.{ℕ, ◌<◌, ◌≡◌, refl, true, List, if◌then◌else◌, if-cases, inr, arith}
use fsyncer.Common.{VfsCall, FileSecurity}
use fsyncer.Common.Paths.{FilePath, translate_path}
use fsyncer.Kernel.{Target, SysCall, Answer, Program, bind, neg_errno}
use fsyncer.Kernel.Xmp.{
  or_errno, as_c_int, xmp_mkdir, xmp_unlink, xmp_rmdir, xmp_symlink, xmp_link, xmp_chmod,
  xmp_truncate, xmp_write, xmp_fallocate, xmp_setxattr, xmp_removexattr, xmp_utimens, xmp_fsync,
}
use fsyncer.Dispatch.{dispatch, write_and_truncate, is_negative}
use fsyncer.Dispatch.Reporting.{
  Reports, Reports-try_call, Reports-with_file, Reports-chown, Reports-mknod, Reports-rename,
  Reports-write, Reports-fsync, Reports-create,
}

negative : (errno : ℕ) → 0 < errno → errno < 4096 → is_negative (neg_errno errno) ≡ true
unfolding neg_errno
negative errno pos small = ground arith

module _ (errno : ℕ) (pos : 0 < errno) (small : errno < 4096) (buf : List ℕ)
    (offset length fd : ℕ) where
  abbrev after_truncate : ℕ → ℕ → Program ℕ
  after_truncate res tres = if is_negative tres then Program.done tres else Program.done res

  abbrev after_write : ℕ → Program ℕ
  after_write res =
      if is_negative res
      then Program.done res
      else bind (xmp_truncate (Target.right fd) length) (after_truncate res)

  Reports-after_truncate :
      (res : ℕ) (answer : Answer)
      → Reports errno (bind (or_errno (Program.done 0) answer) (after_truncate res))
  Reports-after_truncate res (Answer.returned n) = tt
  Reports-after_truncate res (Answer.failed e) =
      if-cases (Reports errno) (is_negative (neg_errno e)) (λ h. tt) (λ h. tt)

  Reports-after_write : (res : ℕ) → Reports errno (after_write res)
  unfolding xmp_truncate
  Reports-after_write res =
      if-cases (Reports errno) (is_negative res) (λ h. tt)
        (λ h. (inr (rw (negative errno pos small) refl), Reports-after_truncate res))

  Reports-write_and_truncate : Reports errno (write_and_truncate buf offset length fd)
  unfolding write_and_truncate xmp_write
  Reports-write_and_truncate = (inr (rw (negative errno pos small) refl), answers)
    where
      answers : (answer : Answer) → Reports errno (bind (as_c_int answer) after_write)
      answers (Answer.returned n) = Reports-after_write _
      answers (Answer.failed e) = Reports-after_write _

-- Wherever a system call of `dispatch` fails with an error number below 4096, a `close` aside, the
-- client makes no further system call but `close`, and returns the negated error number; for a
-- rename it returns 1 instead, and for the opening of a file that is written to, the
-- error number itself.
pub dispatch-Reports :
    (errno : ℕ)
    → 0 < errno
    → errno < 4096
    → (call : VfsCall) (root : FilePath) → Reports errno (dispatch call root)
unfolding dispatch xmp_mkdir xmp_unlink xmp_rmdir xmp_symlink xmp_link xmp_chmod xmp_truncate
    xmp_fallocate xmp_setxattr xmp_removexattr xmp_utimens
dispatch-Reports errno pos small (VfsCall.mknod path mode rdev (FileSecurity.unix uid gid)) root =
    Reports-mknod errno (translate_path path root) mode rdev uid gid
dispatch-Reports errno pos small (VfsCall.mkdir path (FileSecurity.unix uid gid) mode) root =
    Reports-try_call errno (SysCall.mkdir (translate_path path root) mode) _ refl
      (Reports-chown errno (Target.left (translate_path path root)) uid gid)
dispatch-Reports errno pos small (VfsCall.unlink path) root =
    Reports-try_call errno (SysCall.unlink (translate_path path root)) _ refl tt
dispatch-Reports errno pos small (VfsCall.rmdir path) root =
    Reports-try_call errno (SysCall.rmdir (translate_path path root)) _ refl tt
dispatch-Reports errno pos small (VfsCall.symlink from to (FileSecurity.unix uid gid)) root =
    Reports-try_call errno (SysCall.symlink from (translate_path to root)) _ refl
      (Reports-try_call errno (SysCall.lchown (translate_path to root) uid gid) _ refl tt)
dispatch-Reports errno pos small (VfsCall.rename from to flags) root =
    Reports-rename errno (translate_path from root) (translate_path to root) flags
dispatch-Reports errno pos small (VfsCall.link from to (FileSecurity.unix uid gid)) root =
    Reports-try_call errno (SysCall.link (translate_path from root) (translate_path to root)) _ refl
      (Reports-chown errno (Target.left (translate_path to root)) uid gid)
dispatch-Reports errno pos small (VfsCall.chmod path mode) root =
    Reports-try_call errno (SysCall.chmod (Target.left (translate_path path root)) mode) _ refl tt
dispatch-Reports errno pos small (VfsCall.security path (FileSecurity.unix uid gid)) root =
    Reports-chown errno (Target.left (translate_path path root)) uid gid
dispatch-Reports errno pos small (VfsCall.truncate path size) root =
    Reports-try_call errno (SysCall.truncate (Target.left (translate_path path root)) size) _ refl
      tt
dispatch-Reports errno pos small (VfsCall.write path offset buf) root =
    Reports-with_file errno (translate_path path root) (xmp_write buf offset)
      (Reports-write errno buf offset)
dispatch-Reports errno pos small (VfsCall.truncating_write path offset buf length) root =
    Reports-with_file errno (translate_path path root) (write_and_truncate buf offset length)
      (Reports-write_and_truncate errno pos small buf offset length)
dispatch-Reports errno pos small (VfsCall.fallocate path mode offset length) root =
    Reports-with_file errno (translate_path path root) (xmp_fallocate mode offset length)
      (λ fd. Reports-try_call errno (SysCall.fallocate fd mode offset length) _ refl tt)
dispatch-Reports errno pos small (VfsCall.setxattr path name value flags) root =
    Reports-try_call errno
      (SysCall.setxattr (Target.left (translate_path path root)) name value flags) _ refl tt
dispatch-Reports errno pos small (VfsCall.removexattr path name) root =
    Reports-try_call errno (SysCall.removexattr (Target.left (translate_path path root)) name) _
      refl tt
dispatch-Reports errno pos small (VfsCall.create path flags (FileSecurity.unix uid gid) mode) root =
    Reports-create errno (translate_path path root) mode flags uid gid
dispatch-Reports errno pos small (VfsCall.utimens path timespec) root =
    Reports-try_call errno
      (SysCall.utimens (Target.left (translate_path path root)) timespec.atime timespec.mtime) _
      refl tt
dispatch-Reports errno pos small (VfsCall.fsync path isdatasync) root =
    Reports-with_file errno (translate_path path root) (xmp_fsync isdatasync)
      (Reports-fsync errno isdatasync)
dispatch-Reports errno pos small (VfsCall.diff_write path offset buf) root = tt
dispatch-Reports errno pos small (VfsCall.mknod path mode rdev (FileSecurity.windows a b)) root = tt
dispatch-Reports errno pos small (VfsCall.mknod path mode rdev (FileSecurity.portable a b)) root =
    tt
dispatch-Reports errno pos small (VfsCall.mkdir path (FileSecurity.windows a b) mode) root = tt
dispatch-Reports errno pos small (VfsCall.mkdir path (FileSecurity.portable a b) mode) root = tt
dispatch-Reports errno pos small (VfsCall.symlink from to (FileSecurity.windows a b)) root = tt
dispatch-Reports errno pos small (VfsCall.symlink from to (FileSecurity.portable a b)) root = tt
dispatch-Reports errno pos small (VfsCall.link from to (FileSecurity.windows a b)) root = tt
dispatch-Reports errno pos small (VfsCall.link from to (FileSecurity.portable a b)) root = tt
dispatch-Reports errno pos small (VfsCall.security path (FileSecurity.windows a b)) root = tt
dispatch-Reports errno pos small (VfsCall.security path (FileSecurity.portable a b)) root = tt
dispatch-Reports errno pos small (VfsCall.create path flags (FileSecurity.windows a b) mode) root =
    tt
dispatch-Reports errno pos small (VfsCall.create path flags (FileSecurity.portable a b) mode) root =
    tt
