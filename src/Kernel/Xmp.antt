-- ===== src/Kernel/Xmp.antt =====
-- fsyncd/src/common/ops_unix.rs on Linux: the `xmp_` functions, which the front end of the server
-- and the client share.
use fsyncer.Base.{ℕ, ◌/◌, ◌%◌, Bool, List, Option, none, some, ◌==◌, if◌then◌else◌}
use fsyncer.Common.{Timespec}
use fsyncer.Common.Paths.{FilePath}
use fsyncer.Kernel.{Target, SysCall, Answer, Program, bind, neg_errno, negated, two_32}

-- `if res == -1 { return neg_errno(); }`.
abbrev pub or_errno : Program ℕ → Answer → Program ℕ
or_errno next (Answer.returned n) = next
or_errno next (Answer.failed errno) = Program.done (neg_errno errno)

-- A call whose failure is returned, and what follows.
abbrev pub try_call : SysCall → Program ℕ → Program ℕ
try_call s next = Program.call s (or_errno next)

unfoldable pub xmp_chown : Target → ℕ → ℕ → Program ℕ
xmp_chown target uid gid = try_call (SysCall.chown target uid gid) (Program.done 0)

-- `mode & S_IFIFO == S_IFIFO`.
abbrev pub is_fifo : ℕ → Bool
is_fifo mode = mode / 0o010000 % 2 == 1

unfoldable pub xmp_mknod : FilePath → ℕ → ℕ → ℕ → ℕ → Program ℕ
xmp_mknod path mode rdev uid gid =
    try_call (if is_fifo mode then SysCall.mkfifo path mode else SysCall.mknod path mode rdev)
      (xmp_chown (Target.left path) uid gid)

unfoldable pub xmp_mkdir : FilePath → ℕ → ℕ → ℕ → Program ℕ
xmp_mkdir path mode uid gid =
    try_call (SysCall.mkdir path mode) (xmp_chown (Target.left path) uid gid)

unfoldable pub xmp_unlink : FilePath → Program ℕ
xmp_unlink path = try_call (SysCall.unlink path) (Program.done 0)

unfoldable pub xmp_rmdir : FilePath → Program ℕ
xmp_rmdir path = try_call (SysCall.rmdir path) (Program.done 0)

unfoldable pub xmp_symlink : FilePath → FilePath → ℕ → ℕ → Program ℕ
xmp_symlink from to uid gid =
    try_call (SysCall.symlink from to) (try_call (SysCall.lchown to uid gid) (Program.done 0))

-- `-syscall(..) as i32`: the negated result of the call, which is 1 for a failure.
abbrev pub minus_result : Answer → Program ℕ
minus_result (Answer.returned n) = Program.done (negated n)
minus_result (Answer.failed errno) = Program.done 1

unfoldable pub xmp_rename : FilePath → FilePath → ℕ → Program ℕ
xmp_rename from to flags = Program.call (SysCall.renameat2 from to flags) minus_result

unfoldable pub xmp_link : FilePath → FilePath → ℕ → ℕ → Program ℕ
xmp_link from to uid gid = try_call (SysCall.link from to) (xmp_chown (Target.left to) uid gid)

unfoldable pub xmp_chmod : Target → ℕ → Program ℕ
xmp_chmod target mode = try_call (SysCall.chmod target mode) (Program.done 0)

unfoldable pub xmp_truncate : Target → ℕ → Program ℕ
xmp_truncate target size = try_call (SysCall.truncate target size) (Program.done 0)

-- `res as c_int`, or the error.
abbrev pub as_c_int : Answer → Program ℕ
as_c_int (Answer.returned n) = Program.done (n % two_32)
as_c_int (Answer.failed errno) = Program.done (neg_errno errno)

unfoldable pub xmp_write : List ℕ → ℕ → ℕ → Program ℕ
xmp_write buf offset fd = Program.call (SysCall.pwrite fd buf offset) as_c_int

unfoldable pub xmp_fallocate : ℕ → ℕ → ℕ → ℕ → Program ℕ
xmp_fallocate mode offset length fd =
    try_call (SysCall.fallocate fd mode offset length) (Program.done 0)

unfoldable pub xmp_setxattr : Target → List ℕ → List ℕ → ℕ → Program ℕ
xmp_setxattr target name value flags =
    try_call (SysCall.setxattr target name value flags) (Program.done 0)

unfoldable pub xmp_removexattr : Target → List ℕ → Program ℕ
xmp_removexattr target name = try_call (SysCall.removexattr target name) (Program.done 0)

-- The open file, which the source leaves in `*fd`, and the result.
abbrev pub opened_by : ℕ → ℕ → Answer → Program (Option ℕ × ℕ)
opened_by uid gid (Answer.failed errno) = Program.done (none, neg_errno errno)
opened_by uid gid (Answer.returned fd) =
    bind (xmp_chown (Target.right fd) uid gid) (λ res. Program.done (some fd, res))

unfoldable pub xmp_create : FilePath → ℕ → ℕ → ℕ → ℕ → Program (Option ℕ × ℕ)
xmp_create path mode flags uid gid =
    Program.call (SysCall.open_flags path flags mode) (opened_by uid gid)

unfoldable pub xmp_utimens : Target → Timespec → Timespec → Program ℕ
xmp_utimens target atime mtime = try_call (SysCall.utimens target atime mtime) (Program.done 0)

unfoldable pub xmp_fsync : ℕ → ℕ → Program ℕ
xmp_fsync isdatasync fd =
    try_call (if isdatasync == 0 then SysCall.fsync fd else SysCall.fdatasync fd) (Program.done 0)
