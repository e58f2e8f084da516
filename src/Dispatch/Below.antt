-- ===== src/Dispatch/Below.antt =====
-- Where `dispatch` (fsyncd/src/client/dispatch_unix.rs) reaches: a call is made below the client's
-- root, whatever the paths in it are.
use fsyncer.Base.{ℕ, ◌≡◌, refl, ap, ap₂, ◌∙◌}
use fsyncer.Common.{VfsCall, FileSecurity}
use fsyncer.Common.Paths.{FilePath, empty_path, translate_path}
use fsyncer.Kernel.{Target, SysCall, Program, bind}
use fsyncer.Kernel.Roots.{place_program, translate_path-empty, place_program-bind, bind-ext}
use fsyncer.Kernel.Xmp.{
  xmp_mknod, xmp_mkdir, xmp_unlink, xmp_rmdir, xmp_symlink, xmp_rename, xmp_link, xmp_chmod,
  xmp_chown, xmp_truncate, xmp_write, xmp_fallocate, xmp_setxattr, xmp_removexattr, xmp_create,
  xmp_utimens, xmp_fsync,
}
use fsyncer.Dispatch.{dispatch, with_file, close_created, write_and_truncate}
use fsyncer.Dispatch.Placed.{
  place-try_call, place-chown, place-mknod, place-rename, place-write, place-fsync, place-truncate,
  place-write_and_truncate, place-fallocate, place-with_file, place-close_created, place-create,
}

-- `dispatch` with a path translated twice.
abbrev twice : (FilePath → Program ℕ) → FilePath → FilePath → Program ℕ
twice f path root = f (translate_path (translate_path path empty_path) root)

once :
    (f : FilePath → Program ℕ) (path root : FilePath)
    → twice f path root ≡ f (translate_path path root)
once f path root = ap f (translate_path-empty path root)

once₂ :
    (f : FilePath → FilePath → Program ℕ) (from to root : FilePath)
    → f
        (translate_path (translate_path from empty_path) root)
        (translate_path (translate_path to empty_path) root)
      ≡ f (translate_path from root) (translate_path to root)
once₂ f from to root = ap₂ f (translate_path-empty from root) (translate_path-empty to root)

-- What a client does for a call below its root is what it would do with no root, each path of each
-- system call translated to the root; the text of a symbolic link is not.
pub place-dispatch :
    (root : FilePath) (call : VfsCall)
    → place_program root (dispatch call empty_path) ≡ dispatch call root
unfolding dispatch xmp_mkdir xmp_unlink xmp_rmdir xmp_symlink xmp_link xmp_chmod xmp_setxattr
    xmp_removexattr xmp_utimens
place-dispatch root (VfsCall.mknod path mode rdev (FileSecurity.unix uid gid)) =
    place-mknod root (translate_path path empty_path) mode rdev uid gid
    ∙ once (λ p. xmp_mknod p mode rdev uid gid) path root
place-dispatch root (VfsCall.mkdir path (FileSecurity.unix uid gid) mode) =
    place-try_call root (SysCall.mkdir (translate_path path empty_path) mode)
      (place-chown root (Target.left (translate_path path empty_path)) uid gid)
    ∙ once (λ p. xmp_mkdir p mode uid gid) path root
place-dispatch root (VfsCall.unlink path) =
    place-try_call root (SysCall.unlink (translate_path path empty_path)) refl
    ∙ once xmp_unlink path root
place-dispatch root (VfsCall.rmdir path) =
    place-try_call root (SysCall.rmdir (translate_path path empty_path)) refl
    ∙ once xmp_rmdir path root
place-dispatch root (VfsCall.symlink from to (FileSecurity.unix uid gid)) =
    place-try_call root (SysCall.symlink from (translate_path to empty_path))
      (place-try_call root (SysCall.lchown (translate_path to empty_path) uid gid) refl)
    ∙ once (λ p. xmp_symlink from p uid gid) to root
place-dispatch root (VfsCall.rename from to flags) =
    place-rename root (translate_path from empty_path) (translate_path to empty_path) flags
    ∙ once₂ (λ p q. xmp_rename p q flags) from to root
place-dispatch root (VfsCall.link from to (FileSecurity.unix uid gid)) =
    place-try_call root
      (SysCall.link (translate_path from empty_path) (translate_path to empty_path))
      (place-chown root (Target.left (translate_path to empty_path)) uid gid)
    ∙ once₂ (λ p q. xmp_link p q uid gid) from to root
place-dispatch root (VfsCall.chmod path mode) =
    place-try_call root (SysCall.chmod (Target.left (translate_path path empty_path)) mode) refl
    ∙ once (λ p. xmp_chmod (Target.left p) mode) path root
place-dispatch root (VfsCall.security path (FileSecurity.unix uid gid)) =
    place-chown root (Target.left (translate_path path empty_path)) uid gid
    ∙ once (λ p. xmp_chown (Target.left p) uid gid) path root
place-dispatch root (VfsCall.truncate path size) =
    place-truncate root (Target.left (translate_path path empty_path)) size
    ∙ once (λ p. xmp_truncate (Target.left p) size) path root
place-dispatch root (VfsCall.write path offset buf) =
    place-with_file root (translate_path path empty_path) (xmp_write buf offset)
      (place-write root buf offset)
    ∙ once (λ p. with_file p (xmp_write buf offset)) path root
place-dispatch root (VfsCall.truncating_write path offset buf length) =
    place-with_file root (translate_path path empty_path) (write_and_truncate buf offset length)
      (place-write_and_truncate root buf offset length)
    ∙ once (λ p. with_file p (write_and_truncate buf offset length)) path root
place-dispatch root (VfsCall.fallocate path mode offset length) =
    place-with_file root (translate_path path empty_path) (xmp_fallocate mode offset length)
      (place-fallocate root mode offset length)
    ∙ once (λ p. with_file p (xmp_fallocate mode offset length)) path root
place-dispatch root (VfsCall.setxattr path name value flags) =
    place-try_call root
      (SysCall.setxattr (Target.left (translate_path path empty_path)) name value flags) refl
    ∙ once (λ p. xmp_setxattr (Target.left p) name value flags) path root
place-dispatch root (VfsCall.removexattr path name) =
    place-try_call root (SysCall.removexattr (Target.left (translate_path path empty_path)) name)
      refl
    ∙ once (λ p. xmp_removexattr (Target.left p) name) path root
place-dispatch root (VfsCall.create path flags (FileSecurity.unix uid gid) mode) =
    place_program-bind root (xmp_create (translate_path path empty_path) mode flags uid gid)
      close_created
    ∙ bind-ext (place-create root (translate_path path empty_path) mode flags uid gid)
        (place-close_created root)
    ∙ once (λ p. bind (xmp_create p mode flags uid gid) close_created) path root
place-dispatch root (VfsCall.utimens path timespec) =
    place-try_call root
      (SysCall.utimens (Target.left (translate_path path empty_path)) timespec.atime timespec.mtime)
      refl
    ∙ once (λ p. xmp_utimens (Target.left p) timespec.atime timespec.mtime) path root
place-dispatch root (VfsCall.fsync path isdatasync) =
    place-with_file root (translate_path path empty_path) (xmp_fsync isdatasync)
      (place-fsync root isdatasync)
    ∙ once (λ p. with_file p (xmp_fsync isdatasync)) path root
place-dispatch root (VfsCall.diff_write path offset buf) = refl
place-dispatch root (VfsCall.mknod path mode rdev (FileSecurity.windows a b)) = refl
place-dispatch root (VfsCall.mknod path mode rdev (FileSecurity.portable a b)) = refl
place-dispatch root (VfsCall.mkdir path (FileSecurity.windows a b) mode) = refl
place-dispatch root (VfsCall.mkdir path (FileSecurity.portable a b) mode) = refl
place-dispatch root (VfsCall.symlink from to (FileSecurity.windows a b)) = refl
place-dispatch root (VfsCall.symlink from to (FileSecurity.portable a b)) = refl
place-dispatch root (VfsCall.link from to (FileSecurity.windows a b)) = refl
place-dispatch root (VfsCall.link from to (FileSecurity.portable a b)) = refl
place-dispatch root (VfsCall.security path (FileSecurity.windows a b)) = refl
place-dispatch root (VfsCall.security path (FileSecurity.portable a b)) = refl
place-dispatch root (VfsCall.create path flags (FileSecurity.windows a b) mode) = refl
place-dispatch root (VfsCall.create path flags (FileSecurity.portable a b) mode) = refl
