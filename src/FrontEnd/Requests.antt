-- ===== src/FrontEnd/Requests.antt =====
-- The requests of libfuse to fsyncd/src/fuse_hl/write_unix.rs: the call that each `do_` function
-- makes for the clients and the journal, and the system calls on the backing store behind `pre_op`.
--
-- `root` is SERVER_PATH; a `fuse_file_info` that may be null is an `Option`.
use fsyncer.Base.{ℕ, ◌%◌, Bool, List, Option, none, some, Outcome, ok, panic, ◌>>=◌}
use fsyncer.Common.{VfsCall, FileSecurity, Timespec}
use fsyncer.Common.Paths.{FilePath, translate_path}
use fsyncer.Kernel.{Target, Program, two_32}
use fsyncer.Kernel.Xmp.{
  xmp_mknod, xmp_mkdir, xmp_unlink, xmp_rmdir, xmp_symlink, xmp_rename, xmp_link, xmp_chmod,
  xmp_chown, xmp_truncate, xmp_write, xmp_fallocate, xmp_setxattr, xmp_removexattr, xmp_create,
  xmp_utimens, xmp_fsync,
}
use fsyncer.FrontEnd.{write_call}

-- `fuse_context`, `fuse_file_info`, the fields that are read.
pub record FuseContext : Type 0 where
  pub uid : ℕ
  pub gid : ℕ

pub record FuseFileInfo : Type 0 where
  pub flags : ℕ
  pub fh : ℕ

-- What an operation gives `pre_op`, and what it does on the backing store.
pub record Operation (Res : Type 0) : Type 0 where
  pub call : VfsCall
  pub carry : Program Res

-- `(*fi).fh as c_int`.
abbrev pub handle : FuseFileInfo → ℕ
handle fi = fi.fh % two_32

-- `if fi.is_null() { path } else { file }`.
abbrev pub path_or_file : FilePath → Option FuseFileInfo → Target
path_or_file real_path none = Target.left real_path
path_or_file real_path (some fi) = Target.right (handle fi)

-- `assert!(!fi.is_null())`.
abbrev pub with_handle : Option FuseFileInfo → (ℕ → Program ℕ) → Program ℕ
with_handle none f = Program.panicked
with_handle (some fi) f = f (handle fi)

module _ (context : FuseContext) (root : FilePath) where
  abbrev owner : FileSecurity
  owner = FileSecurity.unix context.uid context.gid

  unfoldable pub do_mknod : FilePath → ℕ → ℕ → Operation ℕ
  do_mknod path mode rdev = record {
    call = VfsCall.mknod path mode rdev owner;
    carry = xmp_mknod (translate_path path root) mode rdev context.uid context.gid;
  }

  unfoldable pub do_mkdir : FilePath → ℕ → Operation ℕ
  do_mkdir path mode = record {
    call = VfsCall.mkdir path owner mode;
    carry = xmp_mkdir (translate_path path root) mode context.uid context.gid;
  }

  unfoldable pub do_unlink : FilePath → Operation ℕ
  do_unlink path = record {
    call = VfsCall.unlink path;
    carry = xmp_unlink (translate_path path root);
  }

  unfoldable pub do_rmdir : FilePath → Operation ℕ
  do_rmdir path = record { call = VfsCall.rmdir path; carry = xmp_rmdir (translate_path path root) }

  unfoldable pub do_symlink : FilePath → FilePath → Operation ℕ
  do_symlink from to = record {
    call = VfsCall.symlink from to owner;
    carry = xmp_symlink from (translate_path to root) context.uid context.gid;
  }

  unfoldable pub do_rename : FilePath → FilePath → ℕ → Operation ℕ
  do_rename from to flags = record {
    call = VfsCall.rename from to flags;
    carry = xmp_rename (translate_path from root) (translate_path to root) flags;
  }

  unfoldable pub do_link : FilePath → FilePath → Operation ℕ
  do_link from to = record {
    call = VfsCall.link from to owner;
    carry = xmp_link (translate_path from root) (translate_path to root) context.uid context.gid;
  }

  unfoldable pub do_chmod : FilePath → ℕ → Option FuseFileInfo → Operation ℕ
  do_chmod path mode fi = record {
    call = VfsCall.chmod path mode;
    carry = xmp_chmod (path_or_file (translate_path path root) fi) mode;
  }

  unfoldable pub do_chown : FilePath → ℕ → ℕ → Option FuseFileInfo → Operation ℕ
  do_chown path uid gid fi = record {
    call = VfsCall.security path (FileSecurity.unix uid gid);
    carry = xmp_chown (path_or_file (translate_path path root) fi) uid gid;
  }

  unfoldable pub do_truncate : FilePath → ℕ → Option FuseFileInfo → Operation ℕ
  do_truncate path size fi = record {
    call = VfsCall.truncate path size;
    carry = xmp_truncate (path_or_file (translate_path path root) fi) size;
  }

  unfoldable pub do_setxattr : FilePath → List ℕ → List ℕ → ℕ → Operation ℕ
  do_setxattr path name value flags = record {
    call = VfsCall.setxattr path name value flags;
    carry = xmp_setxattr (Target.left (translate_path path root)) name value flags;
  }

  unfoldable pub do_removexattr : FilePath → List ℕ → Operation ℕ
  do_removexattr path name = record {
    call = VfsCall.removexattr path name;
    carry = xmp_removexattr (Target.left (translate_path path root)) name;
  }

  unfoldable pub do_utimens : FilePath → Timespec → Timespec → Option FuseFileInfo → Operation ℕ
  do_utimens path atime mtime fi = record {
    call =
        VfsCall.utimens path
          (record { atime = atime; mtime = mtime; third = record { high = 0; low = 0 } });
    carry = xmp_utimens (path_or_file (translate_path path root) fi) atime mtime;
  }

  -- The result is the new file, which goes to the caller in `(*fi).fh`, and the code.
  unfoldable pub do_create : FilePath → ℕ → Option FuseFileInfo → Outcome (Operation (Option ℕ × ℕ))
  do_create path mode none = panic
  do_create path mode (some fi) = ok (record {
    call = VfsCall.create path fi.flags owner mode;
    carry = xmp_create (translate_path path root) mode fi.flags context.uid context.gid;
  })

-- The operations on open files.
unfoldable pub do_write :
    Bool → FilePath → List ℕ → ℕ → Option (List ℕ) → Option FuseFileInfo → Outcome (Operation ℕ)
do_write diff_writes path buf offset old fi = write_call diff_writes path offset buf old >>= λ sent.
    ok (record { call = sent.0; carry = with_handle fi (xmp_write sent.1 offset) })

unfoldable pub do_fallocate : FilePath → ℕ → ℕ → ℕ → Option FuseFileInfo → Operation ℕ
do_fallocate path mode offset length fi = record {
  call = VfsCall.fallocate path mode offset length;
  carry = with_handle fi (xmp_fallocate mode offset length);
}

unfoldable pub do_fsync : FilePath → ℕ → Option FuseFileInfo → Operation ℕ
do_fsync path isdatasync fi = record {
  call = VfsCall.fsync path isdatasync;
  carry = with_handle fi (xmp_fsync isdatasync);
}

-- The entries of `fuse_operations` that change names and attributes, with their arguments.
pub data NameRequest : Type 0 where
  mknod : (path : FilePath) (mode rdev : ℕ) → NameRequest
  mkdir : (path : FilePath) (mode : ℕ) → NameRequest
  symlink : (from to : FilePath) → NameRequest
  unlink : (path : FilePath) → NameRequest
  rmdir : (path : FilePath) → NameRequest
  rename : (from to : FilePath) (flags : ℕ) → NameRequest
  link : (from to : FilePath) → NameRequest
  chmod : (path : FilePath) (mode : ℕ) (fi : Option FuseFileInfo) → NameRequest
  chown : (path : FilePath) (uid gid : ℕ) (fi : Option FuseFileInfo) → NameRequest
  truncate : (path : FilePath) (size : ℕ) (fi : Option FuseFileInfo) → NameRequest
  utimens : (path : FilePath) (atime mtime : Timespec) (fi : Option FuseFileInfo) → NameRequest
  setxattr : (path : FilePath) (name value : List ℕ) (flags : ℕ) → NameRequest
  removexattr : (path : FilePath) (name : List ℕ) → NameRequest

unfoldable pub serve : FuseContext → FilePath → NameRequest → Operation ℕ
serve context root (NameRequest.mknod path mode rdev) = do_mknod context root path mode rdev
serve context root (NameRequest.mkdir path mode) = do_mkdir context root path mode
serve context root (NameRequest.symlink from to) = do_symlink context root from to
serve context root (NameRequest.unlink path) = do_unlink context root path
serve context root (NameRequest.rmdir path) = do_rmdir context root path
serve context root (NameRequest.rename from to flags) = do_rename context root from to flags
serve context root (NameRequest.link from to) = do_link context root from to
serve context root (NameRequest.chmod path mode fi) = do_chmod context root path mode fi
serve context root (NameRequest.chown path uid gid fi) = do_chown context root path uid gid fi
serve context root (NameRequest.truncate path size fi) = do_truncate context root path size fi
serve context root (NameRequest.utimens path atime mtime fi) =
    do_utimens context root path atime mtime fi
serve context root (NameRequest.setxattr path name value flags) =
    do_setxattr context root path name value flags
serve context root (NameRequest.removexattr path name) = do_removexattr context root path name

-- The entries that work on an open file. `old` is what `read_at` would read for a write.
pub data FileRequest : Type 0 where
  write : (path : FilePath) (buf : List ℕ) (offset : ℕ) (old : Option (List ℕ)) → FileRequest
  fallocate : (path : FilePath) (mode offset length : ℕ) → FileRequest
  fsync : (path : FilePath) (isdatasync : ℕ) → FileRequest

abbrev pub path_of : FileRequest → FilePath
path_of (FileRequest.write path buf offset old) = path
path_of (FileRequest.fallocate path mode offset length) = path
path_of (FileRequest.fsync path isdatasync) = path

unfoldable pub serve_file : Bool → Option FuseFileInfo → FileRequest → Outcome (Operation ℕ)
serve_file diff_writes fi (FileRequest.write path buf offset old) =
    do_write diff_writes path buf offset old fi
serve_file diff_writes fi (FileRequest.fallocate path mode offset length) =
    ok (do_fallocate path mode offset length fi)
serve_file diff_writes fi (FileRequest.fsync path isdatasync) = ok (do_fsync path isdatasync fi)
