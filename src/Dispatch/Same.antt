-- ===== src/Dispatch/Same.antt =====
-- The client makes the system calls that the server makes, each below its own root: `dispatch` of
-- fsyncd/src/client/dispatch_unix.rs and the `do_` functions of fsyncd/src/fuse_hl/write_unix.rs.
use fsyncer.Base.{
  ℕ, ◌+◌, ◌-◌, ◌%◌, ◌==◌, if◌then◌else◌, length, ◌≡◌, refl, sym, ap, ◌∙◌, true, false, List, ◌∷◌,
  Option, none, some, Outcome, ok, err, panic, ◌>>=◌,
}
use fsyncer.Common.{VfsCall}
use fsyncer.Common.Buffers.{xor_prefix}
use fsyncer.Common.Paths.{FilePath, translate_path}
use fsyncer.Kernel.{SysCall, Answer, Program, bind}
use fsyncer.Kernel.Xmp.{xmp_write, xmp_fallocate, xmp_fsync}
use fsyncer.Dispatch.{dispatch, with_file, use_file, close_with, close_created}
use fsyncer.Common.Words.{two_64}
use fsyncer.FrontEnd.{write_call, range, leading_zeroes, trailing_zeroes}
use fsyncer.FrontEnd.Requests.{
  FuseContext, FuseFileInfo, Operation, NameRequest, serve, do_mknod, do_mkdir, do_unlink, do_rmdir,
  do_symlink, do_rename, do_link, do_chmod, do_chown, do_truncate, do_setxattr, do_removexattr,
  do_utimens, do_create, do_write, do_fallocate, do_fsync, FileRequest, serve_file, path_of, handle,
  with_handle,
}

-- The request without its open file.
abbrev pub by_name : NameRequest → NameRequest
by_name (NameRequest.chmod path mode fi) = NameRequest.chmod path mode none
by_name (NameRequest.chown path uid gid fi) = NameRequest.chown path uid gid none
by_name (NameRequest.truncate path size fi) = NameRequest.truncate path size none
by_name (NameRequest.utimens path atime mtime fi) = NameRequest.utimens path atime mtime none
by_name request = request

-- For a request on a name, with or without an open file, `dispatch` of the server's call below any
-- root is the program of system calls that the server runs for the request by name below that root.
pub dispatch-serve :
    (context : FuseContext) (server root : FilePath) (request : NameRequest)
    → dispatch (serve context server request).call root
      ≡ (serve context root (by_name request)).carry
unfolding dispatch serve do_mknod do_mkdir do_unlink do_rmdir do_symlink do_rename do_link do_chmod
    do_chown do_truncate do_setxattr do_removexattr do_utimens
dispatch-serve context server root (NameRequest.mknod path mode rdev) = refl
dispatch-serve context server root (NameRequest.mkdir path mode) = refl
dispatch-serve context server root (NameRequest.symlink from to) = refl
dispatch-serve context server root (NameRequest.unlink path) = refl
dispatch-serve context server root (NameRequest.rmdir path) = refl
dispatch-serve context server root (NameRequest.rename from to flags) = refl
dispatch-serve context server root (NameRequest.link from to) = refl
dispatch-serve context server root (NameRequest.chmod path mode fi) = refl
dispatch-serve context server root (NameRequest.chown path uid gid fi) = refl
dispatch-serve context server root (NameRequest.truncate path size fi) = refl
dispatch-serve context server root (NameRequest.utimens path atime mtime fi) = refl
dispatch-serve context server root (NameRequest.setxattr path name value flags) = refl
dispatch-serve context server root (NameRequest.removexattr path name) = refl

-- The program opens the file and, with its descriptor, does what `carry` does; then it closes it.
abbrev pub Opens : FilePath → Program ℕ → (ℕ → Program ℕ) → Type 0
Opens path program carry =
    (k : Answer → Program ℕ) × ((program ≡ Program.call (SysCall.open_options path) k)
      × ((fd : ℕ) → k (Answer.returned fd) ≡ bind (carry fd) (close_with fd)))

-- What the server does for a request with an open file, as a function of its descriptor.
pub record IsServed (request : FileRequest) (call : VfsCall) (carry : ℕ → Program ℕ) : Type 0 where
  pub served :
      (fi : FuseFileInfo)
      → serve_file false (some fi) request ≡ ok (record { call = call; carry = carry (handle fi) })

with_file-Opens : (path : FilePath) (f : ℕ → Program ℕ) → Opens path (with_file path f) f
unfolding with_file
with_file-Opens path f = (use_file f, (refl, λ fd. refl))

-- Without diff writes, for a write, a fallocate and an fsync, `dispatch` of the server's call opens
-- the file below the root, makes with it the system calls that the server makes with its own open
-- file, and closes it.
pub dispatch-serve_file :
    (root : FilePath) (request : FileRequest)
    → (call : VfsCall) × ((carry : ℕ → Program ℕ) × (IsServed request call carry
          × Opens (translate_path (path_of request) root) (dispatch call root) carry))
unfolding dispatch serve_file do_write write_call do_fallocate do_fsync
dispatch-serve_file root (FileRequest.write path buf offset old) = (
  VfsCall.write path offset buf,
  (
    xmp_write buf offset,
    (
      record { served = λ fi. refl },
      with_file-Opens (translate_path path root) (xmp_write buf offset),
    ),
  ),
)
dispatch-serve_file root (FileRequest.fallocate path mode offset length) = (
  VfsCall.fallocate path mode offset length,
  (
    xmp_fallocate mode offset length,
    (
      record { served = λ fi. refl },
      with_file-Opens (translate_path path root) (xmp_fallocate mode offset length),
    ),
  ),
)
dispatch-serve_file root (FileRequest.fsync path isdatasync) = (
  VfsCall.fsync path isdatasync,
  (
    xmp_fsync isdatasync,
    (
      record { served = λ fi. refl },
      with_file-Opens (translate_path path root) (xmp_fsync isdatasync),
    ),
  ),
)

-- For a create with a `fuse_file_info` the client makes the server's system calls below its own
-- root, and closes the file that they have opened.
pub dispatch-create :
    (context : FuseContext) (server root path : FilePath) (mode : ℕ) (fi : FuseFileInfo)
    → (op : Operation (Option ℕ × ℕ)) × ((op' : Operation (Option ℕ × ℕ)) × (do_create context
            server path mode
            (some fi)
          ≡ ok op)
        × ((do_create context root path mode (some fi) ≡ ok op')
            × (dispatch op.call root ≡ bind op'.carry close_created)))
unfolding dispatch do_create
dispatch-create context server root path mode fi = (_, (_, refl, (refl, refl)))

-- `dispatch` of the call that an operation sends, if there is an operation.
abbrev dispatched : FilePath → Outcome (Operation ℕ) → Program ℕ
dispatched root (ok op) = dispatch op.call root
dispatched root _ = Program.panicked

dispatched-range :
    (root path : FilePath) (offset at : ℕ) (new_buf : List ℕ) (fi : Option FuseFileInfo)
    (sent : Outcome (List ℕ))
    → dispatched root (
        ((sent >>= λ buf. ok (VfsCall.diff_write path at buf))
          >>= (λ call. (let pair : VfsCall × List ℕ = (call, new_buf) in ok pair)))
        >>= (λ sent.
            ok (record { call = sent.0; carry = with_handle fi (xmp_write sent.1 offset) })))
      ≡ Program.panicked
unfolding dispatch
dispatched-range root path offset at new_buf fi (ok buf) = refl
dispatched-range root path offset at new_buf fi (err kind) = refl
dispatched-range root path offset at new_buf fi panic = refl

-- With diff writes, the client panics on each write that is sent where the server's read of the old
-- bytes gave at least one.
dispatch-diff_write :
    (root path : FilePath) (buf : List ℕ) (offset b : ℕ) (old : List ℕ) (fi : Option FuseFileInfo)
    (op : Operation ℕ)
    → do_write true path buf offset (some (b ∷ old)) fi ≡ ok op
    → dispatch op.call root ≡ Program.panicked
unfolding do_write write_call
dispatch-diff_write root path buf offset b old fi op h =
    let new_buf = xor_prefix buf (b ∷ old) in
    let trailing = if length (b ∷ old) == length new_buf then trailing_zeroes new_buf else 0 in
    sym (ap (dispatched root) h)
    ∙ dispatched-range root path offset ((offset + leading_zeroes new_buf) % two_64) new_buf fi
        (range new_buf (leading_zeroes new_buf) (length new_buf - trailing))
