-- ===== src/Dispatch/Placed.antt =====
-- The programs that `dispatch` (fsyncd/src/client/dispatch_unix.rs) is made of, placed below a root.
use fsyncer.Base.{
  ℕ, ◌≡◌, refl, ap, ◌∙◌, Bool, true, false, List, Option, none, some, if◌then◌else◌, ◌==◌,
}
use fsyncer.Common.Paths.{FilePath, translate_path}
use fsyncer.Kernel.{Target, SysCall, Answer, Program, bind}
use fsyncer.Kernel.Roots.{
  place, place_target, place_program, call-ext, place_program-bind, bind-ext,
}
use fsyncer.Kernel.Xmp.{
  try_call, or_errno, minus_result, as_c_int, opened_by, is_fifo, xmp_mknod, xmp_rename, xmp_chown,
  xmp_truncate, xmp_write, xmp_fallocate, xmp_create, xmp_fsync,
}
use fsyncer.Dispatch.{
  with_file, use_file, close_with, close_created, write_and_truncate, is_negative,
}

module _ (root : FilePath) where
  place-or_errno :
      (p q : Program ℕ) (answer : Answer)
      → place_program root p ≡ q
      → place_program root (or_errno p answer) ≡ or_errno q answer
  place-or_errno p q (Answer.returned n) h = h
  place-or_errno p q (Answer.failed errno) h = refl

  pub place-try_call :
      (s : SysCall) {p q : Program ℕ}
      → place_program root p ≡ q
      → place_program root (try_call s p) ≡ try_call (place root s) q
  place-try_call s {p} {q} h = call-ext (place root s) (λ answer. place-or_errno p q answer h)

  pub place-chown :
      (target : Target) (uid gid : ℕ)
      → place_program root (xmp_chown target uid gid) ≡ xmp_chown (place_target root target) uid gid
  unfolding xmp_chown
  place-chown target uid gid = place-try_call (SysCall.chown target uid gid) refl

  pub place-mknod :
      (path : FilePath) (mode rdev uid gid : ℕ)
      → place_program root (xmp_mknod path mode rdev uid gid)
        ≡ xmp_mknod (translate_path path root) mode rdev uid gid
  unfolding xmp_mknod
  place-mknod path mode rdev uid gid =
      place-try_call
        (if is_fifo mode then SysCall.mkfifo path mode else SysCall.mknod path mode rdev)
        (place-chown (Target.left path) uid gid)
      ∙ ap (λ s. try_call s (xmp_chown (Target.left (translate_path path root)) uid gid))
          (place-if (is_fifo mode))
    where
      place-if :
          (b : Bool)
          → place root (if b then SysCall.mkfifo path mode else SysCall.mknod path mode rdev) ≡ (
              if b
              then SysCall.mkfifo (translate_path path root) mode
              else SysCall.mknod (translate_path path root) mode rdev)
      place-if true = refl
      place-if false = refl

  pub place-rename :
      (from to : FilePath) (flags : ℕ)
      → place_program root (xmp_rename from to flags)
        ≡ xmp_rename (translate_path from root) (translate_path to root) flags
  unfolding xmp_rename
  place-rename from to flags = call-ext (place root (SysCall.renameat2 from to flags)) answers
    where
      answers : (answer : Answer) → place_program root (minus_result answer) ≡ minus_result answer
      answers (Answer.returned n) = refl
      answers (Answer.failed errno) = refl

  pub place-write :
      (buf : List ℕ) (offset fd : ℕ)
      → place_program root (xmp_write buf offset fd) ≡ xmp_write buf offset fd
  unfolding xmp_write
  place-write buf offset fd = call-ext (SysCall.pwrite fd buf offset) answers
    where
      answers : (answer : Answer) → place_program root (as_c_int answer) ≡ as_c_int answer
      answers (Answer.returned n) = refl
      answers (Answer.failed errno) = refl

  pub place-fsync :
      (isdatasync fd : ℕ) → place_program root (xmp_fsync isdatasync fd) ≡ xmp_fsync isdatasync fd
  unfolding xmp_fsync
  place-fsync isdatasync fd = by_test (isdatasync == 0)
    where
      by_test :
          (b : Bool)
          → place_program root
              (try_call (if b then SysCall.fsync fd else SysCall.fdatasync fd) (Program.done 0))
            ≡ try_call (if b then SysCall.fsync fd else SysCall.fdatasync fd) (Program.done 0)
      by_test true = place-try_call (SysCall.fsync fd) refl
      by_test false = place-try_call (SysCall.fdatasync fd) refl

  pub place-truncate :
      (target : Target) (size : ℕ)
      → place_program root (xmp_truncate target size) ≡ xmp_truncate (place_target root target) size
  unfolding xmp_truncate
  place-truncate target size = place-try_call (SysCall.truncate target size) refl

  pub place-write_and_truncate :
      (buf : List ℕ) (offset length fd : ℕ)
      → place_program root (write_and_truncate buf offset length fd)
        ≡ write_and_truncate buf offset length fd
  unfolding write_and_truncate
  place-write_and_truncate buf offset length fd =
      place_program-bind root (xmp_write buf offset fd) _
      ∙ bind-ext (place-write buf offset fd) (λ res. after_write res (is_negative res))
    where
      after_truncate :
          (res tres : ℕ) (b : Bool)
          → place_program root (if b then Program.done tres else Program.done res)
            ≡ (if b then Program.done tres else Program.done res)
      after_truncate res tres true = refl
      after_truncate res tres false = refl

      after_write :
          (res : ℕ) (b : Bool)
          → place_program root (
              if b
              then Program.done res
              else bind
                  (xmp_truncate (Target.right fd) length)
                  (λ tres. if is_negative tres then Program.done tres else Program.done res))
            ≡ (if b
                then Program.done res
                else bind
                    (xmp_truncate (Target.right fd) length)
                    (λ tres. if is_negative tres then Program.done tres else Program.done res))
      after_write res true = refl
      after_write res false =
          place_program-bind root (xmp_truncate (Target.right fd) length) _
          ∙ bind-ext (place-truncate (Target.right fd) length)
              (λ tres. after_truncate res tres (is_negative tres))

  pub place-fallocate :
      (mode offset length fd : ℕ)
      → place_program root (xmp_fallocate mode offset length fd)
        ≡ xmp_fallocate mode offset length fd
  unfolding xmp_fallocate
  place-fallocate mode offset length fd =
      place-try_call (SysCall.fallocate fd mode offset length) refl

  pub place-with_file :
      (path : FilePath) (f : ℕ → Program ℕ)
      → ((fd : ℕ) → place_program root (f fd) ≡ f fd)
      → place_program root (with_file path f) ≡ with_file (translate_path path root) f
  unfolding with_file
  place-with_file path f h = call-ext (place root (SysCall.open_options path)) answers
    where
      answers : (answer : Answer) → place_program root (use_file f answer) ≡ use_file f answer
      answers (Answer.failed errno) = refl
      answers (Answer.returned fd) =
          place_program-bind root (f fd) (close_with fd) ∙ bind-ext (h fd) (λ res. refl)

  pub place-close_created :
      (created : Option ℕ × ℕ) → place_program root (close_created created) ≡ close_created created
  place-close_created (none, res) = refl
  place-close_created (some fd, res) = refl

  pub place-create :
      (path : FilePath) (mode flags uid gid : ℕ)
      → place_program root (xmp_create path mode flags uid gid)
        ≡ xmp_create (translate_path path root) mode flags uid gid
  unfolding xmp_create
  place-create path mode flags uid gid =
      call-ext (place root (SysCall.open_flags path flags mode)) answers
    where
      answers :
          (answer : Answer)
          → place_program root (opened_by uid gid answer) ≡ opened_by uid gid answer
      answers (Answer.failed errno) = refl
      answers (Answer.returned fd) =
          place_program-bind root (xmp_chown (Target.right fd) uid gid)
            (λ res. Program.done (some fd, res))
          ∙ bind-ext (place-chown (Target.right fd) uid gid) (λ res. refl)
