-- ===== src/Dispatch/Reporting.antt =====
-- The codes that the programs of `dispatch` (fsyncd/src/client/dispatch_unix.rs) return for a failure
-- of a system call.
use fsyncer.Base.{
  ℕ, ◌≡◌, refl, sym, subst, Bool, true, false, List, some, ◌==◌, if-cases, ◌⊎◌, inl, inr,
}
use fsyncer.Common.Paths.{FilePath}
use fsyncer.Kernel.{Target, SysCall, Answer, Program, bind, neg_errno}
use fsyncer.Kernel.Xmp.{
  try_call, or_errno, minus_result, as_c_int, opened_by, is_fifo, xmp_mknod, xmp_rename, xmp_chown,
  xmp_write, xmp_create, xmp_fsync,
}
use fsyncer.Dispatch.{with_file, use_file, close_with, close_created}

abbrev pub is_close : SysCall → Bool
is_close (SysCall.close fd) = true
is_close _ = false

-- The program only closes files, and its result is `code`.
abbrev pub Ends : Program ℕ → ℕ → Type 0
Ends (Program.done res) code = res ≡ code
Ends (Program.call s k) code = (is_close s ≡ true) × ((answer : Answer) → Ends (k answer) code)
Ends Program.panicked code = ⊥

-- The code for a failed call: 1 for a rename, the error number for the opening of a file that is
-- written to, and the negated error number for each other call.
abbrev pub reported : SysCall → ℕ → ℕ
reported (SysCall.renameat2 from to flags) errno = 1
reported (SysCall.open_options path) errno = errno
reported _ errno = neg_errno errno

-- Wherever a call of the program fails with `errno`, a `close` aside, files are closed and the code
-- for that call is the result.
abbrev pub Reports : ℕ → Program ℕ → Type 0
Reports errno (Program.done res) = Unit
Reports errno (Program.call s k) =
    ((is_close s ≡ true) ⊎ Ends (k (Answer.failed errno)) (reported s errno))
    × ((answer : Answer) → Reports errno (k answer))
Reports errno Program.panicked = Unit

Ends-bind :
    (p : Program ℕ) (f : ℕ → Program ℕ) (code : ℕ)
    → Ends p code
    → Ends (f code) code
    → Ends (bind p f) code
Ends-bind (Program.done res) f code e h = subst (λ n. Ends (f n) code) (sym e) h
Ends-bind (Program.call s k) f code (closes, e) h =
    (closes, λ answer. Ends-bind (k answer) f code (e answer) h)
Ends-bind Program.panicked f code e h = absurd e

module _ (errno : ℕ) where
  Reports-or_errno :
      (p : Program ℕ) (answer : Answer) → Reports errno p → Reports errno (or_errno p answer)
  Reports-or_errno p (Answer.returned n) h = h
  Reports-or_errno p (Answer.failed e) h = tt

  pub Reports-try_call :
      (s : SysCall) (p : Program ℕ)
      → reported s errno ≡ neg_errno errno
      → Reports errno p
      → Reports errno (try_call s p)
  Reports-try_call s p e h = (inr (sym e), λ answer. Reports-or_errno p answer h)

  Reports-close_with :
      (p : Program ℕ) (fd : ℕ) → Reports errno p → Reports errno (bind p (close_with fd))
  Reports-close_with (Program.done res) fd h = (inl refl, λ answer. tt)
  Reports-close_with (Program.call s k) fd (inl closes, h) =
      (inl closes, λ answer. Reports-close_with (k answer) fd (h answer))
  Reports-close_with (Program.call s k) fd (inr e, h) = (
    inr (
        Ends-bind (k (Answer.failed errno)) (close_with fd) (reported s errno) e
          (refl, λ answer. refl)),
    λ answer. Reports-close_with (k answer) fd (h answer),
  )
  Reports-close_with Program.panicked fd h = tt

  pub Reports-with_file :
      (path : FilePath) (f : ℕ → Program ℕ)
      → ((fd : ℕ) → Reports errno (f fd))
      → Reports errno (with_file path f)
  unfolding with_file
  Reports-with_file path f h = (inr refl, answers)
    where
      answers : (answer : Answer) → Reports errno (use_file f answer)
      answers (Answer.failed e) = tt
      answers (Answer.returned fd) = Reports-close_with (f fd) fd (h fd)

  pub Reports-chown : (target : Target) (uid gid : ℕ) → Reports errno (xmp_chown target uid gid)
  unfolding xmp_chown
  Reports-chown target uid gid =
      Reports-try_call (SysCall.chown target uid gid) (Program.done 0) refl tt

  pub Reports-mknod :
      (path : FilePath) (mode rdev uid gid : ℕ) → Reports errno (xmp_mknod path mode rdev uid gid)
  unfolding xmp_mknod
  Reports-mknod path mode rdev uid gid =
      if-cases (λ s. Reports errno (try_call s (xmp_chown (Target.left path) uid gid)))
        (is_fifo mode)
        (λ h.
          Reports-try_call (SysCall.mkfifo path mode) _ refl
            (Reports-chown (Target.left path) uid gid))
        (λ h.
          Reports-try_call (SysCall.mknod path mode rdev) _ refl
            (Reports-chown (Target.left path) uid gid))

  pub Reports-rename : (from to : FilePath) (flags : ℕ) → Reports errno (xmp_rename from to flags)
  unfolding xmp_rename
  Reports-rename from to flags = (inr refl, answers)
    where
      answers : (answer : Answer) → Reports errno (minus_result answer)
      answers (Answer.returned n) = tt
      answers (Answer.failed e) = tt

  pub Reports-write : (buf : List ℕ) (offset fd : ℕ) → Reports errno (xmp_write buf offset fd)
  unfolding xmp_write
  Reports-write buf offset fd = (inr refl, answers)
    where
      answers : (answer : Answer) → Reports errno (as_c_int answer)
      answers (Answer.returned n) = tt
      answers (Answer.failed e) = tt

  pub Reports-fsync : (isdatasync fd : ℕ) → Reports errno (xmp_fsync isdatasync fd)
  unfolding xmp_fsync
  Reports-fsync isdatasync fd =
      if-cases (λ s. Reports errno (try_call s (Program.done 0))) (isdatasync == 0)
        (λ h. Reports-try_call (SysCall.fsync fd) _ refl tt)
        (λ h. Reports-try_call (SysCall.fdatasync fd) _ refl tt)

  pub Reports-create :
      (path : FilePath) (mode flags uid gid : ℕ)
      → Reports errno (bind (xmp_create path mode flags uid gid) close_created)
  unfolding xmp_create xmp_chown
  Reports-create path mode flags uid gid = (inr refl, answers)
    where
      chowned :
          (fd : ℕ) (answer : Answer)
          → Reports errno (
              bind
                (bind (or_errno (Program.done 0) answer) (λ res. Program.done (some fd, res)))
                close_created)
      chowned fd (Answer.returned n) = (inl refl, λ answer. tt)
      chowned fd (Answer.failed e) = (inl refl, λ answer. tt)

      answers : (answer : Answer) → Reports errno (bind (opened_by uid gid answer) close_created)
      answers (Answer.failed e) = tt
      answers (Answer.returned fd) = (inr (refl, λ answer. refl), chowned fd)
