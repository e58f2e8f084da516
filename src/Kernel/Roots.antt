-- ===== src/Kernel/Roots.antt =====
-- Programs of system calls below a root: each path of each call translated.
use fsyncer.Base.{◌≡◌, refl, inl, inr, Bool-cases}
use fsyncer.Common.Paths.{FilePath, empty_path, translate_path}
use fsyncer.Kernel.{Target, SysCall, Answer, Program, bind}

abbrev pub place_target : FilePath → Target → Target
place_target root (Target.left path) = Target.left (translate_path path root)
place_target root (Target.right fd) = Target.right fd

-- The target of a symbolic link is no path that the call follows, and stays.
abbrev pub place : FilePath → SysCall → SysCall
place root (SysCall.mkfifo path mode) = SysCall.mkfifo (translate_path path root) mode
place root (SysCall.mknod path mode rdev) = SysCall.mknod (translate_path path root) mode rdev
place root (SysCall.mkdir path mode) = SysCall.mkdir (translate_path path root) mode
place root (SysCall.unlink path) = SysCall.unlink (translate_path path root)
place root (SysCall.rmdir path) = SysCall.rmdir (translate_path path root)
place root (SysCall.symlink from to) = SysCall.symlink from (translate_path to root)
place root (SysCall.lchown path uid gid) = SysCall.lchown (translate_path path root) uid gid
place root (SysCall.renameat2 from to flags) =
    SysCall.renameat2 (translate_path from root) (translate_path to root) flags
place root (SysCall.link from to) = SysCall.link (translate_path from root) (translate_path to root)
place root (SysCall.chmod target mode) = SysCall.chmod (place_target root target) mode
place root (SysCall.chown target uid gid) = SysCall.chown (place_target root target) uid gid
place root (SysCall.truncate target size) = SysCall.truncate (place_target root target) size
place root (SysCall.setxattr target name value flags) =
    SysCall.setxattr (place_target root target) name value flags
place root (SysCall.removexattr target name) = SysCall.removexattr (place_target root target) name
place root (SysCall.open_flags path flags mode) =
    SysCall.open_flags (translate_path path root) flags mode
place root (SysCall.open_options path) = SysCall.open_options (translate_path path root)
place root (SysCall.utimens target atime mtime) =
    SysCall.utimens (place_target root target) atime mtime
place root s = s

abbrev pub place_program : {A : Type 0} → FilePath → Program A → Program A
place_program root (Program.done a) = Program.done a
place_program root (Program.call s k) =
    Program.call (place root s) (λ answer. place_program root (k answer))
place_program root Program.panicked = Program.panicked

-- Translating a path to no root changes nothing for another root.
pub translate_path-empty :
    (path root : FilePath)
    → translate_path (translate_path path empty_path) root ≡ translate_path path root
unfolding translate_path
translate_path-empty path root = elim (Bool-cases path.is_absolute) [
  | inl h ↦ rw h refl
  | inr h ↦ rw h refl
]

pub call-ext :
    {A : Type 0} (s : SysCall) {k l : Answer → Program A}
    → ((answer : Answer) → k answer ≡ l answer)
    → Program.call s k ≡ Program.call s l
call-ext s h = λ i. Program.call s (λ answer. h answer i)

pub place_program-bind :
    {A B : Type 0} (root : FilePath) (p : Program A) (f : A → Program B)
    → place_program root (bind p f) ≡ bind (place_program root p) (λ a. place_program root (f a))
place_program-bind root (Program.done a) f = refl
place_program-bind root (Program.call s k) f =
    call-ext (place root s) (λ answer. place_program-bind root (k answer) f)
place_program-bind root Program.panicked f = refl

pub bind-ext :
    {A B : Type 0} {p q : Program A} {f g : A → Program B}
    → p ≡ q
    → ((a : A) → f a ≡ g a)
    → bind p f ≡ bind q g
bind-ext e h = λ i. bind (e i) (λ a. h a i)
