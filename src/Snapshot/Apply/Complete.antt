-- ===== src/Snapshot/Apply/Complete.antt =====
-- `SnapshotApply` of fsyncd/src/snapshot/forward.rs comes to an end, and has then gone through every
-- file.
use fsyncer.Base.{
  ℕ, zero, suc, ◌≡◌, refl, ◌∙◌, List, [], ◌∷◌, All, Option, none, some, ok, panic, ◌⊎◌, inl, inr,
}
use fsyncer.Common.{VfsCall, Times}
use fsyncer.Common.Paths.{FilePath}
use fsyncer.Snapshot.{DataList, File, FileType, FileSize, Snapshot}
use fsyncer.Snapshot.Ordered.{Tree}
use fsyncer.Snapshot.Apply.{
  SnapshotApply, apply, next, next_file, next_attribute, making, made, attr_call,
  from_bytes_with_nul, Attrs,
}
use fsyncer.Snapshot.Apply.Calls.{
  Calls, Yields, xattr_calls, some_xattrs, time_calls, size_calls, mode_calls, attribute_calls,
  blocks_calls, snapshot_calls,
}

Yields-next :
    {st st' : SnapshotApply} {calls : Calls}
    → next st ≡ next st'
    → Yields st' calls
    → Yields st calls
Yields-next e (Yields.at_end e') = Yields.at_end (e ∙ e')
Yields-next e (Yields.at_panic e') = Yields.at_panic (e ∙ e')
Yields-next e (Yields.at_call e' y) = Yields.at_call (e ∙ e') y

from_bytes-cases :
    (k : List ℕ)
    → ((name : List ℕ) × (from_bytes_with_nul k ≡ ok name)) ⊎ (from_bytes_with_nul k ≡ panic)
from_bytes-cases [] = inr refl
from_bytes-cases (zero ∷ []) = inl ([], refl)
from_bytes-cases (zero ∷ b ∷ bs) = inr refl
from_bytes-cases (suc b ∷ bs) = elim (from_bytes-cases bs) [
  | inl (name, e) ↦ inl (suc b ∷ name, rw (e, from_bytes_with_nul) refl)
  | inr e ↦ inr (rw (e, from_bytes_with_nul) refl)
]

attr_call-cases :
    (path : FilePath) (attr : List ℕ × Option (List ℕ))
    → ((call : VfsCall) × (attr_call path attr ≡ ok call)) ⊎ (attr_call path attr ≡ panic)
attr_call-cases path (k, some value) = elim (from_bytes-cases k) [
  | inl (name, e) ↦ inl (VfsCall.setxattr path name value 0, rw e refl)
  | inr e ↦ inr (rw e refl)
]
attr_call-cases path (k, none) = elim (from_bytes-cases k) [
  | inl (name, e) ↦ inl (VfsCall.removexattr path name, rw e refl)
  | inr e ↦ inr (rw e refl)
]

-- What is left of a file whose data and extended attributes are taken.
abbrev left : Option ℕ → Option ℕ → Option ℕ → FileSize → Option Times → FileType → File
left uid gid mode size time ty = record {
  uid = uid;
  gid = gid;
  mode = mode;
  size = size;
  xattrs = none;
  time = time;
  ty = ty;
  contents = none;
}

-- One file, with what follows it: any state that goes on with the files behind it.
module _ (bytes : ℕ → ℕ) (files : Tree FilePath File) (calls : Calls)
    (goes_on : (st : SnapshotApply) → next st ≡ next_file bytes files → Yields st calls)
    (path : FilePath) where
  abbrev state : File → Option DataList → Option Attrs → SnapshotApply
  state file blocks attrs = record {
    serialised = bytes;
    file_iter = files;
    current_file = some (path, file);
    data_iter = blocks;
    xattr_iter = attrs;
  }

  Yields-xattrs :
      (ty : FileType) (attrs : Attrs)
      → Yields
          (state (left none none none FileSize.unknown none ty) none (some attrs))
          (xattr_calls path attrs calls)
  unfolding next next_attribute
  Yields-xattrs ty [] = goes_on _ refl
  Yields-xattrs ty (attr ∷ attrs) = elim (attr_call-cases path attr) [
    | inl (call, e) ↦ rw (e, xattr_calls) (Yields.at_call (rw e refl) (Yields-xattrs ty attrs))
    | inr e ↦ rw (e, xattr_calls) (Yields.at_panic (rw e refl))
  ]

  Yields-some_xattrs :
      (ty : FileType) (attrs : Option Attrs)
      → Yields
          (state (left none none none FileSize.unknown none ty) none attrs)
          (some_xattrs path attrs calls)
  unfolding next next_attribute
  Yields-some_xattrs ty none = goes_on _ refl
  Yields-some_xattrs ty (some attrs) = Yields-xattrs ty attrs

  module _ (ty : FileType) (attrs : Option Attrs) where
    Yields-time :
        (time : Option Times)
        → Yields
            (state (left none none none FileSize.unknown time ty) none attrs)
            (time_calls path time (some_xattrs path attrs calls))
    unfolding next next_attribute
    Yields-time none = Yields-some_xattrs ty attrs
    Yields-time (some timespec) = Yields.at_call refl (Yields-some_xattrs ty attrs)

    Yields-size :
        (size : FileSize) (time : Option Times)
        → Yields
            (state (left none none none size time ty) none attrs)
            (size_calls path size (time_calls path time (some_xattrs path attrs calls)))
    unfolding next next_attribute
    Yields-size FileSize.unknown time = Yields-time time
    Yields-size (FileSize.exactly size) time = Yields.at_call refl (Yields-time time)
    Yields-size (FileSize.more_than size) time = Yields.at_call refl (Yields-time time)

    Yields-mode :
        (mode : Option ℕ) (size : FileSize) (time : Option Times)
        → Yields (state (left none none mode size time ty) none attrs) (
            mode_calls path mode
              (size_calls path size (time_calls path time (some_xattrs path attrs calls))))
    unfolding next next_attribute
    Yields-mode none size time = Yields-size size time
    Yields-mode (some mode) size time = Yields.at_call refl (Yields-size size time)

    Yields-owner :
        (uid gid mode : Option ℕ) (size : FileSize) (time : Option Times)
        → Yields
            (state (left uid gid mode size time ty) none attrs)
            (attribute_calls path (left uid gid mode size time ty) attrs calls)
    unfolding next next_attribute
    Yields-owner none gid mode size time = Yields-next refl (Yields-mode mode size time)
    Yields-owner (some uid) none mode size time = Yields-next refl (Yields-mode mode size time)
    Yields-owner (some uid) (some gid) mode size time =
        Yields.at_call refl (Yields-mode mode size time)

  Yields-blocks :
      (file : File) (attrs : Option Attrs) (rest : Calls) (blocks : Option DataList)
      → Yields (state file none attrs) rest
      → Yields (state file blocks attrs) (blocks_calls bytes path blocks rest)
  unfolding next
  Yields-blocks file attrs rest none y = y
  Yields-blocks file attrs rest (some []) y = Yields-next refl y
  Yields-blocks file attrs rest (some (e ∷ blocks)) y =
      Yields.at_call refl (Yields-blocks file attrs rest (some blocks) y)

-- A file that a call of the journal has made or moved.
abbrev pub IsMade : FilePath × File → Type 0
IsMade (path, file) = (call : VfsCall) × (making path file file.ty ≡ ok (some call))

Yields-files :
    (bytes : ℕ → ℕ) (files : Tree FilePath File)
    → All IsMade files
    → (st : SnapshotApply) → next st ≡ next_file bytes files
    → Yields st (snapshot_calls bytes files)
unfolding next_file
Yields-files bytes [] made_all st e = Yields.at_end e
Yields-files bytes ((path, file) ∷ files) ((call, making_eq), made_all) st e =
    let cf = made file file.ty in
    let goes_on = Yields-files bytes files made_all in
    let calls = snapshot_calls bytes files in
    let y =
      Yields-owner bytes files calls goes_on path cf.ty file.xattrs cf.uid cf.gid cf.mode cf.size
        cf.time in
    rw (making_eq, snapshot_calls)
      (Yields.at_call (e ∙ rw (making_eq, next_file) refl) (
        Yields-blocks bytes files calls goes_on path
          (left cf.uid cf.gid cf.mode cf.size cf.time cf.ty) file.xattrs _ file.contents y))

-- A snapshot in which each file was made or moved by a call: applying it comes to an end, and the
-- calls are, for each file in the order of the paths, the one that makes it, the writes of its
-- blocks, and those for its owner, mode, size, times and extended attributes that are left; a name
-- of an extended attribute without a zero byte at its end is a panic.
pub apply-Yields :
    (snapshot : Snapshot)
    → All IsMade snapshot.files
    → Yields (apply snapshot) (snapshot_calls snapshot.serialised snapshot.files)
unfolding apply next
apply-Yields snapshot made_all =
    Yields-files snapshot.serialised snapshot.files made_all (apply snapshot) refl
