-- ===== src/Snapshot/Apply.antt =====
-- `SnapshotApply` of fsyncd/src/snapshot/forward.rs: the calls that a snapshot stands for.
pub mod Calls
pub mod Complete
pub mod Broken
use fsyncer.Base.{ℕ, zero, suc, Bool, List, [], ◌∷◌, Option, none, some, Outcome, ok, panic, ◌>>=◌}
use fsyncer.Common.{VfsCall, FileSecurity}
use fsyncer.Common.Paths.{FilePath}
use fsyncer.Snapshot.{Block, DataList, File, FileType, FileSize, Snapshot}
use fsyncer.Snapshot.Ordered.{Tree}

abbrev pub Attrs : Type 0
Attrs = List (List ℕ × Option (List ℕ))

-- The file whose calls are being made, without its data and attributes, and what is left.
pub record SnapshotApply : Type 0 where
  pub serialised : ℕ → ℕ
  pub file_iter : Tree FilePath File
  pub current_file : Option (FilePath × File)
  pub data_iter : Option DataList
  pub xattr_iter : Option Attrs

unfoldable pub apply : Snapshot → SnapshotApply
apply snapshot = record {
  serialised = snapshot.serialised;
  file_iter = snapshot.files;
  current_file = none;
  data_iter = none;
  xattr_iter = none;
}

-- `read_exact_at`.
abbrev pub read_bytes : (ℕ → ℕ) → ℕ → ℕ → List ℕ
read_bytes bytes location zero = []
read_bytes bytes location (suc n) = bytes location ∷ read_bytes bytes (suc location) n

-- `take().unwrap()`.
abbrev unwrap : {A : Type 0} → Option A → Outcome A
unwrap none = panic
unwrap (some a) = ok a

abbrev pub owner : File → Outcome FileSecurity
owner file = unwrap file.uid >>= λ uid. unwrap file.gid >>= λ gid. ok (FileSecurity.unix uid gid)

-- The call that makes the file; none for a file that was there before.
unfoldable pub making : FilePath → File → FileType → Outcome (Option VfsCall)
making path file FileType.invalid = panic
making path file FileType.opened = ok none
making path file FileType.directory = unwrap file.mode >>= λ mode.
    owner file >>= λ security. ok (some (VfsCall.mkdir path security mode))
making path file (FileType.new_file flags) = unwrap file.mode >>= λ mode.
    owner file >>= λ security. ok (some (VfsCall.create path flags security mode))
making path file (FileType.special rdev) = unwrap file.mode >>= λ mode.
    owner file >>= λ security. ok (some (VfsCall.mknod path mode rdev security))
making path file (FileType.symlink from) =
    owner file >>= λ security. ok (some (VfsCall.symlink from path security))
making path file (FileType.hardlink from) =
    owner file >>= λ security. ok (some (VfsCall.link from path security))
making path file (FileType.moved from) = ok (some (VfsCall.rename from path 0))

-- The fields that `making` takes out of the file.
unfoldable pub made : File → FileType → File
made file FileType.directory = record file { uid = none; gid = none; mode = none }
made file (FileType.new_file flags) = record file { uid = none; gid = none; mode = none }
made file (FileType.special rdev) = record file { uid = none; gid = none; mode = none }
made file (FileType.symlink from) = record file { uid = none; gid = none }
made file (FileType.hardlink from) = record file { uid = none; gid = none }
made file _ = file

-- `CStr::from_bytes_with_nul(..).unwrap()`: the bytes before a zero byte, which is the last and the
-- only one.
abbrev pub from_bytes_with_nul : List ℕ → Outcome (List ℕ)
from_bytes_with_nul [] = panic
from_bytes_with_nul (zero ∷ []) = ok []
from_bytes_with_nul (zero ∷ b ∷ bs) = panic
from_bytes_with_nul (suc b ∷ bs) = from_bytes_with_nul bs >>= λ rest. ok (suc b ∷ rest)

abbrev pub attr_call : FilePath → List ℕ × Option (List ℕ) → Outcome VfsCall
attr_call path (k, some value) =
    from_bytes_with_nul k >>= λ name. ok (VfsCall.setxattr path name value 0)
attr_call path (k, none) = from_bytes_with_nul k >>= λ name. ok (VfsCall.removexattr path name)

-- The next call for an attribute of a file: the call, what is left of the file and the attributes;
-- none when there is no more.
abbrev pub Next : Type 0
Next = Option (Outcome VfsCall × (File × Option Attrs))

abbrev next_xattr : FilePath → File → Option Attrs → Next
next_xattr path file (some (attr ∷ attrs)) = some (attr_call path attr, (file, some attrs))
next_xattr path file _ = none

abbrev next_time : FilePath → File → Option Attrs → Next
next_time path file attrs = elim file.time [
  | none ↦ next_xattr path file attrs
  | some timespec ↦ some (ok (VfsCall.utimens path timespec), (record file { time = none }, attrs))
]

abbrev next_size : FilePath → File → Option Attrs → Next
next_size path file attrs = elim file.size [
  | FileSize.unknown ↦ next_time path file attrs
  | FileSize.exactly size ↦
      some (ok (VfsCall.truncate path size), (record file { size = FileSize.unknown }, attrs))
  | FileSize.more_than size ↦
      some (ok (VfsCall.fallocate path 0 0 size), (record file { size = FileSize.unknown }, attrs))
]

abbrev next_mode : FilePath → File → Option Attrs → Next
next_mode path file attrs = elim file.mode [
  | none ↦ next_size path file attrs
  | some mode ↦ some (ok (VfsCall.chmod path mode), (record file { mode = none }, attrs))
]

abbrev owned : FilePath → File → Option ℕ → Option ℕ → Option Attrs → Next
owned path file (some uid) (some gid) attrs =
    some (ok (VfsCall.security path (FileSecurity.unix uid gid)), (file, attrs))
owned path file _ _ attrs = next_mode path file attrs

unfoldable pub next_attribute : FilePath → File → Option Attrs → Next
next_attribute path file attrs =
    owned path (record file { uid = none; gid = none }) file.uid file.gid attrs

abbrev pub Step : Type 0
Step = Outcome (Option (VfsCall × SnapshotApply))

-- A call for the file, which stays the current one.
abbrev pub yield : SnapshotApply → FilePath → Outcome VfsCall × (File × Option Attrs) → Step
yield st path (call, (file, attrs)) =
    call >>= λ c. ok (some (c, record st { current_file = some (path, file); xattr_iter = attrs }))

-- `next` where there is no current file: `self.next()` at the end of a file that was there before
-- comes back to the blocks of that file.
unfoldable pub next_file : (ℕ → ℕ) → Tree FilePath File → Step
next_file serialised [] = ok none
next_file serialised ((path, file) ∷ files) =
    let rest = next_file serialised files in
    let st : SnapshotApply = record {
      serialised = serialised;
      file_iter = files;
      current_file = none;
      data_iter = file.contents;
      xattr_iter = file.xattrs;
    } in
    making path file file.ty >>= λ call. elim call [
      | some c ↦ ok (
          some (
            c,
            record st {
              current_file =
                  some (path, record (made file file.ty) { contents = none; xattrs = none });
            },
          ))
      | none ↦
          elim (next_attribute path (record file { contents = none; xattrs = none }) file.xattrs) [
            | some attribute ↦ yield st path attribute
            | none ↦ elim file.contents [
              | none ↦ rest
              | some blocks ↦ elim blocks [ [] ↦ rest | e ∷ more ↦ panic ]
            ]
          ]
    ]

-- `next` behind the blocks of the current file.
abbrev pub next_current : SnapshotApply → Step
next_current st = elim st.current_file [
  | none ↦ next_file st.serialised st.file_iter
  | some cur ↦ elim (next_attribute cur.0 cur.1 st.xattr_iter) [
    | none ↦ next_file st.serialised st.file_iter
    | some attribute ↦ yield st cur.0 attribute
  ]
]

abbrev next_blocks : SnapshotApply → DataList → Step
next_blocks st [] = next_current (record st { data_iter = none })
next_blocks st ((offset, block) ∷ blocks) = elim st.current_file [
  | none ↦ panic
  | some cur ↦ ok (
      some (
        VfsCall.write cur.0 offset (read_bytes st.serialised block.location block.size),
        record st { data_iter = some blocks },
      ))
]

unfoldable pub next : SnapshotApply → Step
next st = elim st.data_iter [ none ↦ next_current st | some blocks ↦ next_blocks st blocks ]
