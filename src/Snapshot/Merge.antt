-- ===== src/Snapshot/Merge.antt =====
-- `merge_from` of fsyncd/src/snapshot/forward.rs: the calls of a journal, one after another, put
-- into the snapshot. Attributes stand in the order of their names, where a `HashMap` has any.
pub mod Names
use Prim.Native.Nat.{compare}
use fsyncer.Base.{
  ℕ, ◌+◌, ◌-◌, ◌%◌, Bool, List, [], ◌∷◌, Option, none, some, Outcome, ok, panic, ◌>>=◌, ltb,
  if◌then◌else◌,
}
use fsyncer.Common.{VfsCall, FileSecurity}
use fsyncer.Common.Paths.{FilePath}
use fsyncer.Common.Words.{two_64}
use fsyncer.Snapshot.{Block, DataList, FreeList, File, FileType, FileSize, Snapshot, default_file}
use fsyncer.Snapshot.Ordered.{Tree, get, insert, remove, last_entry, order_path, order_lists}
use fsyncer.Snapshot.Space.{deallocate}
use fsyncer.Snapshot.Encode.{get_or_open, encode_write}

-- `for (_, block) in d.0 { Snapshot::deallocate(..) }`.
abbrev pub deallocate_all : DataList → FreeList → FreeList
deallocate_all [] free = free
deallocate_all ((o, block) ∷ blocks) free = deallocate_all blocks (deallocate free block)

-- The blocks of a file that goes, if it had data.
abbrev pub deallocate_file : Option File → FreeList → FreeList
deallocate_file none free = free
deallocate_file (some file) free = elim file.contents [
  | none ↦ free
  | some blocks ↦ deallocate_all blocks free
]

-- `assert!(self.files.insert(..).is_none())`.
unfoldable pub insert_new : Snapshot → FilePath → File → Outcome Snapshot
insert_new snapshot path file = elim (get order_path path snapshot.files) [
  | none ↦ ok (record snapshot { files = insert order_path path file snapshot.files })
  | some old ↦ panic
]

unfoldable pub merge_rename : Snapshot → FilePath → FilePath → Snapshot
merge_rename snapshot from to =
    let from_file : File = elim (get order_path from snapshot.files) [
      | none ↦ record default_file { ty = FileType.moved from; contents = some [] }
      | some file ↦ file
    ] in
    let files = remove order_path from snapshot.files in
    record snapshot {
      files = insert order_path to from_file files;
      free_list = deallocate_file (get order_path to files) snapshot.free_list;
    }

-- The blocks of the source, which the link shares.
abbrev shared : Option File → Outcome DataList
shared none = ok []
shared (some file) = elim file.contents [ none ↦ panic | some blocks ↦ ok blocks ]

unfoldable pub merge_link : Snapshot → FilePath → FilePath → ℕ → ℕ → Outcome Snapshot
merge_link snapshot from to uid gid = shared (get order_path from snapshot.files) >>= λ blocks.
    insert_new snapshot to (record default_file {
      uid = some uid;
      gid = some gid;
      ty = FileType.hardlink from;
      contents = some blocks;
    })

unfoldable pub merge_unlink : Snapshot → FilePath → Snapshot
merge_unlink snapshot path = record snapshot {
  files = remove order_path path snapshot.files;
  free_list = deallocate_file (get order_path path snapshot.files) snapshot.free_list;
}

-- A change of the record of a file, which is opened if there is none.
abbrev pub update : Snapshot → FilePath → (File → File) → Snapshot
update snapshot path change = record snapshot {
  files = insert order_path path (change (get_or_open snapshot.files path)) snapshot.files;
}

-- The blocks from `size` on removed.
abbrev drop_from : ℕ → DataList → FreeList → DataList × FreeList
drop_from size [] free = ([], free)
drop_from size ((o, block) ∷ blocks) free =
    if ltb o size
    then (let r = drop_from size blocks free in ((o, block) ∷ r.0, r.1))
    else ([], deallocate_all ((o, block) ∷ blocks) free)

-- The last block cut at `size`.
abbrev trim_last : ℕ → DataList → FreeList → Option (ℕ × Block) → DataList × FreeList
trim_last size blocks free none = (blocks, free)
trim_last size blocks free (some (o, block)) =
    if ltb size (o + block.size)
    then (let cut = o + block.size - size in
        (
          insert compare o (record { location = block.location; size = block.size - cut }) blocks,
          deallocate free (record { location = block.location + (block.size - cut); size = cut }),
        ))
    else (blocks, free)

unfoldable pub truncate_data : ℕ → DataList → FreeList → DataList × FreeList
truncate_data size blocks free =
    let r = drop_from size blocks free in trim_last size r.0 r.1 (last_entry r.0)

unfoldable pub merge_truncate : Snapshot → FilePath → ℕ → Snapshot
merge_truncate snapshot path size =
    let file = get_or_open snapshot.files path in
    elim file.contents [
      | none ↦ record snapshot {
        files =
            insert order_path path (record file { size = FileSize.exactly size }) snapshot.files;
      }
      | some blocks ↦
          (let r = truncate_data size blocks snapshot.free_list in
            record snapshot {
              files =
                  insert order_path path
                    (record file { size = FileSize.exactly size; contents = some r.0 })
                    snapshot.files;
              free_list = r.1;
            })
    ]

-- `fallocate` only extends a file.
unfoldable pub extended : FileSize → ℕ → FileSize
extended (FileSize.exactly s) nsize =
    if ltb s nsize then FileSize.exactly nsize else FileSize.exactly s
extended (FileSize.more_than s) nsize =
    if ltb s nsize then FileSize.more_than nsize else FileSize.more_than s
extended FileSize.unknown nsize = FileSize.more_than nsize

-- `get_or_insert(HashMap::new()).insert(name, value)`.
abbrev pub set_attr : List ℕ → Option (List ℕ) → File → File
set_attr name value file = record file {
  xattrs = some (elim file.xattrs [
    | none ↦ insert (order_lists compare) name value []
    | some attrs ↦ insert (order_lists compare) name value attrs
  ]);
}

unfoldable pub merge_call : Snapshot → VfsCall → Outcome Snapshot
merge_call snapshot (VfsCall.rename from to flags) = ok (merge_rename snapshot from to)
merge_call snapshot (VfsCall.mknod path mode rdev (FileSecurity.unix uid gid)) =
    insert_new snapshot path (record default_file {
      uid = some uid;
      gid = some gid;
      mode = some mode;
      ty = FileType.special rdev;
      contents = some [];
    })
merge_call snapshot (VfsCall.mkdir path (FileSecurity.unix uid gid) mode) =
    insert_new snapshot path (record default_file {
      uid = some uid;
      gid = some gid;
      mode = some mode;
      ty = FileType.directory;
    })
merge_call snapshot (VfsCall.symlink from to (FileSecurity.unix uid gid)) =
    insert_new snapshot to
      (record default_file { uid = some uid; gid = some gid; ty = FileType.symlink from })
merge_call snapshot (VfsCall.link from to (FileSecurity.unix uid gid)) =
    merge_link snapshot from to uid gid
merge_call snapshot (VfsCall.create path flags (FileSecurity.unix uid gid) mode) =
    ok (record snapshot {
      files =
          insert order_path path
            (record default_file {
              uid = some uid;
              gid = some gid;
              mode = some mode;
              ty = FileType.new_file flags;
              contents = some [];
            })
            snapshot.files;
    })
merge_call snapshot (VfsCall.unlink path) = ok (merge_unlink snapshot path)
merge_call snapshot (VfsCall.rmdir path) = ok (merge_unlink snapshot path)
merge_call snapshot (VfsCall.security path (FileSecurity.unix uid gid)) =
    ok (update snapshot path (λ file. record file { uid = some uid; gid = some gid }))
merge_call snapshot (VfsCall.chmod path mode) =
    ok (update snapshot path (λ file. record file { mode = some mode }))
merge_call snapshot (VfsCall.truncate path size) = ok (merge_truncate snapshot path size)
merge_call snapshot (VfsCall.fallocate path mode offset length) = ok (
    update snapshot path
      (λ file. record file { size = extended file.size ((offset + length) % two_64) }))
merge_call snapshot (VfsCall.write path offset buf) = encode_write snapshot path offset buf
merge_call snapshot (VfsCall.diff_write path offset buf) = encode_write snapshot path offset buf
merge_call snapshot (VfsCall.setxattr path name value flags) =
    ok (update snapshot path (set_attr name (some value)))
merge_call snapshot (VfsCall.removexattr path name) = ok (update snapshot path (set_attr name none))
merge_call snapshot (VfsCall.utimens path timespec) =
    ok (update snapshot path (λ file. record file { time = some timespec }))
merge_call snapshot (VfsCall.fsync path isdatasync) = ok snapshot
merge_call snapshot _ = panic

unfoldable pub merge_from : Snapshot → List VfsCall → Outcome Snapshot
merge_from snapshot [] = ok snapshot
merge_from snapshot (call ∷ calls) =
    merge_call snapshot call >>= λ snapshot'. merge_from snapshot' calls
