-- ===== src/Tests/Snapshots.antt =====
-- The theorems on snapshots at concrete journals and free regions.
use fsyncer.Base.{ℕ, ◌≡◌, refl, [], ◌∷◌, some, ok, panic, inl, inr, arith}
use fsyncer.Common.{VfsCall, unix}
use fsyncer.Snapshot.{Block, DataList, FreeList, File, FileType, FileSize, Snapshot, default_file}
use fsyncer.Snapshot.Ordered.{order_path}
use fsyncer.Snapshot.Space.{allocate, deallocate, region, first_fit}
use fsyncer.Snapshot.Space.Free.{IsWithout, allocate-IsWithout}
use fsyncer.Snapshot.Space.Front.{IsWith}
use fsyncer.Snapshot.Space.Joined.{deallocate-IsWith}
use fsyncer.Snapshot.Encode.{Encoded, write_all_at, encode, overlaps_of}
use fsyncer.Snapshot.Encode.Written.{IsWritten}
use fsyncer.Snapshot.Encode.ReadBack.{encode-IsWritten}
use fsyncer.Snapshot.Merge.{merge_from, deallocate_all}
use fsyncer.Snapshot.Merge.Names.{merge_from-made_and_removed, merge_from-link_unlink}
use fsyncer.Snapshot.Apply.{apply, next, making}
use fsyncer.Snapshot.Apply.Calls.{Calls, Yields, snapshot_calls}
use fsyncer.Snapshot.Apply.Complete.{apply-Yields}
use fsyncer.Snapshot.Apply.Broken.{no_files, next-write, apply-setxattr}
use fsyncer.Tests.Hosts.{a_file, a_target}

abbrev two_regions : FreeList
two_regions = (100, 4) ∷ (200, 1000) ∷ []

allocate-IsWithout_example :
    (block : Block) × ((free' : FreeList) × ((allocate two_regions 10 (some 100)
          ≡ ok (block, free'))
        × ((block.size ≡ 10) × IsWithout 64 two_regions block.location 10 free')))
allocate-IsWithout_example =
    allocate-IsWithout 64 10 two_regions (some 100) 200 1000
      (omega arith, omega arith, (omega arith, omega arith, tt)) (omega arith) refl (omega arith)

abbrev between : Block
between = record { location = 104; size = 96 }

deallocate-IsWith_example : IsWith 64 two_regions 104 96 (deallocate two_regions between)
deallocate-IsWith_example =
    deallocate-IsWith 64 two_regions between
      (omega arith, omega arith, (omega arith, omega arith, tt)) (omega arith) (omega arith)
      (inr (omega arith), (inl (omega arith), tt))

abbrev no_bytes : ℕ → ℕ
no_bytes a = 0

abbrev some_data : DataList
some_data = (0, between) ∷ []

abbrev data_file : File
data_file = record default_file {
  uid = some 1;
  gid = some 2;
  mode = some 0o644;
  size = FileSize.exactly 96;
  ty = FileType.new_file 0o102;
  contents = some some_data;
}

abbrev one_file : Snapshot
one_file = record {
  serialised = no_bytes;
  files = (a_target, data_file) ∷ [];
  free_list = two_regions;
}

apply-Yields_example :
    Yields (apply one_file) (snapshot_calls no_bytes ((a_target, data_file) ∷ []))
unfolding making
apply-Yields_example =
    apply-Yields one_file ((VfsCall.create a_target 0o102 (unix 1 2) 0o644, refl), tt)

merge_from-made_and_removed_example :
    (merge_from one_file (VfsCall.create a_file 2 (unix 1 2) 0o600 ∷ VfsCall.unlink a_file ∷ [])
      ≡ ok one_file)
    × (merge_from one_file (VfsCall.mknod a_file 0o600 5 (unix 1 2) ∷ VfsCall.unlink a_file ∷ [])
        ≡ ok one_file)
    × (merge_from one_file (VfsCall.symlink a_target a_file (unix 1 2) ∷ VfsCall.unlink a_file ∷ [])
        ≡ ok one_file)
    × (merge_from one_file (VfsCall.mkdir a_file (unix 1 2) 0o600 ∷ VfsCall.rmdir a_file ∷ [])
        ≡ ok one_file)
unfolding order_path
merge_from-made_and_removed_example =
    merge_from-made_and_removed one_file a_file refl a_target 1 2 0o600 5 2

merge_from-link_unlink_example :
    merge_from one_file (VfsCall.link a_target a_file (unix 1 2) ∷ VfsCall.unlink a_file ∷ [])
    ≡ ok (record one_file { free_list = deallocate_all some_data two_regions })
unfolding order_path
merge_from-link_unlink_example =
    merge_from-link_unlink one_file a_target a_file 1 2 data_file some_data refl refl refl

next-write_example :
    (s : Snapshot) × ((merge_from
          (no_files no_bytes two_regions)
          (VfsCall.write a_file 3 (7 ∷ 8 ∷ []) ∷ [])
        ≡ ok s)
      × (next (apply s) ≡ panic))
unfolding allocate region first_fit
next-write_example =
    next-write no_bytes two_regions ((102, 2) ∷ (200, 1000) ∷ []) a_file 3 (7 ∷ 8 ∷ [])
      (record { location = 100; size = 2 }) refl

apply-setxattr_example :
    (s : Snapshot) × ((merge_from (no_files no_bytes two_regions) (
          VfsCall.create a_file 2 (unix 1 2) 0o600
          ∷ VfsCall.setxattr a_file (b'n' ∷ []) (1 ∷ []) 0
          ∷ [])
        ≡ ok s)
      × Yields (apply s) (Calls.then (VfsCall.create a_file 2 (unix 1 2) 0o600) Calls.panics))
apply-setxattr_example =
    apply-setxattr no_bytes two_regions a_file 2 1 2 0o600 (b'n' ∷ []) (1 ∷ []) 0 (omega arith, tt)

abbrev an_encoded : Encoded
an_encoded = record { bytes = no_bytes; blocks = some_data; free = two_regions }

-- The write in the middle of the only block.
abbrev in_block : Encoded
in_block = record an_encoded { bytes = write_all_at no_bytes (7 ∷ 8 ∷ []) 107 }

encode-IsWritten_example : IsWritten 3 (7 ∷ 8 ∷ []) in_block
unfolding encode overlaps_of
encode-IsWritten_example =
    encode-IsWritten 0 an_encoded in_block 3 (7 ∷ 8 ∷ []) (omega arith, tt) refl
