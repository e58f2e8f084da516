-- ===== src/Bilog/Values.antt =====
-- Entries for extended attributes, renames and files moved to the file store.
use fsyncer.Base.{
  ℕ, ◌<◌, List, length, ok, err, panic, no_data, ◌≡◌, refl, sym, true, false, ltb, leb, ◌==◌, arith,
}
use fsyncer.Common.{VfsCall}
use fsyncer.Common.Paths.{FilePath, translate_path}
use fsyncer.Common.Buffers.{
  xor_buf, xor_prefix, xor_prefix_cancel, xor_prefix_cancel_left, length-xor_prefix,
}
use fsyncer.Host.{Host, Stat, stat_or_missing}
use fsyncer.FileStore.{recover}
use fsyncer.Bilog.{try_from, apply, replay, unlink_entry, file_type, s_ifreg}
use fsyncer.Bilog.Digest.{check_redo, check_undo}
use fsyncer.Bilog.Attributes.{FindsStat}
use fsyncer.Bilog.Names.{IsMissing}
use fsyncer.Bilog.Rename
use fsyncer.Bilog.Xattr
use fsyncer.Bilog.Xattr.{xor_value, apply_change, value_or_missing, xor_in_place}

module _ (crc : List ℕ → ℕ) (fspath path : FilePath) (name : List ℕ) (before after : Host) where
  abbrev Holds : Host → List ℕ → Type 0
  Holds host value = host.lgetxattr (translate_path path fspath) name ≡ ok value

  abbrev Lacks : Host → Type 0
  Lacks host = host.lgetxattr (translate_path path fspath) name ≡ err no_data

  -- An entry made where the attribute is not there gives the setxattr back, with flags 0, where it is
  -- not there, and the removexattr where it is there with any value.
  replay-setxattr_new :
      (value other : List ℕ) (flags : ℕ)
      → Lacks before
      → Holds after other
      → let call = VfsCall.setxattr path name value flags in
        (replay crc call fspath before before ≡ ok (VfsCall.setxattr path name value 0))
        × (replay crc call fspath before after ≡ ok (VfsCall.removexattr path name))
  unfolding try_from apply Xattr.new Xattr.old Xattr.xor Xattr.apply value_or_missing
  replay-setxattr_new value other flags lacks holds =
      (rw lacks (rw (lacks, Xattr.old)), rw lacks (rw (holds, Xattr.old)))

  -- An entry for a removed attribute gives the removexattr back where the attribute is there with its
  -- old value, and the setxattr of that value where it is not there.
  replay-removexattr :
      (value : List ℕ)
      → Holds before value
      → Lacks after
      → let call = VfsCall.removexattr path name in
        (replay crc call fspath before before ≡ ok call)
        × (replay crc call fspath before after ≡ ok (VfsCall.setxattr path name value 0))
  unfolding try_from apply Xattr.new Xattr.old Xattr.xor Xattr.apply value_or_missing
  replay-removexattr value holds lacks =
      (rw holds (rw (holds, Xattr.old)), rw holds (rw (lacks, Xattr.old)))

  -- An entry for a value of the same length as the old one gives the setxattr back, with flags 0, where
  -- the attribute has the old value, and the setxattr of the old value where it has the new one.
  replay-setxattr_change :
      (value value' : List ℕ) (flags : ℕ)
      → Holds before value
      → Holds after value'
      → length value ≡ length value'
      → let call = VfsCall.setxattr path name value' flags in
        (replay crc call fspath before before ≡ ok (VfsCall.setxattr path name value' 0))
        × (replay crc call fspath before after ≡ ok (VfsCall.setxattr path name value 0))
  unfolding try_from apply Xattr.new Xattr.old Xattr.xor Xattr.apply value_or_missing xor_buf
      xor_in_place
  replay-setxattr_change value value' flags holds holds' e = (
    rw holds (
        rw not_longer (
          rw fits (
            rw (holds, Xattr.old)
              (rw in_bounds (rw (xor_prefix_cancel value' value) (check_redo _ _ _)))))),
    rw holds (
        rw not_longer (
          rw fits (
            rw (holds', Xattr.old)
              (rw in_bounds'
                (rw (xor_prefix_cancel_left value' value (sym e)) (check_undo _ _ _)))))),
  )
    where
      not_longer : ltb (length value') (length value) ≡ false
      not_longer = ground arith

      fits : leb (length value) (length value') ≡ true
      fits = ground arith

      in_bounds : leb (length (xor_prefix value' value)) (length value) ≡ true
      in_bounds = rw length-xor_prefix (ground arith)

      in_bounds' : leb (length (xor_prefix value' value)) (length value') ≡ true
      in_bounds' = rw length-xor_prefix (ground arith)

  -- A call on the attribute, its entry applied in the state `before`, and applied in `after`.
  pub data IsChanged : VfsCall → VfsCall → VfsCall → Type 0 where
    added :
        (value other : List ℕ) (flags : ℕ)
        → Lacks before
        → Holds after other
        → IsChanged
            (VfsCall.setxattr path name value flags)
            (VfsCall.setxattr path name value 0)
            (VfsCall.removexattr path name)
    removed :
        (value : List ℕ)
        → Holds before value
        → Lacks after
        → IsChanged
            (VfsCall.removexattr path name)
            (VfsCall.removexattr path name)
            (VfsCall.setxattr path name value 0)
    changed :
        (value value' : List ℕ) (flags : ℕ)
        → Holds before value
        → Holds after value'
        → length value ≡ length value'
        → IsChanged
            (VfsCall.setxattr path name value' flags)
            (VfsCall.setxattr path name value' 0)
            (VfsCall.setxattr path name value 0)

  -- The entry for an attribute that is added, removed, or changed to a value of the same length gives
  -- the call back in the state it was made in, a setxattr with the flags 0. In the state behind the
  -- call it gives the removexattr of the added attribute, and else the setxattr of the old value.
  pub replay-xattr :
      (call redo undo : VfsCall)
      → IsChanged call redo undo
      → (replay crc call fspath before before ≡ ok redo)
        × (replay crc call fspath before after ≡ ok undo)
  replay-xattr call redo undo (IsChanged.added value other flags lacks holds) =
      replay-setxattr_new value other flags lacks holds
  replay-xattr call redo undo (IsChanged.removed value holds lacks) =
      replay-removexattr value holds lacks
  replay-xattr call redo undo (IsChanged.changed value value' flags holds holds' e) =
      replay-setxattr_change value value' flags holds holds' e

  -- Where the attribute has a shorter value than the call sets, applying the entry in the state it was
  -- made in indexes past the end of the old value: it panics.
  replay-setxattr_longer :
      (value value' : List ℕ) (flags : ℕ)
      → Holds before value
      → length value < length value'
      → replay crc (VfsCall.setxattr path name value' flags) fspath before before ≡ panic
  unfolding try_from apply Xattr.new Xattr.old Xattr.xor Xattr.apply value_or_missing xor_buf
      xor_in_place
  replay-setxattr_longer value value' flags holds h =
      rw holds (rw not_longer (rw fits (rw (holds, Xattr.old) (rw out_of_bounds))))
    where
      not_longer : ltb (length value') (length value) ≡ false
      not_longer = ground arith

      fits : leb (length value) (length value') ≡ true
      fits = ground arith

      out_of_bounds : leb (length (xor_prefix value' value)) (length value) ≡ false
      out_of_bounds = rw length-xor_prefix (ground arith)

-- Whatever the state, a rename entry gives the rename again, never the one back.
pub replay-rename :
    (crc : List ℕ → ℕ) (fspath : FilePath) (before later : Host) (from to : FilePath) (flags : ℕ)
    → replay crc (VfsCall.rename from to flags) fspath before later ≡ ok (VfsCall.rename from to 0)
unfolding try_from apply Rename.old Rename.apply
replay-rename crc fspath before later from to flags = refl

-- The entry for a removed regular file with contents names no place in the file store but token 0:
-- where the file is gone it links that file, whichever file was removed.
pub replay-unlink_filestore :
    (crc : List ℕ → ℕ) (fspath path : FilePath) (there gone : Host) (st : Stat)
    → FindsStat there fspath path st
    → IsMissing gone fspath path
    → file_type st.st_mode ≡ s_ifreg
    → ltb 1 st.st_nlink ≡ false
    → 0 < st.st_size
    → replay crc (VfsCall.unlink path) fspath there gone ≡ recover fspath 0 path gone
unfolding try_from apply unlink_entry stat_or_missing
replay-unlink_filestore crc fspath path there gone st found missing ty single some_bytes =
    rw found (rw (ty, single, not_empty) (rw missing))
  where
    not_empty : (st.st_size == 0) ≡ false
    not_empty = ground arith
