-- ===== src/Bilog/Names.antt =====
-- Entries for calls that make or remove a name: applied where the name is there they remove it, and
-- applied where it is missing they make it again.
use fsyncer.Base.{
  ℕ, List, some, ok, err, not_found, bit_xor-zero, zero-bit_xor, ◌≡◌, true, false, arith, ltb,
  lt→ltb, ◌<◌, ◌==◌,
}
use fsyncer.Common.{VfsCall, unix}
use fsyncer.Common.Paths.{FilePath, translate_path}
use fsyncer.Host.{Host, Stat, translate_and_stat, stat_or_missing, find_hardlink}
use fsyncer.Bilog.{try_from, apply, replay, unlink_entry, file_type, s_iflnk, s_ifreg, is_special}
use fsyncer.Bilog.Attributes.{FindsStat}
use fsyncer.Bilog.Dir
use fsyncer.Bilog.Symlink
use fsyncer.Bilog.Link
use fsyncer.Bilog.Node
use fsyncer.Bilog.File
use fsyncer.Bilog.File.{o_creat_rdonly}

-- `lstat` finds nothing at `path`.
abbrev pub IsMissing : Host → FilePath → FilePath → Type 0
IsMissing host fspath path = translate_and_stat path fspath host ≡ err not_found

other_link : (ftype : ℕ) → is_special ftype ≡ true → (ftype == s_iflnk) ≡ false
other_link ftype e = ground arith

other_reg : (ftype : ℕ) → is_special ftype ≡ true → (ftype == s_ifreg) ≡ false
other_reg ftype e = ground arith

ruleset xor_laws = (bit_xor-zero, zero-bit_xor)

module _ (crc : List ℕ → ℕ) (fspath path : FilePath) (there gone : Host) (st : Stat)
    (found : FindsStat there fspath path st) (missing : IsMissing gone fspath path) where
  -- What the entry for `call`, made in the state `before`, gives where nothing is at the path, and
  -- where something is.
  abbrev pub Made : Host → VfsCall → VfsCall → VfsCall → Type 0
  Made before call missing_call found_call =
      (replay crc call fspath before gone ≡ ok missing_call)
      × (replay crc call fspath before there ≡ ok found_call)

  -- The call that is to make what `st` describes again.
  pub data IsRemade : VfsCall → Type 0 where
    symlink :
        (target : FilePath)
        → file_type st.st_mode ≡ s_iflnk
        → there.read_link (translate_path path fspath) ≡ ok target
        → IsRemade (VfsCall.symlink target path (unix st.st_uid st.st_gid))
    link :
        (other : FilePath)
        → file_type st.st_mode ≡ s_ifreg
        → 1 < st.st_nlink
        → find_hardlink st.st_ino fspath there ≡ ok (some other)
        → IsRemade (VfsCall.link other path (unix st.st_uid st.st_gid))
    file :
        file_type st.st_mode ≡ s_ifreg
        → ltb 1 st.st_nlink ≡ false
        → st.st_size ≡ 0
        → IsRemade (VfsCall.create path o_creat_rdonly (unix st.st_uid st.st_gid) st.st_mode)
    node :
        (ftype : ℕ)
        → file_type st.st_mode ≡ ftype
        → is_special ftype ≡ true
        → IsRemade (VfsCall.mknod path st.st_mode st.st_rdev (unix st.st_uid st.st_gid))

  -- A mkdir entry, made in any state, gives the mkdir back where nothing is at the path, and the rmdir
  -- where something is.
  replay-mkdir :
      (before : Host) (uid gid mode : ℕ)
      → let call = VfsCall.mkdir path (unix uid gid) mode in
        (replay crc call fspath before gone ≡ ok call)
        × (replay crc call fspath before there ≡ ok (VfsCall.rmdir path))
  unfolding try_from apply Dir.old Dir.apply stat_or_missing
  replay-mkdir before uid gid mode = (rw (missing, Dir.old), rw (found, Dir.old))

  -- An entry for a removed directory gives the rmdir back where the directory is there. Where it is
  -- missing it gives the mkdir with the old mode, owner and group.
  pub replay-rmdir :
      let call = VfsCall.rmdir path in
      (replay crc call fspath there there ≡ ok call)
      × (replay crc call fspath there gone
          ≡ ok (VfsCall.mkdir path (unix st.st_uid st.st_gid) st.st_mode))
  unfolding try_from apply Dir.new Dir.xor Dir.old Dir.apply stat_or_missing
  replay-rmdir = (rw found (rw (found, Dir.old)), rw found (rw (missing, Dir.old) (simp xor_laws)))

  -- A mknod entry, made in any state, gives the mknod back where nothing is at the path, and the unlink
  -- where something is.
  replay-mknod :
      (before : Host) (uid gid mode rdev : ℕ)
      → let call = VfsCall.mknod path mode rdev (unix uid gid) in
        (replay crc call fspath before gone ≡ ok call)
        × (replay crc call fspath before there ≡ ok (VfsCall.unlink path))
  unfolding try_from apply Node.old Node.apply stat_or_missing
  replay-mknod before uid gid mode rdev = (rw (missing, Node.old), rw (found, Node.old))

  -- A create entry, made in any state, gives a create with the call's mode, owner and group, and with
  -- the flags O_CREAT | O_RDONLY for those of the call, where nothing is at the path, and the unlink
  -- where something is.
  replay-create :
      (before : Host) (uid gid mode flags : ℕ)
      → let call = VfsCall.create path flags (unix uid gid) mode in
        (replay crc call fspath before gone
          ≡ ok (VfsCall.create path o_creat_rdonly (unix uid gid) mode))
        × (replay crc call fspath before there ≡ ok (VfsCall.unlink path))
  unfolding try_from apply File.old File.apply stat_or_missing
  replay-create before uid gid mode flags = (rw (missing, File.old), rw (found, File.old))

  -- A symlink entry, made in any state, gives the symlink back where nothing is at the path, and the
  -- unlink where there is a link that can be read.
  replay-symlink :
      (before : Host) (uid gid : ℕ) (from target : FilePath)
      → there.read_link (translate_path path fspath) ≡ ok target
      → let call = VfsCall.symlink from path (unix uid gid) in
        (replay crc call fspath before gone ≡ ok call)
        × (replay crc call fspath before there ≡ ok (VfsCall.unlink path))
  unfolding try_from apply Symlink.old Symlink.apply stat_or_missing
  replay-symlink before uid gid from target e =
      (rw (missing, Symlink.old), rw (found, Symlink.old) (rw e))

  -- A link entry, made in any state, gives the link back where nothing is at the path, and the unlink
  -- where there is a file of whose inode the walk of the store finds a path.
  replay-link :
      (before : Host) (uid gid : ℕ) (from other : FilePath)
      → find_hardlink st.st_ino fspath there ≡ ok (some other)
      → let call = VfsCall.link from path (unix uid gid) in
        (replay crc call fspath before gone ≡ ok call)
        × (replay crc call fspath before there ≡ ok (VfsCall.unlink path))
  unfolding try_from apply Link.old Link.apply stat_or_missing
  replay-link before uid gid from other e = (rw (missing, Link.old), rw (found, Link.old) (rw e))

  -- An entry for a removed symbolic link that can be read gives the unlink back where the link is
  -- there. Where it is missing it gives the symlink to the old target with the old owner and group.
  replay-unlink_symlink :
      (target : FilePath)
      → file_type st.st_mode ≡ s_iflnk
      → there.read_link (translate_path path fspath) ≡ ok target
      → let call = VfsCall.unlink path in
        (replay crc call fspath there there ≡ ok call)
        × (replay crc call fspath there gone
            ≡ ok (VfsCall.symlink target path (unix st.st_uid st.st_gid)))
  unfolding try_from apply unlink_entry Symlink.new Symlink.xor Symlink.old Symlink.apply
      stat_or_missing
  replay-unlink_symlink target ty e = (
    rw found (rw ty (rw e (rw (found, Symlink.old) (rw e)))),
    rw found (rw ty (rw e (rw (missing, Symlink.old) (simp xor_laws)))),
  )

  -- An entry for a removed regular file that has another link, of whose inode the walk finds a path,
  -- gives the unlink back where the file is there. Where it is missing it gives the link from that
  -- path with the old owner and group.
  replay-unlink_link :
      (other : FilePath)
      → file_type st.st_mode ≡ s_ifreg
      → 1 < st.st_nlink
      → find_hardlink st.st_ino fspath there ≡ ok (some other)
      → let call = VfsCall.unlink path in
        (replay crc call fspath there there ≡ ok call)
        × (replay crc call fspath there gone
            ≡ ok (VfsCall.link other path (unix st.st_uid st.st_gid)))
  unfolding try_from apply unlink_entry Link.new Link.xor Link.old Link.apply stat_or_missing
  replay-unlink_link other ty n e = (
    rw found (rw (ty, lt→ltb _ _ n) (rw e (rw (found, Link.old) (rw e)))),
    rw found (rw (ty, lt→ltb _ _ n) (rw e (rw (missing, Link.old) (simp xor_laws)))),
  )

  -- An entry for a removed empty regular file with no other link gives the unlink back where the file
  -- is there. Where it is missing it gives the create, with the flags O_CREAT | O_RDONLY and the old
  -- mode, owner and group.
  replay-unlink_file :
      file_type st.st_mode ≡ s_ifreg
      → ltb 1 st.st_nlink ≡ false
      → st.st_size ≡ 0
      → let call = VfsCall.unlink path in
        (replay crc call fspath there there ≡ ok call)
        × (replay crc call fspath there gone
            ≡ ok (VfsCall.create path o_creat_rdonly (unix st.st_uid st.st_gid) st.st_mode))
  unfolding try_from apply unlink_entry File.new File.xor File.old File.apply stat_or_missing
  replay-unlink_file ty n e = (
    rw found (rw (ty, n, e) (rw (found, File.old))),
    rw found (rw (ty, n, e) (rw (missing, File.old) (simp xor_laws))),
  )

  -- An entry for a removed device, FIFO or socket gives the unlink back where the file is there. Where
  -- it is missing it gives the mknod with the old mode, device, owner and group.
  replay-unlink_node :
      (ftype : ℕ)
      → file_type st.st_mode ≡ ftype
      → is_special ftype ≡ true
      → let call = VfsCall.unlink path in
        (replay crc call fspath there there ≡ ok call)
        × (replay crc call fspath there gone
            ≡ ok (VfsCall.mknod path st.st_mode st.st_rdev (unix st.st_uid st.st_gid)))
  unfolding try_from apply unlink_entry Node.new Node.xor Node.old Node.apply stat_or_missing
  replay-unlink_node ftype ty e = (
    rw found (rw (ty, other_link ftype e, other_reg ftype e, e) (rw (found, Node.old))),
    rw found (
        rw (ty, other_link ftype e, other_reg ftype e, e) (rw (missing, Node.old) (simp xor_laws))),
  )

  -- A call that makes a name, what its entry gives where nothing is at the path, and where something
  -- is: there a symlink entry reads the link, and a link entry has the walk find the inode.
  pub data IsMade : VfsCall → VfsCall → VfsCall → Type 0 where
    mkdir :
        (uid gid mode : ℕ)
        → IsMade
            (VfsCall.mkdir path (unix uid gid) mode)
            (VfsCall.mkdir path (unix uid gid) mode)
            (VfsCall.rmdir path)
    mknod :
        (uid gid mode rdev : ℕ)
        → IsMade
            (VfsCall.mknod path mode rdev (unix uid gid))
            (VfsCall.mknod path mode rdev (unix uid gid))
            (VfsCall.unlink path)
    create :
        (uid gid mode flags : ℕ)
        → IsMade
            (VfsCall.create path flags (unix uid gid) mode)
            (VfsCall.create path o_creat_rdonly (unix uid gid) mode)
            (VfsCall.unlink path)
    symlink :
        (uid gid : ℕ) (from target : FilePath)
        → there.read_link (translate_path path fspath) ≡ ok target
        → IsMade
            (VfsCall.symlink from path (unix uid gid))
            (VfsCall.symlink from path (unix uid gid))
            (VfsCall.unlink path)
    link :
        (uid gid : ℕ) (from other : FilePath)
        → find_hardlink st.st_ino fspath there ≡ ok (some other)
        → IsMade
            (VfsCall.link from path (unix uid gid))
            (VfsCall.link from path (unix uid gid))
            (VfsCall.unlink path)

  -- The entries for a mkdir, a mknod, a create, a symlink and a link, made in any state: where nothing
  -- is at the path they give the call back, the create with the flags O_CREAT | O_RDONLY; where
  -- something is, they give the rmdir, and else the unlink. For the symlink what is there must be a
  -- link that can be read, and for the link a file of whose inode the walk of the store finds a path.
  pub replay-Made :
      (before : Host) (call missing_call found_call : VfsCall)
      → IsMade call missing_call found_call
      → Made before call missing_call found_call
  replay-Made before call missing_call found_call (IsMade.mkdir uid gid mode) =
      replay-mkdir before uid gid mode
  replay-Made before call missing_call found_call (IsMade.mknod uid gid mode rdev) =
      replay-mknod before uid gid mode rdev
  replay-Made before call missing_call found_call (IsMade.create uid gid mode flags) =
      replay-create before uid gid mode flags
  replay-Made before call missing_call found_call (IsMade.symlink uid gid from target reads) =
      replay-symlink before uid gid from target reads
  replay-Made before call missing_call found_call (IsMade.link uid gid from other links) =
      replay-link before uid gid from other links

  -- The entry for a removed symbolic link that can be read, empty regular file with no other link,
  -- device, FIFO or socket gives the unlink back where the file is there, and where it is missing the
  -- call that makes it again, with the old target, mode and device, and the old owner and group. For a
  -- regular file with another link, of whose inode the walk of the store finds a path, it gives the
  -- unlink back in the same way, and where it is missing a link from that path as the walk has it,
  -- which begins with the store's own path and may be the path of the removed link itself.
  pub replay-removed :
      (remade : VfsCall)
      → IsRemade remade
      → Made there (VfsCall.unlink path) remade (VfsCall.unlink path)
  replay-removed remade (IsRemade.symlink target ty e) =
      (let r = replay-unlink_symlink target ty e in (r.1, r.0))
  replay-removed remade (IsRemade.link other ty n e) =
      (let r = replay-unlink_link other ty n e in (r.1, r.0))
  replay-removed remade (IsRemade.file ty n e) = (let r = replay-unlink_file ty n e in (r.1, r.0))
  replay-removed remade (IsRemade.node ftype ty e) =
      (let r = replay-unlink_node ftype ty e in (r.1, r.0))
