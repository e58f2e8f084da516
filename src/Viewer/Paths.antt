-- ===== src/Viewer/Paths.antt =====
-- The paths that an entry of fsyncd/src/journal/bilog.rs affects are those of the call that it was
-- made from, so that a filter of fsyncd/src/journal/viewer.rs treats both alike.
use fsyncer.Base.{
  ℕ, ◌≡◌, refl, ap, Bool, List, [], ◌∷◌, Option, none, some, Outcome, ok, err, panic, ◌>>=◌, arith,
}
use fsyncer.Common.{VfsCall, FileSecurity, Times, unix}
use fsyncer.Common.Paths.{FilePath}
use fsyncer.Host.{Host, Stat, translate_and_stat}
use fsyncer.Bilog.{BilogEntry, try_from, affected_paths, unlink_entry}
use fsyncer.Bilog.Chmod
use fsyncer.Bilog.Chown
use fsyncer.Bilog.Utimens
use fsyncer.Bilog.Dir
use fsyncer.Bilog.Symlink
use fsyncer.Bilog.Link
use fsyncer.Bilog.Node
use fsyncer.Bilog.File
use fsyncer.Bilog.Truncate
use fsyncer.Bilog.Write
use fsyncer.Bilog.Xattr
use fsyncer.Viewer.{
  any, accepts, EntryContent, call_paths, lets_through, forward_entry, bilog_entry,
}

module _ (crc : List ℕ → ℕ) (fspath : FilePath) (host : Host) (entry : BilogEntry) where
  chmod-paths :
      (path : FilePath) (mode : ℕ)
      → try_from crc (VfsCall.chmod path mode) fspath host ≡ ok entry
      → affected_paths entry ≡ path ∷ []
  unfolding try_from affected_paths Chmod.new Chmod.old Chmod.xor
  chmod-paths path mode h = ground (arith, h)

  security-paths :
      (path : FilePath) (security : FileSecurity)
      → try_from crc (VfsCall.security path security) fspath host ≡ ok entry
      → affected_paths entry ≡ path ∷ []
  unfolding try_from affected_paths Chown.new Chown.old Chown.xor
  security-paths path security h = ground (arith, h)

  utimens-paths :
      (path : FilePath) (timespec : Times)
      → try_from crc (VfsCall.utimens path timespec) fspath host ≡ ok entry
      → affected_paths entry ≡ path ∷ []
  unfolding try_from affected_paths Utimens.new Utimens.old Utimens.xor
  utimens-paths path timespec h = ground (arith, h)

  rmdir-paths :
      (path : FilePath)
      → try_from crc (VfsCall.rmdir path) fspath host ≡ ok entry
      → affected_paths entry ≡ path ∷ []
  unfolding try_from affected_paths Dir.new Dir.old Dir.xor
  rmdir-paths path h = ground (arith, h)

  truncate-paths :
      (path : FilePath) (size : ℕ)
      → try_from crc (VfsCall.truncate path size) fspath host ≡ ok entry
      → affected_paths entry ≡ path ∷ []
  unfolding try_from affected_paths Truncate.new Truncate.old Truncate.xor
  truncate-paths path size h = ground (arith, h)

  write-paths :
      (path : FilePath) (offset : ℕ) (buf : List ℕ)
      → try_from crc (VfsCall.write path offset buf) fspath host ≡ ok entry
      → affected_paths entry ≡ path ∷ []
  unfolding try_from affected_paths Write.new Write.old Write.xor
  write-paths path offset buf h = ground (arith, h)

  setxattr-paths :
      (path : FilePath) (name value : List ℕ) (flags : ℕ)
      → try_from crc (VfsCall.setxattr path name value flags) fspath host ≡ ok entry
      → affected_paths entry ≡ path ∷ []
  unfolding try_from affected_paths Xattr.new Xattr.old Xattr.xor
  setxattr-paths path name value flags h = ground (arith, h)

  removexattr-paths :
      (path : FilePath) (name : List ℕ)
      → try_from crc (VfsCall.removexattr path name) fspath host ≡ ok entry
      → affected_paths entry ≡ path ∷ []
  unfolding try_from affected_paths Xattr.new Xattr.old Xattr.xor
  removexattr-paths path name h = ground (arith, h)

  unlink_entry-paths :
      (path : FilePath) (stbuf : Stat)
      → unlink_entry crc path fspath host stbuf ≡ ok entry
      → affected_paths entry ≡ path ∷ []
  unfolding unlink_entry affected_paths Symlink.new Symlink.old Symlink.xor Link.new Link.old
      Link.xor File.new File.old File.xor Node.new Node.old Node.xor
  unlink_entry-paths path stbuf h = ground (arith, h)

  try_from-paths :
      (call : VfsCall)
      → try_from crc call fspath host ≡ ok entry
      → affected_paths entry ≡ call_paths call
  unfolding try_from affected_paths call_paths
  try_from-paths (VfsCall.mknod path mode rdev (unix uid gid)) h = ground (arith, h)
  try_from-paths (VfsCall.mkdir path (unix uid gid) mode) h = ground (arith, h)
  try_from-paths (VfsCall.rmdir path) h = rmdir-paths path h
  try_from-paths (VfsCall.unlink path) h = unlinked (translate_and_stat path fspath host) h
    where
      unlinked :
          (found : Outcome Stat)
          → (found >>= λ stbuf. unlink_entry crc path fspath host stbuf) ≡ ok entry
          → affected_paths entry ≡ path ∷ []
      unlinked (ok stbuf) h = unlink_entry-paths path stbuf h
      unlinked (err kind) h = absurd (cc)
      unlinked panic h = absurd (cc)
  try_from-paths (VfsCall.symlink from to (unix uid gid)) h = ground (arith, h)
  try_from-paths (VfsCall.rename from to flags) h = ground (arith, h)
  try_from-paths (VfsCall.link from to (unix uid gid)) h = ground (arith, h)
  try_from-paths (VfsCall.chmod path mode) h = chmod-paths path mode h
  try_from-paths (VfsCall.security path security) h = security-paths path security h
  try_from-paths (VfsCall.truncate path size) h = truncate-paths path size h
  try_from-paths (VfsCall.write path offset buf) h = write-paths path offset buf h
  try_from-paths (VfsCall.setxattr path name value flags) h = setxattr-paths path name value flags h
  try_from-paths (VfsCall.removexattr path name) h = removexattr-paths path name h
  try_from-paths (VfsCall.create path flags (unix uid gid) mode) h = ground (arith, h)
  try_from-paths (VfsCall.utimens path timespec) h = utimens-paths path timespec h
  try_from-paths (VfsCall.mknod path mode rdev (FileSecurity.windows _ _)) h = absurd (cc)
  try_from-paths (VfsCall.mknod path mode rdev (FileSecurity.portable _ _)) h = absurd (cc)
  try_from-paths (VfsCall.mkdir path (FileSecurity.windows _ _) mode) h = absurd (cc)
  try_from-paths (VfsCall.mkdir path (FileSecurity.portable _ _) mode) h = absurd (cc)
  try_from-paths (VfsCall.symlink from to (FileSecurity.windows _ _)) h = absurd (cc)
  try_from-paths (VfsCall.symlink from to (FileSecurity.portable _ _)) h = absurd (cc)
  try_from-paths (VfsCall.link from to (FileSecurity.windows _ _)) h = absurd (cc)
  try_from-paths (VfsCall.link from to (FileSecurity.portable _ _)) h = absurd (cc)
  try_from-paths (VfsCall.create path flags (FileSecurity.windows _ _) mode) h = absurd (cc)
  try_from-paths (VfsCall.create path flags (FileSecurity.portable _ _) mode) h = absurd (cc)
  try_from-paths (VfsCall.diff_write path offset buf) h = absurd (cc)
  try_from-paths (VfsCall.fallocate path mode offset length) h = absurd (cc)
  try_from-paths (VfsCall.fsync path isdatasync) h = absurd (cc)
  try_from-paths (VfsCall.truncating_write path offset buf length) h = absurd (cc)

  -- An entry of a bidirectional journal that was made from a call passes a filter exactly when the
  -- call itself does as the entry of a forward journal: whatever the regular expression, inverted or
  -- not, its panics included.
  pub lets_through-try_from :
      (call : VfsCall) (filter : Option (FilePath → Outcome Bool)) (inverse : Bool)
      → try_from crc call fspath host ≡ ok entry
      → lets_through (bilog_entry crc) filter inverse (EntryContent.payload entry)
        ≡ lets_through forward_entry filter inverse (EntryContent.payload call)
  unfolding lets_through
  lets_through-try_from call none inverse h = refl
  lets_through-try_from call (some is_match) inverse h =
      ap (λ paths. any is_match paths >>= λ has_match. ok (accepts has_match inverse))
        (try_from-paths call h)
