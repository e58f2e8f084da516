-- ===== src/Protocol/Journalled.antt =====
-- An operation of the front end with its journal: `do_unlink` and the others of
-- fsyncd/src/fuse_hl/write_unix.rs over `pre_op` and `post_op` of fsyncd/src/server/mod.rs.
use fsyncer.Base.{
  panic, err, ErrorKind, ℕ, ◌≡◌, ◌<◌, refl, false, List, [], ◌∷◌, some, ok, arith, ltb, ◌==◌,
}
use fsyncer.Common.{Times, unix, VfsCall, FsyncerMsg}
use fsyncer.Common.Paths.{FilePath}
use fsyncer.Bilog.Attributes.{FindsStat}
use fsyncer.Host.{Host, Stat, translate_and_stat}
use fsyncer.Bilog.Chmod
use fsyncer.Bilog.Chown
use fsyncer.Bilog.Truncate
use fsyncer.Bilog.Utimens
use fsyncer.Bilog.{BilogEntry, try_from, unlink_entry, file_type, s_ifreg}
use fsyncer.Server.Connection.{Client}
use fsyncer.Host.{JournalType}
use fsyncer.Server.Ops.{JournalRecord, journal_op, send_ops, pre_op, do_op}

module _ {Comp : Type 0} (encode : Comp → List ℕ → List ℕ × Comp) (serialize : FsyncerMsg → List ℕ)
    (crc : List ℕ → ℕ) (arrive : List (Client Comp) → List (Client Comp)) where
  -- With a bidirectional journal the unlink of a regular file with contents and no other link is
  -- not carried out: the file stays, the caller gets 0, the answers of the clients, to whom the
  -- unlink was sent, are not waited for, and the journal gets an entry with token 0.
  pub do_op-unlink :
      (res : ℕ) (clients : List (Client Comp)) (path : FilePath) (tid : ℕ) (server_path : FilePath)
      (host : Host) (st : Stat)
      → FindsStat host server_path path st
      → file_type st.st_mode ≡ s_ifreg
      → ltb 1 st.st_nlink ≡ false
      → 0 < st.st_size
      → do_op encode serialize crc arrive res clients
          (some JournalType.bilog)
          (VfsCall.unlink path)
          tid
          server_path
          host
        ≡ ok (record {
          clients = (send_ops encode serialize crc 0 clients (VfsCall.unlink path) tid).0;
          records = JournalRecord.bilog_record (BilogEntry.filestore path 0) ∷ [];
          ret = 0;
          called = false;
        })
  unfolding do_op pre_op journal_op try_from unlink_entry
  do_op-unlink res clients path tid server_path host st found ty single some_bytes =
      rw found (rw (ty, single, not_empty) refl)
    where
      not_empty : (st.st_size == 0) ≡ false
      not_empty = ground arith

  -- The calls whose entry is made from the attributes of what is at the path.
  pub data AsksFor (path : FilePath) : VfsCall → Type 0 where
    unlink : AsksFor path (VfsCall.unlink path)
    chmod : (mode : ℕ) → AsksFor path (VfsCall.chmod path mode)
    chown : (uid gid : ℕ) → AsksFor path (VfsCall.security path (unix uid gid))
    truncate : (size : ℕ) → AsksFor path (VfsCall.truncate path size)
    utimens : (timespec : Times) → AsksFor path (VfsCall.utimens path timespec)

  try_from-missing :
      (path : FilePath) (call : VfsCall) (server_path : FilePath) (host : Host) (kind : ErrorKind)
      → AsksFor path call
      → translate_and_stat path server_path host ≡ err kind
      → try_from crc call server_path host ≡ err kind
  unfolding try_from Chmod.new Chmod.old Chown.new Chown.old Truncate.new Truncate.old Utimens.new
      Utimens.old
  try_from-missing path call server_path host kind AsksFor.unlink h = rw h refl
  try_from-missing path call server_path host kind (AsksFor.chmod mode) h = rw h refl
  try_from-missing path call server_path host kind (AsksFor.chown uid gid) h = rw h refl
  try_from-missing path call server_path host kind (AsksFor.truncate size) h = rw h refl
  try_from-missing path call server_path host kind (AsksFor.utimens timespec) h = rw h refl

  -- With a bidirectional journal an unlink, a chmod, a chown, a truncation or a utimens at a path where
  -- `lstat` fails, as it does where nothing is there, panics instead of failing with that error: the
  -- call on the backing store is not reached, whatever it would have returned.
  pub do_op-missing :
      (res : ℕ) (clients : List (Client Comp)) (path : FilePath) (call : VfsCall) (tid : ℕ)
      (server_path : FilePath) (host : Host) (kind : ErrorKind)
      → AsksFor path call
      → translate_and_stat path server_path host ≡ err kind
      → do_op encode serialize crc arrive res clients
          (some JournalType.bilog)
          call
          tid
          server_path
          host
        ≡ panic
  unfolding do_op pre_op journal_op
  do_op-missing res clients path call tid server_path host kind asks missing =
      rw (try_from-missing path call server_path host kind asks missing) refl
