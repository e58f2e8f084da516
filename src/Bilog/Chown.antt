-- ===== src/Bilog/Chown.antt =====
-- `bilog_chown` of fsyncd/src/journal/bilog.rs.

use fsyncer.Base.{ℕ, List, ◌++◌, Outcome, ok, panic, ◌>>=◌, bit_xor}
use fsyncer.Common.{VfsCall, unix}
use fsyncer.Common.Paths.{FilePath}
use fsyncer.Host.{Host, translate_and_stat}
use fsyncer.Bilog.Digest.{hash_u32, hash_crc32, check}

pub record BilogChown : Type 0 where
  pub path : FilePath
  pub uid : ℕ
  pub gid : ℕ
  pub checksum : ℕ

module _ (crc : List ℕ → ℕ) where
  abbrev hash_ids : ℕ → ℕ → ℕ
  hash_ids uid gid = hash_crc32 crc (hash_u32 uid ++ hash_u32 gid)

  unfoldable pub crc32 : BilogChown → ℕ
  crc32 s = hash_ids s.uid s.gid

  abbrev set_csum : BilogChown → BilogChown
  set_csum s = record s { checksum = hash_ids s.uid s.gid }

  unfoldable pub new : VfsCall → Outcome BilogChown
  new (VfsCall.security path (unix uid gid)) =
      ok (set_csum (record { path = path; uid = uid; gid = gid; checksum = 0 }))
  new _ = panic

  unfoldable pub apply : BilogChown → BilogChown → Outcome VfsCall
  apply x o =
      let uid = bit_xor x.uid o.uid in
      let gid = bit_xor x.gid o.gid in
      check (hash_ids uid gid) o.checksum x.checksum (VfsCall.security x.path (unix uid gid))

  unfoldable pub old : BilogChown → FilePath → Host → Outcome BilogChown
  old r fspath host = do
    stbuf ← translate_and_stat r.path fspath host
    ok (set_csum (record { path = r.path; uid = stbuf.st_uid; gid = stbuf.st_gid; checksum = 0 }))

unfoldable pub xor : BilogChown → BilogChown → BilogChown
xor o n = record {
  path = n.path;
  uid = bit_xor n.uid o.uid;
  gid = bit_xor n.gid o.gid;
  checksum = bit_xor n.checksum o.checksum;
}
