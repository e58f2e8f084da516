-- ===== src/Bilog/Chmod.antt =====
-- `bilog_chmod` of fsyncd/src/journal/bilog.rs.
use fsyncer.Base.{ℕ, List, Outcome, ok, panic, ◌>>=◌, bit_xor}
use fsyncer.Common.{VfsCall}
use fsyncer.Common.Paths.{FilePath}
use fsyncer.Host.{Host, translate_and_stat}
use fsyncer.Bilog.Digest.{hash_u32, hash_crc32, check}

pub record BilogChmod : Type 0 where
  pub path : FilePath
  pub mode : ℕ
  pub checksum : ℕ

module _ (crc : List ℕ → ℕ) where
  unfoldable pub crc32 : BilogChmod → ℕ
  crc32 s = hash_crc32 crc (hash_u32 s.mode)

  abbrev set_csum : BilogChmod → BilogChmod
  set_csum s = record s { checksum = hash_crc32 crc (hash_u32 s.mode) }

  unfoldable pub new : VfsCall → Outcome BilogChmod
  new (VfsCall.chmod path mode) = ok (set_csum (record { path = path; mode = mode; checksum = 0 }))
  new _ = panic

  unfoldable pub apply : BilogChmod → BilogChmod → Outcome VfsCall
  apply x o =
      check (hash_crc32 crc (hash_u32 (bit_xor x.mode o.mode))) o.checksum x.checksum
        (VfsCall.chmod x.path (bit_xor x.mode o.mode))

  -- Both cases of the `Either` are asked for the path only.
  unfoldable pub old : BilogChmod → FilePath → Host → Outcome BilogChmod
  old r fspath host = do
    stbuf ← translate_and_stat r.path fspath host
    ok (set_csum (record { path = r.path; mode = stbuf.st_mode; checksum = 0 }))

unfoldable pub xor : BilogChmod → BilogChmod → BilogChmod
xor o n = record {
  path = n.path;
  mode = bit_xor n.mode o.mode;
  checksum = bit_xor n.checksum o.checksum;
}
