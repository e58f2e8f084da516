-- ===== src/Bilog/Utimens.antt =====
-- `bilog_utimens` of fsyncd/src/journal/bilog.rs.

use fsyncer.Base.{ℕ, List, Outcome, ok, panic, ◌>>=◌, bit_xor}
use fsyncer.Common.{VfsCall, Timespec, Times, xor_timespec}
use fsyncer.Common.Paths.{FilePath}
use fsyncer.Host.{Host, Stat, translate_and_stat}
use fsyncer.Bilog.Digest.{hash_times, hash_crc32, check}

pub record BilogUtimens : Type 0 where
  pub path : FilePath
  pub timespec : Times
  pub checksum : ℕ

-- `[a[0] ^ b[0], a[1] ^ b[1], a[2] ^ b[2]]`.
unfoldable pub xor_times : Times → Times → Times
unfolding xor_timespec
xor_times a b = record {
  atime = xor_timespec a.atime b.atime;
  mtime = xor_timespec a.mtime b.mtime;
  third = xor_timespec a.third b.third;
}

abbrev pub zero_timespec : Timespec
zero_timespec = record { high = 0; low = 0 }

abbrev pub stat_times : Stat → Times
stat_times stbuf = record {
  atime = record { high = stbuf.st_atime; low = stbuf.st_atime_nsec };
  mtime = record { high = stbuf.st_mtime; low = stbuf.st_mtime_nsec };
  third = zero_timespec;
}

module _ (crc : List ℕ → ℕ) where
  unfoldable pub crc32 : BilogUtimens → ℕ
  crc32 s = hash_crc32 crc (hash_times s.timespec)

  abbrev set_csum : BilogUtimens → BilogUtimens
  set_csum s = record s { checksum = hash_crc32 crc (hash_times s.timespec) }

  unfoldable pub new : VfsCall → Outcome BilogUtimens
  new (VfsCall.utimens path timespec) =
      ok (set_csum (record { path = path; timespec = timespec; checksum = 0 }))
  new _ = panic

  unfoldable pub apply : BilogUtimens → BilogUtimens → Outcome VfsCall
  apply x o =
      let timespec = xor_times x.timespec o.timespec in
      check (hash_crc32 crc (hash_times timespec)) o.checksum x.checksum
        (VfsCall.utimens x.path timespec)

  unfoldable pub old : BilogUtimens → FilePath → Host → Outcome BilogUtimens
  old r fspath host = do
    stbuf ← translate_and_stat r.path fspath host
    ok (set_csum (record { path = r.path; timespec = stat_times stbuf; checksum = 0 }))

unfoldable pub xor : BilogUtimens → BilogUtimens → BilogUtimens
xor o n = record {
  path = n.path;
  timespec = xor_times n.timespec o.timespec;
  checksum = bit_xor n.checksum o.checksum;
}
