-- ===== src/Bilog/Dir.antt =====
-- `bilog_dir` of fsyncd/src/journal/bilog.rs.
use fsyncer.Base.{
  ℕ, Bool, true, false, Option, none, some, Outcome, ok, panic, ◌>>=◌, bit_xor, if◌then◌else◌,
}
use fsyncer.Common.{VfsCall, unix}
use fsyncer.Common.Paths.{FilePath}
use fsyncer.Host.{Host, Stat, translate_and_stat, stat_or_missing}

pub record BilogDir : Type 0 where
  pub path : FilePath
  pub mode : ℕ
  pub dir_exists : Bool
  pub uid : ℕ
  pub gid : ℕ

unfoldable pub new : VfsCall → Outcome BilogDir
new (VfsCall.rmdir path) =
    ok (record { path = path; mode = 0; uid = 0; gid = 0; dir_exists = true })
new _ = panic

unfoldable pub xor : BilogDir → BilogDir → BilogDir
xor o n = record {
  path = o.path;
  mode = bit_xor o.mode n.mode;
  uid = bit_xor o.uid n.uid;
  gid = bit_xor o.gid n.gid;
  dir_exists = true;
}

unfoldable pub apply : BilogDir → BilogDir → Outcome VfsCall
apply x o =
    ok (
      if o.dir_exists then VfsCall.rmdir x.path else VfsCall.mkdir x.path (unix x.uid x.gid) x.mode)

abbrev state_of : FilePath → Option Stat → BilogDir
state_of path none = record { path = path; mode = 0; uid = 0; gid = 0; dir_exists = false }
state_of path (some stbuf) = record {
  path = path;
  mode = stbuf.st_mode;
  uid = stbuf.st_uid;
  gid = stbuf.st_gid;
  dir_exists = true;
}

unfoldable pub old : BilogDir → FilePath → Host → Outcome BilogDir
old r fspath host = do
  found ← stat_or_missing (translate_and_stat r.path fspath host)
  ok (state_of r.path found)
