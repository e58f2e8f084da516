-- ===== src/Bilog/File.antt =====
-- `bilog_file` of fsyncd/src/journal/bilog.rs.
use fsyncer.Base.{
  ℕ, Bool, true, false, Option, none, some, Outcome, ok, panic, ◌>>=◌, bit_xor, if◌then◌else◌,
}
use fsyncer.Common.{VfsCall, unix}
use fsyncer.Common.Paths.{FilePath}
use fsyncer.Host.{Host, Stat, translate_and_stat, stat_or_missing}

-- `O_CREAT | O_RDONLY` of libc on Linux.
abbrev pub o_creat_rdonly : ℕ
o_creat_rdonly = 0o100

pub record BilogFile : Type 0 where
  pub path : FilePath
  pub mode : ℕ
  pub exists : Bool
  pub uid : ℕ
  pub gid : ℕ

unfoldable pub new : VfsCall → Outcome BilogFile
new (VfsCall.unlink path) = ok (record { path = path; mode = 0; exists = true; uid = 0; gid = 0 })
new _ = panic

unfoldable pub xor : BilogFile → BilogFile → BilogFile
xor o n = record {
  path = o.path;
  mode = bit_xor n.mode o.mode;
  uid = bit_xor o.uid n.uid;
  gid = bit_xor o.gid n.gid;
  exists = true;
}

unfoldable pub apply : BilogFile → BilogFile → Outcome VfsCall
apply x o = ok (
    if o.exists
    then VfsCall.unlink x.path
    else VfsCall.create x.path o_creat_rdonly (unix x.uid x.gid) x.mode)

abbrev state_of : FilePath → Option Stat → BilogFile
state_of path none = record { path = path; mode = 0; exists = false; uid = 0; gid = 0 }
state_of path (some stbuf) = record {
  path = path;
  mode = stbuf.st_mode;
  exists = true;
  uid = stbuf.st_uid;
  gid = stbuf.st_gid;
}

unfoldable pub old : BilogFile → FilePath → Host → Outcome BilogFile
old r fspath host = do
  found ← stat_or_missing (translate_and_stat r.path fspath host)
  ok (state_of r.path found)
