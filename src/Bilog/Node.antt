-- ===== src/Bilog/Node.antt =====
-- `bilog_node` of fsyncd/src/journal/bilog.rs.
use fsyncer.Base.{
  ℕ, Bool, true, false, Option, none, some, Outcome, ok, panic, ◌>>=◌, bit_xor, if◌then◌else◌,
}
use fsyncer.Common.{VfsCall, unix}
use fsyncer.Common.Paths.{FilePath}
use fsyncer.Host.{Host, Stat, translate_and_stat, stat_or_missing}

pub record BilogNode : Type 0 where
  pub path : FilePath
  pub mode : ℕ
  pub rdev : ℕ
  pub exists : Bool
  pub uid : ℕ
  pub gid : ℕ

unfoldable pub new : VfsCall → Outcome BilogNode
new (VfsCall.unlink path) =
    ok (record { path = path; mode = 0; rdev = 0; uid = 0; gid = 0; exists = true })
new _ = panic

unfoldable pub xor : BilogNode → BilogNode → BilogNode
xor o n = record {
  path = o.path;
  mode = bit_xor n.mode o.mode;
  rdev = bit_xor n.rdev o.rdev;
  uid = bit_xor o.uid n.uid;
  gid = bit_xor o.gid n.gid;
  exists = true;
}

unfoldable pub apply : BilogNode → BilogNode → Outcome VfsCall
apply x o = ok (
    if o.exists
    then VfsCall.unlink x.path
    else VfsCall.mknod x.path x.mode x.rdev (unix x.uid x.gid))

abbrev state_of : FilePath → Option Stat → BilogNode
state_of path none = record { path = path; mode = 0; rdev = 0; exists = false; uid = 0; gid = 0 }
state_of path (some stbuf) = record {
  path = path;
  mode = stbuf.st_mode;
  rdev = stbuf.st_rdev;
  exists = true;
  uid = stbuf.st_uid;
  gid = stbuf.st_gid;
}

unfoldable pub old : BilogNode → FilePath → Host → Outcome BilogNode
old r fspath host = do
  found ← stat_or_missing (translate_and_stat r.path fspath host)
  ok (state_of r.path found)
