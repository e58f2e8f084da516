-- ===== src/Bilog/Symlink.antt =====
-- `bilog_symlink` of fsyncd/src/journal/bilog.rs.
use fsyncer.Base.{
  ℕ, Bool, true, false, Option, none, some, Outcome, ok, panic, ◌>>=◌, bit_xor, if◌then◌else◌,
}
use fsyncer.Common.{VfsCall, unix}
use fsyncer.Common.Paths.{FilePath, empty_path, translate_path}
use fsyncer.Host.{Host, Stat, translate_and_stat, stat_or_missing}

pub record BilogSymlink : Type 0 where
  pub from : FilePath
  pub to : FilePath
  pub to_exists : Bool
  pub uid : ℕ
  pub gid : ℕ

unfoldable pub new : VfsCall → Outcome BilogSymlink
new (VfsCall.unlink path) =
    ok (record { from = empty_path; to = path; uid = 0; gid = 0; to_exists = true })
new _ = panic

unfoldable pub xor : BilogSymlink → BilogSymlink → BilogSymlink
xor o n = record {
  from = if o.to_exists then o.from else n.from;
  to = o.to;
  to_exists = true;
  uid = bit_xor o.uid n.uid;
  gid = bit_xor o.gid n.gid;
}

unfoldable pub apply : BilogSymlink → BilogSymlink → Outcome VfsCall
apply x o =
    ok (if o.to_exists then VfsCall.unlink x.to else VfsCall.symlink x.from x.to (unix x.uid x.gid))

abbrev found_state : FilePath → FilePath → Host → Option Stat → Outcome BilogSymlink
found_state to fspath host none =
    ok (record { from = empty_path; to = to; uid = 0; gid = 0; to_exists = false })
found_state to fspath host (some stbuf) = do
  from ← host.read_link (translate_path to fspath)
  ok (record { from = from; to = to; to_exists = true; uid = stbuf.st_uid; gid = stbuf.st_gid })

unfoldable pub old : BilogSymlink → FilePath → Host → Outcome BilogSymlink
old r fspath host = do
  found ← stat_or_missing (translate_and_stat r.to fspath host)
  found_state r.to fspath host found
