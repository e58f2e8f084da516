-- ===== src/Bilog/Link.antt =====
-- `bilog_link` of fsyncd/src/journal/bilog.rs.
use fsyncer.Base.{
  ℕ, Bool, true, false, Option, none, some, Outcome, ok, err, panic, other, ◌>>=◌, bit_xor,
  if◌then◌else◌,
}
use fsyncer.Common.{VfsCall, unix}
use fsyncer.Common.Paths.{FilePath, empty_path}
use fsyncer.Host.{Host, Stat, translate_and_stat, stat_or_missing, find_hardlink}

pub record BilogLink : Type 0 where
  pub from : FilePath
  pub to : FilePath
  pub to_exists : Bool
  pub uid : ℕ
  pub gid : ℕ

unfoldable pub new : VfsCall → Outcome BilogLink
new (VfsCall.unlink path) =
    ok (record { from = empty_path; to = path; to_exists = true; uid = 0; gid = 0 })
new _ = panic

unfoldable pub xor : BilogLink → BilogLink → BilogLink
xor o n = record {
  from = if o.to_exists then o.from else n.from;
  to = o.to;
  to_exists = true;
  uid = bit_xor o.uid n.uid;
  gid = bit_xor o.gid n.gid;
}

unfoldable pub apply : BilogLink → BilogLink → Outcome VfsCall
apply x o =
    ok (if o.to_exists then VfsCall.unlink x.to else VfsCall.link x.from x.to (unix x.uid x.gid))

abbrev linked_state : FilePath → Stat → Option FilePath → Outcome BilogLink
linked_state to stbuf none = err other
linked_state to stbuf (some from) =
    ok (record { from = from; to = to; to_exists = true; uid = stbuf.st_uid; gid = stbuf.st_gid })

abbrev found_state : FilePath → FilePath → Host → Option Stat → Outcome BilogLink
found_state to fspath host none =
    ok (record { from = empty_path; to = to; to_exists = false; uid = 0; gid = 0 })
found_state to fspath host (some stbuf) = do
  from ← find_hardlink stbuf.st_ino fspath host
  linked_state to stbuf from

unfoldable pub old : BilogLink → FilePath → Host → Outcome BilogLink
old r fspath host = do
  found ← stat_or_missing (translate_and_stat r.to fspath host)
  found_state r.to fspath host found
