-- ===== src/Bilog/Rename.antt =====
-- `bilog_rename` of fsyncd/src/journal/bilog.rs. `new` and `xor` are stubs that panic there.
use fsyncer.Base.{Bool, true, Outcome, ok, if◌then◌else◌}
use fsyncer.Common.{VfsCall}
use fsyncer.Common.Paths.{FilePath}

pub record BilogRename : Type 0 where
  pub from : FilePath
  pub to : FilePath
  pub from_exists : Bool

unfoldable pub apply : BilogRename → BilogRename → Outcome VfsCall
apply x o =
    ok (if o.from_exists then VfsCall.rename x.from x.to 0 else VfsCall.rename x.to x.from 0)

-- The host is not asked.
unfoldable pub old : BilogRename → Outcome BilogRename
old r = ok (record { from = r.from; to = r.to; from_exists = true })
