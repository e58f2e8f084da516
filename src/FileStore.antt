-- ===== src/FileStore.antt =====
-- fsyncd/src/journal/filestore.rs: the store of removed files. Here `recover`, the call that brings a
-- file back.
pub mod Tokens
pub mod Space
pub mod Stores
use fsyncer.Base.{ℕ, true, false, List, [], ◌∷◌, Outcome, ok, ◌>>=◌}
use fsyncer.Common.{VfsCall, unix}
use fsyncer.Common.Paths.{FilePath, join, decimal}
use fsyncer.Host.{Host}

-- `FILESTORE_PATH`, ".fsyncer-deleted".
abbrev pub filestore_path : List ℕ
filestore_path =
    b'.' ∷ b'f' ∷ b's' ∷ b'y' ∷ b'n' ∷ b'c' ∷ b'e' ∷ b'r' ∷ b'-' ∷ b'd' ∷ b'e' ∷ b'l' ∷ b'e' ∷ b't'
    ∷ b'e' ∷ b'd' ∷ []

-- `format!("{}/.fsyncer-deleted/{}", vfsroot.display(), token)`.
abbrev pub token_path : FilePath → ℕ → FilePath
token_path vfsroot token =
    join vfsroot (record { is_absolute = false; components = filestore_path ∷ decimal token ∷ [] })

-- `PathBuf::from(format!("/.fsyncer-deleted/{}", token))`.
abbrev pub rela_path : ℕ → FilePath
rela_path token = record { is_absolute = true; components = filestore_path ∷ decimal token ∷ [] }

unfoldable pub recover : FilePath → ℕ → FilePath → Host → Outcome VfsCall
recover vfsroot token path host = do
  stbuf ← host.lstat (token_path vfsroot token)
  ok (VfsCall.link (rela_path token) path (unix stbuf.st_uid stbuf.st_gid))
