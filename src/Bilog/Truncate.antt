-- ===== src/Bilog/Truncate.antt =====
-- `bilog_truncate` of fsyncd/src/journal/bilog.rs. Sizes are `i64` bit patterns.
use fsyncer.Base.{
  ℕ, ◌+◌, ◌-◌, ◌%◌, Bool, true, false, ◌&&◌, List, [], ◌∷◌, ◌++◌, ◌⊎◌, inl, inr, Outcome, ok, panic,
  ◌>>=◌, bit_xor, if◌then◌else◌,
}
use fsyncer.Common.{VfsCall}
use fsyncer.Common.Paths.{FilePath, translate_path}
use fsyncer.Common.Words.{two_64, ltb_i64}
use fsyncer.Common.Buffers.{read_exact_at}
use fsyncer.Host.{Host, translate_and_stat}
use fsyncer.Bilog.Digest.{hash_slice, hash_i64, hash_crc32, check}

pub record BilogTruncate : Type 0 where
  pub path : FilePath
  pub size : ℕ
  pub buf : List ℕ
  pub checksum : ℕ

abbrev pub is_empty : List ℕ → Bool
is_empty [] = true
is_empty (b ∷ bs) = false

unfoldable pub xor : BilogTruncate → BilogTruncate → BilogTruncate
xor o n = record {
  path = n.path;
  size = bit_xor o.size n.size;
  buf = o.buf;
  checksum = bit_xor n.checksum o.checksum;
}

-- The size that a side of the `Either` leads to from the size on disk.
abbrev target : BilogTruncate ⊎ BilogTruncate → ℕ → ℕ
target (inl n) osize = n.size
target (inr x) osize = bit_xor x.size osize

abbrev side_path : BilogTruncate ⊎ BilogTruncate → FilePath
side_path (inl n) = n.path
side_path (inr x) = x.path

-- The bytes that `old` reads, where the target is larger than the file.
unfoldable pub read_tail : ℕ → ℕ → FilePath → Host → Outcome (List ℕ)
read_tail osize nsize real_path host =
    if ltb_i64 osize nsize
    then (do
      contents ← host.open_file real_path
      read_exact_at contents ((nsize + two_64 - osize) % two_64) osize)
    else ok []

module _ (crc : List ℕ → ℕ) where
  abbrev hash_parts : List ℕ → ℕ → ℕ
  hash_parts buf size = hash_crc32 crc (hash_slice buf ++ hash_i64 size)

  unfoldable pub crc32 : BilogTruncate → ℕ
  crc32 s = hash_parts s.buf s.size

  abbrev set_csum : BilogTruncate → BilogTruncate
  set_csum s = record s { checksum = hash_parts s.buf s.size }

  unfoldable pub new : VfsCall → Outcome BilogTruncate
  new (VfsCall.truncate path size) =
      ok (set_csum (record { path = path; size = size; buf = []; checksum = 0 }))
  new _ = panic

  unfoldable pub apply : BilogTruncate → BilogTruncate → Outcome VfsCall
  apply x o =
      let nsize = bit_xor x.size o.size in
      check (hash_parts x.buf nsize) o.checksum x.checksum (
        if ltb_i64 o.size nsize && is_empty x.buf
        then VfsCall.write x.path o.size x.buf
        else VfsCall.truncate x.path (bit_xor x.size o.size))

  unfoldable pub old : BilogTruncate ⊎ BilogTruncate → FilePath → Host → Outcome BilogTruncate
  old r fspath host = do
    stbuf ← translate_and_stat (side_path r) fspath host
    let osize = stbuf.st_size
    buf ← read_tail osize (target r osize) (translate_path (side_path r) fspath) host
    ok (set_csum (record { path = side_path r; size = stbuf.st_size; buf = buf; checksum = 0 }))
