-- ===== src/Bilog/Write.antt =====
-- `bilog_write` of fsyncd/src/journal/bilog.rs. Offsets and lengths are `i64` bit patterns.
use fsyncer.Base.{
  ℕ, ◌+◌, ◌-◌, ◌%◌, min, List, [], ◌∷◌, ◌++◌, length, Outcome, ok, panic, ◌>>=◌, bit_xor, ltb,
  if◌then◌else◌,
}
use fsyncer.Common.{VfsCall}
use fsyncer.Common.Paths.{FilePath, translate_path}
use fsyncer.Common.Words.{two_64, ltb_i64, leb_i64}
use fsyncer.Common.Buffers.{xor_buf, read_exact_at}
use fsyncer.Host.{Host}
use fsyncer.Bilog.Digest.{hash_slice, hash_i64, hash_crc32, check}

pub record BilogWrite : Type 0 where
  pub path : FilePath
  pub offset : ℕ
  pub buf : List ℕ
  pub length' : ℕ
  pub checksum : ℕ

-- The length of the file after the write.
unfoldable pub new_size : ℕ → List ℕ → ℕ → ℕ
new_size offset buf olength =
    let nsize = (offset + length buf) % two_64 in if ltb_i64 nsize olength then olength else nsize

unfoldable pub xor : BilogWrite → BilogWrite → Outcome BilogWrite
unfolding new_size
xor o n = do
  buf ← xor_buf n.buf o.buf
  let nsize = new_size n.offset n.buf o.length'
  ok (record {
    path = n.path;
    offset = n.offset;
    buf = buf;
    length' = bit_xor nsize o.length';
    checksum = bit_xor n.checksum o.checksum;
  })

-- The bytes that `apply` writes: those of `x`, or their difference from what is there.
unfoldable pub apply_buf : List ℕ → List ℕ → Outcome (List ℕ)
apply_buf x [] = ok x
apply_buf x (o ∷ os) = xor_buf x (o ∷ os)

-- What `old` reads of the file: the part that the write covers.
unfoldable pub read_overlap : List ℕ → ℕ → ℕ → Outcome (List ℕ)
read_overlap contents offset write_len =
    let osize = length contents in
    if ltb offset osize
    then read_exact_at contents (min (osize - offset) write_len) offset
    else ok []

module _ (crc : List ℕ → ℕ) where
  abbrev pub hash_parts : List ℕ → ℕ → ℕ
  hash_parts buf len = hash_crc32 crc (hash_slice buf ++ hash_i64 len)

  unfoldable pub crc32 : BilogWrite → ℕ
  crc32 s = hash_parts s.buf s.length'

  abbrev set_csum : BilogWrite → BilogWrite
  set_csum s = record s { checksum = hash_parts s.buf s.length' }

  unfoldable pub new : VfsCall → Outcome BilogWrite
  new (VfsCall.write path offset buf) =
      ok (set_csum (record { path = path; offset = offset; buf = buf; length' = 0; checksum = 0 }))
  new _ = panic

  unfoldable pub apply : BilogWrite → BilogWrite → Outcome VfsCall
  apply x o = do
    buf ← apply_buf x.buf o.buf
    let len = bit_xor x.length' o.length'
    check (hash_parts buf len) o.checksum x.checksum (
        if leb_i64 o.length' len
        then VfsCall.write x.path x.offset buf
        else VfsCall.truncating_write x.path x.offset buf (bit_xor o.length' x.length'))

  unfoldable pub old : BilogWrite → FilePath → Host → Outcome BilogWrite
  old r fspath host = do
    contents ← host.open_file (translate_path r.path fspath)
    buf ← read_overlap contents r.offset (length r.buf)
    ok (
        set_csum (record {
          path = r.path;
          offset = r.offset;
          buf = buf;
          length' = length contents;
          checksum = 0;
        }))
