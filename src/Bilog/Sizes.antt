-- ===== src/Bilog/Sizes.antt =====
-- Entries for truncations: which of them can be made, applied and undone.
use fsyncer.Base.{
  ℕ, ◌+◌, ◌-◌, ◌%◌, ◌<◌, ◌≤◌, List, [], length, ok, err, unexpected_eof, bit_xor_cancel,
  bit_xor_cancel_left, ◌≡◌, ◌∙◌, true, false, leb, arith,
}
use fsyncer.Common.{VfsCall}
use fsyncer.Common.Paths.{FilePath, translate_path}
use fsyncer.Common.Words.{two_63, two_64, ltb_i64}
use fsyncer.Common.Buffers.{read_exact_at}
use fsyncer.Host.{Host, Stat}
use fsyncer.Bilog.{try_from, apply, replay}
use fsyncer.Bilog.Digest.{check_redo}
use fsyncer.Bilog.Truncate
use fsyncer.Bilog.Truncate.{read_tail}
use fsyncer.Bilog.Attributes.{FindsStat}

-- A regular file: its size is the length of its contents, and fits an `i64`.
pub record HoldsFile (host : Host) (fspath path : FilePath) (contents : List ℕ) (st : Stat)
    : Type 0 where
  pub found : FindsStat host fspath path st
  pub opens : host.open_file (translate_path path fspath) ≡ ok contents
  pub size : st.st_size ≡ length contents
  pub fits : length contents < two_63

grows : (a b : ℕ) → a < b → b < two_63 → ltb_i64 a b ≡ true
grows a b h fits = ground arith

shrinks : (a b : ℕ) → b ≤ a → a < two_63 → ltb_i64 a b ≡ false
shrinks a b h fits = ground arith

past_end : (a b : ℕ) → a < b → b < two_63 → leb (a + (b + two_64 - a) % two_64) a ≡ false
past_end a b h fits = ground arith

module _ {host : Host} {fspath path : FilePath} {contents : List ℕ} {st : Stat}
    (file : HoldsFile host fspath path contents st) where
  -- Nothing is read for a target that is not larger.
  read_tail_shrink :
      (size : ℕ)
      → size ≤ length contents
      → read_tail st.st_size size (translate_path path fspath) host ≡ ok []
  unfolding read_tail
  read_tail_shrink size h = rw file.size (rw (shrinks (length contents) size h file.fits))

  -- For a larger target the bytes past the end are read, which fails.
  read_tail_grow :
      (size : ℕ)
      → length contents < size
      → size < two_63
      → read_tail st.st_size size (translate_path path fspath) host ≡ err unexpected_eof
  unfolding read_tail read_exact_at
  read_tail_grow size h fits = rw file.size (
      rw (grows (length contents) size h fits)
        (rw file.opens (rw (past_end (length contents) size h fits))))

module _ (crc : List ℕ → ℕ) {fspath path : FilePath} {before after : Host}
    {contents contents' : List ℕ} {st st' : Stat}
    (old_file : HoldsFile before fspath path contents st)
    (new_file : HoldsFile after fspath path contents' st') (size : ℕ) where
  -- An entry for a truncation to less than the file's size gives the call back where the file has its
  -- old size. Where the file has the new size, applying the entry is an error of the read past its end.
  pub replay-shrink :
      size < length contents
      → length contents' ≡ size
      → let call = VfsCall.truncate path size in
        (replay crc call fspath before before ≡ ok call)
        × (replay crc call fspath before after ≡ err unexpected_eof)
  unfolding try_from apply Truncate.new Truncate.old Truncate.xor Truncate.apply
  replay-shrink h e = (
    rw old_file.found (
        rw (read_tail_shrink old_file size (omega arith)) (
          rw (old_file.found, Truncate.old)
            (rw (bit_xor_cancel_left st.st_size size) (
              rw (read_tail_shrink old_file size (omega arith))
                (rw (bit_xor_cancel_left st.st_size size) (rw not_grown (check_redo _ _ _))))))),
    rw old_file.found (
        rw (read_tail_shrink old_file size (omega arith)) (
          rw (new_file.found, Truncate.old)
            (rw new_size (rw (bit_xor_cancel st.st_size size) (rw (← new_size) (rw at_end)))))),
  )
    where
      not_grown : ltb_i64 st.st_size size ≡ false
      not_grown = rw old_file.size (shrinks (length contents) size (omega arith) old_file.fits)

      new_size : st'.st_size ≡ size
      new_size = new_file.size ∙ e

      at_end :
          read_tail st'.st_size st.st_size (translate_path path fspath) after ≡ err unexpected_eof
      at_end = rw old_file.size (read_tail_grow new_file (length contents) (rw e h) old_file.fits)

  -- For a truncation that extends the file no entry is made: `try_from` is an error of the read past
  -- the file's end.
  try_from-extend :
      length contents < size
      → size < two_63
      → try_from crc (VfsCall.truncate path size) fspath before ≡ err unexpected_eof
  unfolding try_from Truncate.new Truncate.old
  try_from-extend h fits = rw old_file.found (rw (read_tail_grow old_file size h fits))
