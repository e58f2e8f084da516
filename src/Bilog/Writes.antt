-- ===== src/Bilog/Writes.antt =====
-- Entries for writes, applied before the write and after it.
use fsyncer.Base.{
  ℕ, ◌+◌, ◌-◌, ◌<◌, ◌≤◌, min, max, List, [], ◌∷◌, length, Outcome, ok, err, other, bit_xor,
  bit_xor_cancel, bit_xor_cancel_left, ◌≡◌, refl, sym, ap, true, ltb, leb, le→leb, ◌==◌, arith,
  if◌then◌else◌, Bool-cases, inl, inr,
}
use fsyncer.Common.{VfsCall}
use fsyncer.Common.Paths.{FilePath, translate_path}
use fsyncer.Common.Words.{two_63, leb_i64}
use fsyncer.Common.Buffers.{
  xor_buf, xor_prefix, xor_prefix_cancel, length-xor_prefix, xor_prefix_cancel_left, read_exact_at,
}
use fsyncer.Common.Files.{
  pwrite, slice, length-pwrite, slice-pwrite, length-slice, slice_clip, slice_past,
}
use fsyncer.Host.{Host}
use fsyncer.Bilog.{BilogEntry, try_from, apply, replay}
use fsyncer.Bilog.Digest.{check, check_redo_if, check_undo_if}
use fsyncer.Bilog.Write
use fsyncer.Bilog.Write.{BilogWrite, new_size, apply_buf, read_overlap, hash_parts}

fits_inside : (off len n : ℕ) → ltb off n ≡ true → leb (off + min (n - off) len) n ≡ true
fits_inside off len n h = ground arith

read_overlap_lem :
    (contents : List ℕ) (off len : ℕ) → read_overlap contents off len ≡ ok (slice contents off len)
unfolding read_overlap read_exact_at
read_overlap_lem contents off len = elim (Bool-cases (ltb off (length contents))) [
  | inl inside ↦
      rw inside
        (rw (fits_inside off len (length contents) inside) (ap ok (slice_clip contents off len)))
  | inr past ↦ rw past (ap ok (sym (slice_past contents off len (ground arith))))
]

new_size_lem :
    (off : ℕ) (buf : List ℕ) (olen : ℕ)
    → off + length buf < two_63
    → olen < two_63
    → new_size off buf olen ≡ max (off + length buf) olen
unfolding new_size
new_size_lem off buf olen p q = ground arith

apply_buf_redo :
    (new old : List ℕ) → length old ≤ length new → apply_buf (xor_prefix new old) old ≡ ok new
unfolding apply_buf xor_buf
apply_buf_redo new [] h = unfold xor_prefix in refl
apply_buf_redo new (o ∷ os) h =
    rw (fits_xor new (o ∷ os) h) (ap ok (xor_prefix_cancel new (o ∷ os)))
  where
    fits_xor :
        (new old : List ℕ)
        → length old ≤ length new
        → leb (length old) (length (xor_prefix new old)) ≡ true
    fits_xor new old h = rw length-xor_prefix (le→leb _ _ h)

apply_buf_undo :
    (new old : List ℕ)
    → length new ≡ length old
    → 0 < length new
    → apply_buf (xor_prefix new old) new ≡ ok old
unfolding apply_buf xor_buf
apply_buf_undo [] old e pos = absurd (omega arith)
apply_buf_undo (n ∷ ns) old e pos =
    rw
      (le→leb (length (n ∷ ns)) (length (xor_prefix (n ∷ ns) old))
        (rw length-xor_prefix (omega arith)))
      (ap ok (xor_prefix_cancel_left (n ∷ ns) old e))

module _ (crc : List ℕ → ℕ) (fspath path : FilePath) (before : Host) (contents : List ℕ) (off : ℕ)
    (buf : List ℕ) (opens : before.open_file (translate_path path fspath) ≡ ok contents)
    (fits : off + length buf < two_63) (small : length contents < two_63) where
  abbrev pub nsize : ℕ
  nsize = max (off + length buf) (length contents)

  abbrev pub obuf : List ℕ
  obuf = slice contents off (length buf)

  abbrev entry : BilogWrite
  entry = record {
    path = path;
    offset = off;
    buf = xor_prefix buf obuf;
    length' = bit_xor nsize (length contents);
    checksum = bit_xor (hash_parts crc buf 0) (hash_parts crc obuf (length contents));
  }

  obuf_fits : length obuf ≤ length buf
  obuf_fits = rw length-slice (ground arith)

  try_from-write :
      try_from crc (VfsCall.write path off buf) fspath before ≡ ok (BilogEntry.write entry)
  unfolding try_from Write.new Write.old Write.xor xor_buf
  try_from-write = rw opens (
      rw read_overlap_lem
        (rw (le→leb _ _ obuf_fits) (rw (new_size_lem off buf (length contents) fits small))))

  -- The entry, where the file holds `contents'`.
  apply-write :
      (host : Host) (contents' new : List ℕ)
      → host.open_file (translate_path path fspath) ≡ ok contents'
      → apply_buf entry.buf (slice contents' off (length buf)) ≡ ok new
      → let len = bit_xor entry.length' (length contents') in
        apply crc (BilogEntry.write entry) fspath host
        ≡ check
            (hash_parts crc new len)
            (hash_parts crc (slice contents' off (length buf)) (length contents'))
            entry.checksum
            (if leb_i64 (length contents') len
              then VfsCall.write path off new
              else VfsCall.truncating_write path off new (bit_xor (length contents') entry.length'))
  unfolding apply Write.old Write.apply
  apply-write host contents' new e f = rw e (rw length-xor_prefix (rw read_overlap_lem (rw f)))

  -- The checksum of the call is taken with length 0, that of the entry with the length of the file
  -- after the write.
  abbrev pub verdict : VfsCall → Outcome VfsCall
  verdict call = if hash_parts crc buf nsize == hash_parts crc buf 0 then ok call else err other

  -- Let a write entry be made for a file of less than 2 ^ 63 bytes, the write ending below 2 ^ 63.
  -- Where the write has not happened, applying the entry gives the call back if the checksum of the
  -- written bytes with length 0 is that with the new length of the file, and an error if it is not.
  pub replay-write :
      replay crc (VfsCall.write path off buf) fspath before before
      ≡ verdict (VfsCall.write path off buf)
  replay-write = rw try_from-write (
      rw (apply-write before contents buf opens (apply_buf_redo buf obuf obuf_fits))
        (rw (bit_xor_cancel nsize (length contents)) (rw grown (check_redo_if _ _ _ _))))
    where
      grown : leb_i64 (length contents) nsize ≡ true
      grown = ground arith

  -- Let the write be within the file and not be empty, and `after` be a state in which it has
  -- happened. Under the same condition on the checksums applying the entry gives the write of the old
  -- bytes, and otherwise an error.
  pub replay-write_back :
      (after : Host)
      → off + length buf ≤ length contents
      → 0 < length buf
      → after.open_file (translate_path path fspath) ≡ ok (pwrite contents off buf)
      → replay crc (VfsCall.write path off buf) fspath before after
        ≡ verdict (VfsCall.write path off obuf)
  replay-write_back after inside some_bytes reads = rw try_from-write (
      rw (apply-write after (pwrite contents off buf) obuf reads new_bytes) (
        rw (slice-pwrite contents off buf) (
          rw same (
            rw (bit_xor_cancel_left nsize (length contents))
              (rw as_long (check_undo_if _ _ _ _))))))
    where
      as_long : leb_i64 nsize (length contents) ≡ true
      as_long = ground arith

      same : length (pwrite contents off buf) ≡ nsize
      same = length-pwrite contents off buf

      new_bytes : apply_buf entry.buf (slice (pwrite contents off buf) off (length buf)) ≡ ok obuf
      new_bytes =
          rw (slice-pwrite contents off buf)
            (apply_buf_undo buf obuf (rw length-slice (omega arith)) some_bytes)
