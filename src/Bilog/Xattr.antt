-- ===== src/Bilog/Xattr.antt =====
-- `bilog_xattr` of fsyncd/src/journal/bilog.rs.
use fsyncer.Base.{
  ℕ, Bool, true, false, List, Option, none, some, length, Outcome, ok, err, panic, ErrorKind, ◌>>=◌,
  bit_xor, ltb, leb, if◌then◌else◌,
}
use fsyncer.Common.{VfsCall}
use fsyncer.Common.Paths.{FilePath, translate_path}
use fsyncer.Common.Buffers.{xor_prefix, xor_buf}
use fsyncer.Host.{Host}
use fsyncer.Bilog.Digest.{hash_option, hash_crc32, check}

pub record BilogXattr : Type 0 where
  pub path : FilePath
  pub name : List ℕ
  pub value : Option (List ℕ)
  pub remove : Bool
  pub checksum : ℕ

-- The value of the xor state and its `remove` flag; the `expect` of a removal panics.
unfoldable pub xor_value : Option (List ℕ) → Option (List ℕ) → Outcome (List ℕ × Bool)
xor_value none none = panic
xor_value (some ovalue) none = ok (ovalue, true)
xor_value none (some nvalue) = ok (nvalue, true)
xor_value (some ovalue) (some nvalue) =
    if ltb (length nvalue) (length ovalue)
    then (do buf ← xor_buf ovalue nvalue; ok (buf, false))
    else (do buf ← xor_buf nvalue ovalue; ok (buf, false))

unfoldable pub xor : BilogXattr → BilogXattr → Outcome BilogXattr
unfolding xor_value
xor o n = do
  r ← xor_value o.value n.value
  ok (record {
    path = n.path;
    name = n.name;
    value = some r.0;
    remove = r.1;
    checksum = bit_xor n.checksum o.checksum;
  })

-- `for v in 0..value.len() { value[v] ^= ovalue[v]; }`: an index past `ovalue` panics.
unfoldable pub xor_in_place : List ℕ → List ℕ → Outcome (List ℕ)
xor_in_place value ovalue =
    if leb (length value) (length ovalue) then ok (xor_prefix value ovalue) else panic

-- `expect` and `unwrap`.
abbrev pub expect : {A : Type 0} → Option A → Outcome A
expect none = panic
expect (some a) = ok a

-- `ENODATA` is a value for `old`: `none`.
unfoldable pub value_or_missing : Outcome (List ℕ) → Outcome (Option (List ℕ))
value_or_missing (ok value) = ok (some value)
value_or_missing (err ErrorKind.no_data) = ok none
value_or_missing (err e) = err e
value_or_missing panic = panic

module _ (crc : List ℕ → ℕ) where
  abbrev hash_value : Option (List ℕ) → ℕ
  hash_value value = hash_crc32 crc (hash_option value)

  unfoldable pub crc32 : BilogXattr → ℕ
  crc32 s = hash_value s.value

  abbrev set_csum : BilogXattr → BilogXattr
  set_csum s = record s { checksum = hash_value s.value }

  unfoldable pub new : VfsCall → Outcome BilogXattr
  new (VfsCall.setxattr path name value flags) = ok (
      set_csum
        (record { path = path; name = name; value = some value; remove = false; checksum = 0 }))
  new (VfsCall.removexattr path name) =
      ok (set_csum (record { path = path; name = name; value = none; remove = true; checksum = 0 }))
  new _ = panic

  -- Both states hold a value: the new one is the difference, checked.
  unfoldable pub apply_change : BilogXattr → List ℕ → ℕ → Outcome VfsCall
  apply_change x ovalue ochecksum = do
    xvalue ← expect x.value
    value ← xor_in_place xvalue ovalue
    check (hash_value (some value)) ochecksum x.checksum (VfsCall.setxattr x.path x.name value 0)

  abbrev apply_at : BilogXattr → Option (List ℕ) → ℕ → Outcome VfsCall
  apply_at x none ochecksum = do value ← expect x.value; ok (VfsCall.setxattr x.path x.name value 0)
  apply_at x (some ovalue) ochecksum =
      if x.remove then ok (VfsCall.removexattr x.path x.name) else apply_change x ovalue ochecksum

  unfoldable pub apply : BilogXattr → BilogXattr → Outcome VfsCall
  unfolding apply_change
  apply x o = apply_at x o.value o.checksum

  abbrev state_of : FilePath → List ℕ → Option (List ℕ) → BilogXattr
  state_of path name none =
      set_csum (record { path = path; name = name; value = none; remove = true; checksum = 0 })
  state_of path name (some value) =
      set_csum
        (record { path = path; name = name; value = some value; remove = false; checksum = 0 })

  unfoldable pub old : BilogXattr → FilePath → Host → Outcome BilogXattr
  old r fspath host = do
    found ← value_or_missing (host.lgetxattr (translate_path r.path fspath) r.name)
    ok (state_of r.path r.name found)
