-- ===== src/Bilog/Digest.antt =====
-- The macro `hash_crc32!` of fsyncd/src/journal/bilog.rs: values are fed to a digest by `Hash`, and
-- the digest's low 32 bits are the checksum.
--
-- The digest of the `crc` crate is the parameter `crc`, a function of the bytes that were fed to
-- it. `Hash` of the standard library feeds an integer as its little-endian bytes, a slice as its
-- length and its elements, and an `Option` as its discriminant and its value.
use fsyncer.Base.{
  ℕ, ◌%◌, ◌^◌, List, ◌++◌, Option, none, some, length, Outcome, ok, err, other, if◌then◌else◌, ◌==◌,
  bit_xor, bit_xor_comm, bit_xor_injective, ==_refl, ◌≡◌, arith,
}
use fsyncer.Common.{Timespec, Times}
use fsyncer.Common.Words.{le_bytes}

abbrev pub hash_u32 : ℕ → List ℕ
hash_u32 n = le_bytes 4 n

abbrev pub hash_i64 : ℕ → List ℕ
hash_i64 n = le_bytes 8 n

abbrev pub hash_slice : List ℕ → List ℕ
hash_slice bytes = le_bytes 8 (length bytes) ++ bytes

abbrev pub hash_timespec : Timespec → List ℕ
hash_timespec t = hash_i64 t.high ++ hash_i64 t.low

abbrev pub hash_times : Times → List ℕ
hash_times t =
    le_bytes 8 3 ++ (hash_timespec t.atime ++ (hash_timespec t.mtime ++ hash_timespec t.third))

abbrev pub hash_option : Option (List ℕ) → List ℕ
hash_option none = le_bytes 8 0
hash_option (some bytes) = le_bytes 8 1 ++ hash_slice bytes

abbrev pub hash_crc32 : (List ℕ → ℕ) → List ℕ → ℕ
hash_crc32 crc bytes = crc bytes % 2 ^ 32

-- The test before an entry is applied: `hash ^ o.checksum != x.checksum` is an error.
unfoldable pub check : {A : Type 0} → ℕ → ℕ → ℕ → A → Outcome A
check hash old xor call = if bit_xor hash old == xor then ok call else err other

-- The checksum of the state that is being left passes ...
pub check_redo : {A : Type 0} (n o : ℕ) (call : A) → check n o (bit_xor n o) call ≡ ok call
unfolding check
check_redo n o call = rw (==_refl (bit_xor n o))

-- ... and so does that of the state that was reached.
pub check_undo : {A : Type 0} (n o : ℕ) (call : A) → check o n (bit_xor n o) call ≡ ok call
unfolding check
check_undo n o call = rw (bit_xor_comm o n, ==_refl (bit_xor n o))

-- Against the checksum `n ^ o`, a hash passes at the state `o` exactly if it is `n`.
pub check_redo_if :
    {A : Type 0} (h n o : ℕ) (call : A)
    → check h o (bit_xor n o) call ≡ (if h == n then ok call else err other)
unfolding check
check_redo_if h n o call = ground (arith, bit_xor_injective h n o)

-- The hash of the old state passes at the new state `m` exactly if `m` is `n`.
pub check_undo_if :
    {A : Type 0} (m n o : ℕ) (call : A)
    → check o m (bit_xor n o) call ≡ (if m == n then ok call else err other)
unfolding check
check_undo_if m n o call = rw (bit_xor_comm o m) (check_redo_if m n o call)
