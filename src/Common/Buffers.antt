-- ===== src/Common/Buffers.antt =====
-- `xor_buf` of fsyncd/src/common/mod.rs, and reads at an offset of a file's bytes.
use fsyncer.Base.{
  ℕ, suc, ◌+◌, ◌≡◌, refl, ap, List, [], ◌∷◌, Outcome, ok, err, panic, unexpected_eof, bit_xor,
  bit_xor_cancel, bit_xor_cancel_left, length, take, drop, if◌then◌else◌, leb, arith,
}

-- The loop of `xor_buf`, over the bytes of `old`.
unfoldable pub xor_prefix : List ℕ → List ℕ → List ℕ
xor_prefix new [] = new
xor_prefix [] (o ∷ os) = []
xor_prefix (n ∷ ns) (o ∷ os) = bit_xor n o ∷ xor_prefix ns os

-- The assertion panics if `old` is longer than `new`.
unfoldable pub xor_buf : List ℕ → List ℕ → Outcome (List ℕ)
xor_buf new old = if leb (length old) (length new) then ok (xor_prefix new old) else panic

-- `FileExt::read_exact_at`, `len` bytes from `offset`.
unfoldable pub read_exact_at : List ℕ → ℕ → ℕ → Outcome (List ℕ)
read_exact_at contents len offset =
    if leb (offset + len) (length contents)
    then ok (take len (drop offset contents))
    else err unexpected_eof

pub length-xor_prefix : (new old : List ℕ) → length (xor_prefix new old) ≡ length new
unfolding xor_prefix
length-xor_prefix new [] = refl
length-xor_prefix [] (o ∷ os) = refl
length-xor_prefix (n ∷ ns) (o ∷ os) = ap suc (length-xor_prefix ns os)

pub xor_prefix_cancel : (new old : List ℕ) → xor_prefix (xor_prefix new old) old ≡ new
unfolding xor_prefix
xor_prefix_cancel new [] = refl
xor_prefix_cancel [] (o ∷ os) = refl
xor_prefix_cancel (n ∷ ns) (o ∷ os) = rw (bit_xor_cancel n o, xor_prefix_cancel ns os)

-- With as many bytes on both sides, the other operand comes back too.
pub xor_prefix_cancel_left :
    (new old : List ℕ) → length new ≡ length old → xor_prefix (xor_prefix new old) new ≡ old
unfolding xor_prefix
xor_prefix_cancel_left [] [] e = refl
xor_prefix_cancel_left [] (o ∷ os) e = absurd (omega arith)
xor_prefix_cancel_left (n ∷ ns) [] e = absurd (omega arith)
xor_prefix_cancel_left (n ∷ ns) (o ∷ os) e =
    rw (bit_xor_cancel_left n o, xor_prefix_cancel_left ns os (omega arith))
