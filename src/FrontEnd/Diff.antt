-- ===== src/FrontEnd/Diff.antt =====
-- What a diff write of fsyncd/src/fuse_hl/write_unix.rs says of the caller's bytes.
use mathlib.Core.List.{append-nil, append_assoc}
use fsyncer.Base.{
  ℕ, zero, suc, ◌+◌, ◌-◌, ◌%◌, ◌≤◌, ◌≡◌, ◌≢◌, refl, ap, ap₂, sym, ◌∙◌, true, List, [], ◌∷◌, ◌++◌,
  length, take, drop, replicate, some, Outcome, ok, panic, ◌>>=◌, ltb_past, lt→ltb, ◌==◌, ==_ne,
  ==_refl, arith, bit_xor, zero-bit_xor, bit_xor_cancel, inl, inr, ◌⊎◌, length-replicate,
}
use fsyncer.Common.{VfsCall}
use fsyncer.Common.Paths.{FilePath}
use fsyncer.Common.Words.{two_64}
use fsyncer.Common.Buffers.{xor_prefix, length-xor_prefix, xor_prefix_cancel}
use fsyncer.FrontEnd.{diff_call, leading_zeroes, trailing_zeroes, range, write_call}
use fsyncer.FrontEnd.Zeroes.{leading_le, trailing_le, zeroes_apart, take-leading, take-trailing}

module _ (bs : List ℕ) (trailing : ℕ) (apart : leading_zeroes bs + trailing ≤ length bs) where
  abbrev stripped : List ℕ
  stripped = take (length bs - trailing - leading_zeroes bs) (drop (leading_zeroes bs) bs)

  range-stripped : range bs (leading_zeroes bs) (length bs - trailing) ≡ ok stripped
  range-stripped =
      rw (ltb_past (length bs - trailing) (leading_zeroes bs) (omega (arith, apart)))
        (rw (ltb_past (length bs) (length bs - trailing) (omega arith)) refl)

  padded-stripped :
      take (length bs - trailing) bs ++ replicate trailing 0 ≡ bs
      → replicate (leading_zeroes bs) 0 ++ (stripped ++ replicate trailing 0) ≡ bs
  padded-stripped restored =
      sym (append_assoc (replicate (leading_zeroes bs) 0) stripped (replicate trailing 0))
      ∙ ap (λ l. l ++ replicate trailing 0)
          (take-leading (length bs - trailing - leading_zeroes bs) bs ∙ ap (λ k. take k bs) sum)
      ∙ restored
    where
      sum : leading_zeroes bs + (length bs - trailing - leading_zeroes bs) ≡ length bs - trailing
      sum = omega (arith, apart)

replicate-xor_prefix : (old : List ℕ) → xor_prefix (replicate (length old) 0) old ≡ old
unfolding xor_prefix
replicate-xor_prefix [] = refl
replicate-xor_prefix (o ∷ os) = rw (zero-bit_xor o) (ap (λ l. o ∷ l) (replicate-xor_prefix os))

all_zero-eq :
    (buf old : List ℕ)
    → length old ≡ length buf
    → trailing_zeroes (xor_prefix buf old) ≡ length (xor_prefix buf old)
    → buf ≡ old
all_zero-eq buf old same all =
    let nb = xor_prefix buf old in
    let zeroes : replicate (length old) 0 ≡ nb =
      ap (λ n. replicate n 0) (same ∙ sym (length-xor_prefix buf old) ∙ sym all)
      ∙ take-trailing nb 0 (omega (arith, all)) in
    sym (xor_prefix_cancel buf old)
    ∙ sym (ap (λ l. xor_prefix l old) zeroes)
    ∙ replicate-xor_prefix old

take-all : (bs : List ℕ) → take (length bs) bs ≡ bs
take-all [] = refl
take-all (b ∷ bs) = ap (λ l. b ∷ l) (take-all bs)

length-cases : (m n : ℕ) → (m ≡ n) ⊎ (m ≢ n)
length-cases m n = ground arith

test_true : (m n : ℕ) → m ≡ n → (m == n) ≡ true
test_true m n e = ground (arith, e)

take-minus_zero : (bs : List ℕ) → take (length bs - 0) bs ++ [] ≡ bs
take-minus_zero bs = append-nil _ ∙ ap (λ k. take k bs) (minus_zero (length bs)) ∙ take-all bs
  where
    minus_zero : (n : ℕ) → n - 0 ≡ n
    minus_zero n = omega arith

-- The diff write for `buf` over the bytes `old` of the file.
abbrev pub Encodes : FilePath → ℕ → List ℕ → List ℕ → Outcome (VfsCall × List ℕ) → Type 0
Encodes path offset buf old result =
    (leading : ℕ) × (trailing : ℕ) × (diff : List ℕ) × (result
      ≡ ok (VfsCall.diff_write path ((offset + leading) % two_64) diff, xor_prefix buf old))
    × (xor_prefix (replicate leading 0 ++ (diff ++ replicate trailing 0)) old ≡ buf)

Encodes-strip :
    (path : FilePath) (offset : ℕ) (buf old : List ℕ) (trailing : ℕ)
    → leading_zeroes (xor_prefix buf old) + trailing ≤ length (xor_prefix buf old)
    → take (length (xor_prefix buf old) - trailing) (xor_prefix buf old) ++ replicate trailing 0
      ≡ xor_prefix buf old
    → Encodes path offset buf old (
        diff_call path offset (xor_prefix buf old) (leading_zeroes (xor_prefix buf old)) trailing
        >>= λ call. ok (call, xor_prefix buf old))
Encodes-strip path offset buf old trailing apart restored =
    let nb = xor_prefix buf old in
    (
      leading_zeroes nb,
      trailing,
      stripped nb trailing apart,
      rw (range-stripped nb trailing apart) refl,
      rw (padded-stripped nb trailing apart restored) (xor_prefix_cancel buf old),
    )

-- With diff writes, and a file that has the bytes `o ∷ os` of the `buf` that is written, no more of
-- them and not the same: the call is a diff write of bytes which, with zeroes put back at both
-- ends, XOR the bytes of the file to those of `buf`. The bytes that are then written to the backing
-- store are the XORed ones.
pub write_call-diff :
    (path : FilePath) (offset : ℕ) (buf : List ℕ) (o : ℕ) (os : List ℕ)
    → length (o ∷ os) ≤ length buf
    → buf ≢ o ∷ os
    → Encodes path offset buf (o ∷ os) (write_call true path offset buf (some (o ∷ os)))
unfolding write_call
write_call-diff path offset buf o os fits differs =
    let nb = xor_prefix buf (o ∷ os) in
    elim (length-cases (length (o ∷ os)) (length nb)) [
      | inl same ↦ rw (test_true (length (o ∷ os)) (length nb) same) (
          Encodes-strip path offset buf (o ∷ os) (trailing_zeroes nb)
            (zeroes_apart nb (some_left same)) (take-trailing nb _ (omega (arith, trailing_le nb))))
      | inr more ↦ rw (==_ne (length (o ∷ os)) (length nb) more) (
          Encodes-strip path offset buf (o ∷ os) 0 (omega (arith, leading_le nb))
            (take-minus_zero nb))
    ]
  where
    some_left :
        length (o ∷ os) ≡ length (xor_prefix buf (o ∷ os))
        → trailing_zeroes (xor_prefix buf (o ∷ os)) ≢ length (xor_prefix buf (o ∷ os))
    some_left same all =
        differs (all_zero-eq buf (o ∷ os) (same ∙ length-xor_prefix buf (o ∷ os)) all)

xor_prefix_self : (bs : List ℕ) → xor_prefix bs bs ≡ replicate (length bs) 0
unfolding xor_prefix
xor_prefix_self [] = refl
xor_prefix_self (b ∷ bs) = ap₂ (λ x xs. x ∷ xs) (xor_self b) (xor_prefix_self bs)
  where
    xor_self : (b : ℕ) → bit_xor b b ≡ 0
    xor_self b = sym (ap (λ x. bit_xor x b) (zero-bit_xor b)) ∙ bit_xor_cancel 0 b

leading_zeroes-replicate : (n : ℕ) → leading_zeroes (replicate n 0) ≡ n
unfolding leading_zeroes
leading_zeroes-replicate zero = refl
leading_zeroes-replicate (suc n) = ap suc (leading_zeroes-replicate n)

trailing_zeroes-replicate : (n : ℕ) → trailing_zeroes (replicate n 0) ≡ n
unfolding trailing_zeroes
trailing_zeroes-replicate zero = refl
trailing_zeroes-replicate (suc n) =
    rw (trailing_zeroes-replicate n, length-replicate {A = ℕ} n 0) (rw (==_refl n) refl)

range-zeroes :
    (n : ℕ)
    → range
        (replicate (suc n) 0)
        (leading_zeroes (replicate (suc n) 0))
        (length {A = ℕ} (replicate (suc n) 0) - trailing_zeroes (replicate (suc n) 0))
      ≡ panic
range-zeroes n =
    rw
      (
        leading_zeroes-replicate (suc n),
        trailing_zeroes-replicate (suc n),
        length-replicate {A = ℕ} (suc n) 0,
      )
      (rw (lt→ltb (suc n - suc n) (suc n) (omega arith)) refl)

-- With diff writes, writing the bytes that the file has already panics.
pub write_call-same :
    (path : FilePath) (offset o : ℕ) (os : List ℕ)
    → write_call true path offset (o ∷ os) (some (o ∷ os)) ≡ panic
unfolding write_call
write_call-same path offset o os =
    let nb = xor_prefix (o ∷ os) (o ∷ os) in
    rw (test_true (length (o ∷ os)) (length nb) (sym (length-xor_prefix (o ∷ os) (o ∷ os))))
      (rw (xor_prefix_self (o ∷ os)) (rw (range-zeroes (length os)) refl))
