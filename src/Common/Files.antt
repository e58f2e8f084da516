-- ===== src/Common/Files.antt =====
-- The bytes of a file under `pwrite` and reads at an offset, as POSIX has them.
use fsyncer.Base.{
  ℕ, zero, suc, ◌+◌, ◌-◌, ◌≤◌, max, min, ◌≡◌, refl, sym, ap, ◌∙◌, List, [], ◌∷◌, length, take, drop,
  length-drop, arith,
}

-- A write at an offset; a hole before it is filled with zeros.
unfoldable pub pwrite : List ℕ → ℕ → List ℕ → List ℕ
pwrite [] zero buf = buf
pwrite [] (suc n) buf = 0 ∷ pwrite [] n buf
pwrite (c ∷ cs) zero [] = c ∷ cs
pwrite (c ∷ cs) zero (b ∷ bs) = b ∷ pwrite cs zero bs
pwrite (c ∷ cs) (suc n) buf = c ∷ pwrite cs n buf

-- The bytes from `off` on, at most `len`.
abbrev pub slice : List ℕ → ℕ → ℕ → List ℕ
slice contents off len = take len (drop off contents)

pub length-pwrite :
    (cs : List ℕ) (off : ℕ) (buf : List ℕ)
    → length (pwrite cs off buf) ≡ max (off + length buf) (length cs)
unfolding pwrite
length-pwrite [] zero buf = omega arith
length-pwrite [] (suc n) buf = omega (arith, length-pwrite [] n buf)
length-pwrite (c ∷ cs) zero [] = omega arith
length-pwrite (c ∷ cs) zero (b ∷ bs) = omega (arith, length-pwrite cs zero bs)
length-pwrite (c ∷ cs) (suc n) buf = omega (arith, length-pwrite cs n buf)

take_all : (xs : List ℕ) → take (length xs) xs ≡ xs
take_all [] = refl
take_all (x ∷ xs) = ap (λ l. x ∷ l) (take_all xs)

-- What was written is read back.
pub slice-pwrite :
    (cs : List ℕ) (off : ℕ) (buf : List ℕ) → slice (pwrite cs off buf) off (length buf) ≡ buf
unfolding pwrite
slice-pwrite [] zero buf = take_all buf
slice-pwrite [] (suc n) buf = slice-pwrite [] n buf
slice-pwrite (c ∷ cs) zero [] = refl
slice-pwrite (c ∷ cs) zero (b ∷ bs) = ap (λ l. b ∷ l) (slice-pwrite cs zero bs)
slice-pwrite (c ∷ cs) (suc n) buf = slice-pwrite cs n buf

pub length-slice :
    (cs : List ℕ) (off len : ℕ) → length (slice cs off len) ≡ min len (length cs - off)
length-slice cs zero zero = omega arith
length-slice [] zero (suc len) = omega arith
length-slice (c ∷ cs) zero (suc len) = omega (arith, length-slice cs zero len)
length-slice [] (suc off) zero = omega arith
length-slice [] (suc off) (suc len) = omega arith
length-slice (c ∷ cs) (suc off) len = omega (arith, length-slice cs off len)

take_nil : (n : ℕ) → take {A = ℕ} n [] ≡ []
take_nil zero = refl
take_nil (suc n) = refl

take_clip : (m n : ℕ) (xs : List ℕ) → m ≡ min (length xs) n → take m xs ≡ take n xs
take_clip m n [] e = take_nil m ∙ sym (take_nil n)
take_clip zero zero (x ∷ xs) e = refl
take_clip zero (suc n) (x ∷ xs) e = absurd (omega arith)
take_clip (suc m) zero (x ∷ xs) e = absurd (omega arith)
take_clip (suc m) (suc n) (x ∷ xs) e = ap (λ l. x ∷ l) (take_clip m n xs (omega arith))

-- A longer read than the file has gives no more.
pub slice_clip :
    (cs : List ℕ) (off len : ℕ) → slice cs off (min (length cs - off) len) ≡ slice cs off len
slice_clip cs off len =
    take_clip (min (length cs - off) len) len (drop off cs) (rw length-drop refl)

pub slice_past : (cs : List ℕ) (off len : ℕ) → length cs ≤ off → slice cs off len ≡ []
slice_past [] zero len h = take_nil len
slice_past [] (suc off) len h = take_nil len
slice_past (c ∷ cs) zero len h = absurd (omega arith)
slice_past (c ∷ cs) (suc off) len h = slice_past cs off len (omega arith)
