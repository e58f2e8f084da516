-- ===== src/FrontEnd/Zeroes.antt =====
-- The zeroes at the ends of a buffer, as `do_write` of fsyncd/src/fuse_hl/write_unix.rs counts them.
use fsyncer.Base.{
  ℕ, zero, suc, ◌+◌, ◌≤◌, ◌≡◌, ◌≢◌, refl, ap, sym, ◌∙◌, List, [], ◌∷◌, ◌++◌, length, take, drop,
  replicate, ◌==◌, ==_ne, ==_refl, arith, inl, inr, ◌⊎◌, if◌then◌else◌,
}
use fsyncer.FrontEnd.{leading_zeroes, trailing_zeroes}

pub leading_le : (bs : List ℕ) → leading_zeroes bs ≤ length bs
unfolding leading_zeroes
leading_le [] = omega arith
leading_le (b ∷ bs) = ground (arith, leading_le bs)

pub trailing_le : (bs : List ℕ) → trailing_zeroes bs ≤ length bs
unfolding trailing_zeroes
trailing_le [] = omega arith
trailing_le (b ∷ bs) = ground (arith, trailing_le bs)

trailing_zeroes-cons :
    (b : ℕ) (bs : List ℕ)
    → trailing_zeroes bs ≢ length bs
    → trailing_zeroes (b ∷ bs) ≡ trailing_zeroes bs
unfolding trailing_zeroes
trailing_zeroes-cons b bs h = rw (==_ne (trailing_zeroes bs) (length bs) h) refl

trailing_zeroes-all :
    (b : ℕ) (bs : List ℕ)
    → trailing_zeroes bs ≡ length bs
    → trailing_zeroes (b ∷ bs) ≡ (if b == 0 then suc (length bs) else length bs)
unfolding trailing_zeroes
trailing_zeroes-all b bs h = rw h (rw (==_refl (length bs)) refl)

trailing-cases : (bs : List ℕ) → (trailing_zeroes bs ≡ length bs) ⊎ (trailing_zeroes bs ≢ length bs)
trailing-cases bs = ground arith

leading_zeroes-suc : (b : ℕ) (bs : List ℕ) → leading_zeroes (suc b ∷ bs) ≡ 0
unfolding leading_zeroes
leading_zeroes-suc b bs = rw (==_ne (suc b) 0 (ground arith)) refl

-- Unless all bytes are zero, the zeroes at the two ends are apart.
pub zeroes_apart :
    (bs : List ℕ)
    → trailing_zeroes bs ≢ length bs
    → leading_zeroes bs + trailing_zeroes bs ≤ length bs
unfolding leading_zeroes
zeroes_apart [] h = absurd (h (unfold trailing_zeroes in refl))
zeroes_apart (suc b ∷ bs) h = omega (arith, leading_zeroes-suc b bs, trailing_le (suc b ∷ bs))
zeroes_apart (zero ∷ bs) h = elim (trailing-cases bs) [
  | inl all ↦ absurd (h (trailing_zeroes-all 0 bs all))
  | inr some_left ↦ omega (arith, zeroes_apart bs some_left, trailing_zeroes-cons 0 bs some_left)
]

zero_plus : (k : ℕ) → 0 + k ≡ k
zero_plus k = omega arith

leading_zeroes-zero : (bs : List ℕ) → leading_zeroes (zero ∷ bs) ≡ suc (leading_zeroes bs)
unfolding leading_zeroes
leading_zeroes-zero bs = refl

suc_plus : (n k : ℕ) → suc n + k ≡ suc (n + k)
suc_plus n k = omega arith

pub take-leading :
    (k : ℕ) (bs : List ℕ)
    → replicate (leading_zeroes bs) 0 ++ take k (drop (leading_zeroes bs) bs)
      ≡ take (leading_zeroes bs + k) bs
take-leading k [] = unfold leading_zeroes in (rw (zero_plus k) refl)
take-leading k (suc b ∷ bs) = rw (leading_zeroes-suc b bs) (rw (zero_plus k) refl)
take-leading k (zero ∷ bs) =
    rw (leading_zeroes-zero bs)
      (rw (suc_plus (leading_zeroes bs) k) (ap (λ l. 0 ∷ l) (take-leading k bs)))

trailing_zeroes-suc : (b : ℕ) (bs : List ℕ) → trailing_zeroes (suc b ∷ bs) ≡ trailing_zeroes bs
unfolding trailing_zeroes
trailing_zeroes-suc b bs = rw (==_ne (suc b) 0 (ground arith)) (ground arith)

-- The zeroes at the end, put back behind the rest.
abbrev Restores : List ℕ → Type 0
Restores bs =
    (k : ℕ)
    → k + trailing_zeroes bs ≡ length bs
    → take k bs ++ replicate (trailing_zeroes bs) 0 ≡ bs

Restores-keep :
    (b : ℕ) (bs : List ℕ)
    → trailing_zeroes (b ∷ bs) ≡ trailing_zeroes bs
    → Restores bs
    → Restores (b ∷ bs)
Restores-keep b bs e restores zero h = absurd (omega (arith, h, e, trailing_le bs))
Restores-keep b bs e restores (suc k) h = rw e (ap (λ l. b ∷ l) (restores k (omega (arith, h, e))))

Restores-zero : (bs : List ℕ) → trailing_zeroes bs ≡ length bs → Restores bs → Restores (zero ∷ bs)
Restores-zero bs all restores zero h =
    rw (trailing_zeroes-all 0 bs all)
      (ap (λ l. 0 ∷ l) (sym (ap (λ n. replicate n 0) all) ∙ restores 0 (omega (arith, all))))
Restores-zero bs all restores (suc k) h = absurd (omega (arith, h, trailing_zeroes-all 0 bs all))

pub take-trailing : (bs : List ℕ) → Restores bs
take-trailing [] zero h = unfold trailing_zeroes in refl
take-trailing [] (suc k) h = absurd (omega (arith, h))
take-trailing (suc b ∷ bs) k h =
    Restores-keep (suc b) bs (trailing_zeroes-suc b bs) (take-trailing bs) k h
take-trailing (zero ∷ bs) k h = elim (trailing-cases bs) [
  | inl all ↦ Restores-zero bs all (take-trailing bs) k h
  | inr some_left ↦ Restores-keep 0 bs (trailing_zeroes-cons 0 bs some_left) (take-trailing bs) k h
]
