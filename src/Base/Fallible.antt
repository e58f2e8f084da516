-- ===== src/Base/Fallible.antt =====
-- What a fallible function does: it returns, it returns an error, or it panics.
-- The kinds of `io::Error` that the code tells apart.
pub data ErrorKind : Type 0 where
  not_found unexpected_eof no_data would_block other : ErrorKind

pub data Outcome {ℓ} (A : Type ℓ) : Type ℓ where
  ok : A → Outcome A
  err : ErrorKind → Outcome A
  panic : Outcome A

-- An error and a panic skip what follows.
infixl 5 ◌>>=◌
abbrev pub ◌>>=◌ {ℓ₁ ℓ₂} :
    {Val : Type ℓ₁} {Res : Type ℓ₂} → Outcome Val → (Val → Outcome Res) → Outcome Res
run >>= next = elim run [ ok val ↦ next val | err kind ↦ err kind | panic ↦ panic ]
