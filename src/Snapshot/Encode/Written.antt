-- ===== src/Snapshot/Encode/Written.antt =====
-- A write of fsyncd/src/snapshot/forward.rs into a new block of a snapshot.
use Prim.Native.Nat.{compare, Ordering}
use fsyncer.Base.{
  ℕ, zero, suc, ◌+◌, ◌-◌, ◌≤◌, ◌<◌, ◌≡◌, refl, subst, List, [], ◌∷◌, length, get_or, Option, none,
  some, Outcome, ok, err, panic, ◌>>=◌, leb, if-cases, arith, inl, inr, ◌⊎◌,
}
use fsyncer.Snapshot.{Block, FreeList}
use fsyncer.Snapshot.Ordered.{Tree, get, insert}
use fsyncer.Snapshot.Space.{allocate, region, cut}
use fsyncer.Snapshot.Encode.{Encoded, write_all_at, encode_fresh}

-- A block holds the buffer at an offset of the file.
pub record IsWritten (offset : ℕ) (buf : List ℕ) (e : Encoded) : Type 0 where
  pub start : ℕ
  pub block : Block
  pub there : get compare start e.blocks ≡ some block
  pub before : start ≤ offset
  pub behind : offset + length buf ≤ start + block.size
  pub bytes :
      (i : ℕ) → i < length buf → e.bytes (block.location + (offset - start) + i) ≡ get_or buf i 0

get_or-default : (buf : List ℕ) (i d d' : ℕ) → i < length buf → get_or buf i d ≡ get_or buf i d'
get_or-default [] i d d' h = ground arith
get_or-default (b ∷ buf) zero d d' h = refl
get_or-default (b ∷ buf) (suc i) d d' h = get_or-default buf i d d' (omega arith)

pub written-at :
    (bytes : ℕ → ℕ) (buf : List ℕ) (location i : ℕ)
    → i < length buf
    → write_all_at bytes buf location (location + i) ≡ get_or buf i 0
written-at bytes buf location i h =
    if-cases (λ v. v ≡ get_or buf i 0) (leb location (location + i))
      (λ e.
        subst (λ n. get_or buf n (bytes (location + i)) ≡ get_or buf i 0) (omega arith)
          (get_or-default buf i (bytes (location + i)) 0 h))
      (λ e. ground arith)

compare_eq : (a : ℕ) → compare a a ≡ Ordering.eq
compare_eq a = ground arith

Ordering-cases : (o : Ordering) → (o ≡ Ordering.lt) ⊎ ((o ≡ Ordering.eq) ⊎ (o ≡ Ordering.gt))
Ordering-cases Ordering.lt = inl refl
Ordering-cases Ordering.eq = inr (inl refl)
Ordering-cases Ordering.gt = inr (inr refl)

pub get-insert :
    {V : Type 0} (k : ℕ) (v : V) (t : Tree ℕ V) → get compare k (insert compare k v t) ≡ some v
get-insert k v [] = rw (compare_eq k, get) refl
get-insert k v ((k', w) ∷ t) = elim (Ordering-cases (compare k k')) [
  | inl lt ↦ rw (lt, insert) (rw (compare_eq k, get) refl)
  | inr (inl eq) ↦ rw (eq, insert) (rw (compare_eq k, get) refl)
  | inr (inr gt) ↦ rw (gt, insert) (rw (gt, get) (get-insert k v t))
]

-- What holds of a result, if there is one.
abbrev pub IfOk : {A : Type 0} → (A → Type 0) → Outcome A → Type 0
IfOk P (ok a) = P a
IfOk P _ = Unit

pub allocate-size :
    (free : FreeList) (size : ℕ) (hint : Option ℕ)
    → IfOk (λ found. found.0.size ≡ size) (allocate free size hint)
unfolding allocate
allocate-size free size hint = by_region (region size free hint)
  where
    by_region :
        (r : Option (ℕ × ℕ))
        → IfOk
            (λ found. found.0.size ≡ size)
            (elim r [ none ↦ panic | some r ↦ ok (cut size free r) ])
    by_region none = tt
    by_region (some (o, s)) = refl

pub encode_fresh-IsWritten :
    (e : Encoded) (offset : ℕ) (buf : List ℕ)
    → IfOk (IsWritten offset buf) (encode_fresh e offset buf)
unfolding encode_fresh
encode_fresh-IsWritten e offset buf =
    by_found (allocate e.free (length buf) none) (allocate-size e.free (length buf) none)
  where
    by_found :
        (m : Outcome (Block × FreeList))
        → IfOk (λ found. found.0.size ≡ length buf) m
        → IfOk (IsWritten offset buf) (
            m >>= λ found. ok (record {
              bytes = write_all_at e.bytes buf found.0.location;
              blocks = insert compare offset found.0 e.blocks;
              free = found.1;
            }))
    by_found (ok (block, free)) size = record {
      start = offset;
      block = block;
      there = get-insert offset block e.blocks;
      before = omega arith;
      behind = omega (arith, size);
      bytes = λ i h.
          subst (λ n. write_all_at e.bytes buf block.location n ≡ get_or buf i 0) (omega arith)
            (written-at e.bytes buf block.location i h);
    }
    by_found (err kind) size = tt
    by_found panic size = tt
