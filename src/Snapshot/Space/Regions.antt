-- ===== src/Snapshot/Space/Regions.antt =====
-- The free regions of fsyncd/src/snapshot/forward.rs as the set of their addresses.
use Prim.Native.Nat.{compare, Ordering}
use fsyncer.Base.{
  ℕ, suc, ◌+◌, ◌-◌, ◌≤◌, ◌<◌, ◌≡◌, refl, Bool, true, false, not, ◌&&◌, ◌||◌, [], ◌∷◌, some, ltb,
  leb, ◌⊎◌, inl, inr, arith,
}
use fsyncer.Snapshot.{FreeList}
use fsyncer.Snapshot.Ordered.{get, insert}

-- Regions from an address on: in order, none empty, and a used byte between two of them.
abbrev pub StartsAt : ℕ → FreeList → Type 0
StartsAt low [] = Unit
StartsAt low ((offset, size) ∷ free) = low ≤ offset × 0 < size × StartsAt (suc (offset + size)) free

abbrev pub within : ℕ → ℕ → ℕ → Bool
within offset size a = leb offset a && ltb a (offset + size)

-- Whether an address is free.
abbrev pub is_free : FreeList → ℕ → Bool
is_free [] a = false
is_free ((offset, size) ∷ free) a = within offset size a || is_free free a

pub compare-lt : (a b : ℕ) → a < b → compare a b ≡ Ordering.lt
compare-lt a b h = ground arith

pub compare-gt : (a b : ℕ) → b < a → compare a b ≡ Ordering.gt
compare-gt a b h = ground arith

pub compare-eq : (a : ℕ) → compare a a ≡ Ordering.eq
compare-eq a = ground arith

pub compare-cases : (a b : ℕ) → (a < b) ⊎ ((a ≡ b) ⊎ (b < a))
compare-cases a b = omega arith

-- A region that stands in the list starts where the list does, or behind.
pub get-StartsAt :
    (low : ℕ) (free : FreeList) (o s : ℕ)
    → StartsAt low free
    → get compare o free ≡ some s
    → low ≤ o
get-StartsAt low [] o s starts e = ground arith
get-StartsAt low ((k, v) ∷ free) o s (h, pos, rest) e = elim (compare-cases o k) [
  | inl lt ↦
      (let l = get-StartsAt (suc (k + v)) free o s rest (rw (compare-lt o k lt, get) at e) in
        omega arith)
  | inr (inl eq) ↦ omega arith
  | inr (inr gt) ↦ omega arith
]

pub insert-front :
    (low k v : ℕ) (free : FreeList)
    → StartsAt low free
    → k < low
    → insert compare k v free ≡ (k, v) ∷ free
insert-front low k v [] starts h = refl
insert-front low k v ((k', v') ∷ free) (h', pos, rest) h =
    rw (compare-lt k k' (omega arith), insert) refl

pub is_free-below :
    (low : ℕ) (free : FreeList) (a : ℕ) → StartsAt low free → a < low → is_free free a ≡ false
is_free-below low [] a starts h = refl
is_free-below low ((k, v) ∷ free) a (h', pos, rest) h =
    let r = is_free-below (suc (k + v)) free a rest (omega arith) in ground arith

pub within-cut :
    (o s size a : ℕ) (b : Bool)
    → size ≤ s
    → (a < o + s → b ≡ false)
    → (within (o + size) (s - size) a || b) ≡ ((within o s a || b) && not (within o size a))
within-cut o s size a true h below = ground arith
within-cut o s size a false h below = ground arith

pub within-apart :
    (k v o size a : ℕ) (b : Bool)
    → suc (k + v) ≤ o
    → (within k v a || (b && not (within o size a)))
      ≡ ((within k v a || b) && not (within o size a))
within-apart k v o size a b h = ground arith
