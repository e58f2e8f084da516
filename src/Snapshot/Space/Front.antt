-- ===== src/Snapshot/Space/Front.antt =====
-- A block that `deallocate` of fsyncd/src/snapshot/forward.rs gives back at the front of the free
-- regions.
use Prim.Native.Nat.{compare}
use fsyncer.Base.{
  ℕ, suc, ◌+◌, ◌≤◌, ◌<◌, ◌≡◌, refl, ap, sym, subst, ◌∙◌, Bool, true, false, ◌||◌, [], ◌∷◌, none,
  ltb_past, lt→ltb, ==_iff, ◌⊎◌, inl, inr, arith, Option-cases,
}
use fsyncer.Snapshot.{Block, FreeList}
use fsyncer.Snapshot.Ordered.{get, insert, remove, last_before}
use fsyncer.Snapshot.Space.{deallocate, with_next}
use fsyncer.Snapshot.Space.Regions.{
  StartsAt, within, is_free, compare-eq, compare-cases, get-StartsAt, insert-front,
}

-- The regions of `free'` are those of `free` with `size` bytes from `offset` on.
pub record IsWith (low : ℕ) (free : FreeList) (offset size : ℕ) (free' : FreeList) : Type 0 where
  pub starts : StartsAt low free'
  pub rest : (a : ℕ) → is_free free' a ≡ (is_free free a || within offset size a)

-- The bytes overlap no region.
abbrev pub Apart : ℕ → ℕ → FreeList → Type 0
Apart offset size [] = Unit
Apart offset size ((k, v) ∷ free) =
    ((offset + size ≤ k) ⊎ (k + v ≤ offset)) × Apart offset size free

get-none :
    (low : ℕ) (free : FreeList) (o : ℕ) → StartsAt low free → o < low → get compare o free ≡ none
get-none low free o starts h = elim (Option-cases (get compare o free)) [
  | inl missing ↦ missing
  | inr (v, found) ↦ absurd (let l = get-StartsAt low free o v starts found in omega arith)
]

with_next-front :
    (o n k v : ℕ) (free : FreeList)
    → StartsAt k ((k, v) ∷ free)
    → 0 < n
    → o + n < k
    → with_next ((k, v) ∷ free) o n (get compare (o + n) ((k, v) ∷ free)) ≡ (o, n) ∷ (k, v) ∷ free
with_next-front o n k v free (h, vpos, rest) pos lt =
    rw (get-none k ((k, v) ∷ free) (o + n) (h, vpos, rest) lt)
      (insert-front k o n ((k, v) ∷ free) (h, vpos, rest) (omega arith))

remove-here : (o k v : ℕ) (free : FreeList) → o ≡ k → remove compare o ((k, v) ∷ free) ≡ free
remove-here o k v free eq = rw (eq, compare-eq k, remove) refl

with_next-join :
    (o n k v : ℕ) (free : FreeList)
    → StartsAt k ((k, v) ∷ free)
    → 0 < n
    → o + n ≡ k
    → with_next ((k, v) ∷ free) o n (get compare (o + n) ((k, v) ∷ free)) ≡ (o, n + v) ∷ free
with_next-join o n k v free (h, vpos, rest) pos eq =
    rw (eq, compare-eq k, get)
      (ap (insert compare o (n + v)) (remove-here (o + n) k v free eq)
        ∙ insert-front (suc (k + v)) o (n + v) free rest (omega arith))

-- A region in front of the others.
with_next-IsWith :
    (low o n : ℕ) (free : FreeList)
    → StartsAt (o + n) free
    → 0 < n
    → low ≤ o
    → IsWith low free o n (with_next free o n (get compare (o + n) free))
with_next-IsWith low o n [] starts pos h = record {
  starts = (h, pos, tt);
  rest = λ a. ground arith;
}
with_next-IsWith low o n ((k, v) ∷ free) (h', vpos, rest) pos h = elim (compare-cases (o + n) k) [
  | inl lt ↦
      subst (IsWith low ((k, v) ∷ free) o n)
        (sym (with_next-front o n k v free (omega arith, vpos, rest) pos lt))
        (record {
          starts = (h, pos, (omega arith, vpos, rest));
          rest = λ a. swapped a (is_free free a);
        })
  | inr (inl eq) ↦
      subst (IsWith low ((k, v) ∷ free) o n)
        (sym (with_next-join o n k v free (omega arith, vpos, rest) pos eq))
        (record {
          starts = (h, omega arith, subst (λ m. StartsAt m free) (omega arith) rest);
          rest = λ a. joined a (is_free free a) eq;
        })
  | inr (inr gt) ↦ absurd (omega arith)
]
  where
    swapped :
        (a : ℕ) (b : Bool)
        → (within o n a || (within k v a || b)) ≡ ((within k v a || b) || within o n a)
    swapped a true = ground arith
    swapped a false = ground arith

    joined :
        (a : ℕ) (b : Bool)
        → o + n ≡ k
        → (within o (n + v) a || b) ≡ ((within k v a || b) || within o n a)
    joined a true e = ground arith
    joined a false e = ground arith

-- A block that ends in front of the first region, or with it.
pub deallocate-front :
    (low : ℕ) (block : Block) (free : FreeList)
    → StartsAt (block.location + block.size) free
    → 0 < block.size
    → low ≤ block.location
    → IsWith low free block.location block.size (deallocate free block)
unfolding deallocate
deallocate-front low block [] starts pos h =
    with_next-IsWith low block.location block.size [] starts pos h
deallocate-front low block ((k, v) ∷ free) (h', vpos, rest) pos h =
    rw (ltb_past k block.location (omega arith))
      (with_next-IsWith low block.location block.size ((k, v) ∷ free) (h', vpos, rest) pos h)

last_before-none :
    (low : ℕ) (free : FreeList) (o : ℕ) → StartsAt low free → o ≤ low → last_before o free ≡ none
last_before-none low [] o starts h = refl
last_before-none low ((k, v) ∷ free) o (h', vpos, rest) h =
    rw (ltb_past k o (omega arith), last_before) refl

deallocate-merge :
    (block : Block) (k v : ℕ) (free : FreeList)
    → StartsAt (suc (k + v)) free
    → 0 < v
    → k + v ≡ block.location
    → deallocate ((k, v) ∷ free) block
      ≡ with_next free k (block.size + v) (get compare (k + (block.size + v)) free)
unfolding deallocate
deallocate-merge block k v free rest vpos eq =
    rw
      (
        last_before-none (suc (k + v)) free block.location rest (omega arith),
        lt→ltb k block.location (omega arith),
        (==_iff (k + v) block.location).1 eq,
        remove-here k k v free refl,
      )
      refl

-- A block that starts where the first region ends.
pub deallocate-behind :
    (low : ℕ) (block : Block) (k v : ℕ) (free : FreeList)
    → StartsAt low ((k, v) ∷ free)
    → k + v ≡ block.location
    → StartsAt (block.location + block.size) free
    → 0 < block.size
    → IsWith low ((k, v) ∷ free) block.location block.size (deallocate ((k, v) ∷ free) block)
deallocate-behind low block k v free (h, vpos, rest) eq apart pos =
    let size = block.size + v in
    let w =
      with_next-IsWith low k size free (subst (λ n. StartsAt n free) (omega arith) apart)
        (omega arith) h in
    subst (IsWith low ((k, v) ∷ free) block.location block.size)
      (sym (deallocate-merge block k v free rest vpos eq))
      (record { starts = w.starts; rest = λ a. w.rest a ∙ split a (is_free free a) })
  where
    split :
        (a : ℕ) (b : Bool)
        → (b || within k (block.size + v) a)
          ≡ ((within k v a || b) || within block.location block.size a)
    split a true = ground arith
    split a false = ground arith
