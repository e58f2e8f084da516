-- ===== src/Snapshot/Space/Free.antt =====
-- The free regions as the set of their addresses: what `allocate` and `deallocate` of
-- fsyncd/src/snapshot/forward.rs take out of it and put into it.
use Prim.Native.Nat.{compare}
use fsyncer.Base.{
  ℕ, suc, ◌+◌, ◌-◌, ◌≤◌, ◌<◌, ◌≡◌, refl, ap, sym, subst, ◌∙◌, Bool, true, false, not, ◌&&◌, ◌||◌,
  [], ◌∷◌, Option, none, some, ok, ltb, leb, inl, inr, arith, Bool-cases, Option-cases,
}
use fsyncer.Snapshot.{Block, FreeList}
use fsyncer.Snapshot.Ordered.{get, insert, remove}
use fsyncer.Snapshot.Space.{allocate, region, first_fit, cut}
use fsyncer.Snapshot.Space.Regions.{
  StartsAt, within, is_free, compare-lt, compare-gt, compare-eq, compare-cases, get-StartsAt,
  insert-front, is_free-below, within-cut, within-apart,
}

-- The regions of `free'` are those of `free` without `size` bytes from `offset` on, which were free.
pub record IsWithout (low : ℕ) (free : FreeList) (offset size : ℕ) (free' : FreeList) : Type 0 where
  pub starts : StartsAt low free'
  pub rest : (a : ℕ) → is_free free' a ≡ (is_free free a && not (within offset size a))
  pub taken : (a : ℕ) → within offset size a ≡ true → is_free free a ≡ true

IsWithout-cons :
    (low k v : ℕ) (free free' : FreeList) (o size : ℕ)
    → low ≤ k
    → 0 < v
    → k + v < o
    → IsWithout (suc (k + v)) free o size free'
    → IsWithout low ((k, v) ∷ free) o size ((k, v) ∷ free')
IsWithout-cons low k v free free' o size h pos apart w = record {
  starts = (h, pos, w.starts);
  rest = λ a.
      ap (λ b. within k v a || b) (w.rest a) ∙ within-apart k v o size a (is_free free a) apart;
  taken = λ a t. or_true (within k v a) (is_free free a) (w.taken a t);
}
  where
    or_true : (b c : Bool) → c ≡ true → (b || c) ≡ true
    or_true true c h = refl
    or_true false c h = h

within-fits :
    (k v size a : ℕ) (b : Bool) → size ≤ v → within k size a ≡ true → (within k v a || b) ≡ true
within-fits k v size a true h t = ground arith
within-fits k v size a false h t = ground arith

IsWithout-head :
    (low k v : ℕ) (free : FreeList) (size : ℕ)
    → StartsAt low ((k, v) ∷ free)
    → 0 < size
    → size < v
    → IsWithout low ((k, v) ∷ free) k size ((k + size, v - size) ∷ free)
IsWithout-head low k v free size (h, pos, rest) some_size fits = record {
  starts = (omega arith, omega arith, subst (λ n. StartsAt n free) (omega arith) rest);
  rest = λ a.
      within-cut k v size a (is_free free a) (omega arith)
        (λ below. is_free-below (suc (k + v)) free a rest (omega arith));
  taken = λ a t. within-fits k v size a (is_free free a) (omega arith) t;
}

pub StartsAt-weaken :
    (low low' : ℕ) (free : FreeList) → low' ≤ low → StartsAt low free → StartsAt low' free
StartsAt-weaken low low' [] h starts = tt
StartsAt-weaken low low' ((k, v) ∷ free) h (h', pos, rest) = (omega arith, pos, rest)

IsWithout-whole :
    (low k v : ℕ) (free : FreeList)
    → StartsAt low ((k, v) ∷ free)
    → IsWithout low ((k, v) ∷ free) k v free
IsWithout-whole low k v free (h, pos, rest) = record {
  starts = StartsAt-weaken (suc (k + v)) low free (omega arith) rest;
  rest = λ a. whole a (is_free free a) (is_free-below (suc (k + v)) free a rest);
  taken = λ a t. within-fits k v v a (is_free free a) (omega arith) t;
}
  where
    whole :
        (a : ℕ) (b : Bool)
        → (a < suc (k + v) → b ≡ false)
        → b ≡ ((within k v a || b) && not (within k v a))
    whole a true below = ground arith
    whole a false below = ground arith

cut-cons :
    (k v : ℕ) (free : FreeList) (o s size : ℕ)
    → k < o
    → (cut size ((k, v) ∷ free) (o, s)).1 ≡ (k, v) ∷ (cut size free (o, s)).1
cut-cons k v free o s size h = elim (Bool-cases (ltb size s)) [
  | inl fits ↦
      rw (fits, compare-gt o k h, compare-gt (o + size) k (omega arith), insert, remove) refl
  | inr whole ↦ rw (whole, compare-gt o k h, remove) refl
]

cut-head :
    (low k v : ℕ) (free : FreeList) (size : ℕ)
    → StartsAt low ((k, v) ∷ free)
    → 0 < size
    → size ≤ v
    → IsWithout low ((k, v) ∷ free) k size (cut size ((k, v) ∷ free) (k, v)).1
cut-head low k v free size (h, pos, rest) some_size fits = elim (Bool-cases (ltb size v)) [
  | inl part ↦
      subst (IsWithout low ((k, v) ∷ free) k size)
        (sym (
          rw (part, compare-eq k, remove)
            (insert-front (suc (k + v)) (k + size) (v - size) free rest (ground arith))))
        (IsWithout-head low k v free size (h, pos, rest) some_size (ground arith))
  | inr whole ↦
      subst (IsWithout low ((k, v) ∷ free) k size) (sym (rw (whole, compare-eq k, remove) refl)) (
        subst (λ n. IsWithout low ((k, v) ∷ free) k n free) (ground arith)
          (IsWithout-whole low k v free (h, pos, rest)))
]

get-head : (k v s : ℕ) (free : FreeList) → get compare k ((k, v) ∷ free) ≡ some s → v ≡ s
get-head k v s free e = ap (λ r. elim r [ none ↦ v | some n ↦ n ]) (rw (compare-eq k, get) at e)

-- Cutting the first bytes of a region off.
cut-IsWithout :
    (low : ℕ) (free : FreeList) (o s size : ℕ)
    → StartsAt low free
    → get compare o free ≡ some s
    → 0 < size
    → size ≤ s
    → IsWithout low free o size (cut size free (o, s)).1
cut-IsWithout low [] o s size starts e pos fits = ground arith
cut-IsWithout low ((k, v) ∷ free) o s size (h, vpos, rest) e pos fits = elim (compare-cases o k) [
  | inl lt ↦
      (let l = get-StartsAt (suc (k + v)) free o s rest (rw (compare-lt o k lt, get) at e) in
        absurd (omega arith))
  | inr (inl eq) ↦
      (let e' = subst (λ n. get compare n ((k, v) ∷ free) ≡ some s) eq e in
        subst (λ n. IsWithout low ((k, v) ∷ free) n size (cut size ((k, v) ∷ free) (n, s)).1)
          (sym eq)
          (subst (λ n. IsWithout low ((k, v) ∷ free) k size (cut size ((k, v) ∷ free) (k, n)).1)
            (get-head k v s free e')
            (cut-head low k v free size (h, vpos, rest) pos
              (omega (arith, get-head k v s free e', fits)))))
  | inr (inr gt) ↦
      subst (λ f. IsWithout low ((k, v) ∷ free) o size f) (sym (cut-cons k v free o s size gt))
        (IsWithout-cons low k v free _ o size h vpos
          (get-StartsAt (suc (k + v)) free o s rest (rw (compare-gt o k gt, get) at e))
          (cut-IsWithout (suc (k + v)) free o s size rest (rw (compare-gt o k gt, get) at e) pos
            fits))
]

-- A region of the list that is large enough.
abbrev Fits : ℕ → FreeList → ℕ × ℕ → Type 0
Fits size free (o, s) = (get compare o free ≡ some s) × size ≤ s

get-past :
    (low k v : ℕ) (free : FreeList) (o s : ℕ)
    → StartsAt (suc (k + v)) free
    → get compare o free ≡ some s
    → get compare o ((k, v) ∷ free) ≡ some s
get-past low k v free o s rest e =
    let h = get-StartsAt (suc (k + v)) free o s rest e in rw (compare-gt o k (omega arith), get) e

get-tail :
    (k v : ℕ) (free : FreeList) (o s size : ℕ)
    → get compare o ((k, v) ∷ free) ≡ some s
    → size ≤ s
    → v < size
    → get compare o free ≡ some s
get-tail k v free o s size e fits small = elim (compare-cases o k) [
  | inl lt ↦ rw (compare-lt o k lt, get) at e
  | inr (inl eq) ↦ absurd (
      let v_s = get-head k v s free (subst (λ n. get compare n ((k, v) ∷ free) ≡ some s) eq e) in
      omega arith)
  | inr (inr gt) ↦ rw (compare-gt o k gt, get) at e
]

first_fit-Fits :
    (low size : ℕ) (free : FreeList) (o s : ℕ)
    → StartsAt low free
    → Fits size free (o, s)
    → (r : ℕ × ℕ) × ((first_fit size free ≡ some r) × Fits size free r)
unfolding first_fit
first_fit-Fits low size [] o s starts (e, fits) = ground arith
first_fit-Fits low size ((k, v) ∷ free) o s (h, pos, rest) (e, fits) =
    elim (Bool-cases (leb size v)) [
      | inl large ↦ ((k, v), (rw large refl, (rw (compare-eq k, get) refl, ground arith)))
      | inr small ↦
          (let (r, (found, (e', fits'))) =
              first_fit-Fits (suc (k + v)) size free o s rest
                (get-tail k v free o s size e fits (ground arith), fits) in
            (r, (rw small found, (get-past low k v free r.0 r.1 rest e', fits'))))
    ]

region-Fits :
    (low size : ℕ) (free : FreeList) (hint : Option ℕ) (o s : ℕ)
    → StartsAt low free
    → Fits size free (o, s)
    → (r : ℕ × ℕ) × ((region size free hint ≡ some r) × Fits size free r)
unfolding region
region-Fits low size free none o s starts fits = first_fit-Fits low size free o s starts fits
region-Fits low size free (some at) o s starts fits = elim (Option-cases (get compare at free)) [
  | inl missing ↦ rw (missing, region) (first_fit-Fits low size free o s starts fits)
  | inr (v, found) ↦ elim (Bool-cases (leb size v)) [
    | inl large ↦ ((at, v), (rw (found, large, region) refl, (found, ground arith)))
    | inr small ↦ rw (found, small, region) (first_fit-Fits low size free o s starts fits)
  ]
]

-- Where some region is large enough, an allocation succeeds whatever the hint is: the block has the
-- size, its addresses were free, and the free addresses are the others; the regions are
-- in order as before, and apart.
pub allocate-IsWithout :
    (low size : ℕ) (free : FreeList) (hint : Option ℕ) (o s : ℕ)
    → StartsAt low free
    → 0 < size
    → get compare o free ≡ some s
    → size ≤ s
    → (block : Block) × ((free' : FreeList) × ((allocate free size hint ≡ ok (block, free'))
          × ((block.size ≡ size) × IsWithout low free block.location size free')))
unfolding allocate
allocate-IsWithout low size free hint o s starts pos e fits =
    let (r, (found, (e', fits'))) = region-Fits low size free hint o s starts (e, fits) in
    (
      record { location = r.0; size = size },
      (
        (cut size free r).1,
        (
          rw (found, allocate) refl,
          (refl, cut-IsWithout low free r.0 r.1 size starts e' pos fits'),
        ),
      ),
    )
