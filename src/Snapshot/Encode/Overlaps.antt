-- ===== src/Snapshot/Encode/Overlaps.antt =====
-- The blocks that `encode_write` of fsyncd/src/snapshot/forward.rs looks at are blocks of the file that
-- reach the write.
use Prim.Native.Nat.{compare, Ordering}
use mathlib.Core.List.{reverse, reverse_aux}
use fsyncer.Base.{
  ℕ, suc, ◌+◌, ◌≤◌, ◌<◌, ◌≡◌, refl, Bool, true, List, [], ◌∷◌, All, some, leb, arith, if-cases,
}
use fsyncer.Snapshot.{Block, DataList}
use fsyncer.Snapshot.Ordered.{get}
use fsyncer.Snapshot.Encode.{take_while, overlaps_of}

module _ {A : Type 0} (P : A → Type 0) where
  All-reverse_aux : (xs ys : List A) → All P xs → All P ys → All P (reverse_aux xs ys)
  All-reverse_aux [] ys h h' = h'
  All-reverse_aux (x ∷ xs) ys (p, h) h' = All-reverse_aux xs (x ∷ ys) h (p, h')

  All-reverse : (xs : List A) → All P xs → All P (reverse xs)
  All-reverse xs h = All-reverse_aux xs [] h tt

  All-take_while : (p : A → Bool) (xs : List A) → All P xs → All P (take_while p xs)
  All-take_while p [] h = tt
  All-take_while p (x ∷ xs) (q, h) =
      if-cases (All P) (p x) (λ e. (q, All-take_while p xs h)) (λ e. tt)

All-holding : {A : Type 0} (p : A → Bool) (xs : List A) → All (λ x. p x ≡ true) (take_while p xs)
All-holding p [] = tt
All-holding p (x ∷ xs) =
    if-cases (All (λ x. p x ≡ true)) (p x) (λ e. (e, All-holding p xs)) (λ e. tt)

compare_gt : (a b : ℕ) → b < a → compare a b ≡ Ordering.gt
compare_gt a b h = ground arith

compare_eq : (a : ℕ) → compare a a ≡ Ordering.eq
compare_eq a = ground arith

-- The blocks of a file in the order of their offsets.
abbrev pub SortedFrom : ℕ → DataList → Type 0
SortedFrom low [] = Unit
SortedFrom low ((o, block) ∷ blocks) = low ≤ o × SortedFrom (suc o) blocks

abbrev pub IsIn : DataList → ℕ × Block → Type 0
IsIn blocks (o, block) = get compare o blocks ≡ some block

SortedFrom-weaken :
    (low low' : ℕ) (blocks : DataList) → low' ≤ low → SortedFrom low blocks → SortedFrom low' blocks
SortedFrom-weaken low low' [] h sorted = tt
SortedFrom-weaken low low' ((o, block) ∷ blocks) h (l, sorted) = (omega arith, sorted)

All-IsIn-behind :
    (k : ℕ) (b : Block) (blocks all : DataList)
    → All (IsIn all) blocks
    → SortedFrom (suc k) blocks
    → All (IsIn ((k, b) ∷ all)) blocks
All-IsIn-behind k b [] all h sorted = tt
All-IsIn-behind k b ((o, block) ∷ blocks) all (e, h) (l, sorted) = (
  rw (compare_gt o k (omega arith), get) e,
  All-IsIn-behind k b blocks all h (SortedFrom-weaken (suc o) (suc k) blocks (omega arith) sorted),
)

All-IsIn : (low : ℕ) (blocks : DataList) → SortedFrom low blocks → All (IsIn blocks) blocks
All-IsIn low [] sorted = tt
All-IsIn low ((o, block) ∷ blocks) (h, sorted) = (
  rw (compare_eq o, get) refl,
  All-IsIn-behind o block blocks blocks (All-IsIn (suc o) blocks sorted) sorted,
)

pub overlaps_of-IsIn :
    (low : ℕ) (blocks : DataList) (offset len : ℕ)
    → SortedFrom low blocks
    → All (IsIn blocks) (overlaps_of blocks offset len)
unfolding overlaps_of
overlaps_of-IsIn low blocks offset len sorted = All-reverse (IsIn blocks) _ (
    All-take_while (IsIn blocks) (λ e. leb offset (e.0 + e.1.size)) _
      (All-reverse (IsIn blocks) _ (
        All-take_while (IsIn blocks) (λ e. leb e.0 (offset + len)) blocks
          (All-IsIn low blocks sorted))))

-- A block that does not end in front of the write.
abbrev pub Reaches : ℕ → ℕ × Block → Type 0
Reaches offset (o, block) = leb offset (o + block.size) ≡ true

pub overlaps_of-Reaches :
    (blocks : DataList) (offset len : ℕ) → All (Reaches offset) (overlaps_of blocks offset len)
unfolding overlaps_of
overlaps_of-Reaches blocks offset len =
    let reached : ℕ × Block → Bool = λ e. leb offset (e.0 + e.1.size) in
    let front : DataList = reverse (take_while (λ e. leb e.0 (offset + len)) blocks) in
    All-reverse (Reaches offset) (take_while reached front) (All-holding reached front)
