-- ===== src/Snapshot/Space/Joined.antt =====
-- `deallocate` of fsyncd/src/snapshot/forward.rs gives the addresses of a block back, and joins the
-- region with its neighbours.
use Prim.Native.Nat.{compare}
use fsyncer.Base.{
  ℕ, suc, ◌+◌, ◌≤◌, ◌<◌, ◌≡◌, refl, ap, sym, subst, ◌∙◌, Bool, true, false, ◌||◌, [], ◌∷◌, Option,
  none, some, ltb, lt→ltb, ◌==◌, ==_ne, if-cases, inl, inr, arith, Bool-cases,
}
use fsyncer.Snapshot.{Block, FreeList}
use fsyncer.Snapshot.Ordered.{get, insert, remove, last_before}
use fsyncer.Snapshot.Space.{deallocate, with_previous, with_next}
use fsyncer.Snapshot.Space.Regions.{StartsAt, within, is_free, compare-gt, compare-cases}
use fsyncer.Snapshot.Space.Front.{IsWith, Apart, deallocate-front, deallocate-behind}

abbrev AtLeast : ℕ → Option (ℕ × ℕ) → Type 0
AtLeast low none = Unit
AtLeast low (some (o, s)) = low ≤ o

AtLeast-or :
    (low k v : ℕ) (r : Option (ℕ × ℕ))
    → low ≤ k
    → AtLeast (suc (k + v)) r
    → AtLeast low (elim r [ none ↦ some (k, v) | some e ↦ some e ])
AtLeast-or low k v none h l = h
AtLeast-or low k v (some (o, s)) h l = omega arith

last_before-AtLeast :
    (low : ℕ) (free : FreeList) (at : ℕ) → StartsAt low free → AtLeast low (last_before at free)
last_before-AtLeast low [] at starts = tt
last_before-AtLeast low ((k, v) ∷ free) at (h, vpos, rest) =
    if-cases (AtLeast low) (ltb k at)
      (λ before.
        AtLeast-or low k v (last_before at free) h (last_before-AtLeast (suc (k + v)) free at rest))
      (λ past. tt)

get-beyond :
    (k v o : ℕ) (free : FreeList) → k < o → get compare o ((k, v) ∷ free) ≡ get compare o free
get-beyond k v o free h = rw (compare-gt o k h, get) refl

remove-beyond :
    (k v o : ℕ) (free : FreeList)
    → k < o
    → remove compare o ((k, v) ∷ free) ≡ (k, v) ∷ remove compare o free
remove-beyond k v o free h = rw (compare-gt o k h, remove) refl

insert-beyond :
    (k v o s : ℕ) (free : FreeList)
    → k < o
    → insert compare o s ((k, v) ∷ free) ≡ (k, v) ∷ insert compare o s free
insert-beyond k v o s free h = rw (compare-gt o k h, insert) refl

with_next-cons :
    (k v o n : ℕ) (free : FreeList) (next : Option ℕ)
    → k < o
    → with_next ((k, v) ∷ free) o n next ≡ (k, v) ∷ with_next free o n next
with_next-cons k v o n free none h = insert-beyond k v o n free h
with_next-cons k v o n free (some m) h =
    ap (insert compare o (n + m)) (remove-beyond k v (o + n) free (omega arith))
    ∙ insert-beyond k v o (n + m) (remove compare (o + n) free) h

-- What `deallocate` does once it has the region in front.
abbrev join : FreeList → ℕ → ℕ → Option (ℕ × ℕ) → FreeList
join free location size previous =
    let (free', (offset, n)) = with_previous free location size previous in
    with_next free' offset n (get compare (offset + n) free')

next-cons :
    (k v o n : ℕ) (free : FreeList)
    → k < o
    → with_next ((k, v) ∷ free) o n (get compare (o + n) ((k, v) ∷ free))
      ≡ (k, v) ∷ with_next free o n (get compare (o + n) free)
next-cons k v o n free h =
    ap (with_next ((k, v) ∷ free) o n) (get-beyond k v (o + n) free (omega arith))
    ∙ with_next-cons k v o n free _ h

join-cons :
    (k v location size : ℕ) (free : FreeList) (previous : Option (ℕ × ℕ))
    → k + v < location
    → AtLeast (suc (k + v)) previous
    → join ((k, v) ∷ free) location size previous ≡ (k, v) ∷ join free location size previous
join-cons k v location size free none h l = next-cons k v location size free (omega arith)
join-cons k v location size free (some (o, s)) h l = elim (Bool-cases (o + s == location)) [
  | inl joins ↦
      rw (joins, remove-beyond k v o free (omega arith))
        (next-cons k v o (size + s) (remove compare o free) (omega arith))
  | inr apart ↦ rw apart (next-cons k v location size free (omega arith))
]

join-apart :
    (k v location size : ℕ) (free : FreeList)
    → k + v < location
    → join free location size (some (k, v)) ≡ join free location size none
join-apart k v location size free h = rw (==_ne (k + v) location (omega arith)) refl

join-or :
    (k v location size : ℕ) (free : FreeList) (r : Option (ℕ × ℕ))
    → k + v < location
    → join free location size (elim r [ none ↦ some (k, v) | some e ↦ some e ])
      ≡ join free location size r
join-or k v location size free none h = join-apart k v location size free h
join-or k v location size free (some e) h = refl

deallocate-cons :
    (k v : ℕ) (free : FreeList) (block : Block)
    → StartsAt (suc (k + v)) free
    → k + v < block.location
    → deallocate ((k, v) ∷ free) block ≡ (k, v) ∷ deallocate free block
unfolding deallocate
deallocate-cons k v free block rest h =
    let r = last_before block.location free in
    rw (lt→ltb k block.location (omega arith), last_before)
      (join-or k v block.location block.size ((k, v) ∷ free) r h
        ∙ join-cons k v block.location block.size free r h
            (last_before-AtLeast (suc (k + v)) free block.location rest))

StartsAt-Apart :
    (low location size : ℕ) (free : FreeList)
    → StartsAt low free
    → location < low
    → Apart location size free
    → StartsAt (location + size) free
StartsAt-Apart low location size [] starts h apart = tt
StartsAt-Apart low location size ((k, v) ∷ free) (h', vpos, rest) h (inl before, apart) =
    (before, vpos, rest)
StartsAt-Apart low location size ((k, v) ∷ free) (h', vpos, rest) h (inr behind, apart) =
    absurd (omega arith)

or_assoc : (a b c : Bool) → (a || (b || c)) ≡ ((a || b) || c)
or_assoc true b c = refl
or_assoc false b c = refl

-- The bytes of a region come back: for a block that is not empty and overlaps no free region, the
-- free addresses are the ones before and those of the block; the regions are in order, and no two
-- of them touch.
pub deallocate-IsWith :
    (low : ℕ) (free : FreeList) (block : Block)
    → StartsAt low free
    → 0 < block.size
    → low ≤ block.location
    → Apart block.location block.size free
    → IsWith low free block.location block.size (deallocate free block)
deallocate-IsWith low [] block starts pos h apart = deallocate-front low block [] tt pos h
deallocate-IsWith low ((k, v) ∷ free) block (h', vpos, rest) pos h (inl before, apart) =
    deallocate-front low block ((k, v) ∷ free) (before, vpos, rest) pos h
deallocate-IsWith low ((k, v) ∷ free) block (h', vpos, rest) pos h (inr behind, apart) =
    elim (compare-cases (k + v) block.location) [
      | inl gap ↦
          subst (IsWith low ((k, v) ∷ free) block.location block.size)
            (sym (deallocate-cons k v free block rest gap))
            (let w = deallocate-IsWith (suc (k + v)) free block rest pos (omega arith) apart in
              record {
                starts = (h', vpos, w.starts);
                rest = λ a.
                    ap (λ b. within k v a || b) (w.rest a)
                    ∙ or_assoc (within k v a) (is_free free a) (within block.location block.size a);
              })
      | inr (inl touch) ↦
          deallocate-behind low block k v free (h', vpos, rest) touch
            (StartsAt-Apart (suc (k + v)) block.location block.size free rest (omega arith) apart)
            pos
      | inr (inr over) ↦ absurd (omega arith)
    ]
