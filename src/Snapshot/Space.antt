-- ===== src/Snapshot/Space.antt =====
-- `allocate` and `deallocate` of fsyncd/src/snapshot/forward.rs: the free regions of the file.
pub mod Regions
pub mod Free
pub mod Front
pub mod Joined
use Prim.Native.Nat.{compare}
use fsyncer.Base.{
  ℕ, ◌+◌, ◌-◌, Bool, List, [], ◌∷◌, Option, none, some, Outcome, ok, panic, ltb, leb, ◌==◌,
  if◌then◌else◌,
}
use fsyncer.Snapshot.{Block, FreeList}
use fsyncer.Snapshot.Ordered.{get, insert, remove, last_before}

-- `iter().find(|(_, v)| **v >= size)`.
unfoldable pub first_fit : ℕ → FreeList → Option (ℕ × ℕ)
first_fit size [] = none
first_fit size ((location, v) ∷ free) =
    let rest = first_fit size free in if leb size v then some (location, v) else rest

-- The region at the hint, if it is free and large enough, and else the first that is.
abbrev at_hint : ℕ → FreeList → Option ℕ → Option (ℕ × ℕ)
at_hint size free none = none
at_hint size free (some hint) = elim (get compare hint free) [
  | none ↦ none
  | some v ↦ if leb size v then some (hint, v) else none
]

unfoldable pub region : ℕ → FreeList → Option ℕ → Option (ℕ × ℕ)
region size free hint = elim (at_hint size free hint) [
  | none ↦ first_fit size free
  | some r ↦ some r
]

abbrev pub cut : ℕ → FreeList → ℕ × ℕ → Block × FreeList
cut size free (location, entry_size) =
    let rest = remove compare location free in
    (
      record { location = location; size = size },
      (if ltb size entry_size
          then insert compare (location + size) (entry_size - size) rest
          else rest),
    )

unfoldable pub allocate : FreeList → ℕ → Option ℕ → Outcome (Block × FreeList)
allocate free size hint = elim (region size free hint) [
  | none ↦ panic
  | some r ↦ ok (cut size free r)
]

-- The region with the one that ends where it starts, and then with the one behind it.
abbrev pub with_previous : FreeList → ℕ → ℕ → Option (ℕ × ℕ) → FreeList × (ℕ × ℕ)
with_previous free offset size none = (free, (offset, size))
with_previous free offset size (some (o, s)) =
    if o + s == offset then (remove compare o free, (o, size + s)) else (free, (offset, size))

abbrev pub with_next : FreeList → ℕ → ℕ → Option ℕ → FreeList
with_next free offset size none = insert compare offset size free
with_next free offset size (some next_size) =
    insert compare offset (size + next_size) (remove compare (offset + size) free)

unfoldable pub deallocate : FreeList → Block → FreeList
deallocate free block =
    let (free', (offset, size)) =
      with_previous free block.location block.size (last_before block.location free) in
    with_next free' offset size (get compare (offset + size) free')
