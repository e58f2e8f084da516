-- ===== src/Snapshot/Ordered.antt =====
-- `BTreeMap` as fsyncd/src/snapshot/forward.rs uses it: the entries in the order of their keys. The
-- order of paths is that of `std::path`.
use Prim.Native.Nat.{compare, Ordering}
use fsyncer.Base.{ℕ, Bool, true, false, List, [], ◌∷◌, Option, none, some, ltb, if◌then◌else◌}
use fsyncer.Common.Paths.{FilePath}

abbrev pub Tree : Type 0 → Type 0 → Type 0
Tree K V = List (K × V)

module _ {K V : Type 0} (order : K → K → Ordering) where
  abbrev pub get : K → Tree K V → Option V
  get k [] = none
  get k ((k', v) ∷ t) = elim (order k k') [ Ordering.eq ↦ some v | _ ↦ get k t ]

  abbrev pub remove : K → Tree K V → Tree K V
  remove k [] = []
  remove k ((k', v) ∷ t) = elim (order k k') [ Ordering.eq ↦ t | _ ↦ (k', v) ∷ remove k t ]

  abbrev pub insert : K → V → Tree K V → Tree K V
  insert k v [] = (k, v) ∷ []
  insert k v ((k', v') ∷ t) = elim (order k k') [
    | Ordering.lt ↦ (k, v) ∷ (k', v') ∷ t
    | Ordering.eq ↦ (k, v) ∷ t
    | Ordering.gt ↦ (k', v') ∷ insert k v t
  ]

module _ {V : Type 0} where
  -- `range(..k).next_back()`.
  abbrev pub last_before : ℕ → Tree ℕ V → Option (ℕ × V)
  last_before k [] = none
  last_before k ((k', v) ∷ t) =
      let rest = last_before k t in
      if ltb k' k then elim rest [ none ↦ some (k', v) | some e ↦ some e ] else none

  -- `iter().next_back()`.
  abbrev pub last_entry : Tree ℕ V → Option (ℕ × V)
  last_entry [] = none
  last_entry (e ∷ t) = elim (last_entry t) [ none ↦ some e | some e' ↦ some e' ]

-- The order of lists, by a first difference.
abbrev pub then_order : Ordering → Ordering → Ordering
then_order Ordering.eq o = o
then_order o _ = o

abbrev pub order_lists : {A : Type 0} → (A → A → Ordering) → List A → List A → Ordering
order_lists order [] [] = Ordering.eq
order_lists order [] (y ∷ ys) = Ordering.lt
order_lists order (x ∷ xs) [] = Ordering.gt
order_lists order (x ∷ xs) (y ∷ ys) = then_order (order x y) (order_lists order xs ys)

-- `Ord for Path`: by components, of which `/` is the first of an absolute path and the least.
abbrev pub order_roots : Bool → Bool → List (List ℕ) → List (List ℕ) → Ordering
order_roots true false xs [] = Ordering.gt
order_roots true false xs (y ∷ ys) = Ordering.lt
order_roots false true [] ys = Ordering.lt
order_roots false true (x ∷ xs) ys = Ordering.gt
order_roots _ _ xs ys = order_lists (order_lists compare) xs ys

unfoldable pub order_path : FilePath → FilePath → Ordering
order_path p q = order_roots p.is_absolute q.is_absolute p.components q.components
