-- ===== src/Snapshot/Merge/Names.antt =====
-- Names in a snapshot: what `merge_from` of fsyncd/src/snapshot/forward.rs keeps of files that are
-- made, removed, linked and renamed.
use Prim.Native.Nat.{compare, Ordering}
use fsyncer.Base.{
  ℕ, ◌≡◌, refl, ap, Bool, true, false, List, [], ◌∷◌, none, some, ok, ◌>>=◌, arith, ◌⊎◌, inl, inr,
}
use fsyncer.Common.{VfsCall, FileSecurity}
use fsyncer.Common.Paths.{FilePath}
use fsyncer.Snapshot.{DataList, FreeList, File, Snapshot, default_file}
use fsyncer.Snapshot.Ordered.{Tree, get, insert, remove, order_path, order_lists, order_roots}
use fsyncer.Snapshot.Encode.{get_or_open}
use fsyncer.Snapshot.Merge.{
  merge_call, merge_from, merge_rename, merge_link, merge_unlink, insert_new, deallocate_all,
  deallocate_file,
}

order_lists_refl :
    {A : Type 0} (order : A → A → Ordering)
    → ((a : A) → order a a ≡ Ordering.eq)
    → (xs : List A) → order_lists order xs xs ≡ Ordering.eq
order_lists_refl order h [] = refl
order_lists_refl order h (x ∷ xs) = rw (h x, order_lists) (order_lists_refl order h xs)

pub order_path_refl : (path : FilePath) → order_path path path ≡ Ordering.eq
unfolding order_path
order_path_refl path = same path.is_absolute path.components
  where
    same : (b : Bool) (xs : List (List ℕ)) → order_roots b b xs xs ≡ Ordering.eq
    same true xs =
        order_lists_refl (order_lists compare) (order_lists_refl compare (λ n. ground arith)) xs
    same false xs =
        order_lists_refl (order_lists compare) (order_lists_refl compare (λ n. ground arith)) xs

Ordering-cases : (o : Ordering) → (o ≡ Ordering.lt) ⊎ ((o ≡ Ordering.eq) ⊎ (o ≡ Ordering.gt))
Ordering-cases Ordering.lt = inl refl
Ordering-cases Ordering.eq = inr (inl refl)
Ordering-cases Ordering.gt = inr (inr refl)

-- Looking up and removing what was inserted.
module _ {V : Type 0} (path : FilePath) (v : V) where
  get-insert : (t : Tree FilePath V) → get order_path path (insert order_path path v t) ≡ some v
  get-insert [] = rw (order_path_refl path, get) refl
  get-insert ((k, w) ∷ t) = elim (Ordering-cases (order_path path k)) [
    | inl lt ↦ rw (lt, insert) (rw (order_path_refl path, get) refl)
    | inr (inl eq) ↦ rw (eq, insert) (rw (order_path_refl path, get) refl)
    | inr (inr gt) ↦ rw (gt, insert) (rw (gt, get) (get-insert t))
  ]

  remove-insert :
      (t : Tree FilePath V)
      → get order_path path t ≡ none
      → remove order_path path (insert order_path path v t) ≡ t
  remove-insert [] e = rw (order_path_refl path, remove) refl
  remove-insert ((k, w) ∷ t) e = elim (Ordering-cases (order_path path k)) [
    | inl lt ↦ rw (lt, insert) (rw (order_path_refl path, remove) refl)
    | inr (inl eq) ↦ absurd ((let e' = rw (eq, get) at e in ground (arith, e')))
    | inr (inr gt) ↦
        rw (gt, insert)
          (rw (gt, remove) (ap (λ l. (k, w) ∷ l) (remove-insert t (rw (gt, get) at e))))
  ]

insert_new-missing :
    (s : Snapshot) (path : FilePath) (file : File)
    → get order_path path s.files ≡ none
    → insert_new s path file ≡ ok (record s { files = insert order_path path file s.files })
unfolding insert_new
insert_new-missing s path file e = rw (e, insert_new) refl

merge_unlink-inserted :
    (s : Snapshot) (path : FilePath) (file : File)
    → get order_path path s.files ≡ none
    → merge_unlink (record s { files = insert order_path path file s.files }) path
      ≡ record s { free_list = deallocate_file (some file) s.free_list }
unfolding merge_unlink
merge_unlink-inserted s path file e = λ i. record s {
  files = remove-insert path file s.files e i;
  free_list = deallocate_file (get-insert path file s.files i) s.free_list;
}

module _ (s : Snapshot) (path : FilePath) (missing : get order_path path s.files ≡ none) where
  then_unlink :
      (file : File)
      → (insert_new s path file >>= λ s'. ok (merge_unlink s' path))
        ≡ ok (record s { free_list = deallocate_file (some file) s.free_list })
  then_unlink file =
      rw (insert_new-missing s path file missing)
        (ap ok (merge_unlink-inserted s path file missing))

  -- A file that the snapshot does not know, and that the journal makes and removes, leaves the
  -- snapshot as it was: a file, a node, a symbolic link and a directory.
  pub merge_from-made_and_removed :
      (from : FilePath) (uid gid mode rdev flags : ℕ)
      → (merge_from s
            (VfsCall.create path flags (FileSecurity.unix uid gid) mode ∷ VfsCall.unlink path ∷ [])
          ≡ ok s)
        × (merge_from s
              (VfsCall.mknod path mode rdev (FileSecurity.unix uid gid) ∷ VfsCall.unlink path ∷ [])
            ≡ ok s)
        × (merge_from s
              (VfsCall.symlink from path (FileSecurity.unix uid gid) ∷ VfsCall.unlink path ∷ [])
            ≡ ok s)
        × (merge_from s
              (VfsCall.mkdir path (FileSecurity.unix uid gid) mode ∷ VfsCall.rmdir path ∷ [])
            ≡ ok s)
  unfolding merge_from merge_call default_file
  merge_from-made_and_removed from uid gid mode rdev flags =
      (ap ok (merge_unlink-inserted s path _ missing), then_unlink _, then_unlink _, then_unlink _)

-- A hard link that is made and removed again leaves the files as they were, but frees the blocks
-- that the link shares with the file: they stay the file's, and are free.
pub merge_from-link_unlink :
    (s : Snapshot) (from path : FilePath) (uid gid : ℕ) (file : File) (blocks : DataList)
    → get order_path path s.files ≡ none
    → get order_path from s.files ≡ some file
    → file.contents ≡ some blocks
    → merge_from s (VfsCall.link from path (FileSecurity.unix uid gid) ∷ VfsCall.unlink path ∷ [])
      ≡ ok (record s { free_list = deallocate_all blocks s.free_list })
unfolding merge_from merge_call merge_link merge_unlink default_file
merge_from-link_unlink s from path uid gid file blocks missing found data_of =
    rw (found, data_of) (then_unlink s path missing _)

-- For a snapshot without files: the renaming of a file that the journal has only changed is lost,
-- what is left is the change at the new path; and the removal of a file that was there before is
-- lost.
merge_from-lost :
    (bytes : ℕ → ℕ) (free : FreeList) (from to : FilePath) (mode flags : ℕ)
    → (let s : Snapshot = record { serialised = bytes; files = []; free_list = free } in
        (merge_from s (VfsCall.chmod from mode ∷ VfsCall.rename from to flags ∷ [])
          ≡ merge_from s (VfsCall.chmod to mode ∷ []))
        × ((merge_from s (VfsCall.unlink from ∷ []) ≡ ok s)
            × (merge_from s (VfsCall.rmdir from ∷ []) ≡ ok s)))
unfolding merge_from merge_call merge_rename merge_unlink get_or_open
merge_from-lost bytes free from to mode flags =
    (rw (order_path_refl from, get, remove) refl, (refl, refl))
