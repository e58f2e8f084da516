-- ===== src/FileStore/Stores.antt =====
-- The operation `store` of fsyncd/src/journal/filestore.rs as a whole.
use mathlib.Core.List.{append-nil}
use fsyncer.Base.{
  ℕ, zero, suc, ◌+◌, ◌≤◌, ◌<◌, ◌≡◌, refl, sym, ap, ◌∙◌, List, [], ◌∷◌, ◌++◌, length, Outcome, ok,
  err, not_found, lt→ltb, ==_refl, ==_ne, arith,
}
use fsyncer.FileStore.Tokens.{
  FileStore, size_of, remove_file, delete, make_space, store, total, first_token, last_token, new,
}
use fsyncer.FileStore.Space.{IsRun, held, make_space-IsRoomFor, make_space-step, make_space-enough}

IsRun-le :
    (oldest current : ℕ) (files : List (ℕ × ℕ)) → IsRun oldest files current → oldest ≤ current
IsRun-le oldest current [] run = omega (arith, run)
IsRun-le oldest current ((t, s) ∷ files) (first, run) =
    omega (arith, IsRun-le (oldest + 1) current files run)

-- A run and a file with the next token.
IsRun-next :
    (oldest current size : ℕ) (files : List (ℕ × ℕ))
    → IsRun oldest files current
    → IsRun oldest (files ++ ((current, size) ∷ [])) (current + 1)
IsRun-next oldest current size [] run = (sym run, ap (λ n. n + 1) run)
IsRun-next oldest current size ((t, s) ∷ files) (first, run) =
    (first, IsRun-next (oldest + 1) current size files run)

remove_file-next :
    (oldest current : ℕ) (files rest : List (ℕ × ℕ))
    → IsRun oldest files current
    → remove_file current (files ++ rest) ≡ files ++ remove_file current rest
unfolding remove_file
remove_file-next oldest current [] rest run = refl
remove_file-next oldest current ((t, s) ∷ files) rest (first, run) =
    rw (==_ne t current (ground (arith, first, IsRun-le (oldest + 1) current files run)))
      (ap (λ l. (t, s) ∷ l) (remove_file-next (oldest + 1) current files rest run))

remove_file-absent :
    (oldest current : ℕ) (files : List (ℕ × ℕ))
    → IsRun oldest files current
    → remove_file current files ≡ files
unfolding remove_file
remove_file-absent oldest current [] run = refl
remove_file-absent oldest current ((t, s) ∷ files) (first, run) =
    rw (==_ne t current (ground (arith, first, IsRun-le (oldest + 1) current files run)))
      (ap (λ l. (t, s) ∷ l) (remove_file-absent (oldest + 1) current files run))

total-append : (xs ys : List (ℕ × ℕ)) → total (xs ++ ys) ≡ total xs + total ys
total-append [] ys = omega arith
total-append ((t, s) ∷ xs) ys = omega (arith, total-append xs ys)

-- What `store` leaves: the newest files and the stored one, which is the newest.
pub record IsStored (oldest current max_size size : ℕ) (files : List (ℕ × ℕ))
    (result : Outcome (ℕ × FileStore)) : Type 0 where
  pub removed : List (ℕ × ℕ)
  pub kept : List (ℕ × ℕ)
  pub oldest_kept : ℕ
  pub returns :
      result
      ≡ ok (current, held oldest_kept (current + 1) max_size (kept ++ ((current, size) ∷ [])))
  pub parts : files ≡ removed ++ kept
  pub run : IsRun oldest_kept (kept ++ ((current, size) ∷ [])) (current + 1)
  pub bounded : total (kept ++ ((current, size) ∷ [])) ≤ max_size

-- In a store whose tokens run from the oldest to before the current one, and whose size is that of
-- its files, a file that is not larger than the limit is stored: under the current token, after
-- removing oldest files until it fits, as many rounds as there are files being enough. The tokens
-- still run, and the size of what is held is known and within the limit.
pub store-IsStored :
    (fuel oldest current max_size size : ℕ) (files : List (ℕ × ℕ))
    → length files ≤ fuel
    → IsRun oldest files current
    → size ≤ max_size
    → IsStored oldest current max_size size files
        (store fuel (held oldest current max_size files) size)
unfolding store
store-IsStored fuel oldest current max_size size files enough run fits =
    let r = make_space-IsRoomFor fuel oldest current max_size size files enough run fits in
    let sum : total r.kept + size ≡ total (r.kept ++ ((current, size) ∷ [])) =
      omega (arith, total-append r.kept ((current, size) ∷ [])) in
    record {
      removed = r.removed;
      kept = r.kept;
      oldest_kept = r.oldest_kept;
      returns = rw r.returns (
          rw (remove_file-absent r.oldest_kept current r.kept r.run) (
            ap
              (λ n. ok (
                current,
                record (held r.oldest_kept (current + 1) max_size
                    (r.kept ++ ((current, size) ∷ []))) { current_size = n },
              ))
              sum));
      parts = r.parts;
      run = IsRun-next r.oldest_kept current size r.kept r.run;
      bounded = omega (arith, r.room, sum);
    }

make_space-too_large :
    (fuel oldest current max_size size : ℕ) (files : List (ℕ × ℕ))
    → length files < fuel
    → IsRun oldest files current
    → max_size < size
    → make_space fuel (held oldest current max_size files) size ≡ err not_found
unfolding make_space delete size_of
make_space-too_large zero oldest current max_size size files enough run large =
    absurd (omega (arith, enough))
make_space-too_large (suc fuel) oldest current max_size size [] enough run large =
    rw (lt→ltb max_size (0 + size) (omega (arith, large))) refl
make_space-too_large (suc fuel) oldest current max_size size ((t, s) ∷ files) enough (first, run)
      large =
    rw first (
      make_space-step fuel oldest current max_size size s files (omega (arith, large))
      ∙ make_space-too_large fuel (oldest + 1) current max_size size files (omega (arith, enough))
          run large)

-- In such a store a file that is larger than the limit is not stored: after one round more than
-- there are files, all of which are removed, the next one is not found.
pub store-too_large :
    (fuel oldest current max_size size : ℕ) (files : List (ℕ × ℕ))
    → length files < fuel
    → IsRun oldest files current
    → max_size < size
    → store fuel (held oldest current max_size files) size ≡ err not_found
unfolding store
store-too_large fuel oldest current max_size size files enough run large =
    rw (make_space-too_large fuel oldest current max_size size files enough run large) refl

last_token-next : (files : List (ℕ × ℕ)) (t s : ℕ) → last_token (files ++ ((t, s) ∷ [])) ≡ t
last_token-next [] t s = refl
last_token-next (f ∷ []) t s = refl
last_token-next (f ∷ g ∷ files) t s = last_token-next (g ∷ files) t s

-- After `new` on a directory listed by token, whose last file has the token `t`, a file for which
-- there is room gets the token `t` again and takes the place of that file.
pub store-after_new :
    (fuel oldest t s max_size size : ℕ) (files : List (ℕ × ℕ))
    → IsRun oldest files t
    → total (files ++ ((t, s) ∷ [])) + size ≤ max_size
    → (this : FileStore) × (store fuel (new (files ++ ((t, s) ∷ [])) max_size) size ≡ ok (t, this))
      × (this.files ≡ files ++ ((t, size) ∷ []))
unfolding store new
store-after_new fuel oldest t s max_size size files run room =
    let listed = files ++ ((t, s) ∷ []) in
    let removal : remove_file t listed ≡ files =
      remove_file-next oldest t files ((t, s) ∷ []) run
      ∙ ap (λ l. files ++ l) (remove_file-only t s)
      ∙ append-nil files in
    (
      record {
        current_size = total listed + size;
        oldest_token = first_token listed;
        current_token = t + 1;
        max_size = max_size;
        files = remove_file t listed ++ ((t, size) ∷ []);
      },
      rw (last_token-next files t s)
          (rw (make_space-enough fuel (first_token listed) t max_size size listed room) refl),
      ap (λ l. l ++ ((t, size) ∷ [])) removal,
    )
  where
    remove_file-only : (t s : ℕ) → remove_file t ((t, s) ∷ []) ≡ []
    remove_file-only t s = unfold remove_file in (rw (==_refl t) refl)
