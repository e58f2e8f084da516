-- ===== src/FileStore/Space.antt =====
-- What `store` of fsyncd/src/journal/filestore.rs keeps and removes.
use fsyncer.Base.{
  ℕ, zero, suc, ◌+◌, ◌≤◌, ◌<◌, ◌≡◌, refl, ap, ◌∙◌, List, [], ◌∷◌, ◌++◌, length, Outcome, ok, lt→ltb,
  ltb_past, ==_refl, arith, ◌⊎◌, inl, inr,
}
use fsyncer.FileStore.Tokens.{FileStore, size_of, remove_file, delete, make_space, total}

-- The tokens run from `oldest` to before `current`.
abbrev pub IsRun : ℕ → List (ℕ × ℕ) → ℕ → Type 0
IsRun oldest [] current = oldest ≡ current
IsRun oldest ((t, size) ∷ files) current = (t ≡ oldest) × IsRun (oldest + 1) files current

abbrev pub held : ℕ → ℕ → ℕ → List (ℕ × ℕ) → FileStore
held oldest current max_size files = record {
  current_size = total files;
  oldest_token = oldest;
  current_token = current;
  max_size = max_size;
  files = files;
}

pub delete-oldest :
    (oldest current max_size size : ℕ) (files : List (ℕ × ℕ))
    → delete (held oldest current max_size ((oldest, size) ∷ files)) oldest
      ≡ ok (held (oldest + 1) current max_size files)
unfolding delete size_of remove_file
delete-oldest oldest current max_size size files = rw (==_refl oldest) (
    rw (ltb_past (size + total files) size (omega arith)) (
      rw (==_refl oldest) (
        ap (λ n. ok (record (held (oldest + 1) current max_size files) { current_size = n }))
          (omega arith))))

-- What the loop of `store` leaves: the newest files, with room for `size` bytes more.
pub record IsRoomFor (oldest current max_size size : ℕ) (files : List (ℕ × ℕ))
    (result : Outcome FileStore) : Type 0 where
  pub removed : List (ℕ × ℕ)
  pub kept : List (ℕ × ℕ)
  pub oldest_kept : ℕ
  pub returns : result ≡ ok (held oldest_kept current max_size kept)
  pub parts : files ≡ removed ++ kept
  pub run : IsRun oldest_kept kept current
  pub room : total kept + size ≤ max_size

lt-cases : (m n : ℕ) → (m < n) ⊎ (n ≤ m)
lt-cases m n = ground arith

pub make_space-enough :
    (fuel oldest current max_size size : ℕ) (files : List (ℕ × ℕ))
    → total files + size ≤ max_size
    → make_space fuel (held oldest current max_size files) size
      ≡ ok (held oldest current max_size files)
unfolding make_space
make_space-enough zero oldest current max_size size files h =
    rw (ltb_past max_size (total files + size) h) refl
make_space-enough (suc fuel) oldest current max_size size files h =
    rw (ltb_past max_size (total files + size) h) refl

pub make_space-step :
    (fuel oldest current max_size size s : ℕ) (files : List (ℕ × ℕ))
    → max_size < s + total files + size
    → make_space (suc fuel) (held oldest current max_size ((oldest, s) ∷ files)) size
      ≡ make_space fuel (held (oldest + 1) current max_size files) size
unfolding make_space
make_space-step fuel oldest current max_size size s files h =
    rw (lt→ltb max_size (s + total files + size) h)
      (rw (delete-oldest oldest current max_size s files) refl)

pub make_space-IsRoomFor :
    (fuel oldest current max_size size : ℕ) (files : List (ℕ × ℕ))
    → length files ≤ fuel
    → IsRun oldest files current
    → size ≤ max_size
    → IsRoomFor oldest current max_size size files
        (make_space fuel (held oldest current max_size files) size)
make_space-IsRoomFor fuel oldest current max_size size [] enough run fits = record {
  removed = [];
  kept = [];
  oldest_kept = oldest;
  returns = make_space-enough fuel oldest current max_size size [] (omega (arith, fits));
  parts = refl;
  run = run;
  room = omega (arith, fits);
}
make_space-IsRoomFor zero oldest current max_size size (f ∷ files) enough run fits =
    absurd (omega (arith, enough))
make_space-IsRoomFor (suc fuel) oldest current max_size size ((t, s) ∷ files) enough (first, run)
      fits =
    elim (lt-cases max_size (s + total files + size)) [
      | inl over ↦
          let r =
            make_space-IsRoomFor fuel (oldest + 1) current max_size size files
              (omega (arith, enough)) run fits in
          record {
            removed = (t, s) ∷ r.removed;
            kept = r.kept;
            oldest_kept = r.oldest_kept;
            returns =
                rw first
                  (make_space-step fuel oldest current max_size size s files over ∙ r.returns);
            parts = ap (λ l. (t, s) ∷ l) r.parts;
            run = r.run;
            room = r.room;
          }
      | inr room ↦ record {
        removed = [];
        kept = (t, s) ∷ files;
        oldest_kept = oldest;
        returns = make_space-enough (suc fuel) oldest current max_size size ((t, s) ∷ files) room;
        parts = refl;
        run = (first, run);
        room = room;
      }
    ]
