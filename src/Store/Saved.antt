-- ===== src/Store/Saved.antt =====
-- What the header on disk of fsyncd/src/journal/store.rs says of the journal: the entries written
-- since stand behind its tail, in one block and with numbers that follow each other.
use native.Mathlib.Nat.{mod-add-mod, mod-eq_of_lt}
use mathlib.Core.Path.{subst}
use fsyncer.Base.{
  ℕ, zero, suc, ◌+◌, ◌%◌, ◌^◌, ◌≤◌, ◌<◌, ◌≡◌, ◌≢◌, refl, sym, ap, true, ◌∙◌, List, [], ◌∷◌, length,
  take, drop, ok, some, ltb, arith, Bool-cases, inl, inr,
}
use fsyncer.Common.Files.{slice}
use fsyncer.Store.{
  Journal, block_size, align_up_always, file_off, make_room, append, next_block, space_in_block,
}
use fsyncer.Store.Geometry.{IsWellFormed, file_off-fits, make_room-IsWellFormed}
use fsyncer.Store.Appends.{IsPlaced, IsRoomier, make_room-IsRoomier, append-IsPlaced}
use fsyncer.Store.Reads.{take-take, read_at-ok, entry_bytes-number}
use fsyncer.Store.ReadBack.{read_at-size}
use fsyncer.Store.Window.{append-Keeps}
use fsyncer.Store.Logged.{IsLogged, Logged, ended, entry, IsSaved, Logged-counted, Logged-Keeps}

take-drop-take :
    (k m n : ℕ) (xs : List ℕ) → k + m ≤ n → take m (drop k (take n xs)) ≡ take m (drop k xs)
take-drop-take zero m n xs h = take-take m n xs (omega (arith, h))
take-drop-take (suc k) m zero xs h = absurd (omega (arith, h))
take-drop-take (suc k) m (suc n) [] h = refl
take-drop-take (suc k) m (suc n) (x ∷ xs) h = take-drop-take k m n xs (omega (arith, h))

drop-nil : (n : ℕ) → ◌≡◌ {A = List ℕ} (drop n []) []
drop-nil zero = refl
drop-nil (suc n) = refl

drop-drop : (a k : ℕ) (xs : List ℕ) → drop (a + k) xs ≡ drop k (drop a xs)
drop-drop zero k xs = ap (λ n. drop n xs) (omega arith)
drop-drop (suc a) k [] = rw (drop-nil (suc a + k), drop-nil k) refl
drop-drop (suc a) k (x ∷ xs) =
    ap (λ n. drop n (x ∷ xs)) (let e : suc a + k ≡ suc (a + k) = omega arith in e)
    ∙ drop-drop a k xs

-- Four bytes into a range that does not leave its block.
pub file_off-add :
    (j : Journal) (off k n : ℕ)
    → IsWellFormed j
    → off + (k + n) ≤ align_up_always off block_size
    → 0 < n
    → file_off j (off + k) ≡ file_off j off + k
unfolding file_off
file_off-add j off k n w h pos =
    sym (mod-add-mod off j.size k)
    ∙ mod-eq_of_lt (omega (arith, file_off-fits j off (k + n) w h, pos))

make_room-saves :
    (j : Journal) (esize : ℕ)
    → ltb (space_in_block j) esize ≡ true
    → (make_room j esize).disk_header ≡ (make_room j esize).header
unfolding make_room next_block
make_room-saves j esize full = rw full refl

module _ (crc32 : List ℕ → ℕ) (content : List ℕ) (short : length content + 12 < block_size)
    (j : Journal) (w : IsWellFormed j) where
  abbrev pub esize : ℕ
  esize = length content + 12

  placed-IsLogged :
      (j' : Journal) (start : ℕ)
      → IsPlaced crc32 content j j' start
      → file_off j' (start + 4) ≡ file_off j' start + 4
      → IsLogged j' start esize j.header.trans_ctr
  placed-IsLogged j' start p moved = record {
    least = omega arith;
    short = short;
    one_block = omega (arith, p.ends, p.one_block);
    below = omega (arith, p.ends);
    size = read_at-size (λ bytes. some bytes) crc32 content short j j' start p;
    number =
        read_at-ok j' (start + 4) 4 (omega (arith, p.contiguous))
          (omega (arith, moved, p.contiguous, p.filled))
        ∙ ap ok (
            ap (λ a. slice j'.ring a 4) moved
            ∙ ap (λ l. take 4 l) (drop-drop (file_off j' start) 4 j'.ring)
            ∙ sym (take-drop-take 4 4 esize (drop (file_off j' start) j'.ring) (omega arith))
            ∙ ap (λ l. take 4 (drop 4 l)) p.bytes
            ∙ entry_bytes-number crc32 j.header.trans_ctr content);
  }

  abbrev pub r : Journal
  r = make_room j esize

  abbrev pub after : Journal
  after = append crc32 r esize content

  room : IsWellFormed r × (r.header.tail + esize ≤ align_up_always r.header.tail block_size)
  room = make_room-IsWellFormed j esize w short

  p : IsPlaced crc32 content j after r.header.tail
  p = append-IsPlaced crc32 j r content (make_room-IsRoomier j esize) room.0 room.1

  append-IsLogged : IsLogged after r.header.tail esize j.header.trans_ctr
  append-IsLogged = placed-IsLogged after r.header.tail p (
      unfold file_off in
      file_off-add r r.header.tail 4 4 room.0 (omega (arith, room.1)) (omega arith))

  same_block :
      after.header.tail % block_size ≢ 0
      → align_up_always after.header.tail block_size ≡ align_up_always r.header.tail block_size
  unfolding align_up_always
  same_block inside = omega (arith, inside, room.1)

  roomier : IsRoomier j r
  roomier = make_room-IsRoomier j esize

  -- In a new block the header has just been written.
  append-IsSaved_new :
      IsSaved j → r.disk_header ≡ r.header → after.header.tail % block_size ≢ 0 → IsSaved after
  append-IsSaved_new saved flushed inside = record {
    head = ap (λ h. h.head) flushed;
    behind = omega (arith, room.0.ordered, ap (λ h. h.tail) flushed);
    same_block = same_block inside ∙ ap (λ h. align_up_always h.tail block_size) (sym flushed);
    logged =
        subst (λ h. Logged after h.tail h.trans_ctr) (sym flushed)
          (entry
            (subst (λ id. IsLogged after r.header.tail esize id) (sym roomier.trans)
              append-IsLogged)
            (ended refl refl));
    counted = omega (
      arith,
      ap (λ h. h.trans_ctr) flushed,
      roomier.trans,
      Logged-counted saved.counted saved.logged,
    );
  }

  append-IsSaved_same : r ≡ j → IsSaved j → after.header.tail % block_size ≢ 0 → IsSaved after
  append-IsSaved_same here saved inside = record {
    head = subst (λ k. k.disk_header.head ≡ k.header.head) (sym here) saved.head;
    behind = subst (λ k. k.header.head ≤ k.disk_header.tail) (sym here) saved.behind;
    same_block =
        same_block inside
        ∙ subst
            (λ k.
              align_up_always k.header.tail block_size
              ≡ align_up_always k.disk_header.tail block_size)
            (sym here) saved.same_block;
    logged =
        subst (λ k. Logged after k.disk_header.tail k.disk_header.trans_ctr) (sym here)
          (Logged-Keeps esize
            (append-Keeps crc32 content j j.disk_header.tail w short
              (omega (arith, p.window, saved.behind, roomier.size, ap (λ k. k.header.head) here)))
            (omega arith) (omega (arith, ap (λ k. k.header.tail) here)) (sym p.next_id)
            (subst (λ t. IsLogged after t esize j.header.trans_ctr) (ap (λ k. k.header.tail) here)
              append-IsLogged)
            saved.logged);
    counted = subst (λ k. k.disk_header.trans_ctr < 2 ^ 32) (sym here) saved.counted;
  }

  pub append-IsSaved : IsSaved j → after.header.tail % block_size ≢ 0 → IsSaved after
  append-IsSaved saved inside = elim (Bool-cases (ltb (space_in_block j) esize)) [
    | inl full ↦ append-IsSaved_new saved (make_room-saves j esize full) inside
    | inr enough ↦ append-IsSaved_same (unfold make_room in rw enough refl) saved inside
  ]
