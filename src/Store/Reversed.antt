-- ===== src/Store/Reversed.antt =====
-- The reverse iterator of fsyncd/src/journal/store.rs over a whole journal, block by block.
use mathlib.Core.Path.{subst}
use mathlib.Core.List.{reverse, reverse_aux, reverse_aux-append, reverse_aux-eq}
use fsyncer.Base.{
  ℕ, zero, suc, ◌+◌, ◌%◌, ◌≤◌, ◌<◌, ◌≡◌, ◌≢◌, refl, sym, ap, ◌∙◌, List, [], ◌∷◌, ◌++◌, length,
  Option, some, ok, ==_ne, ==_iff, ==_refl, arith, inl, inr, ◌⊎◌, Bool-cases, ◌==◌,
}
use fsyncer.Store.{Journal, block_size, align_down}
use fsyncer.Store.Geometry.{IsWellFormed}
use fsyncer.Store.Forward.{read_all}
use fsyncer.Store.Queue.{Holds, ended, entry, start-bound}
use fsyncer.Store.Entries.{read_all-Holds}
use fsyncer.Store.Backward.{
  JournalIterator, decode_block, block_start, retreat, with_back, next_back, read_back,
  read_reverse,
}
use fsyncer.Store.Reversal.{IsDecoded, decode_block-IsDecoded}

le-cases : (m n : ℕ) → m ≤ n → (m < n) ⊎ (m ≡ n)
le-cases m n h = ground (arith, h)

block_start_lem :
    (block tail : ℕ)
    → block % block_size ≡ 0
    → block < tail
    → tail ≤ block + block_size
    → block_start tail ≡ block
unfolding block_start align_down
block_start_lem block tail aligned before near = elim (Bool-cases (tail % block_size == 0)) [
  | inl whole ↦
      rw whole (omega (arith, (==_iff (tail % block_size) 0).0 whole, aligned, before, near))
  | inr partial ↦ rw partial (ground (arith, partial, aligned, before, near))
]

retreat_lem :
    (head block tail : ℕ)
    → head ≤ block
    → block % block_size ≡ 0
    → block < tail
    → tail ≤ block + block_size
    → retreat head tail ≡ block
unfolding retreat align_down
retreat_lem head block tail low aligned before near = elim (Bool-cases (tail % block_size == 0)) [
  | inl whole ↦ rw whole (
      rw (==_ne tail 0 (omega (arith, before))) (
        rw (==_ne tail head (omega (arith, before, low)))
          (omega (arith, (==_iff (tail % block_size) 0).0 whole, aligned, before, near))))
  | inr partial ↦ rw partial (ground (arith, partial, aligned, before, near))
]

length-reverse_aux :
    {A : Type 0} (xs ys : List A) → length (reverse_aux xs ys) ≡ length xs + length ys
length-reverse_aux [] ys = omega arith
length-reverse_aux (x ∷ xs) ys = omega (arith, length-reverse_aux xs (x ∷ ys))

reverse_aux-ne_nil : {A : Type 0} (xs ys : List A) → ys ≢ [] → reverse_aux xs ys ≢ []
reverse_aux-ne_nil [] ys h = h
reverse_aux-ne_nil (x ∷ xs) ys h = reverse_aux-ne_nil xs (x ∷ ys) cc

reverse-ne_nil : {A : Type 0} (xs : List A) → xs ≢ [] → reverse xs ≢ []
reverse-ne_nil [] h = absurd (h refl)
reverse-ne_nil (x ∷ xs) h = reverse_aux-ne_nil xs (x ∷ []) cc

module _ {Entry : Type 0} (deserialize : List ℕ → Option Entry) (crc32 : List ℕ → ℕ) (j : Journal)
    (rounds head : ℕ) where
  abbrev at_block : ℕ → List Entry → JournalIterator Entry
  at_block tail buffer = record { head = head; tail = tail; block_buffer = buffer }

  -- From `tail` with an empty buffer the iterator gives these entries.
  abbrev Gives : ℕ → List Entry → Type 0
  Gives tail es =
      (fuel : ℕ)
      → length es < fuel
      → read_back deserialize crc32 rounds fuel j (at_block tail []) ≡ some (ok es)

  Gives-head : Gives head []
  unfolding read_back next_back
  Gives-head zero h = absurd (omega (arith, h))
  Gives-head (suc fuel) h = rw (==_refl head) refl

  -- The entries of the buffer come first.
  Gives-buffer :
      (tail : ℕ) (buffer es : List Entry)
      → Gives tail es
      → (fuel : ℕ) → length (buffer ++ es) < fuel
      → read_back deserialize crc32 rounds fuel j (at_block tail buffer) ≡ some (ok (buffer ++ es))
  unfolding read_back next_back
  Gives-buffer tail [] es gives fuel h = gives fuel h
  Gives-buffer tail (e ∷ buffer) es gives zero h = absurd (omega (arith, h))
  Gives-buffer tail (e ∷ buffer) es gives (suc fuel) h =
      rw (Gives-buffer tail buffer es gives fuel (omega (arith, h))) refl

  -- A block is decoded where the buffer is empty.
  next_back-refill :
      (block tail : ℕ) (buffer : List Entry)
      → head ≤ block
      → block % block_size ≡ 0
      → block < tail
      → tail ≤ block + block_size
      → decode_block deserialize crc32 rounds j tail block [] ≡ some (ok buffer)
      → buffer ≢ []
      → next_back deserialize crc32 rounds j (at_block tail [])
        ≡ next_back deserialize crc32 rounds j (at_block block buffer)
  unfolding next_back
  next_back-refill block tail [] low aligned before near decoded filled = absurd (filled refl)
  next_back-refill block tail (e ∷ buffer) low aligned before near decoded filled =
      rw (==_ne head tail (omega (arith, low, before))) (
        rw (==_ne tail 0 (omega (arith, before))) (
          rw (block_start_lem block tail aligned before near)
            (rw decoded (rw (retreat_lem head block tail low aligned before near) refl))))

  Gives-block :
      (block tail : ℕ) {es : List Entry} (acc : List Entry)
      (d : IsDecoded deserialize crc32 j rounds tail block [] es)
      → head ≤ block
      → block % block_size ≡ 0
      → block < tail
      → tail ≤ block + block_size
      → Gives block acc
      → Gives tail (reverse_aux d.here acc)
  unfolding read_back
  Gives-block block tail acc d low aligned before near gives zero h = absurd (omega (arith, h))
  Gives-block block tail acc d low aligned before near gives (suc fuel) h =
      ap (λ r. with_back (read_back deserialize crc32 rounds fuel j) r)
        (next_back-refill block tail (reverse d.here) low aligned before near d.decoded
          (reverse-ne_nil d.here (d.some_here aligned before)))
      ∙ Gives-buffer block (reverse d.here) acc gives (suc fuel)
          (omega (arith, h, ap (λ l. length l) (reverse_aux-eq d.here acc)))
      ∙ ap (λ l. some (ok l)) (sym (reverse_aux-eq d.here acc))

  Holds-tail :
      {es : List Entry} {at : ℕ} → at ≡ j.header.tail → Holds deserialize crc32 j at es → es ≡ []
  Holds-tail at_tail (ended same) = refl
  Holds-tail at_tail (entry i rest) =
      absurd (omega (arith, at_tail, start-bound _ _ i.at, i.least, i.below))

  IsDecoded-reverse :
      {block tail : ℕ} {es : List Entry} (acc : List Entry)
      (d : IsDecoded deserialize crc32 j rounds tail block [] es)
      → reverse_aux d.later (reverse_aux d.here acc) ≡ reverse_aux es acc
  IsDecoded-reverse acc d =
      sym (reverse_aux-append d.here d.later acc) ∙ ap (λ l. reverse_aux l acc) (sym d.splits)

  Gives-last :
      (block : ℕ) {es : List Entry} (acc : List Entry)
      (d : IsDecoded deserialize crc32 j rounds j.header.tail block [] es)
      → head ≤ block
      → block % block_size ≡ 0
      → block < j.header.tail
      → j.header.tail ≤ block + block_size
      → Gives block acc
      → Gives j.header.tail (reverse_aux es acc)
  Gives-last block acc d low aligned before near gives =
      subst (λ l. Gives j.header.tail l)
        (ap (λ l. reverse_aux l (reverse_aux d.here acc)) (sym (Holds-tail refl d.remain))
          ∙ IsDecoded-reverse acc d)
        (Gives-block block j.header.tail acc d low aligned before near gives)

  -- Block by block, from one whose entries are read on.
  Gives-Holds :
      (n block : ℕ) {es : List Entry} (acc : List Entry)
      → block_size < rounds
      → j.header.tail < block + n
      → head ≤ block
      → block ≤ j.header.tail
      → block % block_size ≡ 0
      → Holds deserialize crc32 j block es
      → Gives block acc
      → Gives j.header.tail (reverse_aux es acc)
  Gives-Holds zero block acc enough h low in_window aligned holds gives =
      absurd (omega (arith, h, in_window))
  Gives-Holds (suc n) block {es} acc enough h low in_window aligned holds gives =
      elim (le-cases block j.header.tail in_window) [
        | inr at_tail ↦
            subst (λ t. Gives t (reverse_aux es acc)) at_tail
              (subst (λ l. Gives block (reverse_aux l acc)) (sym (Holds-tail at_tail holds)) gives)
        | inl before ↦ elim (lt-cases j.header.tail (block + block_size)) [
          | inl last ↦
              let d =
                decode_block-IsDecoded deserialize crc32 j rounds j.header.tail (block + block_size)
                  [] in_window (omega (arith, last)) (λ less. refl) (omega arith)
                  (omega (arith, aligned)) (omega arith) (omega (arith, last, enough)) holds in
              Gives-last block acc d low aligned before (omega (arith, last)) gives
          | inr more ↦
              let d =
                decode_block-IsDecoded deserialize crc32 j rounds (block + block_size)
                  (block + block_size) [] (omega arith) (omega arith)
                  (λ less. absurd (omega (arith, less))) more (omega (arith, aligned)) (omega arith)
                  (omega (arith, enough)) holds in
              subst (λ l. Gives j.header.tail l) (IsDecoded-reverse acc d)
                (Gives-Holds n (block + block_size) (reverse_aux d.here acc) enough
                  (omega (arith, h)) (omega (arith, low)) more (omega (arith, aligned)) d.remain
                  (Gives-block block (block + block_size) acc d low aligned (omega arith)
                    (omega arith) gives))
        ]
      ]
    where
      lt-cases : (m n : ℕ) → (m < n) ⊎ (n ≤ m)
      lt-cases m n = ground arith

-- Where a well-formed journal has entries from its head to its tail, the forward iterator gives
-- them in order and the reverse iterator gives the same in the opposite order, each to its end.
-- The rounds bound the entries of a block.
pub read_back-read_all :
    {Entry : Type 0} (deserialize : List ℕ → Option Entry) (crc32 : List ℕ → ℕ) (j : Journal)
    (es : List Entry) (rounds fuel : ℕ)
    → IsWellFormed j
    → block_size < rounds
    → length es < fuel
    → Holds deserialize crc32 j j.header.head es
    → (read_all deserialize fuel j j.header.head ≡ some (ok es))
      × (read_back deserialize crc32 rounds fuel j (read_reverse j) ≡ some (ok (reverse es)))
unfolding read_reverse
read_back-read_all deserialize crc32 j es rounds fuel w enough h holds = (
  read_all-Holds deserialize crc32 j fuel h holds,
  Gives-Holds deserialize crc32 j rounds j.header.head (suc j.header.tail) j.header.head [] enough
      (omega arith) (omega arith) w.ordered w.aligned holds
      (Gives-head deserialize crc32 j rounds j.header.head) fuel
      (omega (arith, h, length-reverse_aux es [])),
)
