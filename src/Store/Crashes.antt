-- ===== src/Store/Crashes.antt =====
-- A journal of fsyncd/src/journal/store.rs that is opened again after a run of writes of which the
-- last are not in the header on disk.
use mathlib.Core.Path.{subst}
use fsyncer.Base.{
  ℕ, ◌+◌, ◌*◌, ◌%◌, ◌<◌, ◌≡◌, ◌≢◌, refl, sym, ap, ◌∙◌, List, length, some, ok, err, other, true,
  not, ◌&&◌, ltb, ◌≤◌, arith, inl, inr, ◌⊎◌, Bool-cases,
}
use fsyncer.Host.{JournalType, ◌is◌}
use fsyncer.Store.{
  align_up_always, new, space_in_block, Journal, block_size, align_down, make_room, append,
  write_inner,
}
use fsyncer.Store.Geometry.{IsWellFormed, make_room-IsWellFormed}
use fsyncer.Store.Appends.{write_inner-append, append-IsPlaced, make_room-IsRoomier}
use fsyncer.Store.Recovery.{open_journal}
use fsyncer.Store.Window.{make_room-tail}
use fsyncer.Store.Runs.{Writes, stop, write, IsInBlock}
use fsyncer.Store.Logged.{IsSaved}
use fsyncer.Store.Saved.{append-IsSaved}
use fsyncer.Store.Reopened.{IsClear, Accepts, with_disk_type, open_journal-IsSaved}

-- A tail inside of a block is not where the ring ends.
in_block-ne_full :
    (size blocks head tail : ℕ)
    → size ≡ blocks * block_size
    → head % block_size ≡ 0
    → tail % block_size ≢ 0
    → tail ≢ head + size
in_block-ne_full size blocks head tail whole aligned inside full =
    absurd (inside (omega (arith, whole, aligned, full)))

append-grows :
    (crc32 : List ℕ → ℕ) (content : List ℕ) (j : Journal)
    → j.header.tail
      ≤ (append crc32 (make_room j (length content + 12)) (length content + 12) content).header.tail
append-grows crc32 content j = omega (arith, (make_room-IsRoomier j (length content + 12)).after)

write_inner-IsSaved :
    (crc32 : List ℕ → ℕ) (content : List ℕ) (j next : Journal)
    → IsWellFormed j
    → IsSaved j
    → length content + 12 < block_size
    → write_inner crc32 j content ≡ ok next
    → IsInBlock next
    → IsWellFormed next × IsSaved next
write_inner-IsSaved crc32 content j next w saved short wrote inside =
    subst (λ k. IsWellFormed k × IsSaved k) same
      (wellformed, append-IsSaved crc32 content short j w saved inside')
  where
    same : append crc32 (make_room j (length content + 12)) (length content + 12) content ≡ next
    same = write_inner-append crc32 j next content wrote

    inside' :
        (append crc32 (make_room j (length content + 12)) (length content + 12) content).header.tail
          % block_size
        ≢ 0
    inside' = subst (λ k. k.header.tail % block_size ≢ 0) (sym same) inside

    wellformed :
        IsWellFormed
          (append crc32 (make_room j (length content + 12)) (length content + 12) content)
    wellformed =
        let (w', space) = make_room-IsWellFormed j (length content + 12) w short in
        let p =
          append-IsPlaced crc32 j (make_room j (length content + 12)) content
            (make_room-IsRoomier j (length content + 12)) w' space in
        p.keeps (
          in_block-ne_full (make_room j (length content + 12)).size w'.blocks
            (make_room j (length content + 12)).header.head
            ((make_room j (length content + 12)).header.tail + (length content + 12)) w'.size
            w'.aligned inside')

Writes-IsSaved :
    (crc32 : List ℕ → ℕ) {j j' : Journal} {contents : List (List ℕ)}
    → IsWellFormed j
    → IsSaved j
    → Writes crc32 IsInBlock j contents j'
    → IsWellFormed j' × IsSaved j'
Writes-IsSaved crc32 w saved (stop same) = subst (λ k. IsWellFormed k × IsSaved k) same (w, saved)
Writes-IsSaved crc32 {j} w saved (write {next} {content} wrote short inside rest) =
    let (w', saved') = write_inner-IsSaved crc32 content j next w saved short wrote inside in
    Writes-IsSaved crc32 w' saved' rest

-- Contents of less than a block each are written one after the other to a ring of whole blocks whose
-- header on disk says where its last block begins, and none of them ends where a block does. If no
-- size is left over behind the tail, and the type that is asked for is that of the header on disk or
-- the invalid type, then opening the file again with the header that is on disk gives the journal as
-- it was in memory, its tail and its counter with it, although both were only written to disk with
-- the last block; its type is the one on disk. A block of rounds and two more are enough.
pub open_journal-Writes :
    (crc32 : List ℕ → ℕ) (j j' : Journal) (contents : List (List ℕ)) (wanted : JournalType)
    (len now : ℕ)
    → IsWellFormed j
    → IsSaved j
    → Writes crc32 IsInBlock j contents j'
    → IsClear j'
    → Accepts wanted j'.disk_header.ty
    → align_down len block_size ≡ j'.size
    → open_journal (block_size + 2) wanted j'.disk_header len j'.ring now
      ≡ some (ok (with_disk_type j' now))
open_journal-Writes crc32 j j' contents wanted len now w saved writes clear accepts size =
    let (w', saved') = Writes-IsSaved crc32 w saved writes in
    open_journal-IsSaved j' wanted len now w' saved' clear accepts size

write_inner-grows :
    (crc32 : List ℕ → ℕ) (content : List ℕ) (j next : Journal)
    → length content + 12 < block_size
    → write_inner crc32 j content ≡ ok next
    → j.header.tail ≤ next.header.tail
write_inner-grows crc32 content j next short wrote =
    let same : append crc32 (make_room j (length content + 12)) (length content + 12) content
        ≡ next =
      write_inner-append crc32 j next content wrote in
    subst (λ (k : Journal). j.header.tail ≤ k.header.tail) same (append-grows crc32 content j)

make_room-disk :
    (j : Journal) (esize : ℕ)
    → ((make_room j esize).header.tail ≡ align_up_always j.header.tail block_size)
      ⊎ ((make_room j esize).disk_header ≡ j.disk_header)
make_room-disk j esize = elim (Bool-cases (ltb (space_in_block j) esize)) [
  | inl full ↦ inl (make_room-tail j esize full)
  | inr enough ↦ inr (unfold make_room in rw enough refl)
]

-- The header on disk stays as it is while the tail is in its block.
write_inner-disk :
    (crc32 : List ℕ → ℕ) (content : List ℕ) (j next : Journal)
    → length content + 12 < block_size
    → write_inner crc32 j content ≡ ok next
    → next.header.tail < align_up_always j.header.tail block_size
    → next.disk_header ≡ j.disk_header
write_inner-disk crc32 content j next short wrote inside =
    let same : append crc32 (make_room j (length content + 12)) (length content + 12) content
        ≡ next =
      write_inner-append crc32 j next content wrote in
    elim (make_room-disk j (length content + 12)) [
      | inl moved ↦ absurd (omega (arith, moved, inside, ap (λ k. k.header.tail) same))
      | inr stays ↦ ap (λ k. k.disk_header) (sym same) ∙ stays
    ]

same_block-align_up :
    (tail next : ℕ)
    → tail ≤ next
    → next < align_up_always tail block_size
    → align_up_always next block_size ≡ align_up_always tail block_size
unfolding align_up_always
same_block-align_up tail next h inside = omega (arith, h, inside)

module _ (crc32 : List ℕ → ℕ) (Fits : Journal → Type 0) where
  Writes-grows :
      {j j' : Journal} {contents : List (List ℕ)}
      → Writes crc32 Fits j contents j'
      → j.header.tail ≤ j'.header.tail
  Writes-grows (stop same) = omega (arith, ap (λ k. k.header.tail) same)
  Writes-grows {j} (write {next} {content} wrote short fits rest) =
      omega (arith, write_inner-grows crc32 content j next short wrote, Writes-grows rest)

  Writes-disk :
      {j j' : Journal} {contents : List (List ℕ)}
      → j'.header.tail < align_up_always j.header.tail block_size
      → Writes crc32 Fits j contents j'
      → j'.disk_header ≡ j.disk_header
  Writes-disk inside (stop same) = ap (λ k. k.disk_header) (sym same)
  Writes-disk {j} {j'} inside (write {next} {content} wrote short fits rest) =
      let grows = write_inner-grows crc32 content j next short wrote in
      let stays : next.header.tail < align_up_always j.header.tail block_size =
        omega (arith, inside, Writes-grows rest) in
      Writes-disk
        (omega (arith, inside, same_block-align_up j.header.tail next.header.tail grows stays)) rest
      ∙ write_inner-disk crc32 content j next short wrote stays

-- The invalid type of a header is not the valid one that is asked for.
refused :
    (wanted : JournalType)
    → wanted ≢ JournalType.invalid
    → (not (wanted is JournalType.invalid) && not (JournalType.invalid is wanted)) ≡ true
refused JournalType.invalid valid = absurd (valid refl)
refused JournalType.bilog valid = refl
refused JournalType.forward valid = refl
refused JournalType.undo valid = refl

-- A new journal that has not left its first block, whatever was written to it, cannot be opened
-- again with a valid type: no header was written to disk, and the zeroes there read as the invalid
-- type.
pub open_journal-first_block :
    (crc32 : List ℕ → ℕ) (Fits : Journal → Type 0) (ty wanted : JournalType) (len now : ℕ)
    (bytes : List ℕ) (contents : List (List ℕ)) (j' : Journal) (fuel len' now' : ℕ)
    → wanted ≢ JournalType.invalid
    → Writes crc32 Fits (new ty len bytes now) contents j'
    → j'.header.tail < block_size
    → open_journal fuel wanted j'.disk_header len' j'.ring now' ≡ some (err other)
unfolding new open_journal align_up_always
open_journal-first_block crc32 Fits ty wanted len now bytes contents j' fuel len' now' valid writes
      inside =
    rw (Writes-disk crc32 Fits inside writes) (rw (refused wanted valid) refl)
