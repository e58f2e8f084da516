-- ===== src/Store/Reopened.antt =====
-- Opening a journal of fsyncd/src/journal/store.rs again with the header that was last written to
-- disk, as after a crash.
use native.Mathlib.Nat.{mod-eq_of_lt}
use mathlib.Core.Path.{subst}
use fsyncer.Base.{
  ℕ, zero, suc, ◌+◌, ◌-◌, ◌%◌, ◌^◌, ◌≤◌, ◌<◌, ◌≡◌, refl, sym, ap, ◌∙◌, [], ◌∷◌, some, ok, ltb,
  ltb_past, lt→ltb, ==_ne, ==_iff, arith, true, false, not, ◌&&◌, Bool, Bool-cases, inl, inr, ◌⊎◌,
}
use fsyncer.Common.Words.{le_bytes, le_value, le_value-le_bytes_4}
use fsyncer.Common.Buffers.{read_exact_at}
use fsyncer.Host.{JournalType, ◌is◌}
use fsyncer.Store.{Journal, JournalHeader, block_size, align_up_always, align_down, file_off}
use fsyncer.Store.Geometry.{IsWellFormed, align_up-bounds}
use fsyncer.Store.Forward.{read_at}
use fsyncer.Store.Recovery.{traverse, open_journal, Found, on_disk, recovered}
use fsyncer.Store.Logged.{IsLogged, Logged, ended, entry, IsSaved}
use fsyncer.Store.Saved.{file_off-add}

-- Nothing is left over behind the tail: there is no room for a size, or it is zero.
abbrev pub IsClear : Journal → Type 0
IsClear j =
    (align_up_always j.header.tail block_size - j.header.tail < 4)
    ⊎ (read_at j j.header.tail 4 ≡ ok (0 ∷ 0 ∷ 0 ∷ 0 ∷ []))

-- The journal `k` reads the same ring as `j`, from a tail whose block holds the tail of `j`.
module _ (j k : Journal) (ring : k.ring ≡ j.ring) (size : k.size ≡ j.size) where
  same_read : (off len : ℕ) → read_at k off len ≡ read_at j off len
  unfolding file_off
  same_read off len = rw (ring, size) refl

  -- What the loop finds: the tail, and a number that stands for the counter.
  abbrev Finds : Found → Type 0
  Finds found =
      (expected : ℕ) × (found ≡ some (ok (j.header.tail, expected)))
      × (expected % 2 ^ 32 ≡ j.header.trans_ctr)

  traverse-clear :
      (fuel expected : ℕ)
      → j.header.tail ≤ align_up_always k.header.tail block_size
      → IsClear j
      → expected % 2 ^ 32 ≡ j.header.trans_ctr
      → Finds (traverse (suc fuel) k j.header.tail expected)
  unfolding traverse le_value
  traverse-clear fuel expected inside (inl no_room) same = (
    expected,
    rw (ltb_past (align_up_always k.header.tail block_size) j.header.tail inside)
        (rw (lt→ltb (align_up_always j.header.tail block_size - j.header.tail) 4 no_room) refl),
    same,
  )
  traverse-clear fuel expected inside (inr zeroes) same = (
    expected,
    rw (ltb_past (align_up_always k.header.tail block_size) j.header.tail inside)
        (elim (Bool-cases (ltb (align_up_always j.header.tail block_size - j.header.tail) 4)) [
          | inl no_room ↦ rw no_room refl
          | inr room ↦ rw room (rw (same_read j.header.tail 4 ∙ zeroes) refl)
        ]),
    same,
  )

  traverse-entry :
      (fuel off esize id expected : ℕ)
      → off ≤ align_up_always k.header.tail block_size
      → IsLogged j off esize id
      → read_exact_at k.ring 4 (file_off k off + 4) ≡ ok (le_bytes 4 id)
      → expected % 2 ^ 32 ≡ id
      → traverse (suc fuel) k off expected ≡ traverse fuel k (off + esize) (id + 1)
  unfolding traverse
  traverse-entry fuel off esize id expected inside l number same =
      rw (ltb_past (align_up_always k.header.tail block_size) off inside) (
        rw (ltb_past (align_up_always off block_size - off) 4 (omega (arith, l.one_block, l.least)))
          (rw (same_read off 4 ∙ l.size) (
            rw (le_value-le_bytes_4 esize (omega (arith, l.short))) (
              rw (==_ne esize 0 (omega (arith, l.least))) (
                rw number (
                  rw (le_value-le_bytes_4 id (omega (arith, same)))
                    (rw ((==_iff id (expected % 2 ^ 32)).1 (sym same)) refl)))))))

  module _ (w : IsWellFormed j) where
    number_read :
        (off esize id : ℕ)
        → IsLogged j off esize id
        → read_exact_at k.ring 4 (file_off k off + 4) ≡ ok (le_bytes 4 id)
    unfolding file_off
    number_read off esize id l =
        ap (λ a. read_exact_at k.ring 4 a)
          (ap (λ s. off % s + 4) size
            ∙ sym (file_off-add j off 4 4 w (omega (arith, l.one_block, l.least)) (omega arith))
            ∙ ap (λ s. (off + 4) % s) (sym size))
        ∙ sym at_some_size
        ∙ same_read (off + 4) 4
        ∙ l.number
      where
        at_some_size : read_at k (off + 4) 4 ≡ read_exact_at k.ring 4 ((off + 4) % k.size)
        at_some_size = rw (==_ne k.size 0 (omega (arith, size, w.size, w.some_blocks))) refl

    traverse-Logged :
        (fuel : ℕ) {off id : ℕ} (expected : ℕ)
        → j.header.tail ≤ align_up_always k.header.tail block_size
        → IsClear j
        → j.header.tail < off + fuel
        → off ≤ j.header.tail
        → expected % 2 ^ 32 ≡ id
        → Logged j off id
        → Finds (traverse fuel k off expected)
    traverse-Logged zero expected inside clear h low same logged = absurd (omega (arith, h, low))
    traverse-Logged (suc fuel) expected inside clear h low same (ended at_tail last) =
        subst (λ o. Finds (traverse (suc fuel) k o expected)) (sym at_tail)
          (traverse-clear fuel expected inside clear (same ∙ last))
    traverse-Logged (suc fuel) {off} {id} expected inside clear h low same
          (entry {esize = esize} l rest) =
        subst (λ f. Finds f)
          (sym (
            traverse-entry fuel off esize id expected (omega (arith, low, inside)) l
              (number_read off esize id l) same))
          (traverse-Logged fuel (id + 1) inside clear (omega (arith, h, l.least)) l.below refl rest)

Logged-low : {j : Journal} {off id : ℕ} → Logged j off id → off ≤ j.header.tail
Logged-low (ended at_tail same) = omega (arith, at_tail)
Logged-low (entry l rest) = omega (arith, l.below)

-- The journal with the type that the header on disk has.
abbrev pub with_disk_type : Journal → ℕ → Journal
with_disk_type j now =
    let header : JournalHeader = record {
      tail = j.header.tail;
      head = j.header.head;
      trans_ctr = j.header.trans_ctr;
      ty = j.disk_header.ty;
    } in
    record j { header = header; last_time = now }

reopened :
    (j : Journal) (len now expected : ℕ)
    → j.disk_header.head ≡ j.header.head
    → expected % 2 ^ 32 ≡ j.header.trans_ctr
    → align_down len block_size ≡ j.size
    → recovered (on_disk j.disk_header len j.ring now) (some (ok (j.header.tail, expected)))
      ≡ some (ok (with_disk_type j now))
reopened j len now expected head counter size = ground (arith, head, counter, size)

is_refl : (t : JournalType) → (t is t) ≡ true
is_refl JournalType.invalid = refl
is_refl JournalType.bilog = refl
is_refl JournalType.forward = refl
is_refl JournalType.undo = refl

-- A type that the journal on disk can be opened with.
abbrev pub Accepts : JournalType → JournalType → Type 0
Accepts wanted ty = (wanted ≡ JournalType.invalid) ⊎ (ty ≡ wanted)

accepted :
    (wanted ty : JournalType)
    → Accepts wanted ty
    → (not (wanted is JournalType.invalid) && not (ty is wanted)) ≡ false
accepted wanted ty (inl any) = rw any refl
accepted wanted ty (inr same) =
    rw same (rw (is_refl wanted) (and_false (not (wanted is JournalType.invalid))))
  where
    and_false : (b : Bool) → (b && false) ≡ false
    and_false true = refl
    and_false false = refl

pub open_journal-IsSaved :
    (j : Journal) (wanted : JournalType) (len now : ℕ)
    → IsWellFormed j
    → IsSaved j
    → IsClear j
    → Accepts wanted j.disk_header.ty
    → align_down len block_size ≡ j.size
    → open_journal (block_size + 2) wanted j.disk_header len j.ring now
      ≡ some (ok (with_disk_type j now))
unfolding open_journal
open_journal-IsSaved j wanted len now w saved clear accepts size =
    let k = on_disk j.disk_header len j.ring now in
    let (expected, finds, same) =
      traverse-Logged j k refl size w (block_size + 2) j.disk_header.trans_ctr
        (omega (arith, saved.same_block, (align_up-bounds j.header.tail).0)) clear
        (omega (
          arith,
          saved.same_block,
          (align_up-bounds j.header.tail).0,
          (align_up-bounds j.disk_header.tail).1,
        ))
        (Logged-low saved.logged) (mod-eq_of_lt saved.counted) saved.logged in
    rw (accepted wanted j.disk_header.ty accepts)
      (ap (λ f. recovered k f) finds ∙ reopened j len now expected saved.head same size)
