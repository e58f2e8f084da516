-- ===== src/Store/Recovery.antt =====
-- `Journal::open` of fsyncd/src/journal/store.rs: the header on disk is that of the last full block,
-- and the entries behind its tail are gone through.
--
-- `expected` is the next transaction's number, `tx_max + 1`. The loop's fuel counts its rounds; none
-- is a loop that has used it up.
use fsyncer.Base.{
  ℕ, zero, suc, ◌+◌, ◌-◌, ◌%◌, ◌^◌, ◌≤◌, ◌<◌, ◌≡◌, refl, Option, none, some, Outcome, ◌>>=◌, ok,
  err, panic, List, other, not, ◌&&◌, ltb, ◌==◌, if◌then◌else◌, if-cases, arith,
}
use fsyncer.Common.Words.{le_value}
use fsyncer.Common.Buffers.{read_exact_at}
use fsyncer.Host.{JournalType, ◌is◌}
use fsyncer.Store.Forward.{read_at}
use fsyncer.Store.{Journal, JournalHeader, block_size, align_up_always, align_down, file_off}

abbrev value : Outcome (List ℕ) → Outcome ℕ
value read = read >>= λ bytes. ok (le_value bytes)

-- `read_u32` behind a `seek`.
abbrev read_u32 : Journal → ℕ → Outcome ℕ
read_u32 j at = value (read_exact_at j.ring 4 at)

abbrev pub Found : Type 0
Found = Option (Outcome (ℕ × ℕ))

abbrev found : ℕ → ℕ → Found
found new_tail expected = some (ok (new_tail, expected))

-- A round once it has read a size that is not zero: the tail is moved before the entry's number is
-- looked at.
abbrev pub with_number : (ℕ → ℕ → Found) → ℕ → ℕ → Outcome ℕ → Found
with_number again new_tail expected (ok next_tx) =
    let rest = again new_tail (next_tx + 1) in
    if next_tx == expected % 2 ^ 32 then rest else found new_tail expected
with_number again new_tail expected (err kind) = some (err kind)
with_number again new_tail expected panic = some panic

abbrev with_size : (ℕ → ℕ → Found) → Journal → ℕ → ℕ → Outcome ℕ → Found
with_size again j new_tail expected (ok fsize) =
    if fsize == 0
    then found new_tail expected
    else with_number again (new_tail + fsize) expected (read_u32 j (file_off j new_tail + 4))
with_size again j new_tail expected (err kind) = some (err kind)
with_size again j new_tail expected panic = some panic

unfoldable pub traverse : ℕ → Journal → ℕ → ℕ → Found
traverse zero j new_tail expected = none
traverse (suc fuel) j new_tail expected =
    let round = with_size (traverse fuel j) j new_tail expected (value (read_at j new_tail 4)) in
    if ltb (align_up_always j.header.tail block_size) new_tail
    then found new_tail expected
    else (if ltb (align_up_always new_tail block_size - new_tail) 4
        then found new_tail expected
        else round)

abbrev pub recovered : Journal → Found → Option (Outcome Journal)
recovered j none = none
recovered j (some (ok (new_tail, expected))) =
    let header : JournalHeader = record {
      tail = new_tail;
      head = j.header.head;
      trans_ctr = expected % 2 ^ 32;
      ty = j.header.ty;
    } in
    some (ok (record j { header = header }))
recovered j (some (err kind)) = some (err kind)
recovered j (some panic) = some panic

-- The journal before its tail is looked for: `len` bytes behind the header.
abbrev pub on_disk : JournalHeader → ℕ → List ℕ → ℕ → Journal
on_disk header len bytes now = record {
  header = header;
  size = align_down len block_size;
  ring = bytes;
  disk_header = header;
  last_time = now;
}

-- `Journal::open` with the header that was read, where a journal of the type `wanted` is asked for.
unfoldable pub open_journal :
    ℕ → JournalType → JournalHeader → ℕ → List ℕ → ℕ → Option (Outcome Journal)
open_journal fuel wanted header len bytes now =
    if not (wanted is JournalType.invalid) && not (header.ty is wanted)
    then some (err other)
    else recovered (on_disk header len bytes now)
        (traverse fuel (on_disk header len bytes now) header.tail header.trans_ctr)

-- The loop comes to an end, with a tail that is not in front of `low`.
abbrev Ends : ℕ → Found → Type 0
Ends low none = ⊥
Ends low (some (ok (new_tail, expected))) = low ≤ new_tail
Ends low (some (err kind)) = Unit
Ends low (some panic) = Unit

abbrev past_end : Journal → ℕ
past_end j = align_up_always j.header.tail block_size + 1

module _ (low : ℕ) where
  with_number-Ends :
      (again : ℕ → ℕ → Found) (new_tail expected : ℕ) (number : Outcome ℕ)
      → low ≤ new_tail
      → ((n : ℕ) → Ends low (again new_tail n))
      → Ends low (with_number again new_tail expected number)
  with_number-Ends again new_tail expected (ok next_tx) l h =
      if-cases (Ends low) (next_tx == expected % 2 ^ 32) (λ e. h (next_tx + 1)) (λ e. l)
  with_number-Ends again new_tail expected (err kind) l h = tt
  with_number-Ends again new_tail expected panic l h = tt

  with_size-Ends :
      (again : ℕ → ℕ → Found) (j : Journal) (new_tail expected : ℕ) (size : Outcome ℕ)
      → low ≤ new_tail
      → ((t n : ℕ) → new_tail < t → Ends low (again t n))
      → Ends low (with_size again j new_tail expected size)
  with_size-Ends again j new_tail expected (ok fsize) l h =
      if-cases (Ends low) (fsize == 0) (λ e. l)
        (λ e.
          with_number-Ends again (new_tail + fsize) expected _ (omega arith)
            (λ n. h (new_tail + fsize) n (ground arith)))
  with_size-Ends again j new_tail expected (err kind) l h = tt
  with_size-Ends again j new_tail expected panic l h = tt

  traverse-Ends :
      (fuel : ℕ) (j : Journal) (new_tail expected : ℕ)
      → past_end j < fuel + new_tail
      → 0 < fuel
      → low ≤ new_tail
      → Ends low (traverse fuel j new_tail expected)
  unfolding traverse
  traverse-Ends zero j new_tail expected h pos l = ground arith
  traverse-Ends (suc fuel) j new_tail expected h pos l =
      if-cases (Ends low) (ltb (align_up_always j.header.tail block_size) new_tail) (λ e. l)
        (λ e.
          if-cases (Ends low) (ltb (align_up_always new_tail block_size - new_tail) 4) (λ e. l)
            (λ e'.
              with_size-Ends (traverse fuel j) j new_tail expected (value (read_at j new_tail 4)) l
                (λ t n later. traverse-Ends fuel j t n (omega arith) (ground arith) (omega arith))))

-- What opening a journal gives: an error, a panic, or a journal with the head of the header, and with
-- a tail that is not in front of the header's.
abbrev pub IsOpened : JournalHeader → Outcome Journal → Type 0
IsOpened header (ok j) = (j.header.head ≡ header.head) × (header.tail ≤ j.header.tail)
IsOpened header (err kind) = Unit
IsOpened header panic = Unit

recovered-IsOpened :
    (j : Journal) (result : Found)
    → Ends j.header.tail result
    → (r : Outcome Journal) × ((recovered j result ≡ some r) × IsOpened j.header r)
recovered-IsOpened j none h = absurd h
recovered-IsOpened j (some (ok (new_tail, expected))) h = (_, (refl, (refl, h)))
recovered-IsOpened j (some (err kind)) h = (_, (refl, tt))
recovered-IsOpened j (some panic) h = (_, (refl, tt))

-- Opening a journal comes to an end, whatever the file holds: a block of rounds and two more are
-- enough. A journal that is opened has the head of the header on disk, and a tail that is not in
-- front of the header's.
pub open_journal-IsOpened :
    (wanted : JournalType) (header : JournalHeader) (len : ℕ) (bytes : List ℕ) (now : ℕ)
    → (r : Outcome Journal) × ((open_journal (block_size + 2) wanted header len bytes now ≡ some r)
        × IsOpened header r)
unfolding open_journal align_up_always
open_journal-IsOpened wanted header len bytes now =
    if-cases (λ f. (r : Outcome Journal) × ((f ≡ some r) × IsOpened header r))
      (not (wanted is JournalType.invalid) && not (header.ty is wanted))
      (λ e. (err other, (refl, tt)))
      (λ e. recovered-IsOpened (on_disk header len bytes now) _ (
        traverse-Ends header.tail (block_size + 2) (on_disk header len bytes now) header.tail
          header.trans_ctr (omega arith) (omega arith) (omega arith)))
