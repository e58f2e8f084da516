-- ===== src/Store/Backward.antt =====
-- The reverse iterator of fsyncd/src/journal/store.rs, which decodes a block at a time into a buffer
-- and gives the buffer's entries from its end. The buffer is kept with its last entry first; after
-- an error the iterator is not used again.
use fsyncer.Base.{
  ℕ, zero, suc, ◌+◌, ◌-◌, ◌%◌, Bool, true, false, List, [], ◌∷◌, length, take, drop, Option, none,
  some, Outcome, ok, err, panic, other, ◌>>=◌, ltb, ◌==◌, if◌then◌else◌,
}
use fsyncer.Common.Words.{le_value}
use fsyncer.Store.{Journal, block_size, align_up_always, align_down}
use fsyncer.Store.Forward.{read_at, is_zero, in_front}

pub record JournalIterator (Entry : Type 0) : Type 0 where
  pub head : ℕ
  pub tail : ℕ
  pub block_buffer : List Entry

-- The start of the block that ends at the tail, or that the tail stands in.
unfoldable pub block_start : ℕ → ℕ
block_start tail = if tail % block_size == 0 then tail - block_size else align_down tail block_size

unfoldable pub retreat : ℕ → ℕ → ℕ
retreat head tail =
    if tail % block_size == 0
    then (if tail == 0 then tail else if tail == head then tail else tail - block_size)
    else align_down tail block_size

module _ (crc32 : List ℕ → ℕ) where
  -- Whether an entry's last four bytes are the checksum of the others.
  unfoldable pub checked : List ℕ → Outcome Bool
  checked buf =
      if ltb (length buf) 4
      then panic
      else ok (le_value (drop (length buf - 4) buf) == crc32 (take (length buf - 4) buf))

abbrev pub with_back :
    {Entry : Type 0}
    → (JournalIterator Entry → Option (Outcome (List Entry)))
    → Option (Outcome (Option (Entry × JournalIterator Entry)))
    → Option (Outcome (List Entry))
with_back again none = none
with_back again (some (ok none)) = some (ok [])
with_back again (some (ok (some (entry, it)))) = in_front entry (again it)
with_back again (some (err kind)) = some panic
with_back again (some panic) = some panic

module _ {Entry : Type 0} (deserialize : List ℕ → Option Entry) (crc32 : List ℕ → ℕ) where
  abbrev accepted : Bool → Option Entry → ℕ → Outcome (Option (Entry × ℕ))
  accepted false entry fsize = err other
  accepted true none fsize = err other
  accepted true (some entry) fsize = ok (some (entry, fsize))

  abbrev sized : Journal → ℕ → ℕ → Outcome (Option (Entry × ℕ))
  sized j decode_tail fsize =
      if ltb (align_up_always decode_tail block_size - decode_tail) fsize then err other else (do
        buf ← read_at j decode_tail fsize
        sum ← checked crc32 buf
        accepted sum (deserialize buf) fsize)

  -- A round of the loop: the entry at `decode_tail` and its size, or nothing at the end.
  unfoldable pub decode_entry : Journal → ℕ → ℕ → Outcome (Option (Entry × ℕ))
  decode_entry j tail decode_tail =
      if ltb tail decode_tail then panic else if ltb (tail - decode_tail) 4 then ok none else (do
        buf ← read_at j decode_tail 4
        if is_zero buf then ok none else sized j decode_tail (le_value buf))

  abbrev with_entry :
      (ℕ → List Entry → Option (Outcome (List Entry)))
      → ℕ
      → List Entry
      → Outcome (Option (Entry × ℕ))
      → Option (Outcome (List Entry))
  with_entry again decode_tail buffer (ok none) = some (ok buffer)
  with_entry again decode_tail buffer (ok (some (entry, fsize))) =
      again (decode_tail + fsize) (entry ∷ buffer)
  with_entry again decode_tail buffer (err kind) = some (err kind)
  with_entry again decode_tail buffer panic = some panic

  -- The loop; none when the fuel is out.
  unfoldable pub decode_block : ℕ → Journal → ℕ → ℕ → List Entry → Option (Outcome (List Entry))
  decode_block zero j tail decode_tail buffer = none
  decode_block (suc fuel) j tail decode_tail buffer =
      with_entry (decode_block fuel j tail) decode_tail buffer (decode_entry j tail decode_tail)

  abbrev pop : ℕ → ℕ → List Entry → Option (Outcome (Option (Entry × JournalIterator Entry)))
  pop head tail [] = some (ok none)
  pop head tail (entry ∷ rest) =
      some (ok (some (entry, record { head = head; tail = tail; block_buffer = rest })))

  abbrev refilled :
      ℕ
      → ℕ
      → Option (Outcome (List Entry))
      → Option (Outcome (Option (Entry × JournalIterator Entry)))
  refilled head tail none = none
  refilled head tail (some (ok buffer)) = pop head (retreat head tail) buffer
  refilled head tail (some (err kind)) = some (err kind)
  refilled head tail (some panic) = some panic

  abbrev refill_block :
      ℕ → Journal → ℕ → ℕ → Option (Outcome (Option (Entry × JournalIterator Entry)))
  refill_block rounds j head tail =
      if head == tail
      then some (ok none)
      else if tail == 0
      then some (ok none)
      else refilled head tail (decode_block rounds j tail (block_start tail) [])

  abbrev next_of :
      ℕ → Journal → ℕ → ℕ → List Entry → Option (Outcome (Option (Entry × JournalIterator Entry)))
  next_of rounds j head tail [] = refill_block rounds j head tail
  next_of rounds j head tail (entry ∷ rest) = pop head tail (entry ∷ rest)

  -- `next` of `JournalIterator<Reverse>`.
  unfoldable pub next_back :
      ℕ
      → Journal
      → JournalIterator Entry
      → Option (Outcome (Option (Entry × JournalIterator Entry)))
  next_back rounds j it = next_of rounds j it.head it.tail it.block_buffer

  -- A loop over the iterator to its end, in which each entry is expected to be read; none when the
  -- fuel is out.
  unfoldable pub read_back : ℕ → ℕ → Journal → JournalIterator Entry → Option (Outcome (List Entry))
  read_back rounds zero j it = none
  read_back rounds (suc fuel) j it = with_back (read_back rounds fuel j) (next_back rounds j it)

-- `read_reverse`.
unfoldable pub read_reverse : {Entry : Type 0} → Journal → JournalIterator Entry
read_reverse j = record { head = j.header.head; tail = j.header.tail; block_buffer = [] }
