-- ===== src/Store/Runs.antt =====
-- Runs of `write_inner` of fsyncd/src/journal/store.rs.
use fsyncer.Base.{ℕ, ◌+◌, ◌%◌, ◌<◌, ◌≡◌, ◌≢◌, List, [], ◌∷◌, length, ok}
use fsyncer.Store.{Journal, block_size, write_inner}

-- Contents of less than a block each, written one after the other, with what is asked of each
-- journal that comes of it.
pub data Writes (crc32 : List ℕ → ℕ) (Fits : Journal → Type 0)
    : Journal → List (List ℕ) → Journal → Type 0 where
  stop : {j j' : Journal} → j ≡ j' → Writes crc32 Fits j [] j'
  write :
      {j next j' : Journal} {content : List ℕ} {contents : List (List ℕ)}
      → write_inner crc32 j content ≡ ok next
      → length content + 12 < block_size
      → Fits next
      → Writes crc32 Fits next contents j'
      → Writes crc32 Fits j (content ∷ contents) j'

-- The window has not filled the ring to its end.
abbrev pub IsNotFull : Journal → Type 0
IsNotFull j = j.header.tail ≢ j.header.head + j.size

-- The tail does not stand where a block ends.
abbrev pub IsInBlock : Journal → Type 0
IsInBlock j = j.header.tail % block_size ≢ 0
