-- ===== src/Store.antt =====
-- fsyncd/src/journal/store.rs: the journal as a ring of blocks in a file, how entries are written
-- and read.
--
-- `head` and `tail` are logical offsets that only grow; `file_off` takes them to the file. The bytes
-- behind the header are `ring`, the header on disk is `disk_header`; reads and writes of the file do
-- not fail. An entry's bytes are bincode's: the fields in their order, `u32` in four little-endian
-- bytes; the bytes of its content and the digest are parameters. Time is in nanoseconds.
pub mod Geometry
pub mod Appends
pub mod Forward
pub mod Reads
pub mod ReadBack
pub mod Recovery
pub mod Window
pub mod Backward
pub mod Reversal
pub mod Reversed
pub mod Entries
pub mod Logged
pub mod Saved
pub mod Reopened
pub mod Runs
pub mod Crashes
pub mod Queue
pub mod Heads
pub mod Ledger
use fsyncer.Base.{
  ℕ, ◌+◌, ◌-◌, ◌*◌, ◌/◌, ◌%◌, ◌^◌, Bool, true, false, not, List, [], ◌∷◌, ◌++◌, length, Option,
  none, some, Outcome, ok, err, panic, ◌>>=◌, ltb, leb, ◌==◌, if◌then◌else◌,
}
use fsyncer.Host.{JournalType}
use fsyncer.Common.Words.{le_bytes}
use fsyncer.Common.Files.{pwrite}

abbrev pub block_size : ℕ
block_size = 131072

pub record JournalHeader : Type 0 where
  pub tail : ℕ
  pub head : ℕ
  pub trans_ctr : ℕ
  pub ty : JournalType

pub record Journal : Type 0 where
  pub header : JournalHeader
  pub size : ℕ
  pub ring : List ℕ
  pub disk_header : JournalHeader
  pub last_time : ℕ

unfoldable pub align_up_always : ℕ → ℕ → ℕ
align_up_always off align = (off / align + 1) * align

-- `off & !(align - 1)`, where `align` is a power of two.
unfoldable pub align_down : ℕ → ℕ → ℕ
align_down off align = off / align * align

-- The position in `ring`.
unfoldable pub file_off : Journal → ℕ → ℕ
file_off j off = off % j.size

-- `Journal::new` on a new file with `len` zeroes behind its header, which is zeroes too.
unfoldable pub new : JournalType → ℕ → List ℕ → ℕ → Journal
new ty len bytes now = record {
  header = record { tail = 0; head = 0; trans_ctr = 0; ty = ty };
  size = align_down len block_size;
  ring = bytes;
  disk_header = record { tail = 0; head = 0; trans_ctr = 0; ty = JournalType.invalid };
  last_time = now;
}

abbrev pub write_at : Journal → ℕ → List ℕ → Journal
write_at j off bytes = record j { ring = pwrite j.ring (file_off j off) bytes }

-- `Journal::write_header`.
unfoldable pub write_header : Journal → Journal
write_header j = record j { disk_header = j.header }

-- The tail moved to the next block, and the head out of its way.
unfoldable pub next_block : Journal → Journal
next_block j =
    let tail = align_up_always j.header.tail block_size in
    let head =
      if j.header.head + j.size == tail then j.header.head + block_size else j.header.head in
    let header : JournalHeader = record {
      tail = tail;
      head = head;
      trans_ctr = j.header.trans_ctr;
      ty = j.header.ty;
    } in
    record j { header = header; disk_header = header }

-- What is left of the tail's block.
abbrev pub space_in_block : Journal → ℕ
space_in_block j = align_up_always j.header.tail block_size - j.header.tail

-- The size zero behind the last entry of a block, if it fits.
unfoldable pub mark_end : Journal → Journal
mark_end j = if leb 4 (space_in_block j) then write_at j j.header.tail (0 ∷ 0 ∷ 0 ∷ 0 ∷ []) else j

-- The part of `write_inner` that makes room for `esize` bytes in one block.
unfoldable pub make_room : Journal → ℕ → Journal
make_room j esize = if ltb (space_in_block j) esize then next_block (mark_end j) else j

module _ (crc32 : List ℕ → ℕ) where
  -- A serialized `StoreEntry`, its last field the checksum of what is before it.
  unfoldable pub entry_bytes : ℕ → List ℕ → List ℕ
  entry_bytes trans_id content =
      let front = le_bytes 4 (length content + 12) ++ (le_bytes 4 trans_id ++ content) in
      front ++ le_bytes 4 (crc32 front)

  abbrev pub append : Journal → ℕ → List ℕ → Journal
  append j esize content =
      let header : JournalHeader = record {
        tail = j.header.tail + esize;
        head = j.header.head;
        trans_ctr = (j.header.trans_ctr + 1) % 2 ^ 32;
        ty = j.header.ty;
      } in
      record (write_at j j.header.tail (entry_bytes j.header.trans_ctr content)) { header = header }

  -- Where the size is zero, `file_off` divides by it.
  unfoldable pub write_inner : Journal → List ℕ → Outcome Journal
  write_inner j content =
      let esize = length content + 12 in
      if ltb esize block_size
      then (if j.size == 0 then panic else ok (append (make_room j esize) esize content))
      else panic

  -- The content of the entry that carries the time.
  module _ (time_content : ℕ → List ℕ) where
    unfoldable pub write_entry : Journal → ℕ → List ℕ → Outcome Journal
    write_entry j now payload =
        if ltb now j.last_time
        then panic
        else if ltb (10 ^ 9) (now - j.last_time)
        then (do
          j' ← write_inner j (time_content now)
          write_inner (record j' { last_time = now }) payload)
        else write_inner j payload
