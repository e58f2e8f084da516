-- ===== src/Tests/Queues.antt =====
-- The theorems on the journal's ring as a queue at a concrete journal.
use mathlib.Core.Path.{subst}
use mathlib.Core.List.{reverse}
use fsyncer.Base.{
  ◌⊎◌, sym, inl, err, other, inr, ap, ◌≤◌, ◌∙◌, suc, some, ℕ, ◌+◌, ◌<◌, ◌^◌, ◌≡◌, ◌≢◌, refl, List,
  [], ◌∷◌, ◌++◌, length, replicate, length-replicate, ok, arith,
}
use fsyncer.Host.{JournalType}
use fsyncer.Store.{
  Journal, write_inner, entry_bytes, make_room, append, align_up_always, new, write_header,
  align_down,
}
use fsyncer.Store.Geometry.{IsWellFormed}
use fsyncer.Store.Appends.{write_inner-ok}
use fsyncer.Common.Words.{le_bytes}
use fsyncer.Common.Files.{pwrite, length-pwrite, slice}
use fsyncer.Store.{file_off}
use fsyncer.Store.Geometry.{length-entry_bytes}
use fsyncer.Store.Reads.{read_at-ok}
use fsyncer.Store.Forward.{read_all}
use fsyncer.Store.Backward.{read_back, read_reverse}
use fsyncer.Store.Reversed.{read_back-read_all}
use fsyncer.Store.Queue.{Holds, ended}
use fsyncer.Store.Runs.{stop, write, IsInBlock}
use fsyncer.Store.Logged.{IsSaved, write_header-IsSaved}
use fsyncer.Store.Reopened.{IsClear, with_disk_type}
use fsyncer.Store.Recovery.{open_journal}
use fsyncer.Store.Crashes.{open_journal-Writes, open_journal-first_block}
use fsyncer.Store.Ledger.{IsAppended, write_inner-IsAppended, read_all-Writes}
use fsyncer.Tests.Hosts.{digest}

pub digest_bounded : (bytes : List ℕ) → digest bytes < 2 ^ 32
digest_bounded [] = omega arith
digest_bounded (b ∷ bs) = omega arith

-- A new journal of two blocks, with its header written to disk.
abbrev pub new_ring : Journal
new_ring = record {
  header = record { tail = 0; head = 0; trans_ctr = 0; ty = JournalType.forward };
  size = 262144;
  ring = replicate 262144 0;
  disk_header = record { tail = 0; head = 0; trans_ctr = 0; ty = JournalType.forward };
  last_time = 5;
}

new_ring-is : write_header (new JournalType.forward 262150 (replicate 262144 0) 5) ≡ new_ring
unfolding new align_down write_header
new_ring-is = refl

abbrev pub new_ring-IsWellFormed : IsWellFormed new_ring
new_ring-IsWellFormed = record {
  blocks = 2;
  some_blocks = omega arith;
  size = refl;
  bytes = length-replicate {A = ℕ} 262144 0;
  aligned = refl;
  ordered = omega arith;
  room = omega arith;
}

abbrev a_content : List ℕ
a_content = 5 ∷ 6 ∷ []

abbrev written : Journal
written = append digest (make_room new_ring 14) 14 a_content

not_full : written.header.tail ≢ written.header.head + written.size
unfolding make_room align_up_always
not_full = omega arith

write_inner-IsAppended_example :
    (j' : Journal) × (write_inner digest new_ring a_content ≡ ok j')
    × IsAppended
        (λ content. content)
        (λ bytes. some bytes)
        digest
        (entry_bytes digest)
        digest_bounded
        (λ id content. refl)
        new_ring
        j'
        a_content
        []
write_inner-IsAppended_example =
    write_inner-IsAppended (λ content. content) (λ bytes. some bytes) digest (entry_bytes digest)
      digest_bounded (λ id x. refl) a_content new_ring [] new_ring-IsWellFormed (omega arith)
      (omega arith) (ended refl)

read_all-Writes_example :
    (dropped : List (List ℕ)) × (kept : List (List ℕ)) × (entry_bytes digest 0 a_content ∷ []
      ≡ dropped ++ kept)
    × ((dropped ≡ []) ⊎ (new_ring.header.head < written.header.head))
    × (read_all (λ bytes. some bytes) (suc (length kept)) written written.header.head
        ≡ some (ok kept))
read_all-Writes_example =
    read_all-Writes (λ content. content) (λ bytes. some bytes) digest (entry_bytes digest)
      digest_bounded (λ id x. refl) new_ring written (a_content ∷ []) [] new_ring-IsWellFormed
      (omega arith) (ended refl)
      (write (write_inner-ok digest new_ring a_content (omega arith) (omega arith)) (omega arith)
        not_full (stop refl))

-- The journal after one entry, and what it holds.
abbrev Appended : Journal → Type 0
Appended j =
    IsAppended (λ content. content) (λ bytes. some bytes) digest (entry_bytes digest) digest_bounded
      (λ id x. refl) new_ring j a_content []

written-Appended : Appended written
written-Appended =
    let (j', wrote, appended) = write_inner-IsAppended_example in
    subst (λ j. Appended j) (same j' wrote) appended
  where
    same : (j' : Journal) → write_inner digest new_ring a_content ≡ ok j' → j' ≡ written
    same j' wrote = cc (write_inner-ok digest new_ring a_content (omega arith) (omega arith))

nothing_kept : (dropped kept : List (List ℕ)) → [] ≡ dropped ++ kept → kept ≡ []
nothing_kept [] kept h = sym h
nothing_kept (e ∷ dropped) kept h = absurd (cc)

abbrev an_entry : List ℕ
an_entry = entry_bytes digest 0 a_content

written-Holds : Holds (λ bytes. some bytes) digest written written.header.head (an_entry ∷ [])
written-Holds =
    subst
      (λ kept.
        Holds (λ bytes. some bytes) digest written written.header.head (kept ++ an_entry ∷ []))
      (nothing_kept written-Appended.dropped written-Appended.kept written-Appended.splits)
      written-Appended.holds

read_back-read_all_example :
    (read_all (λ bytes. some bytes) 2 written written.header.head ≡ some (ok (an_entry ∷ [])))
    × (read_back (λ bytes. some bytes) digest 131073 2 written (read_reverse written)
        ≡ some (ok (reverse (an_entry ∷ []))))
read_back-read_all_example =
    read_back-read_all (λ bytes. some bytes) digest written (an_entry ∷ []) 131073 2
      (written-Appended.keeps not_full) (omega arith) (omega arith) written-Holds

new_ring-IsSaved : IsSaved new_ring
unfolding write_header
new_ring-IsSaved = write_header-IsSaved new_ring (omega arith) (omega arith)

in_block : IsInBlock written
unfolding make_room align_up_always
in_block = omega arith

ring_bytes : length written.ring ≡ 262144
unfolding make_room align_up_always file_off
ring_bytes = omega (
  arith,
  length-pwrite (replicate 262144 0) 0 an_entry,
  length-replicate {A = ℕ} 262144 0,
  length-entry_bytes digest 0 a_content,
)

tail_fits : file_off written 14 + 4 ≤ length written.ring
unfolding make_room align_up_always file_off
tail_fits = rw ring_bytes (omega arith)

zeroes_left : slice written.ring (file_off written 14) 4 ≡ 0 ∷ 0 ∷ 0 ∷ 0 ∷ []
unfolding make_room align_up_always file_off pwrite entry_bytes le_bytes
zeroes_left = refl

written-IsClear : IsClear written
unfolding make_room align_up_always
written-IsClear = inr (read_at-ok written 14 4 (omega arith) tail_fits ∙ ap ok zeroes_left)

written_size : align_down 262150 131072 ≡ written.size
unfolding align_down make_room align_up_always
written_size = refl

open_journal-Writes_example :
    open_journal 131074 JournalType.invalid written.disk_header 262150 written.ring 9
    ≡ some (ok (with_disk_type written 9))
open_journal-Writes_example =
    open_journal-Writes digest new_ring written (a_content ∷ []) JournalType.invalid 262150 9
      new_ring-IsWellFormed new_ring-IsSaved
      (write (write_inner-ok digest new_ring a_content (omega arith) (omega arith)) (omega arith)
        in_block (stop refl))
      written-IsClear (inl refl) written_size

-- A new journal as it is, after an entry.
abbrev fresh_ring : Journal
fresh_ring = new JournalType.forward 262150 (replicate 262144 0) 5

abbrev fresh_written : Journal
fresh_written = append digest (make_room fresh_ring 14) 14 a_content

some_ring : 0 < fresh_ring.size
unfolding new align_down
some_ring = omega arith

first_block : fresh_written.header.tail < 131072
unfolding make_room align_up_always new
first_block = omega arith

fresh_in_block : IsInBlock fresh_written
unfolding make_room align_up_always new
fresh_in_block = omega arith

open_journal-first_block_example :
    open_journal 131074 JournalType.forward fresh_written.disk_header 262150 fresh_written.ring 9
    ≡ some (err other)
open_journal-first_block_example =
    open_journal-first_block digest IsInBlock JournalType.forward JournalType.forward 262150 5
      (replicate 262144 0) (a_content ∷ []) fresh_written 131074 262150 9 (cc)
      (write (write_inner-ok digest fresh_ring a_content (omega arith) some_ring) (omega arith)
        fresh_in_block (stop refl))
      first_block
