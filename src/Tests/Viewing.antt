-- ===== src/Tests/Viewing.antt =====
-- The theorems on filters and replays of a journal at concrete entries.
use mathlib.Core.List.{map}
use fsyncer.Base.{
  ℕ, ◌<◌, zero, suc, ◌≡◌, refl, true, false, List, [], ◌∷◌, Option, none, some, ok, arith,
}
use fsyncer.Common.{VfsCall}
use fsyncer.Bilog.{BilogEntry, try_from}
use fsyncer.Dispatch.Copies.{run_all, server_programs}
use fsyncer.FrontEnd.Requests.{NameRequest, serve, do_mkdir, do_rename}
use fsyncer.Kernel.Xmp.{xmp_mkdir, xmp_chown, xmp_rename}
use fsyncer.Viewer.{EntryContent, forward_entry, bilog_entry, lets_through, replay}
use fsyncer.Viewer.Replays.{verdict, replay-verdict}
use fsyncer.Viewer.Journals.{read_then_replay, read_then_replay-copies}
use fsyncer.Viewer.Paths.{lets_through-try_from}
use fsyncer.Common.Words.{le_bytes}
use fsyncer.Store.{Journal, entry_bytes, make_room, append, align_up_always}
use fsyncer.Store.Appends.{write_inner-ok}
use fsyncer.Store.Forward.{read_all}
use fsyncer.Store.Runs.{Writes, IsNotFull, stop, write}
use fsyncer.Tests.Hosts.{root, a_file, a_target, digest, empty_host}
use fsyncer.Tests.Queues.{new_ring, new_ring-IsWellFormed, digest_bounded}
use fsyncer.Tests.Dispatching.{
  client_root, user, counter, SameCount, counter-IsMirror, two_requests,
}

rename_entry :
    try_from digest (VfsCall.rename a_file a_target 0) root empty_host
    ≡ ok (BilogEntry.rename (record { from = a_file; to = a_target; from_exists = true }))
unfolding try_from
rename_entry = refl

-- A rename, which a bidirectional journal keeps as it is.
lets_through-try_from_example :
    lets_through (bilog_entry digest) (some (λ path. ok true)) true (
      EntryContent.payload
        (BilogEntry.rename (record { from = a_file; to = a_target; from_exists = true })))
    ≡ lets_through forward_entry
        (some (λ path. ok true))
        true
        (EntryContent.payload (VfsCall.rename a_file a_target 0))
lets_through-try_from_example =
    lets_through-try_from digest root empty_host
      (BilogEntry.rename (record { from = a_file; to = a_target; from_exists = true }))
      (VfsCall.rename a_file a_target 0) (some (λ path. ok true)) true rename_entry

-- A journal of two calls, with the time before the second.
abbrev journalled : List (EntryContent VfsCall)
journalled =
    EntryContent.payload (serve user root (NameRequest.mkdir a_file 0o755)).call
    ∷ EntryContent.time 5
    ∷ EntryContent.payload (serve user root (NameRequest.rename a_file a_target 0)).call
    ∷ []

replay-verdict_example :
    (replay forward_entry counter (λ n. empty_host) client_root none false journalled 3).0
    ≡ verdict (run_all counter (server_programs user root two_requests) 3).0
replay-verdict_example =
    replay-verdict counter-IsMirror user (λ n. empty_host) two_requests journalled 3 3 refl refl

all_succeed : verdict (run_all counter (server_programs user root two_requests) 3).0 ≡ ok tt
unfolding serve do_mkdir xmp_mkdir xmp_chown do_rename xmp_rename
all_succeed = refl

-- The same entries by their numbers, one byte each, in the ring of a new journal.
abbrev numbered_content : ℕ → EntryContent VfsCall
numbered_content zero = EntryContent.payload (serve user root (NameRequest.mkdir a_file 0o755)).call
numbered_content (suc zero) = EntryContent.time 5
numbered_content (suc (suc n)) =
    EntryContent.payload (serve user root (NameRequest.rename a_file a_target 0)).call

abbrev a_byte : ℕ → List ℕ
a_byte n = n ∷ []

abbrev parse : List ℕ → Option (EntryContent VfsCall)
parse (_ ∷ _ ∷ _ ∷ _ ∷ _ ∷ _ ∷ _ ∷ _ ∷ n ∷ checksum) = some (numbered_content n)
parse _ = none

parse-entry_bytes :
    (id n : ℕ) → parse (entry_bytes digest id (a_byte n)) ≡ some (numbered_content n)
unfolding entry_bytes le_bytes
parse-entry_bytes id n = refl

abbrev next_ring : Journal → ℕ → Journal
next_ring j n = append digest (make_room j 13) 13 (a_byte n)

abbrev ring_1 : Journal
ring_1 = next_ring new_ring 0

abbrev ring_2 : Journal
ring_2 = next_ring ring_1 1

abbrev ring_3 : Journal
ring_3 = next_ring ring_2 2

ring_1-IsNotFull : IsNotFull ring_1
unfolding make_room align_up_always
ring_1-IsNotFull = omega arith

ring_2-IsNotFull : IsNotFull ring_2
unfolding make_room align_up_always
ring_2-IsNotFull = omega arith

ring_3-IsNotFull : IsNotFull ring_3
unfolding make_room align_up_always
ring_3-IsNotFull = omega arith

some_ring_1 : 0 < ring_1.size
unfolding make_room align_up_always
some_ring_1 = omega arith

some_ring_2 : 0 < ring_2.size
unfolding make_room align_up_always
some_ring_2 = omega arith

head_stays : ring_3.header.head ≡ new_ring.header.head
unfolding make_room align_up_always
head_stays = refl

three_writes : Writes digest IsNotFull new_ring (map a_byte (0 ∷ 1 ∷ 2 ∷ [])) ring_3
three_writes =
    write (write_inner-ok digest new_ring (a_byte 0) (omega arith) (omega arith)) (omega arith)
      ring_1-IsNotFull
      (write (write_inner-ok digest ring_1 (a_byte 1) (omega arith) some_ring_1) (omega arith)
        ring_2-IsNotFull
        (write (write_inner-ok digest ring_2 (a_byte 2) (omega arith) some_ring_2) (omega arith)
          ring_3-IsNotFull (stop refl)))

read_then_replay-copies_example :
    SameCount
      (run_all counter (server_programs user root two_requests) 3).1
      (read_then_replay counter
        (λ n. empty_host)
        client_root
        (read_all parse 4 ring_3 ring_3.header.head)
        3).1
read_then_replay-copies_example =
    read_then_replay-copies numbered_content a_byte parse digest digest_bounded parse-entry_bytes
      counter-IsMirror user (λ n. empty_host) new_ring ring_3 (0 ∷ 1 ∷ 2 ∷ []) two_requests 3 3
      new_ring-IsWellFormed (omega arith) refl three_writes head_stays refl refl all_succeed 4
      (omega arith)
