-- ===== src/Viewer/Journals.antt =====
-- From the requests that a server serves, through the bytes of its forward journal in the ring of
-- fsyncd/src/journal/store.rs, to a replay by fsyncd/src/journal/viewer.rs.
use mathlib.Core.List.{map}
use fsyncer.Base.{
  ℕ, ◌%◌, ◌+◌, ◌^◌, ◌≤◌, ◌<◌, ◌≡◌, refl, sym, ap, subst, false, List, [], ◌∷◌, length, Option, none,
  some, Outcome, ok, panic,
}
use fsyncer.Common.{VfsCall}
use fsyncer.Common.Paths.{FilePath}
use fsyncer.Host.{Host}
use fsyncer.Kernel.Running.{Answers, IsMirror}
use fsyncer.Dispatch.Copies.{run_all, server_programs, sent_calls}
use fsyncer.FrontEnd.Requests.{FuseContext, NameRequest}
use fsyncer.Store.{Journal, entry_bytes}
use fsyncer.Store.Geometry.{IsWellFormed}
use fsyncer.Store.Forward.{read_all}
use fsyncer.Store.Queue.{ended}
use fsyncer.Store.Runs.{Writes, IsNotFull}
use fsyncer.Store.Ledger.{numbered, read_all-Writes_whole}
use fsyncer.Viewer.{EntryContent, forward_entry, replay}
use fsyncer.Viewer.Replays.{payloads, verdict, replay-copies}

-- The entries that are read are replayed; a journal that cannot be read panics.
abbrev pub read_then_replay :
    {St' : Type 0}
    → Answers St'
    → (St' → Host)
    → FilePath
    → Option (Outcome (List (EntryContent VfsCall)))
    → St'
    → Outcome (Unit {0}) × St'
read_then_replay answer look root (some (ok contents)) st =
    replay forward_entry answer look root none false contents st
read_then_replay answer look root _ st = (panic, st)

-- What is journalled, and how it is written and parsed.
module _ {Payload : Type 0} (content : Payload → EntryContent VfsCall)
    (serialize : Payload → List ℕ) (deserialize : List ℕ → Option (EntryContent VfsCall))
    (crc32 : List ℕ → ℕ) (bounded : (bytes : List ℕ) → crc32 bytes < 2 ^ 32)
    (parses : (id : ℕ) (x : Payload)
      → deserialize (entry_bytes crc32 id (serialize x)) ≡ some (content x)) where
  numbered-map :
      (id : ℕ) (xs : List Payload)
      → numbered serialize deserialize crc32 (λ id x. content x) bounded parses id xs
        ≡ map content xs
  numbered-map id [] = refl
  numbered-map id (x ∷ xs) = ap (λ l. content x ∷ l) (numbered-map ((id + 1) % 2 ^ 32) xs)

  module _ {St St' : Type 0} {Copy : St → St' → Type 0} {answer : Answers St}
      {answer' : Answers St'} {server root : FilePath}
      (mirror : IsMirror Copy answer answer' server root) (context : FuseContext)
      (look : St' → Host) where
    -- A server serves requests by name, and its forward journal, empty at first, of two blocks or
    -- more, gets their calls in order, with times between them, in entries that each fit in a block
    -- and parse to what was written. Where the server's system and another are copies below their two
    -- roots, the tail never comes to a whole size past the head, the head has not moved in the end,
    -- and no request has a negative result, an error or a panic, a rename that fails having the
    -- result 1, reading the journal's bytes from the head and replaying the
    -- entries without a filter on the other system makes the two systems copies again, with any fuel
    -- above the number of entries.
    pub read_then_replay-copies :
        (j j' : Journal) (xs : List Payload) (rs : List NameRequest) (st : St) (st' : St')
        (w : IsWellFormed j)
        → 2 ≤ w.blocks
        → j.header.head ≡ j.header.tail
        → Writes crc32 IsNotFull j (map serialize xs) j'
        → j'.header.head ≡ j.header.head
        → payloads (map content xs) ≡ sent_calls context server rs
        → Copy st st'
        → verdict (run_all answer (server_programs context server rs) st).0 ≡ ok tt
        → (fuel : ℕ) → length (map content xs) < fuel
        → Copy
            (run_all answer (server_programs context server rs) st).1
            (read_then_replay answer' look root (read_all deserialize fuel j' j'.header.head) st').1
    read_then_replay-copies j j' xs rs st st' w two empty writes here same copy all fuel enough =
        let read : read_all deserialize fuel j' j'.header.head ≡ some (ok (map content xs)) =
          subst
            (λ es. length es < fuel → read_all deserialize fuel j' j'.header.head ≡ some (ok es))
            (numbered-map j.header.trans_ctr xs)
            (read_all-Writes_whole serialize deserialize crc32 (λ id x. content x) bounded parses j
              j' xs [] w two (ended empty) writes here fuel)
            enough in
        subst
          (λ es.
            Copy (run_all answer (server_programs context server rs) st).1
              (read_then_replay answer' look root es st').1)
          (sym read) (replay-copies mirror context look rs (map content xs) st st' same copy all)
