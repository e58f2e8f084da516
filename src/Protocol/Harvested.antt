-- ===== src/Protocol/Harvested.antt =====
-- The removal of dead clients by `harvester_thread` of fsyncd/src/server/mod.rs, between operations
-- and the rounds of `flush_thread`.
use fsyncer.Base.{ℕ, Bool, Option, ◌≡◌, List, [], ◌∷◌}
use fsyncer.Common.{VfsCall, FsyncerMsg}
use fsyncer.Server.Connection.{reader, ClientStatus, Client}
use fsyncer.Server.Ops.{send_op, send_ops}
use fsyncer.Server.Threads.{retain_live, harvest, flush_round}

-- What happens to the list of clients.
pub data Event : Type 0 where
  op : VfsCall → ℕ → Event
  flush : ℕ → Event
  -- Whether the next writes to each live client succeed, in the order of the list.
  network : List Bool → Event
  -- What the reader of each live client gets, in the order of the list.
  reads : List (Option FsyncerMsg) → Event
  harvested : Event

abbrev pub without_harvests : List Event → List Event
without_harvests [] = []
without_harvests (Event.harvested ∷ es) = without_harvests es
without_harvests (Event.op call tid ∷ es) = Event.op call tid ∷ without_harvests es
without_harvests (Event.flush tid ∷ es) = Event.flush tid ∷ without_harvests es
without_harvests (Event.network oks ∷ es) = Event.network oks ∷ without_harvests es
without_harvests (Event.reads msgs ∷ es) = Event.reads msgs ∷ without_harvests es

module _ {Comp X : Type 0} (f : X → Client Comp → Client Comp) where
  abbrev at_live :
      ClientStatus → List X → Client Comp → (List X → List (Client Comp)) → List (Client Comp)
  at_live ClientStatus.dead xs c rest = c ∷ rest xs
  at_live ClientStatus.alive [] c rest = c ∷ rest []
  at_live ClientStatus.alive (x ∷ xs) c rest = f x c ∷ rest xs

  -- Each live client with the next of `xs`, while there are any.
  abbrev pub each_live : List X → List (Client Comp) → List (Client Comp)
  each_live xs [] = []
  each_live xs (c ∷ cs) = at_live c.status xs c (λ l. each_live l cs)

module _ {Comp : Type 0} (encode : Comp → List ℕ → List ℕ × Comp) (serialize : FsyncerMsg → List ℕ)
    (crc : List ℕ → ℕ) where
  abbrev pub happens : Event → List (Client Comp) → List (Client Comp)
  happens (Event.op call tid) cs = (send_ops encode serialize crc 0 cs call tid).0
  happens (Event.flush tid) cs = flush_round encode serialize tid cs
  happens Event.harvested cs = harvest cs
  happens (Event.network oks) cs = each_live (λ writes c. record c { writes_ok = writes }) oks cs
  happens (Event.reads msgs) cs = each_live (λ msg c. reader c msg) msgs cs

  abbrev pub run_events : List Event → List (Client Comp) → List (Client Comp)
  run_events [] cs = cs
  run_events (e ∷ es) cs = run_events es (happens e cs)

  abbrev after_op : VfsCall → ℕ → Client Comp → Client Comp
  after_op call tid c = (send_op encode serialize crc c call tid).0

  Alike : List (Client Comp) → List (Client Comp) → Type 0
  Alike cs cs' = retain_live cs ≡ retain_live cs'
