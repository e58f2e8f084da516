-- ===== src/Server/Threads.antt =====
-- The threads of fsyncd/src/server/mod.rs that run beside the operations: `flush_thread` and
-- `harvester_thread`, one round of each. Each round and each operation is a step of its own, the
-- sleeps between rounds are left out.
use fsyncer.Base.{ℕ, List, [], ◌∷◌, map, ◌==◌, ◌+◌, if◌then◌else◌}
use fsyncer.Common.{ClientMode, FsyncerMsg}
use fsyncer.Server.Connection.{ClientStatus, Client, flush_client}
use fsyncer.Server.Ops.{◌is◌}

abbrev pub dead_node : ClientStatus → ℕ
dead_node ClientStatus.dead = 1
dead_node ClientStatus.alive = 0

module _ {Comp : Type 0} where
  -- The count of dead clients.
  unfoldable pub dead_nodes : List (Client Comp) → ℕ
  dead_nodes [] = 0
  dead_nodes (c ∷ cs) = dead_node c.status + dead_nodes cs

  abbrev pub keep : ClientStatus → Client Comp → List (Client Comp) → List (Client Comp)
  keep ClientStatus.dead c cs = cs
  keep ClientStatus.alive c cs = c ∷ cs

  -- `retain(|c| c.status() != ClientStatus::DEAD)`.
  unfoldable pub retain_live : List (Client Comp) → List (Client Comp)
  retain_live [] = []
  retain_live (c ∷ cs) = keep c.status c (retain_live cs)

  -- A round of `harvester_thread`, which takes the exclusive lock only where it has to.
  unfoldable pub harvest : List (Client Comp) → List (Client Comp)
  harvest clients = if dead_nodes clients == 0 then clients else retain_live clients

module _ {Comp : Type 0} (encode : Comp → List ℕ → List ℕ × Comp)
    (serialize : FsyncerMsg → List ℕ) where
  abbrev pub flush_async : ℕ → Client Comp → Client Comp
  flush_async tid c =
      if c.mode is ClientMode.mode_async then (flush_client encode serialize c tid).0 else c

  -- A round of `flush_thread`; a flush that fails is only reported.
  unfoldable pub flush_round : ℕ → List (Client Comp) → List (Client Comp)
  flush_round tid clients = map (flush_async tid) clients
