-- ===== src/Server/Gate.antt =====
-- The gate `CORK` of fsyncd/src/server/mod.rs: `cork_server`, `uncork_server` and the wait at the
-- start of `pre_op`, as the steps of threads that take the lock.
--
-- `stream` is what one client that is sent every call has been sent. One control connection corks
-- and uncorks in turn; any thread makes calls. `pre_op` holds the lock from its wait until it has
-- sent the call, so that it is one step.
-- The waiting on `CORK_VAR` and its `notify_all` are not steps: which thread is woken, and that one is,
-- is left open. A control connection that dies, or whose `cork` of a client panics, takes no more
-- steps: the gate then stays as it is.
use fsyncer.Base.{ℕ, Bool, true, false, ◌≡◌, List, [], ◌∷◌, ◌++◌}
use fsyncer.Common.{VfsCall, FsyncerMsg}
use fsyncer.Server.Ops.{op_msg}

-- Where the control connection is: behind `*CORK = true`, behind the Cork messages, and behind the
-- Uncork messages.
pub data Phase : Type 0 where
  idle set corked uncorked : Phase

pub record Gate : Type 0 where
  pub cork : Bool
  pub phase : Phase
  pub stream : List FsyncerMsg

unfoldable pub new_gate : Gate
new_gate = record { cork = false; phase = Phase.idle; stream = [] }

unfoldable pub send : Gate → FsyncerMsg → Gate
send gate msg = record gate { stream = gate.stream ++ (msg ∷ []) }

-- `*CORK.lock().unwrap() = true`.
unfoldable pub set_cork : Gate → Gate
set_cork gate = record gate { cork = true; phase = Phase.set }

-- The rest of `cork_server`.
unfoldable pub cork_clients : Gate → ℕ → Gate
cork_clients gate tid = record gate {
  phase = Phase.corked;
  stream = gate.stream ++ (FsyncerMsg.cork tid ∷ []);
}

-- The start of `uncork_server`.
unfoldable pub uncork_clients : Gate → Gate
uncork_clients gate = record gate {
  phase = Phase.uncorked;
  stream = gate.stream ++ (FsyncerMsg.uncork ∷ []);
}

-- `*CORK.lock().unwrap() = false`.
unfoldable pub clear_cork : Gate → Gate
clear_cork gate = record gate { cork = false; phase = Phase.idle }

pub data GateStep : Gate → Gate → Type 0 where
  pre_op :
      {gate : Gate} (sync : Bool) (call : VfsCall) (tid : ℕ)
      → gate.cork ≡ false
      → GateStep gate (send gate (op_msg sync call tid))
  cork_start : {gate : Gate} → gate.phase ≡ Phase.idle → GateStep gate (set_cork gate)
  cork_end :
      {gate : Gate} (tid : ℕ) → gate.phase ≡ Phase.set → GateStep gate (cork_clients gate tid)
  uncork_start : {gate : Gate} → gate.phase ≡ Phase.corked → GateStep gate (uncork_clients gate)
  uncork_end : {gate : Gate} → gate.phase ≡ Phase.uncorked → GateStep gate (clear_cork gate)

pub data GateSteps : Gate → Gate → Type 0 where
  stay : {gate : Gate} → GateSteps gate gate
  then :
      {gate gate' gate'' : Gate}
      → GateStep gate gate'
      → GateSteps gate' gate''
      → GateSteps gate gate''
