-- ===== src/Protocol/Corked.antt =====
-- What the gate `CORK` of fsyncd/src/server/mod.rs keeps of a client's stream.
use fsyncer.Base.{
  ℕ, Bool, true, false, ◌≡◌, refl, sym, ◌∙◌, ap, List, [], ◌∷◌, ◌++◌, Option, none, some, arith,
}
use fsyncer.Common.{VfsCall, FsyncerMsg}
use fsyncer.Server.Ops.{op_msg}
use fsyncer.Server.Gate.{
  Gate, Phase, GateStep, GateSteps, new_gate, send, set_cork, cork_clients, uncork_clients,
  clear_cork,
}

-- Whether a message leaves the stream corked; none if it may not stand there: a call or a Cork
-- where the stream is corked, an Uncork where it is not.
abbrev pub after_msg : Bool → FsyncerMsg → Option Bool
after_msg false (FsyncerMsg.async_op call) = some false
after_msg false (FsyncerMsg.sync_op call tid) = some false
after_msg false (FsyncerMsg.cork tid) = some true
after_msg true FsyncerMsg.uncork = some false
after_msg _ _ = none

abbrev pub scan : Bool → List FsyncerMsg → Option Bool
scan corked [] = some corked
scan corked (msg ∷ msgs) = elim (after_msg corked msg) [
  | none ↦ none
  | some corked' ↦ scan corked' msgs
]

scan-append :
    (corked corked' : Bool) (msgs : List FsyncerMsg) (msg : FsyncerMsg)
    → scan corked msgs ≡ some corked'
    → scan corked (msgs ++ (msg ∷ [])) ≡ scan corked' (msg ∷ [])
scan-append corked corked' [] msg e =
    ap (λ o. elim o [ none ↦ none | some b ↦ scan b (msg ∷ []) ]) e
scan-append corked corked' (m ∷ msgs) msg e =
    by_msg (after_msg corked m) e (λ b. scan-append b corked' msgs msg)
  where
    by_msg :
        (o : Option Bool)
        → (elim o [ none ↦ none | some b ↦ scan b msgs ]) ≡ some corked'
        → ((b : Bool)
            → scan b msgs ≡ some corked'
            → scan b (msgs ++ (msg ∷ [])) ≡ scan corked' (msg ∷ []))
        → (elim o [ none ↦ none | some b ↦ scan b (msgs ++ (msg ∷ [])) ]) ≡ scan corked' (msg ∷ [])
    by_msg none h rest = ground (arith, h)
    by_msg (some b) h rest = rest b h

-- In each phase: whether the gate is closed, and whether the stream is corked.
abbrev pub closed : Phase → Bool
closed Phase.idle = false
closed _ = true

abbrev pub stream_corked : Phase → Bool
stream_corked Phase.corked = true
stream_corked _ = false

pub record IsOrdered (gate : Gate) : Type 0 where
  pub gate_closed : gate.cork ≡ closed gate.phase
  pub in_order : scan false gate.stream ≡ some (stream_corked gate.phase)

idle-open : (phase : Phase) → closed phase ≡ false → stream_corked phase ≡ false
idle-open Phase.idle e = refl
idle-open Phase.set e = refl
idle-open Phase.corked e = e
idle-open Phase.uncorked e = refl

after_op :
    (sync : Bool) (call : VfsCall) (tid : ℕ) → scan false (op_msg sync call tid ∷ []) ≡ some false
after_op true call tid = refl
after_op false call tid = refl

GateStep-IsOrdered : {gate gate' : Gate} → GateStep gate gate' → IsOrdered gate → IsOrdered gate'
unfolding send set_cork cork_clients uncork_clients clear_cork
GateStep-IsOrdered {gate} (GateStep.pre_op sync call tid is_open) h =
    let out = idle-open gate.phase (sym h.gate_closed ∙ is_open) in
    record {
      gate_closed = h.gate_closed;
      in_order =
          scan-append false false gate.stream _ (h.in_order ∙ ap some out)
          ∙ after_op sync call tid
          ∙ ap some (sym out);
    }
GateStep-IsOrdered (GateStep.cork_start e) h = record {
  gate_closed = refl;
  in_order = h.in_order ∙ ap (λ p. some (stream_corked p)) e;
}
GateStep-IsOrdered {gate} (GateStep.cork_end tid e) h = record {
  gate_closed = h.gate_closed ∙ ap closed e;
  in_order =
      scan-append false false gate.stream (FsyncerMsg.cork tid)
        (h.in_order ∙ ap (λ p. some (stream_corked p)) e);
}
GateStep-IsOrdered {gate} (GateStep.uncork_start e) h = record {
  gate_closed = h.gate_closed ∙ ap closed e;
  in_order =
      scan-append false true gate.stream FsyncerMsg.uncork
        (h.in_order ∙ ap (λ p. some (stream_corked p)) e);
}
GateStep-IsOrdered (GateStep.uncork_end e) h = record {
  gate_closed = refl;
  in_order = h.in_order ∙ ap (λ p. some (stream_corked p)) e;
}

GateSteps-IsOrdered : {gate gate' : Gate} → GateSteps gate gate' → IsOrdered gate → IsOrdered gate'
GateSteps-IsOrdered GateSteps.stay h = h
GateSteps-IsOrdered (GateSteps.then step steps) h =
    GateSteps-IsOrdered steps (GateStep-IsOrdered step h)

-- After any steps of a control connection that corks and uncorks in turn, and of threads that make
-- calls: the gate is closed unless the connection is idle, and in the client's stream no call and no
-- Cork stands between a Cork and its Uncork.
pub steps-IsOrdered : (gate : Gate) → GateSteps new_gate gate → IsOrdered gate
unfolding new_gate
steps-IsOrdered gate steps =
    GateSteps-IsOrdered steps (record { gate_closed = refl; in_order = refl })
