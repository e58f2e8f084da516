-- ===== src/Protocol.antt =====
-- One operation between the server and its clients: `pre_op` and `post_op` of
-- fsyncd/src/server/mod.rs, the connections of fsyncd/src/server/client.rs and `process_ops` of
-- fsyncd/src/client/mod.rs together.
pub mod Answers
pub mod Corked
pub mod Harvested
pub mod Journalled
use mathlib.Core.List.{append-nil}
use fsyncer.Base.{
  ℕ, zero, suc, ◌+◌, ◌≡◌, refl, ap, ap₂, sym, ◌∙◌, Bool, true, false, ◌&&◌, ◌||◌, List, [], ◌∷◌,
  ◌++◌, length, map, All, Option, none, some, Outcome, ok, if◌then◌else◌, ◌==◌, ==_refl, arith, ◌⊎◌,
  inl, inr, Bool-cases,
}
use fsyncer.Common.{VfsCall, ClientMode, CompMode, ClientAck, FsyncerMsg, AckMsg}
use fsyncer.Server.Connection.{
  Client, ClientStatus, slot, set_slot, park, reader, wait, notify, response_msg, inner,
  write_frame,
}
use fsyncer.Server.Ops.{◌is◌, waits_of, op_msg, is_fsync, send_op, send_ops, skips, is_sync}
use fsyncer.Replica.{process_ops, process_msg, Reaction, ack_of}
use fsyncer.Wire.{
  IsPlain, frames, sent_msgs, response_msg-written, response_msg-flushed, response_msg-parked,
}

-- How a client of each mode takes part in a call: not at all, without an answer, or with one.
pub data Part : Type 0 where
  no_part unanswered answered : Part

abbrev pub part : ClientMode → Bool → Part
part ClientMode.mode_sync fsync = Part.answered
part ClientMode.mode_semisync true = Part.no_part
part ClientMode.mode_semisync false = Part.answered
part ClientMode.mode_flushsync true = Part.answered
part ClientMode.mode_flushsync false = Part.unanswered
part ClientMode.mode_async true = Part.no_part
part ClientMode.mode_async false = Part.unanswered
part ClientMode.mode_control fsync = Part.no_part

-- The messages that this puts on the client's stream.
abbrev pub messages : CompMode → Part → VfsCall → ℕ → List FsyncerMsg
messages comp Part.no_part call tid = []
messages comp Part.unanswered call tid = FsyncerMsg.async_op call ∷ []
messages comp Part.answered call tid = sent_msgs comp (FsyncerMsg.sync_op call tid) true

abbrev pub response : Part → ℕ → Option ℕ
response Part.answered tid = some tid
response _ tid = none

-- Up to where the stream is flushed, and the slots of the threads, from those before.
abbrev pub flushed_by : Part → ℕ → ℕ → ℕ
flushed_by Part.answered flushed len = len
flushed_by _ flushed len = flushed

abbrev pub parked_by : Part → ℕ → List (ℕ × Option ClientAck) → List (ℕ × Option ClientAck)
parked_by Part.answered tid parked = park tid parked
parked_by _ tid parked = parked

abbrev by_part : {X : Type 0} → X → (Bool → X) → Part → X
by_part skip send Part.no_part = skip
by_part skip send Part.unanswered = send false
by_part skip send Part.answered = send true

conditions-eq-part :
    {X : Type 0} (mode : ClientMode) (fsync : Bool) (skip : X) (send : Bool → X)
    → (if mode is ClientMode.mode_control
          || (fsync && (mode is ClientMode.mode_async || mode is ClientMode.mode_semisync))
        then skip
        else send (
            mode is ClientMode.mode_sync
            || mode is ClientMode.mode_semisync
            || (mode is ClientMode.mode_flushsync && fsync)))
      ≡ by_part skip send (part mode fsync)
conditions-eq-part ClientMode.mode_async true skip send = refl
conditions-eq-part ClientMode.mode_async false skip send = refl
conditions-eq-part ClientMode.mode_sync true skip send = refl
conditions-eq-part ClientMode.mode_sync false skip send = refl
conditions-eq-part ClientMode.mode_semisync true skip send = refl
conditions-eq-part ClientMode.mode_semisync false skip send = refl
conditions-eq-part ClientMode.mode_flushsync true skip send = refl
conditions-eq-part ClientMode.mode_flushsync false skip send = refl
conditions-eq-part ClientMode.mode_control true skip send = refl
conditions-eq-part ClientMode.mode_control false skip send = refl

-- The conditions of `pre_op` decide by the part.
skips-eq-part :
    {X : Type 0} (mode : ClientMode) (call : VfsCall) (skip : X) (send : Bool → X)
    → (if skips mode call then skip else send (is_sync mode call))
      ≡ by_part skip send (part mode (is_fsync call))
unfolding skips is_sync
skips-eq-part mode call skip send = conditions-eq-part mode (is_fsync call) skip send

module _ {Comp : Type 0} (encode : Comp → List ℕ → List ℕ × Comp) (serialize : FsyncerMsg → List ℕ)
    (crc : List ℕ → ℕ) where
  response_msg-response :
      (comp : CompMode) (c : Client Comp) (msg : FsyncerMsg) (sync : Bool) (tid : ℕ)
      → IsPlain encode serialize comp c
      → (response_msg encode serialize c msg sync sync tid).1 ≡ ok (if sync then some tid else none)
  unfolding response_msg
  response_msg-response comp c msg true tid p = rw p.alive (rw p.writes refl)
  response_msg-response comp c msg false tid p = rw p.alive (rw p.writes refl)

  abbrev pub TakesPart :
      CompMode → Client Comp → VfsCall → ℕ → Part → Client Comp × Outcome (Option ℕ) → Type 0
  TakesPart comp c call tid q sent =
      (sent.0.written ≡ c.written ++ frames serialize (messages comp q call tid))
      × (sent.1 ≡ ok (response q tid))
      × (sent.0.flushed ≡ flushed_by q c.flushed (length sent.0.written))
      × (sent.0.parked ≡ parked_by q tid c.parked)

  by_part-TakesPart :
      (comp : CompMode) (c : Client Comp) (call : VfsCall) (tid : ℕ) (q : Part)
      → IsPlain encode serialize comp c
      → TakesPart comp c call tid q (
          by_part
            (c, ok none)
            (λ sync. response_msg encode serialize c (op_msg sync call tid) sync sync tid)
            q)
  by_part-TakesPart comp c call tid Part.no_part p = (sym (append-nil c.written), refl, refl, refl)
  by_part-TakesPart comp c call tid Part.unanswered p =
      let msg = FsyncerMsg.async_op call in
      (
        (response_msg-written encode serialize comp c msg false false tid p).0,
        response_msg-response comp c msg false tid p,
        response_msg-flushed encode serialize comp c msg false false tid p,
        response_msg-parked encode serialize comp c msg false false tid p,
      )
  by_part-TakesPart comp c call tid Part.answered p =
      let msg = FsyncerMsg.sync_op call tid in
      (
        (response_msg-written encode serialize comp c msg true true tid p).0,
        response_msg-response comp c msg true tid p,
        response_msg-flushed encode serialize comp c msg true true tid p,
        response_msg-parked encode serialize comp c msg true true tid p,
      )

  -- What a client is sent, by its part in the call.
  pub send_op-part :
      (comp : CompMode) (c : Client Comp) (call : VfsCall) (tid : ℕ)
      → IsPlain encode serialize comp c
      → TakesPart comp c call tid
          (part c.mode (is_fsync call))
          (send_op encode serialize crc c call tid)
  unfolding send_op
  send_op-part comp c call tid p =
      rw
        (skips-eq-part c.mode call (c, ok none)
          (λ sync. response_msg encode serialize c (op_msg sync call tid) sync sync tid))
        (by_part-TakesPart comp c call tid (part c.mode (is_fsync call)) p)

  -- What each client of a list is sent, and which of them answer, from position `i` on.
  abbrev pub streams : List (Client Comp) → VfsCall → ℕ → List (List ℕ)
  streams [] call tid = []
  streams (c ∷ cs) call tid =
      (c.written ++ frames serialize (messages c.comp (part c.mode (is_fsync call)) call tid))
      ∷ streams cs call tid

  abbrev pub flushes : List (Client Comp) → VfsCall → ℕ → List ℕ
  flushes [] call tid = []
  flushes (c ∷ cs) call tid =
      let q = part c.mode (is_fsync call) in
      flushed_by q c.flushed (length (c.written ++ frames serialize (messages c.comp q call tid)))
      ∷ flushes cs call tid

  abbrev position : ℕ → Part → List ℕ
  position i Part.answered = i ∷ []
  position i _ = []

  abbrev pub answering : ℕ → List (Client Comp) → VfsCall → List ℕ
  answering i [] call = []
  answering i (c ∷ cs) call = position i (part c.mode (is_fsync call)) ++ answering (suc i) cs call

  waits_of-response : (i tid : ℕ) (q : Part) → waits_of i (ok (response q tid)) ≡ position i q
  waits_of-response i tid Part.no_part = refl
  waits_of-response i tid Part.unanswered = refl
  waits_of-response i tid Part.answered = refl

  -- `pre_op` sends to each client, all of them live, without a realtime compressor and their writes
  -- succeeding, the messages of its part in the call, behind what it was sent before: no message to
  -- a control client nor, for an fsync, to an asynchronous or semi-synchronous one; a synchronous
  -- message, with a flush, to a synchronous or semi-synchronous client, and to a flush-synchronous
  -- one for an fsync; otherwise an asynchronous message. The stream is flushed to its end
  -- with a synchronous message, and else no further than before. It waits for those with a
  -- synchronous one.
  pub send_ops-routes :
      (i : ℕ) (cs : List (Client Comp)) (call : VfsCall) (tid : ℕ)
      → All (λ c. IsPlain encode serialize c.comp c) cs
      → (map (λ c. c.written) (send_ops encode serialize crc i cs call tid).0 ≡ streams cs call tid)
        × (map (λ c. c.flushed) (send_ops encode serialize crc i cs call tid).0
            ≡ flushes cs call tid)
        × ((send_ops encode serialize crc i cs call tid).1 ≡ answering i cs call)
  unfolding send_ops
  send_ops-routes i [] call tid ps = (refl, refl, refl)
  send_ops-routes i (c ∷ cs) call tid ps =
      let own = send_op-part c.comp c call tid ps.0 in
      let rest = send_ops-routes (suc i) cs call tid ps.1 in
      let q = part c.mode (is_fsync call) in
      (
        ap₂ (λ x xs. x ∷ xs) own.0 rest.0,
        ap₂ (λ x xs. x ∷ xs) (own.2 ∙ ap (λ l. flushed_by q c.flushed (length l)) own.0) rest.1,
        ap₂ (λ x xs. x ++ xs) (ap (λ r. waits_of i r) own.1 ∙ waits_of-response i tid q) rest.2,
      )
