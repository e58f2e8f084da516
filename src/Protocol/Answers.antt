-- ===== src/Protocol/Answers.antt =====
-- The answer to an operation: `process_ops` of fsyncd/src/client/mod.rs makes it, `reader` of
-- fsyncd/src/server/client.rs hands it over, and the operation's thread takes it in `wait`.
use mathlib.Core.Path.{subst}
use fsyncer.Base.{
  ℕ, ◌≤◌, ap, ◌∙◌, length, drop, drop-append, All, ◌≡◌, refl, sym, Bool, true, false, List, [], ◌∷◌,
  Option, none, some, ok, if◌then◌else◌, ◌==◌, ==_refl, ◌⊎◌, inl, inr, Bool-cases,
}
use fsyncer.Common.{VfsCall, ClientMode, CompMode, ClientAck, FsyncerMsg}
use fsyncer.Server.Connection.{
  Client, is_stream, slot, set_slot, park, reader, wait, notify, response_msg,
}
use fsyncer.Server.Ops.{is_fsync, send_op}
use fsyncer.Replica.{read_msgs, process_ops, process_msg, Reaction, ack_of}
use fsyncer.Wire.{IsPlain, IsSendable, frames, read_msgs-frames, response_msg-parked}
use fsyncer.Protocol.{Part, part, messages, response, parked_by, send_op-part}

-- The answer of an answering client: at once in the semi-synchronous mode, else the call's result.
abbrev pub answer : ClientMode → ℕ → ClientAck
answer ClientMode.mode_semisync code = ClientAck.ack
answer _ code = ClientAck.ret_code code

abbrev pub reaction : ClientMode → Part → VfsCall → ℕ → ℕ → Reaction
reaction mode Part.no_part call code tid = record { replies = []; calls = [] }
reaction mode Part.unanswered call code tid = record { replies = []; calls = call ∷ [] }
reaction mode Part.answered call code tid = record {
  replies = ack_of (answer mode code) tid ∷ [];
  calls = call ∷ [];
}

process_ops-nop :
    (mode : ClientMode) (dispatch : VfsCall → ℕ) (stream : Bool)
    → process_ops mode dispatch (if stream then FsyncerMsg.nop ∷ [] else [])
      ≡ record { replies = []; calls = [] }
unfolding process_ops process_msg
process_ops-nop mode dispatch true = refl
process_ops-nop mode dispatch false = refl

process_ops-messages :
    (comp : CompMode) (mode : ClientMode) (fsync : Bool) (dispatch : VfsCall → ℕ) (call : VfsCall)
    (tid : ℕ)
    → process_ops mode dispatch (messages comp (part mode fsync) call tid)
      ≡ reaction mode (part mode fsync) call (dispatch call) tid
unfolding process_ops process_msg
process_ops-messages comp ClientMode.mode_async true dispatch call tid = refl
process_ops-messages comp ClientMode.mode_async false dispatch call tid = refl
process_ops-messages comp ClientMode.mode_sync fsync dispatch call tid =
    rw (process_ops-nop ClientMode.mode_sync dispatch (is_stream comp), process_ops) refl
process_ops-messages comp ClientMode.mode_semisync true dispatch call tid = refl
process_ops-messages comp ClientMode.mode_semisync false dispatch call tid =
    rw (process_ops-nop ClientMode.mode_semisync dispatch (is_stream comp), process_ops) refl
process_ops-messages comp ClientMode.mode_flushsync true dispatch call tid =
    rw (process_ops-nop ClientMode.mode_flushsync dispatch (is_stream comp), process_ops) refl
process_ops-messages comp ClientMode.mode_flushsync false dispatch call tid = refl
process_ops-messages comp ClientMode.mode_control fsync dispatch call tid = refl

slot-set_slot :
    (tid : ℕ) (s : Option ClientAck) (parked : List (ℕ × Option ClientAck))
    → slot tid (set_slot tid s parked) ≡ some s
unfolding slot set_slot
slot-set_slot tid s [] = rw (==_refl tid) refl
slot-set_slot tid s ((t, old) ∷ parked) = elim (Bool-cases (t == tid)) [
  | inl here ↦ rw here (rw here refl)
  | inr there ↦ rw there (rw there (slot-set_slot tid s parked))
]

-- No answer lies in the slot of the thread.
abbrev pub IsVacant : ℕ → List (ℕ × Option ClientAck) → Type 0
IsVacant tid parked = (slot tid parked ≡ none) ⊎ (slot tid parked ≡ some none)

park-slot :
    (tid : ℕ) (parked : List (ℕ × Option ClientAck))
    → IsVacant tid parked
    → slot tid (park tid parked) ≡ some none
unfolding park
park-slot tid parked (inl absent) = rw (absent, park) (slot-set_slot tid none parked)
park-slot tid parked (inr empty) = rw (empty, park) empty

module _ {Comp : Type 0} where
  -- The reader thread over messages of the client.
  abbrev pub readers : Client Comp → List FsyncerMsg → Client Comp
  readers c [] = c
  readers c (msg ∷ msgs) = readers (reader c (some msg)) msgs

  wait-IsVacant : (tid : ℕ) (c : Client Comp) → IsVacant tid c.parked → (wait tid c).1 ≡ none
  unfolding wait
  wait-IsVacant tid c (inl absent) = rw absent refl
  wait-IsVacant tid c (inr empty) = rw empty refl

  wait-reader :
      (tid : ℕ) (c : Client Comp) (code : ClientAck)
      → ((wait tid (reader c (some (ack_of code tid)))).1 ≡ some code)
        × IsVacant tid (wait tid (reader c (some (ack_of code tid)))).0.parked
  unfolding wait reader notify
  wait-reader tid c code =
      rw (slot-set_slot tid (some code) c.parked)
        (refl, inr (slot-set_slot tid none (set_slot tid (some code) c.parked)))

  wait-still_IsVacant :
      (tid : ℕ) (c : Client Comp) → IsVacant tid c.parked → IsVacant tid (wait tid c).0.parked
  unfolding wait
  wait-still_IsVacant tid c (inl absent) = rw (absent, wait) (inl absent)
  wait-still_IsVacant tid c (inr empty) = rw (empty, wait) (inr empty)

-- What the thread's wait takes.
abbrev pub awaited : Part → ClientMode → ℕ → Option ClientAck
awaited Part.answered mode code = some (answer mode code)
awaited _ mode code = none

module _ {Comp : Type 0} (encode : Comp → List ℕ → List ℕ × Comp) (serialize : FsyncerMsg → List ℕ)
    (crc : List ℕ → ℕ) where
  abbrev pub IsAnswered : ℕ → Client Comp → List FsyncerMsg → Option ClientAck → Type 0
  IsAnswered tid sent replies expected =
      ((wait tid sent).1 ≡ none)
      × ((wait tid (readers sent replies)).1 ≡ expected)
      × IsVacant tid (wait tid (readers sent replies)).0.parked

  unanswered-IsAnswered :
      (tid : ℕ) (sent : Client Comp) → IsVacant tid sent.parked → IsAnswered tid sent [] none
  unanswered-IsAnswered tid sent v =
      (wait-IsVacant tid sent v, wait-IsVacant tid sent v, wait-still_IsVacant tid sent v)

  -- Whether the thread is parked: in an empty slot if it waits for an answer.
  abbrev pub IsParked :
      Part → ℕ → List (ℕ × Option ClientAck) → List (ℕ × Option ClientAck) → Type 0
  IsParked Part.answered tid before parked = slot tid parked ≡ some none
  IsParked _ tid before parked = parked ≡ before

  parked_by-IsParked :
      (q : Part) (tid : ℕ) (parked : List (ℕ × Option ClientAck))
      → IsVacant tid parked
      → IsParked q tid parked (parked_by q tid parked)
  parked_by-IsParked Part.answered tid parked v = park-slot tid parked v
  parked_by-IsParked Part.unanswered tid parked v = refl
  parked_by-IsParked Part.no_part tid parked v = refl

  IsParked-IsVacant :
      (q : Part) (tid : ℕ) (before parked : List (ℕ × Option ClientAck))
      → IsVacant tid before
      → IsParked q tid before parked
      → IsVacant tid parked
  IsParked-IsVacant Part.answered tid before parked v p = inr p
  IsParked-IsVacant Part.unanswered tid before parked v p = subst (IsVacant tid) (sym p) v
  IsParked-IsVacant Part.no_part tid before parked v p = subst (IsVacant tid) (sym p) v

  sent-IsAnswered :
      (tid code : ℕ) (mode : ClientMode) (q : Part) (call : VfsCall) (sent : Client Comp)
      → IsVacant tid sent.parked
      → IsAnswered tid sent (reaction mode q call code tid).replies (awaited q mode code)
  sent-IsAnswered tid code mode Part.no_part call sent v = unanswered-IsAnswered tid sent v
  sent-IsAnswered tid code mode Part.unanswered call sent v = unanswered-IsAnswered tid sent v
  sent-IsAnswered tid code mode Part.answered call sent v =
      let w = wait-reader tid sent (answer mode code) in (wait-IsVacant tid sent v, w.0, w.1)

  -- The messages that the client reads of what `send_op` has written.
  abbrev pub received :
      (Comp → List ℕ → List ℕ × Comp)
      → (List ℕ → Option FsyncerMsg)
      → ℕ
      → Client Comp
      → VfsCall
      → ℕ
      → List FsyncerMsg
  received decode deserialize fuel c call tid =
      read_msgs decode deserialize fuel none
        (drop (length c.written) (send_op encode serialize crc c call tid).0.written)

  -- For a live client without a realtime compressor whose writes succeed, whose messages
  -- `deserialize` reads back, and a thread without an answer in its slot, `send_op` parks the thread in
  -- an empty slot and returns it if the client has an answering part in the call, and else parks
  -- nothing and returns none. From the bytes that it has written the client makes the call once,
  -- unless it has no part in it. If it has an answering part, the thread's wait finds nothing before
  -- the client's reply was read and after that the acknowledgement, in the semi-synchronous mode, or
  -- the result of the call; otherwise the client does not reply. The slot is left without an answer
  -- for the next operation. As many steps of reading as there are messages are enough.
  pub wait-send_op :
      (decode : Comp → List ℕ → List ℕ × Comp) (deserialize : List ℕ → Option FsyncerMsg)
      (comp : CompMode) (c : Client Comp) (call : VfsCall) (tid : ℕ) (dispatch : VfsCall → ℕ)
      (fuel : ℕ)
      → IsPlain encode serialize comp c
      → IsVacant tid c.parked
      → All
          (IsSendable decode serialize deserialize)
          (messages comp (part c.mode (is_fsync call)) call tid)
      → length (messages comp (part c.mode (is_fsync call)) call tid) ≤ fuel
      → let sent = send_op encode serialize crc c call tid in
        let q = part c.mode (is_fsync call) in
        let msgs = received decode deserialize fuel c call tid in
        (process_ops c.mode dispatch msgs ≡ reaction c.mode q call (dispatch call) tid)
        × (sent.1 ≡ ok (response q tid))
        × IsParked q tid c.parked sent.0.parked
        × IsAnswered tid sent.0
            (process_ops c.mode dispatch msgs).replies
            (awaited q c.mode (dispatch call))
  wait-send_op decode deserialize comp c call tid dispatch fuel p v sendable enough =
      let q = part c.mode (is_fsync call) in
      let sent = send_op encode serialize crc c call tid in
      let takes = send_op-part encode serialize crc comp c call tid p in
      let msgs = messages comp q call tid in
      let read : received decode deserialize fuel c call tid ≡ msgs =
        ap (λ bytes. read_msgs decode deserialize fuel none (drop (length c.written) bytes)) takes.0
        ∙ ap (λ bytes. read_msgs decode deserialize fuel none bytes)
            (drop-append c.written (frames serialize msgs))
        ∙ read_msgs-frames decode serialize deserialize msgs fuel sendable enough in
      let e : process_ops c.mode dispatch (received decode deserialize fuel c call tid)
          ≡ reaction c.mode q call (dispatch call) tid =
        ap (λ l. process_ops c.mode dispatch l) read
        ∙ process_ops-messages comp c.mode (is_fsync call) dispatch call tid in
      let parked : IsParked q tid c.parked sent.0.parked =
        subst (IsParked q tid c.parked) (sym takes.3) (parked_by-IsParked q tid c.parked v) in
      let answered =
        sent-IsAnswered tid (dispatch call) c.mode q call sent.0
          (IsParked-IsVacant q tid c.parked sent.0.parked v parked) in
      (
        e,
        takes.1,
        parked,
        subst (λ r. IsAnswered tid sent.0 r.replies (awaited q c.mode (dispatch call))) (sym e)
            answered,
      )

  park-set_slot :
      (tid : ℕ) (late : ClientAck) (parked : List (ℕ × Option ClientAck))
      → slot tid (park tid (set_slot tid (some late) parked)) ≡ some (some late)
  unfolding park
  park-set_slot tid late parked =
      rw (slot-set_slot tid (some late) parked, park) (slot-set_slot tid (some late) parked)

  -- For a live client without a realtime compressor whose writes succeed: an answer that is read
  -- while no operation of its thread waits is taken by the wait of the thread's next operation on
  -- that client, before the client has answered that one.
  wait-stale :
      (comp : CompMode) (c : Client Comp) (late : ClientAck) (msg : FsyncerMsg) (flush : Bool)
      (tid : ℕ)
      → IsPlain encode serialize comp c
      → (wait tid
          (response_msg encode serialize
            (reader c (some (ack_of late tid)))
            msg
            flush
            true
            tid).0).1
        ≡ some late
  unfolding wait reader notify
  wait-stale comp c late msg flush tid p =
      let c' : Client Comp = record c { parked = set_slot tid (some late) c.parked } in
      let p' : IsPlain encode serialize comp c' = record {
        mode = p.mode;
        alive = p.alive;
        writes = p.writes;
        plain = p.plain;
      } in
      rw (response_msg-parked encode serialize comp c' msg flush true tid p')
        (rw (park-set_slot tid late c.parked) refl)
