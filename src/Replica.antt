-- ===== src/Replica.antt =====
-- fsyncd/src/client/mod.rs: a client reads the messages of the server and makes the calls.
--
-- `deserialize` of bincode and the decoder of the dssc submodule are parameters, and so is
-- `dispatch`, which makes a call on the client's copy and returns its code. With more than one
-- dispatch thread the same work is done, in any order.
use fsyncer.Base.{
  ℕ, zero, suc, ◌+◌, ◌*◌, ◌^◌, Bool, true, false, List, [], ◌∷◌, ◌++◌, length, take, drop, Option,
  none, some, ltb, if◌then◌else◌,
}
use fsyncer.Common.{VfsCall, ClientMode, ClientAck, FsyncerMsg}

-- The value of four big-endian bytes, `read_u32::<BigEndian>`.
unfoldable pub be_value : ℕ → ℕ → ℕ → ℕ → ℕ
be_value b3 b2 b1 b0 = b3 * 2 ^ 24 + b2 * 2 ^ 16 + b1 * 2 ^ 8 + b0

-- `process_ops` acknowledges in these modes after the call ...
abbrev pub needs_ack : ClientMode → Bool
needs_ack ClientMode.mode_sync = true
needs_ack ClientMode.mode_flushsync = true
needs_ack _ = false

-- ... and in this one before it.
abbrev pub acks_early : ClientMode → Bool
acks_early ClientMode.mode_semisync = true
acks_early _ = false

abbrev pub ack_of : ClientAck → ℕ → FsyncerMsg
ack_of retcode tid = FsyncerMsg.ack_msg (record { retcode = retcode; tid = tid })

-- What a message makes the client do: the messages that it sends and the calls that it makes.
pub record Reaction : Type 0 where
  pub replies : List FsyncerMsg
  pub calls : List VfsCall

abbrev pub ack_if : Bool → ClientAck → ℕ → List FsyncerMsg
ack_if b retcode tid = if b then ack_of retcode tid ∷ [] else []

-- An arm of the loop of `process_ops`.
unfoldable pub process_msg : ClientMode → (VfsCall → ℕ) → FsyncerMsg → Reaction
process_msg mode dispatch (FsyncerMsg.sync_op call tid) = record {
  replies =
      ack_if (acks_early mode) ClientAck.ack tid
      ++ ack_if (needs_ack mode) (ClientAck.ret_code (dispatch call)) tid;
  calls = call ∷ [];
}
process_msg mode dispatch (FsyncerMsg.async_op call) = record { replies = []; calls = call ∷ [] }
process_msg mode dispatch (FsyncerMsg.cork tid) = record {
  replies = FsyncerMsg.ack_cork tid ∷ [];
  calls = [];
}
process_msg mode dispatch _ = record { replies = []; calls = [] }

-- `process_ops` over the messages that are read.
unfoldable pub process_ops : ClientMode → (VfsCall → ℕ) → List FsyncerMsg → Reaction
unfolding process_msg
process_ops mode dispatch [] = record { replies = []; calls = [] }
process_ops mode dispatch (msg ∷ msgs) =
    let r = process_msg mode dispatch msg in
    let rest = process_ops mode dispatch msgs in
    record { replies = r.replies ++ rest.replies; calls = r.calls ++ rest.calls }

module _ {Comp : Type 0} (decode : Comp → List ℕ → List ℕ × Comp)
    (deserialize : List ℕ → Option FsyncerMsg) where
  -- The bytes handed to `deserialize`; with a compressor the first four of them are skipped.
  abbrev expand : Option Comp → List ℕ → List ℕ × Option Comp
  expand none msgbuf = (msgbuf, none)
  expand (some rt_comp) msgbuf =
      let (dbuf, rt_comp') = decode rt_comp (drop 4 msgbuf) in (dbuf, some rt_comp')

  abbrev parsed :
      Option Comp → List ℕ → Option FsyncerMsg → Option (FsyncerMsg × Option Comp × List ℕ)
  parsed rt_comp rest none = none
  parsed rt_comp rest (some msg) = some (msg, rt_comp, rest)

  abbrev read_body : ℕ → Option Comp → List ℕ → Option (FsyncerMsg × Option Comp × List ℕ)
  read_body len rt_comp stream =
      if ltb (length stream) len
      then none
      else (let (msgbuf, rt_comp') = expand rt_comp (take len stream) in
          parsed rt_comp' (drop len stream) (deserialize msgbuf))

  -- `read_msg`, on the bytes that the network still delivers; `none` is an error.
  unfoldable pub read_msg : Option Comp → List ℕ → Option (FsyncerMsg × Option Comp × List ℕ)
  unfolding be_value
  read_msg rt_comp (b3 ∷ b2 ∷ b1 ∷ b0 ∷ stream) = read_body (be_value b3 b2 b1 b0) rt_comp stream
  read_msg rt_comp _ = none

  -- The messages that are read before the first error, at most `fuel`.
  unfoldable pub read_msgs : ℕ → Option Comp → List ℕ → List FsyncerMsg
  read_msgs zero rt_comp stream = []
  read_msgs (suc fuel) rt_comp stream = elim (read_msg rt_comp stream) [
    | none ↦ []
    | some (msg, rt_comp', rest) ↦ msg ∷ read_msgs fuel rt_comp' rest
  ]
