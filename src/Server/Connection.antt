-- ===== src/Server/Connection.antt =====
-- fsyncd/src/server/client.rs: what the server keeps of a connected client, how a message is sent to
-- it and how its answers are handed to the threads that wait.
--
-- `serialize` of bincode and the realtime compressor of the dssc submodule are parameters. The state
-- behind the client's mutex is one record; a thread's `ClientResponse`, shared between `parked` and
-- the thread, is the entry of its thread id in `parked`. The network enters by `writes_ok`: whether
-- the writes of the next message all succeed. It changes between messages (`Protocol.Harvested`). The
-- part of a message that is written before a write fails is left out: the client is dead then.
use fsyncer.Base.{
  ℕ, ◌/◌, ◌%◌, ◌^◌, Bool, true, false, ◌||◌, List, [], ◌∷◌, ◌++◌, length, Option, none, some,
  Outcome, ok, err, other, if◌then◌else◌, ◌==◌,
}
use fsyncer.Common.{ClientMode, CompMode, ClientAck, FsyncerMsg}

pub data ClientStatus : Type 0 where
  dead alive : ClientStatus

-- A slot of `parked` is the `data` of a `ClientResponse`.
pub record Client (Comp : Type 0) : Type 0 where
  pub mode : ClientMode
  pub comp : CompMode
  pub rt_comp : Option Comp
  pub parked : List (ℕ × Option ClientAck)
  pub status : ClientStatus
  pub written : List ℕ
  pub flushed : ℕ
  pub writes_ok : Bool

-- The four bytes of `write_u32::<BigEndian>`.
unfoldable pub be_bytes : ℕ → List ℕ
be_bytes n = (n / 2 ^ 24 % 256) ∷ (n / 2 ^ 16 % 256) ∷ (n / 2 ^ 8 % 256) ∷ (n % 256) ∷ []

-- `comp.intersects(CompMode::STREAM_MASK)`.
abbrev pub is_stream : CompMode → Bool
is_stream comp = comp.stream_zstd || comp.stream_lz4

-- `parked.get(&tid)`.
unfoldable pub slot : ℕ → List (ℕ × Option ClientAck) → Option (Option ClientAck)
slot tid [] = none
slot tid ((t, s) ∷ parked) = if t == tid then some s else slot tid parked

-- The slot of `tid` set to `s`, a new one if there is none.
unfoldable pub set_slot :
    ℕ → Option ClientAck → List (ℕ × Option ClientAck) → List (ℕ × Option ClientAck)
set_slot tid s [] = (tid, s) ∷ []
set_slot tid s ((t, old) ∷ parked) =
    if t == tid then (t, s) ∷ parked else (t, old) ∷ set_slot tid s parked

-- `entry(tid).or_insert_with(|| ClientResponse::new())`.
unfoldable pub park : ℕ → List (ℕ × Option ClientAck) → List (ℕ × Option ClientAck)
park tid parked = elim (slot tid parked) [ none ↦ set_slot tid none parked | some s ↦ parked ]

abbrev pub map_slots :
    (Option ClientAck → Option ClientAck)
    → List (ℕ × Option ClientAck)
    → List (ℕ × Option ClientAck)
map_slots f [] = []
map_slots f ((t, s) ∷ parked) = (t, f s) ∷ map_slots f parked

module _ {Comp : Type 0} where
  abbrev pub flush_write : Client Comp → Client Comp
  flush_write c = record c { flushed = length c.written }

  -- `ClientResponse::notify`.
  unfoldable pub notify : ℕ → ClientAck → Client Comp → Client Comp
  notify tid answer c = record c { parked = set_slot tid (some answer) c.parked }

  abbrev notify_parked : ℕ → ClientAck → Client Comp → Option (Option ClientAck) → Client Comp
  notify_parked tid answer c none = c
  notify_parked tid answer c (some s) = notify tid answer c

  abbrev take_slot : ℕ → Client Comp → Option (Option ClientAck) → Client Comp × Option ClientAck
  take_slot tid c (some (some answer)) =
      (record c { parked = set_slot tid none c.parked }, some answer)
  take_slot tid c _ = (c, none)

  -- `ClientResponse::wait` at the moment it is answered or times out: it takes what is in the slot.
  unfoldable pub wait : ℕ → Client Comp → Client Comp × Option ClientAck
  wait tid c = take_slot tid c (slot tid c.parked)

  -- `Client::reader` on a message that concerns this client alone; `none` is a failed read.
  unfoldable pub reader : Client Comp → Option FsyncerMsg → Client Comp
  reader c none = record c { status = ClientStatus.dead }
  reader c (some (FsyncerMsg.ack_cork tid)) = notify_parked tid ClientAck.ack c (slot tid c.parked)
  reader c (some (FsyncerMsg.ack_msg msg)) = notify msg.tid msg.retcode c
  reader c (some _) = c

  -- `Drop for Client`.
  unfoldable pub drop_client : Client Comp → Client Comp
  drop_client c = record c { parked = map_slots (λ s. some ClientAck.dead) c.parked }

module _ {Comp : Type 0} (encode : Comp → List ℕ → List ℕ × Comp)
    (serialize : FsyncerMsg → List ℕ) where
  -- The bytes of a message, compressed if the client asked for it.
  abbrev compress : Option Comp → List ℕ → List ℕ × Option Comp
  compress none serbuf = (serbuf, none)
  compress (some rt_comp) serbuf =
      let (nbuf, rt_comp') = encode rt_comp serbuf in (nbuf, some rt_comp')

  -- `write_u32` of the size and `write_all` of the bytes.
  unfoldable pub write_frame : Client Comp → List ℕ → Client Comp
  write_frame c serbuf =
      let (buf, rt_comp) = compress c.rt_comp serbuf in
      record c { written = c.written ++ (be_bytes (length buf) ++ buf); rt_comp = rt_comp }

  -- `inner` where the writes succeed: a flush under a stream compressor is followed by a NOP and
  -- another flush.
  unfoldable pub inner : Client Comp → List ℕ → Bool → Client Comp
  inner c serbuf flush =
      let c' = write_frame c serbuf in
      if flush
      then (if is_stream c.comp
          then flush_write (write_frame (flush_write c') (serialize FsyncerMsg.nop))
          else flush_write c')
      else c'

  abbrev send : Client Comp → List ℕ → Bool → Option ℕ → Client Comp × Outcome (Option ℕ)
  send c serbuf flush resp =
      if c.writes_ok
      then (inner c serbuf flush, ok resp)
      else (record c { status = ClientStatus.dead }, err other)

  abbrev respond :
      ClientStatus → Client Comp → FsyncerMsg → Bool → Bool → ℕ → Client Comp × Outcome (Option ℕ)
  respond ClientStatus.dead c msg flush want_response tid = (c, err other)
  respond ClientStatus.alive c msg flush want_response tid =
      if want_response
      then send (record c { parked = park tid c.parked }) (serialize msg) flush (some tid)
      else send c (serialize msg) flush none

  -- `Client::response_msg`. The response is the calling thread's id, under which it is parked.
  unfoldable pub response_msg :
      Client Comp → FsyncerMsg → Bool → Bool → ℕ → Client Comp × Outcome (Option ℕ)
  response_msg c msg flush want_response tid = respond c.status c msg flush want_response tid

  -- `Client::flush`.
  unfoldable pub flush_client : Client Comp → ℕ → Client Comp × Outcome (Option ℕ)
  flush_client c tid =
      if is_stream c.comp
      then response_msg c FsyncerMsg.nop true false tid
      else (if c.writes_ok then (flush_write c, ok none) else (c, err other))
