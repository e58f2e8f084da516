-- ===== src/Tests/Stream.antt =====
-- The theorems on messages, and on the server and its clients, at concrete inputs.
use fsyncer.Base.{
  ℕ, ok, if◌then◌else◌, ◌==◌, true, false, List, [], ◌∷◌, map, inl, Option, none, some, ◌≡◌, refl,
  arith,
}
use fsyncer.Common.{VfsCall, FsyncerMsg, ClientMode, ClientAck, CompMode, mode_sync}
use fsyncer.Server.Connection.{Client, be_bytes, ClientStatus, slot}
use fsyncer.Server.Ops.{send_ops, send_op}
use fsyncer.Replica.{read_msgs, process_ops, ack_of}
use fsyncer.Wire.{Request, send_all, read_msgs-send_all, IsPlain}
use fsyncer.Protocol.{streams, send_ops-routes}
use fsyncer.Protocol.Answers.{IsAnswered, received, wait-send_op}
use fsyncer.Server.Gate.{Gate, GateStep, GateSteps, new_gate, send, set_cork, cork_clients}
use fsyncer.Protocol.Corked.{IsOrdered, steps-IsOrdered}
use fsyncer.Tests.Hosts.{digest, a_file}

-- A stand-in for bincode on two messages.
abbrev pub two_messages : FsyncerMsg → List ℕ
two_messages (FsyncerMsg.cork tid) = 4 ∷ tid ∷ []
two_messages _ = 7 ∷ []

abbrev parse_two : List ℕ → Option FsyncerMsg
parse_two (t ∷ tid ∷ []) = some (FsyncerMsg.cork tid)
parse_two (t ∷ []) = some FsyncerMsg.nop
parse_two _ = none

-- A stand-in for a realtime compressor.
abbrev pub identity : ℕ → List ℕ → List ℕ × ℕ
identity n bytes = (bytes, n)

abbrev zstd_stream : CompMode
zstd_stream = record {
  rt_dssc_zlib = false;
  rt_dssc_chunked = false;
  rt_dssc_zstd = false;
  stream_zstd = true;
  stream_lz4 = false;
}

abbrev no_compression : CompMode
no_compression = record zstd_stream { stream_zstd = false }

abbrev pub fresh_client : Client ℕ
fresh_client = record {
  mode = mode_sync;
  comp = zstd_stream;
  rt_comp = none;
  parked = [];
  status = ClientStatus.alive;
  written = [];
  flushed = 0;
  writes_ok = true;
}

abbrev cork_request : Request
cork_request = record { msg = FsyncerMsg.cork 9; flush = true; want_response = true; tid = 9 }

read_msgs-send_all_example :
    read_msgs identity parse_two 2 none
      (send_all identity two_messages fresh_client (cork_request ∷ [])).written
    ≡ FsyncerMsg.cork 9 ∷ FsyncerMsg.nop ∷ []
read_msgs-send_all_example =
    read_msgs-send_all identity two_messages identity parse_two zstd_stream (cork_request ∷ [])
      fresh_client 2 (record { mode = refl; alive = refl; writes = refl; plain = refl }) refl
      (
        record { parses = refl; short = omega arith },
        (record { parses = refl; short = omega arith }, tt),
      )
      (omega arith)

abbrev pub flush_client : Client ℕ
flush_client = record fresh_client { mode = ClientMode.mode_flushsync; comp = no_compression }

abbrev pub a_call : VfsCall
a_call = VfsCall.chmod a_file 0o644

abbrev pub plain :
    (c : Client ℕ)
    → c.status ≡ ClientStatus.alive
    → c.writes_ok ≡ true
    → c.rt_comp ≡ none
    → IsPlain identity two_messages c.comp c
plain c s w p = record { mode = refl; alive = s; writes = w; plain = p }

send_ops-routes_example :
    (map
        (λ c. c.written)
        (send_ops identity two_messages digest 0 (fresh_client ∷ flush_client ∷ []) a_call 9).0
      ≡ streams identity two_messages digest (fresh_client ∷ flush_client ∷ []) a_call 9)
    × (map
          (λ c. c.flushed)
          (send_ops identity two_messages digest 0 (fresh_client ∷ flush_client ∷ []) a_call 9).0
        ≡ 10 ∷ 0 ∷ [])
    × ((send_ops identity two_messages digest 0 (fresh_client ∷ flush_client ∷ []) a_call 9).1
        ≡ 0 ∷ [])
unfolding be_bytes
send_ops-routes_example =
    send_ops-routes identity two_messages digest 0 (fresh_client ∷ flush_client ∷ []) a_call 9
      (plain fresh_client refl refl refl, (plain flush_client refl refl refl, tt))

abbrev result_of : VfsCall → ℕ
result_of call = 3

-- A stand-in for bincode on two messages, an operation and NOP.
abbrev op_bytes : FsyncerMsg → List ℕ
op_bytes (FsyncerMsg.sync_op call tid) = 5 ∷ []
op_bytes _ = 7 ∷ []

abbrev parse_op : List ℕ → Option FsyncerMsg
parse_op (t ∷ []) = some (if t == 5 then FsyncerMsg.sync_op a_call 9 else FsyncerMsg.nop)
parse_op _ = none

wait-send_op_example :
    (process_ops ClientMode.mode_sync result_of
        (received identity op_bytes digest identity parse_op 2 fresh_client a_call 9)
      ≡ record { replies = ack_of (ClientAck.ret_code 3) 9 ∷ []; calls = a_call ∷ [] })
    × ((send_op identity op_bytes digest fresh_client a_call 9).1 ≡ ok (some 9))
    × (slot 9 (send_op identity op_bytes digest fresh_client a_call 9).0.parked ≡ some none)
    × IsAnswered identity op_bytes digest 9
        (send_op identity op_bytes digest fresh_client a_call 9).0
        (process_ops ClientMode.mode_sync result_of
          (received identity op_bytes digest identity parse_op 2 fresh_client a_call 9)).replies
        (some (ClientAck.ret_code 3))
unfolding slot
wait-send_op_example =
    wait-send_op identity op_bytes digest identity parse_op zstd_stream fresh_client a_call 9
      result_of 2 (record { mode = refl; alive = refl; writes = refl; plain = refl }) (inl refl)
      (
        record { parses = refl; short = omega arith },
        (record { parses = refl; short = omega arith }, tt),
      )
      (omega arith)

abbrev corked_gate : Gate
corked_gate = cork_clients (set_cork (send new_gate (FsyncerMsg.async_op a_call))) 3

corked_steps : GateSteps new_gate corked_gate
unfolding new_gate send set_cork cork_clients
corked_steps = GateSteps.then (GateStep.pre_op false a_call 0 refl) (
    GateSteps.then (GateStep.cork_start refl)
      (GateSteps.then (GateStep.cork_end 3 refl) GateSteps.stay))

steps-IsOrdered_example : IsOrdered corked_gate
steps-IsOrdered_example = steps-IsOrdered corked_gate corked_steps
