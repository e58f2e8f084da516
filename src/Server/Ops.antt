-- ===== src/Server/Ops.antt =====
-- fsyncd/src/server/mod.rs: `pre_op` and `post_op`, what the server does before and after each call
-- that changes the backing store, and the wrapper around them in fsyncd/src/fuse_hl/write_unix.rs.
--
-- The list of clients is what `SYNC_LIST` holds; a wait is the position of its client there, the
-- response being that client's slot for the thread. A client that the harvester removes stays in
-- the list as `drop_client` leaves it. `pre_op` starts where the gate `CORK` is
-- open (`Server.Gate`).
use fsyncer.Base.{
  ℕ, zero, suc, Bool, true, false, ◌&&◌, ◌||◌, List, [], ◌∷◌, ◌++◌, Option, none, some, Outcome, ok,
  panic, ◌>>=◌, if◌then◌else◌,
}
use fsyncer.Common.{VfsCall, ClientMode, FsyncerMsg}
use fsyncer.Common.Paths.{FilePath}
use fsyncer.Host.{JournalType, Host}
use fsyncer.Bilog.{BilogEntry, try_from}
use fsyncer.Server.Connection.{Client, response_msg, wait}

-- `is_variant!(&*call, VFSCall::fsync, struct)`.
abbrev pub is_fsync : VfsCall → Bool
is_fsync (VfsCall.fsync path isdatasync) = true
is_fsync _ = false

infix 50 ◌is◌
-- `==` of modes.
abbrev pub ◌is◌ : ClientMode → ClientMode → Bool
ClientMode.mode_async is ClientMode.mode_async = true
ClientMode.mode_sync is ClientMode.mode_sync = true
ClientMode.mode_semisync is ClientMode.mode_semisync = true
ClientMode.mode_flushsync is ClientMode.mode_flushsync = true
ClientMode.mode_control is ClientMode.mode_control = true
_ is _ = false

-- The clients to which a call is not sent.
unfoldable pub skips : ClientMode → VfsCall → Bool
skips mode call =
    mode is ClientMode.mode_control
    || (is_fsync call && (mode is ClientMode.mode_async || mode is ClientMode.mode_semisync))

-- Whether the call is sent with a request for an answer.
unfoldable pub is_sync : ClientMode → VfsCall → Bool
is_sync mode call =
    mode is ClientMode.mode_sync
    || mode is ClientMode.mode_semisync
    || (mode is ClientMode.mode_flushsync && is_fsync call)

abbrev pub op_msg : Bool → VfsCall → ℕ → FsyncerMsg
op_msg sync call tid = if sync then FsyncerMsg.sync_op call tid else FsyncerMsg.async_op call

-- What `write_entry` is given.
pub data JournalRecord : Type 0 where
  bilog_record : BilogEntry → JournalRecord
  forward_record : VfsCall → JournalRecord

pub record OpRef : Type 0 where
  pub ret : Option ℕ
  pub waits : List ℕ

-- `is_variant!(bilog, BilogEntry::filestore, struct)`, and what `pre_op` then returns to the caller.
abbrev pub bypass : BilogEntry → Option ℕ
bypass (BilogEntry.filestore path token) = some 0
bypass _ = none

abbrev expect : {A : Type 0} → Outcome A → Outcome A
expect (ok a) = ok a
expect _ = panic

-- The part of `pre_op` for the journal: the operation's early result, and what is written.
unfoldable pub journal_op :
    (List ℕ → ℕ)
    → Option JournalType
    → VfsCall
    → FilePath
    → Host
    → Outcome (Option ℕ × List JournalRecord)
journal_op crc none call server_path host = ok (none, [])
journal_op crc (some JournalType.bilog) call server_path host = do
  entry ← expect (try_from crc call server_path host)
  ok (bypass entry, JournalRecord.bilog_record entry ∷ [])
journal_op crc (some JournalType.forward) call server_path host =
    ok (none, JournalRecord.forward_record call ∷ [])
journal_op crc (some _) call server_path host = panic

-- What an operation leaves: the clients, the journal's new records, the result that the caller of
-- the file system gets, and whether the call on the backing store was made.
pub record OpResult (Clients : Type 0) : Type 0 where
  pub clients : Clients
  pub records : List JournalRecord
  pub ret : ℕ
  pub called : Bool

abbrev pub waits_of : ℕ → Outcome (Option ℕ) → List ℕ
waits_of i (ok (some tid)) = i ∷ []
waits_of i _ = []

module _ {Comp : Type 0} where
  abbrev nth_wait : ℕ → ℕ → List (Client Comp) → List (Client Comp)
  nth_wait tid i [] = []
  nth_wait tid zero (c ∷ cs) = (wait tid c).0 ∷ cs
  nth_wait tid (suc i) (c ∷ cs) = c ∷ nth_wait tid i cs

  -- `post_op`, at the moment each wait ends: the answers are only compared and reported.
  unfoldable pub post_op : ℕ → List ℕ → ℕ → List (Client Comp) → List (Client Comp) × ℕ
  post_op tid [] ret cs = (cs, ret)
  post_op tid (i ∷ waits) ret cs = post_op tid waits ret (nth_wait tid i cs)

module _ {Comp : Type 0} (encode : Comp → List ℕ → List ℕ × Comp) (serialize : FsyncerMsg → List ℕ)
    (crc : List ℕ → ℕ) where
  -- The body of the loop of `pre_op` for one client.
  unfoldable pub send_op : Client Comp → VfsCall → ℕ → Client Comp × Outcome (Option ℕ)
  send_op c call tid =
      if skips c.mode call
      then (c, ok none)
      else (let sync = is_sync c.mode call in
          response_msg encode serialize c (op_msg sync call tid) sync sync tid)

  -- The loop of `pre_op` over the clients from position `i` on.
  unfoldable pub send_ops : ℕ → List (Client Comp) → VfsCall → ℕ → List (Client Comp) × List ℕ
  send_ops i [] call tid = ([], [])
  send_ops i (c ∷ cs) call tid =
      let (c', response) = send_op c call tid in
      let (cs', waits) = send_ops (suc i) cs call tid in (c' ∷ cs', waits_of i response ++ waits)

  -- `pre_op`, with the journal's records appended to those before.
  unfoldable pub pre_op :
      List (Client Comp)
      → Option JournalType
      → VfsCall
      → ℕ
      → FilePath
      → Host
      → Outcome (List (Client Comp) × List JournalRecord × OpRef)
  pre_op clients journal call tid server_path host = do
    let (clients', waits) = send_ops 0 clients call tid
    (ret, records) ← journal_op crc journal call server_path host
    ok (clients', records, record { ret = ret; waits = waits })

  abbrev finish :
      (List (Client Comp) → List (Client Comp))
      → ℕ
      → ℕ
      → List (Client Comp)
      → List JournalRecord
      → List ℕ
      → Option ℕ
      → OpResult (List (Client Comp))
  finish arrive tid res clients records waits (some r) = record {
    clients = clients;
    records = records;
    ret = r;
    called = false;
  }
  finish arrive tid res clients records waits none =
      let (clients', ret) = post_op tid waits res (arrive clients) in
      record { clients = clients'; records = records; ret = ret; called = true }

  -- An operation of the front end: `pre_op`, the call on the backing store, `post_op`. `res` is the
  -- result of the call, `arrive` what the readers do meanwhile.
  unfoldable pub do_op :
      (List (Client Comp) → List (Client Comp))
      → ℕ
      → List (Client Comp)
      → Option JournalType
      → VfsCall
      → ℕ
      → FilePath
      → Host
      → Outcome (OpResult (List (Client Comp)))
  do_op arrive res clients journal call tid server_path host = do
    (clients', records, opref) ← pre_op clients journal call tid server_path host
    ok (finish arrive tid res clients' records opref.waits opref.ret)
