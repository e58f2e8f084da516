-- ===== src/Wire.antt =====
-- The stream from the server to a client: what `Client::response_msg` (fsyncd/src/server/client.rs)
-- writes and `ServerConnection::read_msg` (fsyncd/src/client/mod.rs) reads, with no realtime
-- compressor. The stream compressors and the network hand the bytes on in order.
use mathlib.Core.List.{append_assoc, append-nil}
use fsyncer.Base.{
  ℕ, zero, suc, ◌^◌, ◌<◌, ◌≤◌, ◌≡◌, refl, ap, sym, ◌∙◌, Bool, true, false, List, [], ◌∷◌, ◌++◌,
  length, All, ltb_past, length-append, take-append, drop-append, Option, none, some, if◌then◌else◌,
  arith, ◌/◌, ◌%◌, Bool-cases, inl, inr,
}
use fsyncer.Common.{ClientAck, CompMode, FsyncerMsg}
use fsyncer.Server.Connection.{
  Client, ClientStatus, be_bytes, is_stream, response_msg, inner, write_frame, flush_write, park,
}
use fsyncer.Replica.{be_value, read_msg, read_msgs}

be_value-be_bytes :
    (n : ℕ)
    → n < 2 ^ 32
    → be_value (n / 2 ^ 24 % 256) (n / 2 ^ 16 % 256) (n / 2 ^ 8 % 256) (n % 256) ≡ n
unfolding be_value
be_value-be_bytes n h = omega arith

module _ (serialize : FsyncerMsg → List ℕ) where
  abbrev pub frame : FsyncerMsg → List ℕ
  frame msg = be_bytes (length (serialize msg)) ++ serialize msg

  abbrev pub frames : List FsyncerMsg → List ℕ
  frames [] = []
  frames (msg ∷ msgs) = frame msg ++ frames msgs

  frames-append : (xs ys : List FsyncerMsg) → frames (xs ++ ys) ≡ frames xs ++ frames ys
  frames-append [] ys = refl
  frames-append (x ∷ xs) ys =
      ap (λ l. frame x ++ l) (frames-append xs ys)
      ∙ sym (append_assoc (frame x) (frames xs) (frames ys))

-- The messages that one `response_msg` puts on the stream: its own, and a NOP after a flush under a
-- stream compressor.
abbrev pub sent_msgs : CompMode → FsyncerMsg → Bool → List FsyncerMsg
sent_msgs comp msg flush =
    msg ∷ (if flush then (if is_stream comp then FsyncerMsg.nop ∷ [] else []) else [])

module _ {Comp : Type 0} (encode : Comp → List ℕ → List ℕ × Comp)
    (serialize : FsyncerMsg → List ℕ) where
  -- A live client whose writes succeed, in the compression mode `comp` and with no realtime
  -- compressor.
  pub record IsPlain (comp : CompMode) (c : Client Comp) : Type 0 where
    pub mode : c.comp ≡ comp
    pub alive : c.status ≡ ClientStatus.alive
    pub writes : c.writes_ok ≡ true
    pub plain : c.rt_comp ≡ none

  write_frame-written :
      (c : Client Comp) (bytes : List ℕ)
      → c.rt_comp ≡ none
      → ((write_frame encode serialize c bytes).written
          ≡ c.written ++ (be_bytes (length bytes) ++ bytes))
        × ((write_frame encode serialize c bytes).rt_comp ≡ none)
  unfolding write_frame
  write_frame-written c bytes plain = (rw plain, rw plain)

  inner-written :
      (c : Client Comp) (msg : FsyncerMsg) (flush : Bool)
      → c.rt_comp ≡ none
      → ((inner encode serialize c (serialize msg) flush).written
          ≡ c.written ++ frames serialize (sent_msgs c.comp msg flush))
        × ((inner encode serialize c (serialize msg) flush).rt_comp ≡ none)
  unfolding inner
  inner-written c msg false plain = (
    rw append-nil (write_frame-written c (serialize msg) plain).0,
    (write_frame-written c (serialize msg) plain).1,
  )
  inner-written c msg true plain =
      let w = write_frame-written c (serialize msg) plain in
      let c' = flush_write (write_frame encode serialize c (serialize msg)) in
      let nop_frame = frame serialize FsyncerMsg.nop in
      let v = write_frame-written c' (serialize FsyncerMsg.nop) w.1 in
      elim (Bool-cases (is_stream c.comp)) [
        | inl stream ↦ rw stream (
          rw append-nil (
              v.0
              ∙ ap (λ l. l ++ nop_frame) w.0
              ∙ append_assoc c.written (frame serialize msg) nop_frame),
          v.1,
        )
        | inr direct ↦ rw direct (rw append-nil w.0, w.1)
      ]

  inner-IsPlain :
      (comp : CompMode) (c : Client Comp) (msg : FsyncerMsg) (flush : Bool)
      → IsPlain comp c
      → IsPlain comp (inner encode serialize c (serialize msg) flush)
  inner-IsPlain comp c msg flush p = record {
    mode = unfold inner write_frame in (ground (arith, p.mode));
    alive = unfold inner write_frame in (ground (arith, p.alive));
    writes = unfold inner write_frame in (ground (arith, p.writes));
    plain = (inner-written c msg flush p.plain).1;
  }

  -- `response_msg` of a live client, its response aside.
  response_msg-eq-inner :
      (comp : CompMode) (c : Client Comp) (msg : FsyncerMsg) (flush want : Bool) (tid : ℕ)
      → IsPlain comp c
      → (parked : List (ℕ × Option ClientAck)) × ((response_msg encode serialize c msg flush want
            tid).0
          ≡ inner encode serialize (record c { parked = parked }) (serialize msg) flush)
  unfolding response_msg
  response_msg-eq-inner comp c msg flush true tid p =
      (park tid c.parked, rw p.alive (rw p.writes refl))
  response_msg-eq-inner comp c msg flush false tid p = (c.parked, rw p.alive (rw p.writes refl))

  -- A flush comes last, and without one nothing is flushed.
  inner-flushed :
      (c : Client Comp) (bytes : List ℕ) (flush : Bool)
      → (inner encode serialize c bytes flush).flushed
        ≡ (if flush then length (inner encode serialize c bytes flush).written else c.flushed)
  unfolding inner write_frame
  inner-flushed c bytes false = refl
  inner-flushed c bytes true = elim (Bool-cases (is_stream c.comp)) [
    | inl stream ↦ rw stream refl
    | inr direct ↦ rw direct refl
  ]

  pub response_msg-flushed :
      (comp : CompMode) (c : Client Comp) (msg : FsyncerMsg) (flush want : Bool) (tid : ℕ)
      → IsPlain comp c
      → (response_msg encode serialize c msg flush want tid).0.flushed ≡ (
          if flush
          then length (response_msg encode serialize c msg flush want tid).0.written
          else c.flushed)
  response_msg-flushed comp c msg flush want tid p =
      let (parked, e) = response_msg-eq-inner comp c msg flush want tid p in
      rw e (inner-flushed (record c { parked = parked }) (serialize msg) flush)

  inner-parked :
      (c : Client Comp) (bytes : List ℕ) (flush : Bool)
      → (inner encode serialize c bytes flush).parked ≡ c.parked
  unfolding inner write_frame
  inner-parked c bytes false = refl
  inner-parked c bytes true = elim (Bool-cases (is_stream c.comp)) [
    | inl stream ↦ rw stream refl
    | inr direct ↦ rw direct refl
  ]

  pub response_msg-parked :
      (comp : CompMode) (c : Client Comp) (msg : FsyncerMsg) (flush want : Bool) (tid : ℕ)
      → IsPlain comp c
      → (response_msg encode serialize c msg flush want tid).0.parked
        ≡ (if want then park tid c.parked else c.parked)
  unfolding response_msg
  response_msg-parked comp c msg flush true tid p = rw p.alive (
      rw p.writes (
        inner-parked
          (record c { parked = park tid c.parked; status = ClientStatus.alive; writes_ok = true })
          (serialize msg) flush))
  response_msg-parked comp c msg flush false tid p = rw p.alive (
      rw p.writes (
        inner-parked (record c { status = ClientStatus.alive; writes_ok = true }) (serialize msg)
          flush))

  -- What a request puts on the stream, and that the next one finds the same kind of client.
  pub response_msg-written :
      (comp : CompMode) (c : Client Comp) (msg : FsyncerMsg) (flush want : Bool) (tid : ℕ)
      → IsPlain comp c
      → ((response_msg encode serialize c msg flush want tid).0.written
          ≡ c.written ++ frames serialize (sent_msgs comp msg flush))
        × IsPlain comp (response_msg encode serialize c msg flush want tid).0
  response_msg-written comp c msg flush want tid p =
      let (parked, e) = response_msg-eq-inner comp c msg flush want tid p in
      let c' : Client Comp = record c { parked = parked } in
      let p' : IsPlain comp c' = record {
        mode = p.mode;
        alive = p.alive;
        writes = p.writes;
        plain = p.plain;
      } in
      let w = (inner-written c' msg flush p.plain).0 in
      rw e (
        w ∙ ap (λ m. c.written ++ frames serialize (sent_msgs m msg flush)) p.mode,
        inner-IsPlain comp c' msg flush p',
      )

module _ {Comp : Type 0} (decode : Comp → List ℕ → List ℕ × Comp) (serialize : FsyncerMsg → List ℕ)
    (deserialize : List ℕ → Option FsyncerMsg) where
  -- What is relied on of bincode for a message: its bytes are read back, and their number fits the
  -- four bytes of the size.
  pub record IsSendable (msg : FsyncerMsg) : Type 0 where
    pub parses : deserialize (serialize msg) ≡ some msg
    pub short : length (serialize msg) < 2 ^ 32

  read_msg-frame :
      (msg : FsyncerMsg) (rest : List ℕ)
      → IsSendable msg
      → read_msg decode deserialize none (frame serialize msg ++ rest) ≡ some (msg, none, rest)
  unfolding read_msg be_bytes
  read_msg-frame msg rest p = rw (be_value-be_bytes (length (serialize msg)) p.short) (
      rw
        (ltb_past (length (serialize msg ++ rest)) (length (serialize msg))
          (omega (arith, length-append (serialize msg) rest)))
        (rw (take-append (serialize msg) rest)
          (rw (drop-append (serialize msg) rest) (rw p.parses refl))))

  pub read_msgs-frames :
      (msgs : List FsyncerMsg) (fuel : ℕ)
      → All IsSendable msgs
      → length msgs ≤ fuel
      → read_msgs decode deserialize fuel none (frames serialize msgs) ≡ msgs
  unfolding read_msgs
  read_msgs-frames [] zero ps h = refl
  read_msgs-frames [] (suc fuel) ps h = unfold read_msg in refl
  read_msgs-frames (msg ∷ msgs) zero ps h = absurd (omega (arith, h))
  read_msgs-frames (msg ∷ msgs) (suc fuel) ps h =
      rw (read_msg-frame msg (frames serialize msgs) ps.0, read_msgs)
        (ap (λ l. msg ∷ l) (read_msgs-frames msgs fuel ps.1 (omega (arith, h))))

-- A call of `response_msg`.
pub record Request : Type 0 where
  pub msg : FsyncerMsg
  pub flush : Bool
  pub want_response : Bool
  pub tid : ℕ

abbrev pub requested : CompMode → List Request → List FsyncerMsg
requested comp [] = []
requested comp (r ∷ rs) = sent_msgs comp r.msg r.flush ++ requested comp rs

module _ {Comp : Type 0} (encode : Comp → List ℕ → List ℕ × Comp)
    (serialize : FsyncerMsg → List ℕ) where
  -- The client after the calls, made in order under its mutex.
  abbrev pub send_all : Client Comp → List Request → Client Comp
  send_all c [] = c
  send_all c (r ∷ rs) =
      send_all (response_msg encode serialize c r.msg r.flush r.want_response r.tid).0 rs

  send_all-written :
      (comp : CompMode) (rs : List Request) (c : Client Comp)
      → IsPlain encode serialize comp c
      → (send_all c rs).written ≡ c.written ++ frames serialize (requested comp rs)
  send_all-written comp [] c p = sym (append-nil c.written)
  send_all-written comp (r ∷ rs) c p =
      let w = response_msg-written encode serialize comp c r.msg r.flush r.want_response r.tid p in
      let sent = sent_msgs comp r.msg r.flush in
      send_all-written comp rs
        (response_msg encode serialize c r.msg r.flush r.want_response r.tid).0 w.1
      ∙ ap (λ l. l ++ frames serialize (requested comp rs)) w.0
      ∙ append_assoc c.written (frames serialize sent) (frames serialize (requested comp rs))
      ∙ ap (λ l. c.written ++ l) (sym (frames-append serialize sent (requested comp rs)))

  -- Requests sent to a fresh live client without a realtime compressor, writes succeeding, are read
  -- by the replica as their messages, in order, with a NOP after each flush under a stream
  -- compressor; `deserialize` reads back what `serialize` wrote of them, in less than 2 ^ 32 bytes.
  -- As many steps as there are messages are enough.
  pub read_msgs-send_all :
      (decode : Comp → List ℕ → List ℕ × Comp) (deserialize : List ℕ → Option FsyncerMsg)
      (comp : CompMode) (rs : List Request) (c : Client Comp) (fuel : ℕ)
      → IsPlain encode serialize comp c
      → c.written ≡ []
      → All (IsSendable decode serialize deserialize) (requested comp rs)
      → length (requested comp rs) ≤ fuel
      → read_msgs decode deserialize fuel none (send_all c rs).written ≡ requested comp rs
  read_msgs-send_all decode deserialize comp rs c fuel p fresh sendable h =
      rw (send_all-written comp rs c p) (
        rw fresh
          (read_msgs-frames decode serialize deserialize (requested comp rs) fuel sendable h))
