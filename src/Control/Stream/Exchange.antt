-- ===== src/Control/Stream/Exchange.antt =====
-- Messages from one end of a stream to the other.
use mathlib.Core.List.{append-nil}
use grpc_mesh_server.Prelude.{
  ℕ, ◌^◌, ◌<◌, ◌≤◌, ◌≡◌, inl, inr, ◌∙◌, true, [], ◌++◌, none, some, arith, Str, codes, Option-cases,
}
use grpc_mesh_server.Control.Messages.{
  Handshake, ControlMessage, Validity, valid, invalid, validate_message, validate_basics,
  node_id_required,
}
use grpc_mesh_server.Control.Stream.{
  YamuxStream, ControlStream, Result, ok, err, rejected, Json, send_json, send_handshake,
  send_control_message, receive_frame, receive_handshake, receive_control_message,
  receive_control_message_raw, send_frame,
}
use grpc_mesh_server.Control.Stream.Documents.{
  IsPlain, Alike, IsJson, IgnoresEnvelope, validate-Alike,
}
use grpc_mesh_server.Control.Stream.Frames.{
  frame, IsReader, IsWriter, send_frame_sends, receive_frame_round_trip,
}

abbrev pub verdict : {V : Type 0} → ControlMessage V → Validity → Result (ControlMessage V)
verdict m valid = ok m
verdict m (invalid e) = err (rejected e)

envelope : {V : Type 0} → Handshake → ControlMessage V
envelope h = record { kind = codes "handshake"; handshake = some h; heartbeat = none; payload = [] }

module _ {S V : Type 0} (yamux : YamuxStream S) (json : Json V) (unread sent : S → Str)
    (reader : IsReader yamux unread) (writer : IsWriter yamux sent)
    (deadlines : (s : S) (t : ℕ) → (yamux.set_deadline s t).1 ≡ true) where
  delivered :
      (from to : ControlStream S) (now later : ℕ) (bytes : Str)
      → from.max_frame ≤ to.max_frame
      → to.max_frame < 2 ^ 32
      → (send_frame yamux from now bytes).1 ≡ ok tt
      → sent from.stream ≡ []
      → unread to.stream ≡ sent (send_frame yamux from now bytes).0.stream
      → (receive_frame yamux to later).1 ≡ ok bytes
  delivered from to now later bytes le lt done empty link =
      let s = (send_frame_sends yamux sent writer from now bytes).1 done in
      let u : unread to.stream ≡ frame bytes ++ [] =
        link ∙ s.1 ∙ rw (empty, append-nil (frame bytes)) in
      (receive_frame_round_trip yamux unread reader deadlines to later bytes [] lt
        (omega (arith, s.0)) u).0

  received :
      (from to : ControlStream S) (now later : ℕ) (m : ControlMessage V)
      → from.max_frame ≤ to.max_frame
      → to.max_frame < 2 ^ 32
      → (send_json yamux json from now m).1 ≡ ok tt
      → sent from.stream ≡ []
      → unread to.stream ≡ sent (send_json yamux json from now m).0.stream
      → (bytes : Str) × (json.marshal m ≡ some bytes)
        × ((receive_frame yamux to later).1 ≡ ok bytes)
  unfolding send_json
  received from to now later m le lt done empty link = elim (Option-cases (json.marshal m)) [
    | inl e ↦ absurd (ground arith)
    | inr (bytes, e) ↦ (
      bytes,
      e,
      delivered from to now later bytes le lt (rw (e, send_json) at done) empty
          (rw (e, send_json) at link),
    )
  ]

  -- A plain control message that one end sends over a fresh stream, without an error and within the
  -- receiver's limit, reaches the other end as a message that is like it, with the entries of its
  -- maps in any order: the lenient receive returns that message; the strict one returns it if the
  -- message that was sent is valid at that time, and the validation error of the one sent otherwise.
  pub message_round_trip :
      (P : V → Type 0) (laws : IsJson P json) (from to : ControlStream S) (now later clock : ℕ)
      (m : ControlMessage V)
      → IsPlain P m
      → from.max_frame ≤ to.max_frame
      → to.max_frame < 2 ^ 32
      → (send_control_message yamux json from now m).1 ≡ ok tt
      → sent from.stream ≡ []
      → unread to.stream ≡ sent (send_control_message yamux json from now m).0.stream
      → (m' : ControlMessage V) × Alike m m'
        × ((receive_control_message_raw yamux json to later).1 ≡ ok m')
        × ((receive_control_message yamux json to later clock).1
            ≡ verdict m' (validate_message m clock))
  unfolding send_control_message receive_control_message_raw receive_control_message
  message_round_trip P laws from to now later clock m plain le lt done empty link =
      let (bytes, e, r) = received from to now later m le lt done empty link in
      let (m', d, a) = laws.decodes m bytes plain e in
      let v = validate-Alike m m' clock a in
      (m', a, ground (arith, r, d), rw⁻¹ v (ground (arith, r, d)))

  -- Where the keys of the envelope are ignored in a bare handshake, a handshake that `SendHandshake`
  -- sends over a fresh stream is never accepted by `ReceiveHandshake`, which reads the document
  -- without its envelope: it fails with "node_id is required", whatever the handshake says.
  pub sent_handshake_refused :
      (ignores : IgnoresEnvelope json) (from to : ControlStream S) (now later clock : ℕ)
      (h : Handshake)
      → from.max_frame ≤ to.max_frame
      → to.max_frame < 2 ^ 32
      → (send_handshake yamux json from now h).1 ≡ ok tt
      → sent from.stream ≡ []
      → unread to.stream ≡ sent (send_handshake yamux json from now h).0.stream
      → (receive_handshake yamux json to later clock).1 ≡ err (rejected node_id_required)
  unfolding envelope send_handshake receive_handshake validate_basics
  sent_handshake_refused ignores from to now later clock h le lt done empty link =
      let m = envelope h in
      let (bytes, e, r) = received from to now later m le lt done empty link in
      let (h', d, n) = ignores m bytes e in ground arith
