-- ===== src/Control/Stream.antt =====
-- pkg/control/stream.go. The yamux stream is a parameter: its type `S` and the three operations that
-- the code calls. So is encoding/json. Times and deadlines are nanoseconds.
pub mod Frames
pub mod Documents
pub mod Exchange
pub mod Features
mod Toy
mod Examples
use grpc_mesh_server.Prelude.{
  ℕ, ◌+◌, ◌*◌, ◌/◌, ◌%◌, ◌^◌, Bool, true, false, not, ◌||◌, List, [], ◌∷◌, ◌++◌, Option, none, some,
  ltb, if◌then◌else◌, length, any, Str, codes, str_eq, str_eq_instance,
}
use grpc_mesh_server.Map.{Map, insert, has}
use grpc_mesh_server.Control.Messages.{
  Handshake, Heartbeat, ControlMessage, MessageError, valid, invalid, validate_basics,
  validate_message,
}

-- `write` and `set_deadline` say whether they succeeded; `read_full` is `io.ReadFull`.
pub record YamuxStream (S : Type 0) : Type 0 where
  pub write : S → Str → S × Bool
  pub read_full : S → ℕ → S × Option Str
  pub set_deadline : S → ℕ → S × Bool
  pub close : S → S × Bool

pub record ControlStream (S : Type 0) : Type 0 where
  pub stream : S
  pub max_frame : ℕ
  pub deadline : ℕ

pub data StreamError : Type 0 where
  frame_too_large frame_over_limit : ℕ → ℕ → StreamError
  deadline_failed header_write_failed payload_write_failed : StreamError
  header_read_failed payload_read_failed : StreamError
  marshal_failed unmarshal_failed : StreamError
  expected_heartbeat : Str → StreamError
  heartbeat_nil not_a_handshake : StreamError
  rejected : MessageError → StreamError

pub data Result (A : Type 0) : Type 0 where
  ok : A → Result A
  err : StreamError → Result A

abbrev pub default_max_frame : ℕ
default_max_frame = 2 ^ 20

-- `PutUint32` of the length, as a uint32.
unfoldable pub put_uint32 : ℕ → Str
put_uint32 n = n / 2 ^ 24 % 256 ∷ n / 2 ^ 16 % 256 ∷ n / 2 ^ 8 % 256 ∷ n % 256 ∷ []

uint32_from : ℕ → Str → ℕ
uint32_from acc [] = acc
uint32_from acc (b ∷ bytes) = uint32_from (acc * 256 + b) bytes

-- `Uint32` of a four-byte header.
unfoldable pub uint32 : Str → ℕ
unfolding uint32_from
uint32 header = uint32_from 0 header

module _ {S : Type 0} where
  unfoldable pub new_control_stream : S → ControlStream S
  new_control_stream stream = record {
    stream = stream;
    max_frame = default_max_frame;
    deadline = 30_000_000_000;
  }

  unfoldable pub set_deadline : ControlStream S → ℕ → ControlStream S
  set_deadline cs d = record cs { deadline = d }

module _ {S : Type 0} (yamux : YamuxStream S) where
  unfoldable pub close : ControlStream S → ControlStream S × Bool
  close cs = let (s, done) = yamux.close cs.stream in (record cs { stream = s }, done)

  apply_deadline : ControlStream S → ℕ → S × Bool
  apply_deadline cs now =
      if ltb 0 cs.deadline
      then yamux.set_deadline cs.stream (now + cs.deadline)
      else (cs.stream, true)

  -- The two writes, once the deadline is set.
  write_frame : S → Str → S × Result (Unit {0})
  write_frame s payload =
      let (s', header_done) = yamux.write s (put_uint32 (length payload)) in
      let (s'', payload_done) = yamux.write s' payload in
      if header_done
      then (if payload_done then (s'', ok tt) else (s'', err payload_write_failed))
      else (s', err header_write_failed)

  unfoldable pub send_frame : ControlStream S → ℕ → Str → ControlStream S × Result (Unit {0})
  unfolding apply_deadline write_frame
  send_frame cs now payload =
      let (s, set) = apply_deadline cs now in
      let (s', result) = write_frame s payload in
      if ltb cs.max_frame (length payload)
      then (cs, err (frame_too_large (length payload) cs.max_frame))
      else if set
      then (record cs { stream = s' }, result)
      else (record cs { stream = s }, err deadline_failed)

  read_payload : S → ℕ → S × Result Str
  read_payload s size =
      let (s', payload) = yamux.read_full s size in
      (s', (elim payload [ none ↦ err payload_read_failed | some p ↦ ok p ]))

  -- Behind the header: the test of the length, and the payload.
  read_body : S → ℕ → ℕ → S × Result Str
  unfolding read_payload
  read_body s size limit =
      let body = read_payload s size in
      if ltb limit size then (s, err (frame_over_limit size limit)) else body

  read_frame : S → ℕ → S × Result Str
  unfolding read_body
  read_frame s limit =
      let (s', header) = yamux.read_full s 4 in
      elim header [ none ↦ (s', err header_read_failed) | some h ↦ read_body s' (uint32 h) limit ]

  unfoldable pub receive_frame : ControlStream S → ℕ → ControlStream S × Result Str
  unfolding apply_deadline read_frame
  receive_frame cs now =
      let (s, set) = apply_deadline cs now in
      let (s', result) = read_frame s cs.max_frame in
      if set
      then (record cs { stream = s' }, result)
      else (record cs { stream = s }, err deadline_failed)

-- encoding/json, at the types that the stream exchanges.
pub record Json (V : Type 0) : Type 0 where
  pub marshal : ControlMessage V → Option Str
  pub unmarshal : Str → Option (ControlMessage V)
  pub unmarshal_handshake : Str → Option Handshake

module _ {S V : Type 0} (yamux : YamuxStream S) (json : Json V) where
  unfoldable pub send_json :
      ControlStream S → ℕ → ControlMessage V → ControlStream S × Result (Unit {0})
  send_json cs now m = elim (json.marshal m) [
    | none ↦ (cs, err marshal_failed)
    | some bytes ↦ send_frame yamux cs now bytes
  ]

  -- `ReceiveFrame`, and `decode` on its payload.
  abbrev decoded :
      {A : Type 0} → ControlStream S → ℕ → (Str → Result A) → ControlStream S × Result A
  decoded cs now decode =
      let (cs', result) = receive_frame yamux cs now in
      (cs', (elim result [ ok bytes ↦ decode bytes | err e ↦ err e ]))

  -- `ReceiveJSON` into a `ControlMessage`, and a test on the message.
  abbrev checked : (ControlMessage V → Result (ControlMessage V)) → Str → Result (ControlMessage V)
  checked test bytes = elim (json.unmarshal bytes) [ none ↦ err unmarshal_failed | some m ↦ test m ]

  pub send_handshake : ControlStream S → ℕ → Handshake → ControlStream S × Result (Unit {0})
  unfolding send_json
  send_handshake cs now h =
      send_json cs now
        (record { kind = codes "handshake"; handshake = some h; heartbeat = none; payload = [] })

  -- The direct handshake document, without the envelope of a control message; `clock` is the Unix
  -- time of the validation.
  decode_handshake : ℕ → Str → Result Handshake
  decode_handshake clock bytes = elim (json.unmarshal_handshake bytes) [
    | none ↦ err unmarshal_failed
    | some h ↦ (elim (validate_basics h clock) [ valid ↦ ok h | invalid e ↦ err (rejected e) ])
  ]

  unfoldable pub receive_handshake : ControlStream S → ℕ → ℕ → ControlStream S × Result Handshake
  unfolding decode_handshake
  receive_handshake cs now clock = decoded cs now (decode_handshake clock)

  pub send_heartbeat : ControlStream S → ℕ → Heartbeat V → ControlStream S × Result (Unit {0})
  unfolding send_json
  send_heartbeat cs now h =
      send_json cs now
        (record { kind = codes "heartbeat"; handshake = none; heartbeat = some h; payload = [] })

  decode_heartbeat : Str → Result (Heartbeat V)
  decode_heartbeat bytes = elim (json.unmarshal bytes) [
    | none ↦ err unmarshal_failed
    | some m ↦
        (if str_eq m.kind (codes "heartbeat")
          then (elim m.heartbeat [ none ↦ err heartbeat_nil | some h ↦ ok h ])
          else err (expected_heartbeat m.kind))
  ]

  unfoldable pub receive_heartbeat : ControlStream S → ℕ → ControlStream S × Result (Heartbeat V)
  unfolding decode_heartbeat
  receive_heartbeat cs now = decoded cs now decode_heartbeat

  pub send_control_message :
      ControlStream S → ℕ → ControlMessage V → ControlStream S × Result (Unit {0})
  unfolding send_json
  send_control_message cs now m = send_json cs now m

  unfoldable pub receive_control_message :
      ControlStream S → ℕ → ℕ → ControlStream S × Result (ControlMessage V)
  receive_control_message cs now clock =
      decoded cs now (
        checked
          λ m. elim (validate_message m clock) [ valid ↦ ok m | invalid e ↦ err (rejected e) ])

  unfoldable pub receive_control_message_raw :
      ControlStream S → ℕ → ControlStream S × Result (ControlMessage V)
  receive_control_message_raw cs now = decoded cs now (checked ok)

  pub parse_handshake_frame : Str → Result Handshake
  parse_handshake_frame bytes = elim (json.unmarshal bytes) [
    | none ↦ err unmarshal_failed
    | some m ↦
        (if str_eq m.kind (codes "handshake")
          then (elim m.handshake [ none ↦ err not_a_handshake | some h ↦ ok h ])
          else err not_a_handshake)
  ]

-- `normalizeFeatures`; `seen` is the set built so far, and the rest of the result follows what is
-- appended.
normalize_from : Map Str Bool → List Str → List Str
unfolding has insert
normalize_from seen [] = []
normalize_from seen (f ∷ features) =
    let old = has f seen in
    let rest = normalize_from (if old then seen else insert f true seen) features in
    if old then rest else f ∷ rest

pub normalize_features : List Str → List Str
unfolding normalize_from
normalize_features features = normalize_from [] features

set_from : Map Str Bool → List Str → Map Str Bool
set_from acc [] = acc
set_from acc (item ∷ items) = set_from (insert item true acc) items

pub to_set : List Str → Map Str Bool
unfolding set_from
to_set items = set_from [] items
