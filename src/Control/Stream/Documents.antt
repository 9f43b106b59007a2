-- ===== src/Control/Stream/Documents.antt =====
-- What encoding/json keeps of a control message (pkg/control/types.go and stream.go).
use grpc_mesh_server.Prelude.{
  ℕ, ◌^◌, ◌<◌, ◌≡◌, refl, List, [], ◌∷◌, Option, none, some, arith, Str, str_eq_instance,
}
use grpc_mesh_server.Map.{Map, IsMap, lookup}
use grpc_mesh_server.Control.Messages.{
  Handshake, Heartbeat, ControlMessage, Validity, invalid, validate_basics, validate,
  validate_message, handshake_missing, heartbeat_missing,
}
use grpc_mesh_server.Control.Stream.{Json}

-- A string of ASCII codes; a byte string that is not UTF-8 comes back changed.
abbrev pub IsAscii : Str → Type 0
IsAscii [] = Unit
IsAscii (c ∷ s) = (c < 128) × IsAscii s

abbrev pub Texts : List Str → Type 0
Texts [] = Unit
Texts (s ∷ rest) = IsAscii s × Texts rest

-- A map with ASCII keys and values of the predicate.
abbrev pub Entries : {W : Type 0} → (W → Type 0) → Map Str W → Type 0
Entries P [] = Unit
Entries P ((k, w) ∷ rest) = IsAscii k × P w × Entries P rest

abbrev pub InOption : {A : Type 0} → (A → Type 0) → Option A → Type 0
InOption P none = Unit
InOption P (some a) = P a

pub record IsPlainHandshake (h : Handshake) : Type 0 where
  pub node_id : IsAscii h.node_id
  pub version : IsAscii h.version
  pub features : Texts h.features
  pub metadata : Entries IsAscii h.metadata
  pub metadata_map : IsMap h.metadata
  pub timestamp_sec : h.timestamp_sec < 2 ^ 64
  pub token : IsAscii h.token

pub record IsPlainHeartbeat {V : Type 0} (P : V → Type 0) (h : Heartbeat V) : Type 0 where
  pub node_id : IsAscii h.node_id
  pub timestamp_unix_sec : h.timestamp_unix_sec < 2 ^ 64
  pub sequence : h.sequence < 2 ^ 64
  pub metrics : Entries P h.metrics
  pub metrics_map : IsMap h.metrics
  pub status : IsAscii h.status

-- A message of ASCII strings, words of 64 bits, and JSON values of the predicate `P`: those that
-- come back as they are, so for instance float64 values and no other numbers.
pub record IsPlain {V : Type 0} (P : V → Type 0) (m : ControlMessage V) : Type 0 where
  pub kind : IsAscii m.kind
  pub handshake : InOption IsPlainHandshake m.handshake
  pub heartbeat : InOption (IsPlainHeartbeat P) m.heartbeat
  pub payload : Entries P m.payload
  pub payload_map : IsMap m.payload

-- The same entries, in any order.
abbrev pub SameEntries : {W : Type 0} → Map Str W → Map Str W → Type 0
SameEntries m m' = (k : Str) → lookup k m' ≡ lookup k m

abbrev pub BothOrNeither : {A : Type 0} → (A → A → Type 0) → Option A → Option A → Type 0
BothOrNeither R none none = Unit
BothOrNeither R (some a) (some b) = R a b
BothOrNeither R none (some b) = ⊥
BothOrNeither R (some a) none = ⊥

pub record AlikeHandshake (h h' : Handshake) : Type 0 where
  pub node_id : h'.node_id ≡ h.node_id
  pub version : h'.version ≡ h.version
  pub features : h'.features ≡ h.features
  pub metadata : SameEntries h.metadata h'.metadata
  pub timestamp_sec : h'.timestamp_sec ≡ h.timestamp_sec
  pub token : h'.token ≡ h.token

pub record AlikeHeartbeat {V : Type 0} (h h' : Heartbeat V) : Type 0 where
  pub node_id : h'.node_id ≡ h.node_id
  pub timestamp_unix_sec : h'.timestamp_unix_sec ≡ h.timestamp_unix_sec
  pub sequence : h'.sequence ≡ h.sequence
  pub metrics : SameEntries h.metrics h'.metrics
  pub status : h'.status ≡ h.status

-- Two messages that differ at most in the order of their maps.
pub record Alike {V : Type 0} (m m' : ControlMessage V) : Type 0 where
  pub kind : m'.kind ≡ m.kind
  pub handshake : BothOrNeither AlikeHandshake m.handshake m'.handshake
  pub heartbeat : BothOrNeither AlikeHeartbeat m.heartbeat m'.heartbeat
  pub payload : SameEntries m.payload m'.payload

-- The document of a plain message decodes to one that is like it.
pub record IsJson {V : Type 0} (P : V → Type 0) (json : Json V) : Type 0 where
  pub decodes :
      (m : ControlMessage V) (bytes : Str)
      → IsPlain P m
      → json.marshal m ≡ some bytes
      → (m' : ControlMessage V) × (json.unmarshal bytes ≡ some m') × Alike m m'

-- The document of a message, read as a bare handshake, is one without a node: the keys of the
-- envelope are unknown there and are ignored.
abbrev pub IgnoresEnvelope : {V : Type 0} → Json V → Type 0
IgnoresEnvelope {V} json =
    (m : ControlMessage V) (bytes : Str)
    → json.marshal m ≡ some bytes
    → (h : Handshake) × (json.unmarshal_handshake bytes ≡ some h) × (h.node_id ≡ [])

validate-Handshakes :
    (o o' : Option Handshake) (now : ℕ) (missing : Validity)
    → BothOrNeither AlikeHandshake o o'
    → (elim o' [ none ↦ missing | some h ↦ validate_basics h now ])
      ≡ (elim o [ none ↦ missing | some h ↦ validate_basics h now ])
unfolding validate_basics
validate-Handshakes none none now missing r = refl
validate-Handshakes none (some h') now missing r = elim r [ ]
validate-Handshakes (some h) none now missing r = elim r [ ]
validate-Handshakes (some h) (some h') now missing r =
    rw (r.node_id, r.version, r.timestamp_sec) refl

validate-Heartbeats :
    {V : Type 0} (o o' : Option (Heartbeat V)) (now : ℕ) (missing : Validity)
    → BothOrNeither AlikeHeartbeat o o'
    → (elim o' [ none ↦ missing | some h ↦ validate h now ])
      ≡ (elim o [ none ↦ missing | some h ↦ validate h now ])
unfolding validate
validate-Heartbeats none none now missing r = refl
validate-Heartbeats none (some h') now missing r = elim r [ ]
validate-Heartbeats (some h) none now missing r = elim r [ ]
validate-Heartbeats (some h) (some h') now missing r = rw (r.node_id, r.timestamp_unix_sec) refl

pub validate-Alike :
    {V : Type 0} (m m' : ControlMessage V) (now : ℕ)
    → Alike m m'
    → validate_message m' now ≡ validate_message m now
unfolding validate_message
validate-Alike m m' now a = ground (
  arith,
  a.kind,
  validate-Handshakes m.handshake m'.handshake now (invalid handshake_missing) a.handshake,
  validate-Heartbeats m.heartbeat m'.heartbeat now (invalid heartbeat_missing) a.heartbeat,
)
