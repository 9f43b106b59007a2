-- ===== src/Control/Stream/Toy.antt =====
-- A small document format that keeps to the laws of encoding/json.
use grpc_mesh_server.Prelude.{
  ℕ, zero, suc, ◌<◌, ◌≡◌, refl, Bool, true, false, ◌&&◌, List, [], ◌∷◌, Option, none, some, arith,
  ◌==◌, Str, codes, is_empty, str_eq, str_eq_iff, str_eq_instance, if◌then◌else◌,
}
use grpc_mesh_server.Map.{Map}
use grpc_mesh_server.Control.Messages.{Handshake, Heartbeat, ControlMessage}
use grpc_mesh_server.Control.Stream.{Json}
use grpc_mesh_server.Control.Stream.Documents.{
  IsJson, IgnoresEnvelope, AlikeHandshake, AlikeHeartbeat, BothOrNeither,
}

abbrev pub blank : Str → Handshake
blank node = record {
  node_id = node;
  version = [];
  features = [];
  metadata = [];
  timestamp_sec = 0;
  token = [];
}

abbrev is_nil : {A : Type 0} → List A → Bool
is_nil [] = true
is_nil (x ∷ xs) = false

unfoldable pub is_plain : Handshake → Bool
is_plain h =
    is_empty h.version
    && is_nil h.features
    && is_nil h.metadata
    && (h.timestamp_sec == 0)
    && is_empty h.token

-- A toy format: a message without payload, the envelope of a handshake with a node only, or a
-- custom message with one value.
unfoldable pub toy_marshal : Str → Option Handshake → Option (Heartbeat ℕ) → Map Str ℕ → Option Str
toy_marshal kind none none [] = some (0 ∷ kind)
toy_marshal kind (some h) none [] =
    if str_eq kind (codes "handshake") && is_plain h then some (1 ∷ h.node_id) else none
toy_marshal kind none none ((k, v) ∷ []) =
    if str_eq kind (codes "custom") then some (2 ∷ v ∷ k) else none
toy_marshal kind _ _ _ = none

pub toy_unmarshal : Str → Option (ControlMessage ℕ)
toy_unmarshal [] = none
toy_unmarshal (zero ∷ kind) =
    some (record { kind = kind; handshake = none; heartbeat = none; payload = [] })
toy_unmarshal (suc zero ∷ node) = some (record {
  kind = codes "handshake";
  handshake = some (blank node);
  heartbeat = none;
  payload = [];
})
toy_unmarshal (suc (suc n) ∷ []) = none
toy_unmarshal (suc (suc n) ∷ v ∷ k) =
    some
      (record { kind = codes "custom"; handshake = none; heartbeat = none; payload = (k, v) ∷ [] })

abbrev pub toy : Json ℕ
toy = record {
  marshal = λ m. toy_marshal m.kind m.handshake m.heartbeat m.payload;
  unmarshal = toy_unmarshal;
  unmarshal_handshake = λ bytes. some (blank []);
}

pub plain-blank : (h : Handshake) → is_plain h ≡ true → h ≡ blank h.node_id
unfolding is_plain
plain-blank h e = ground arith

toy_decodes :
    (kind : Str) (h : Option Handshake) (b : Option (Heartbeat ℕ)) (p : Map Str ℕ) (bytes : Str)
    → toy_marshal kind h b p ≡ some bytes
    → toy_unmarshal bytes ≡ some (record { kind = kind; handshake = h; heartbeat = b; payload = p })
unfolding toy_marshal toy_unmarshal
toy_decodes kind none none [] bytes e = ground arith
toy_decodes kind (some h) none [] bytes e =
    ground (arith, plain-blank h, str_eq_iff kind (codes "handshake"))
toy_decodes kind none none ((k, v) ∷ []) bytes e = ground (arith, str_eq_iff kind (codes "custom"))
toy_decodes kind none none (x ∷ y ∷ p) bytes e = cc
toy_decodes kind (some h) none (x ∷ p) bytes e = cc
toy_decodes kind none (some b) p bytes e = cc
toy_decodes kind (some h) (some b) p bytes e = cc

-- A value is a byte.
abbrev pub IsByte : ℕ → Type 0
IsByte v = v < 256

same_handshake : (o : Option Handshake) → BothOrNeither AlikeHandshake o o
same_handshake none = tt
same_handshake (some h) = record {
  node_id = refl;
  version = refl;
  features = refl;
  metadata = λ k. refl;
  timestamp_sec = refl;
  token = refl;
}

same_heartbeat : (o : Option (Heartbeat ℕ)) → BothOrNeither AlikeHeartbeat o o
same_heartbeat none = tt
same_heartbeat (some h) = record {
  node_id = refl;
  timestamp_unix_sec = refl;
  sequence = refl;
  metrics = λ k. refl;
  status = refl;
}

pub toy-IsJson : IsJson IsByte toy
toy-IsJson = record {
  decodes = λ m bytes plain e. (
    m,
    toy_decodes m.kind m.handshake m.heartbeat m.payload bytes e,
    record {
      kind = refl;
      handshake = same_handshake m.handshake;
      heartbeat = same_heartbeat m.heartbeat;
      payload = λ k. refl;
    },
  );
}

pub toy-IgnoresEnvelope : IgnoresEnvelope toy
toy-IgnoresEnvelope m bytes e = (blank [], refl, refl)
