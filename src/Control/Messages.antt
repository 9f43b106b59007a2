-- ===== src/Control/Messages.antt =====
-- pkg/control/types.go. Timestamps are int64 patterns (Words), `now` is `time.Now().Unix()`, and `V`
-- is the type of the JSON values that a heartbeat and a message carry.
pub mod Windows
mod Examples
use grpc_mesh_server.Prelude.{
  ℕ, ◌+◌, Bool, true, false, ◌&&◌, ◌||◌, List, [], ◌∷◌, Option, none, some, if◌then◌else◌, ◌==◌,
  any, Str, codes, is_empty, str_eq, str_eq_instance,
}
use grpc_mesh_server.Map.{Map, insert, copy_into}
use grpc_mesh_server.Control.Words.{gt_int64, add_int64, sub_int64}

pub data MessageError : Type 0 where
  node_id_required version_required type_required : MessageError
  handshake_expired heartbeat_expired heartbeat_in_future : MessageError
  handshake_missing heartbeat_missing : MessageError
  unknown_type : Str → MessageError

pub data Validity : Type 0 where
  valid : Validity
  invalid : MessageError → Validity

pub record Handshake : Type 0 where
  pub node_id : Str
  pub version : Str
  pub features : List Str
  pub metadata : Map Str Str
  pub timestamp_sec : ℕ
  pub token : Str

unfoldable pub validate_basics : Handshake → ℕ → Validity
validate_basics h now =
    if is_empty h.node_id
    then invalid node_id_required
    else if is_empty h.version
    then invalid version_required
    else if gt_int64 h.timestamp_sec 0 && gt_int64 (sub_int64 now h.timestamp_sec) 300
    then invalid handshake_expired
    else valid

pub supports : Handshake → Str → Bool
supports h feature = any (λ f. str_eq f feature) h.features

pub record Heartbeat (V : Type 0) : Type 0 where
  pub node_id : Str
  pub timestamp_unix_sec : ℕ
  pub sequence : ℕ
  pub metrics : Map Str V
  pub status : Str

module _ {V : Type 0} where
  pub ensure_timestamp : Heartbeat V → ℕ → Heartbeat V
  ensure_timestamp h now =
      if h.timestamp_unix_sec == 0 then record h { timestamp_unix_sec = now } else h

  unfoldable pub validate : Heartbeat V → ℕ → Validity
  validate h now =
      if is_empty h.node_id
      then invalid node_id_required
      else if gt_int64 h.timestamp_unix_sec (add_int64 now 10)
      then invalid heartbeat_in_future
      else if gt_int64 (sub_int64 now h.timestamp_unix_sec) 120
      then invalid heartbeat_expired
      else valid

  pub clone : Heartbeat V → Heartbeat V
  unfolding copy_into
  clone h = record {
    node_id = h.node_id;
    timestamp_unix_sec = h.timestamp_unix_sec;
    sequence = h.sequence;
    metrics = copy_into [] h.metrics;
    status = h.status;
  }

-- The field `Type` is `kind`.
pub record ControlMessage (V : Type 0) : Type 0 where
  pub kind : Str
  pub handshake : Option Handshake
  pub heartbeat : Option (Heartbeat V)
  pub payload : Map Str V

module _ {V : Type 0} where
  unfoldable pub validate_message : ControlMessage V → ℕ → Validity
  validate_message m now =
      if is_empty m.kind
      then invalid type_required
      else if str_eq m.kind (codes "handshake")
      then (elim m.handshake [ none ↦ invalid handshake_missing | some h ↦ validate_basics h now ])
      else if str_eq m.kind (codes "heartbeat")
      then (elim m.heartbeat [ none ↦ invalid heartbeat_missing | some h ↦ validate h now ])
      else if str_eq m.kind (codes "custom") || str_eq m.kind (codes "update_methods")
      then valid
      else invalid (unknown_type m.kind)

  unfoldable pub new_heartbeat_message : Str → ℕ → ℕ → ControlMessage V
  new_heartbeat_message node_id sequence now = record {
    kind = codes "heartbeat";
    handshake = none;
    heartbeat = some (record {
      node_id = node_id;
      timestamp_unix_sec = now;
      sequence = sequence;
      metrics = [];
      status = [];
    });
    payload = [];
  }
