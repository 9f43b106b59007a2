-- ===== src/Control/Messages/Examples.antt =====
-- Messages at concrete times.
use grpc_mesh_server.Prelude.{
  ℕ, ◌+◌, ◌^◌, ◌≡◌, refl, true, [], ◌∷◌, none, some, arith, codes, str_eq, str_eq_instance,
}
use grpc_mesh_server.Control.Messages.{
  Handshake, Heartbeat, ControlMessage, valid, invalid, handshake_expired, validate_basics,
  validate, supports,
}
use grpc_mesh_server.Control.Messages.Windows.{heartbeat_ancient}

abbrev hello : Handshake
hello = record {
  node_id = codes "a";
  version = codes "1";
  features = codes "rpc" ∷ [];
  metadata = [];
  timestamp_sec = 1_000;
  token = codes "t";
}

abbrev beat : Heartbeat ℕ
beat = record {
  node_id = codes "a";
  timestamp_unix_sec = 1_000;
  sequence = 7;
  metrics = (codes "cpu", 5) ∷ [];
  status = [];
}

too_old : validate_basics hello 1_301 ≡ invalid handshake_expired
unfolding validate_basics
too_old = refl

has_rpc : supports hello (codes "rpc") ≡ true
unfolding supports str_eq
has_rpc = refl

-- The least int64 as a timestamp, in the year 2023.
heartbeat_ancient_example :
    validate (record beat { timestamp_unix_sec = 2 ^ 63 }) 1_700_000_000 ≡ valid
heartbeat_ancient_example =
    heartbeat_ancient (record beat { timestamp_unix_sec = 2 ^ 63 }) 1_700_000_000
      (2 ^ 63 + 1_700_000_000) refl (omega arith) (omega arith) (omega arith) (omega arith)
      (omega arith)

abbrev ping : ControlMessage ℕ
ping = record { kind = codes "heartbeat"; handshake = none; heartbeat = some beat; payload = [] }
