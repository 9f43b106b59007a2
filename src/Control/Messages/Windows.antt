-- ===== src/Control/Messages/Windows.antt =====
-- Which timestamps the validations accept, and what a valid message is.
use grpc_mesh_server.Prelude.{
  ℕ, ◌+◌, ◌^◌, ◌<◌, ◌≤◌, ◌≡◌, ◌↔◌, ◌⊎◌, inl, inr, true, false, [], some, arith, Str, codes,
  is_empty, str_eq, str_eq_iff, if◌then◌else◌, leb, str_eq_instance, Option-cases,
}
use grpc_mesh_server.Map.{lookup, IsMap, has, lookup-copy_into}
use grpc_mesh_server.Control.Words.{int64_sign, int64_mod}
use grpc_mesh_server.Control.Messages.{
  Handshake, Heartbeat, ControlMessage, valid, heartbeat_expired, invalid, validate_basics,
  validate, validate_message, clone, new_heartbeat_message,
}

-- A handshake is valid exactly if it names a node and a version and its timestamp is not positive as
-- an int64, or at most 300 seconds old; any time in the future is accepted.
pub handshake_window :
    (h : Handshake) (now : ℕ)
    → now < int64_sign
    → h.timestamp_sec < int64_mod
    → (validate_basics h now ≡ valid) ↔ (
        (is_empty h.node_id ≡ false)
        × (is_empty h.version ≡ false)
        × ((h.timestamp_sec ≡ 0) ⊎ (int64_sign ≤ h.timestamp_sec) ⊎ (now ≤ h.timestamp_sec + 300)))
unfolding validate_basics
handshake_window h now n t = ground arith

-- A heartbeat message made at `now` for a nonempty node passes the message validation at every
-- later time up to 120 seconds on, and fails it as expired after that.
pub fresh_heartbeat :
    (V : Type 0) (node_id : Str) (sequence now later : ℕ)
    → is_empty node_id ≡ false
    → now ≤ later
    → later < 2 ^ 62
    → validate_message {V = V} (new_heartbeat_message node_id sequence now) later
      ≡ (if leb later (now + 120) then valid else invalid heartbeat_expired)
unfolding validate_message validate new_heartbeat_message str_eq
fresh_heartbeat V node_id sequence now later i n l = ground arith

kind-cases : (kind a : Str) → ((kind ≡ a) × (str_eq kind a ≡ true)) ⊎ (str_eq kind a ≡ false)
kind-cases kind a = ground (arith, str_eq_iff kind a)

module _ {V : Type 0} where
  -- For times below 2 ^ 62 a heartbeat is valid exactly if it names a node and is at most 10 seconds
  -- ahead of the server's clock and at most 120 seconds behind it.
  pub heartbeat_window :
      (h : Heartbeat V) (now : ℕ)
      → now < 2 ^ 62
      → h.timestamp_unix_sec < 2 ^ 62
      → (validate h now ≡ valid) ↔ (
          (is_empty h.node_id ≡ false)
          × (h.timestamp_unix_sec ≤ now + 10)
          × (now ≤ h.timestamp_unix_sec + 120))
  unfolding validate
  heartbeat_window h now n t = ground arith

  -- A heartbeat from so far in the past that its age overflows an int64 is valid: a negative
  -- timestamp whose distance from `now` is 2 ^ 63 seconds or more.
  pub heartbeat_ancient :
      (h : Heartbeat V) (now age : ℕ)
      → is_empty h.node_id ≡ false
      → now + 10 < int64_sign
      → int64_sign ≤ h.timestamp_unix_sec
      → h.timestamp_unix_sec < int64_mod
      → h.timestamp_unix_sec + age ≡ int64_mod + now
      → int64_sign ≤ age
      → validate h now ≡ valid
  unfolding validate
  heartbeat_ancient h now age i n s m a b = ground arith

  abbrev GoodMessage : ControlMessage V → ℕ → Type 0
  GoodMessage m now =
      ((m.kind ≡ codes "handshake")
        × (h : Handshake) × (m.handshake ≡ some h)
        × (validate_basics h now ≡ valid))
      ⊎ ((m.kind ≡ codes "heartbeat")
          × (h : Heartbeat V) × (m.heartbeat ≡ some h)
          × (validate h now ≡ valid))
      ⊎ (m.kind ≡ codes "custom")
      ⊎ (m.kind ≡ codes "update_methods")

  message_valid_only :
      (m : ControlMessage V) (now : ℕ) → validate_message m now ≡ valid → GoodMessage m now
  unfolding validate_message
  message_valid_only m now v = elim (kind-cases m.kind (codes "handshake")) [
    | inl (k, t) ↦ elim (Option-cases m.handshake) [
      | inl e ↦ absurd (ground arith)
      | inr (h, e) ↦ inl (k, h, e, ground arith)
    ]
    | inr f ↦ elim (kind-cases m.kind (codes "heartbeat")) [
      | inl (k, t) ↦ elim (Option-cases m.heartbeat) [
        | inl e ↦ absurd (ground arith)
        | inr (h, e) ↦ inr (inl (k, h, e, ground arith))
      ]
      | inr g ↦ elim (kind-cases m.kind (codes "custom")) [
        | inl (k, t) ↦ inr (inr (inl k))
        | inr c ↦ elim (kind-cases m.kind (codes "update_methods")) [
          | inl (k, t) ↦ inr (inr (inr k))
          | inr u ↦ absurd (ground arith)
        ]
      ]
    ]
  ]

  message_valid_if :
      (m : ControlMessage V) (now : ℕ) → GoodMessage m now → validate_message m now ≡ valid
  unfolding validate_message str_eq
  message_valid_if m now (inl (k, h, e, v)) = rw (k, e) v
  message_valid_if m now (inr (inl (k, h, e, v))) = rw (k, e) v
  message_valid_if m now (inr (inr (inl k))) = rw k
  message_valid_if m now (inr (inr (inr k))) = rw k

  -- A message is valid exactly if it is a handshake or a heartbeat with a valid payload of its
  -- own type, or of the type `custom` or `update_methods`.
  pub message_valid :
      (m : ControlMessage V) (now : ℕ)
      → (validate_message m now ≡ valid) ↔ (
          ((m.kind ≡ codes "handshake")
            × (h : Handshake) × (m.handshake ≡ some h)
            × (validate_basics h now ≡ valid))
          ⊎ ((m.kind ≡ codes "heartbeat")
              × (h : Heartbeat V) × (m.heartbeat ≡ some h)
              × (validate h now ≡ valid))
          ⊎ (m.kind ≡ codes "custom")
          ⊎ (m.kind ≡ codes "update_methods"))
  message_valid m now = (message_valid_only m now, message_valid_if m now)

  -- The copy of a heartbeat whose metrics have one entry for each key has the same fields, and the
  -- same metric under every key.
  pub clone_same :
      (h : Heartbeat V) (k : Str)
      → IsMap h.metrics
      → ((clone h).node_id ≡ h.node_id)
        × ((clone h).timestamp_unix_sec ≡ h.timestamp_unix_sec)
        × ((clone h).sequence ≡ h.sequence)
        × ((clone h).status ≡ h.status)
        × (lookup k (clone h).metrics ≡ lookup k h.metrics)
  unfolding clone has lookup
  clone_same h k m = ground (arith, lookup-copy_into k [] h.metrics m)
