-- ===== src/Tunnel/System/Opening.antt =====
-- A connection that opens keeps the registry sound, and so does a message.
use grpc_mesh_server.Prelude.{
  ℕ, Bool, ◌⊎◌, ◌≡◌, refl, inl, inr, true, false, Option, none, some, arith, if◌then◌else◌, Str,
  str_eq, str_eq_instance, nat_eq, Option-cases, Bool-cases, codes,
}
use grpc_mesh_server.Map.{Map}
use grpc_mesh_server.Control.Auth.{AuthPolicy}
use grpc_mesh_server.Control.Messages.{Handshake, ControlMessage}
use grpc_mesh_server.Control.Stream as Stream
use grpc_mesh_server.Control.Stream.{
  close, StreamError, YamuxStream, ControlStream, Json, new_control_stream, receive_handshake,
  receive_control_message_raw, set_deadline,
}
use grpc_mesh_server.Registry.Sessions.{SessionManager, done, touch_heartbeat}
use grpc_mesh_server.Tunnel.{
  Connection, Handler, refuses, handshake_failed, no_session, no_control_stream, tls_failed,
  authorise, greet, open_connection, on_message,
}
use grpc_mesh_server.Tunnel.System.Admission.{IsSound, Opened, authorise-Opened}

-- A message touches the heartbeat of the session, or does nothing.
pub message_effect :
    {V : Type 0} (sm : SessionManager) (peer : Str) (state : ℕ) (m : ControlMessage V) (now : ℕ)
    → (on_message sm peer state m now ≡ done sm tt)
      ⊎ (on_message sm peer state m now ≡ touch_heartbeat sm state now)
unfolding on_message
message_effect sm peer state m now = elim (Bool-cases (str_eq m.kind (codes "heartbeat"))) [
  | inr f ↦ inl (rw f refl)
  | inl t ↦ elim (Option-cases m.heartbeat) [
    | inl n ↦ inl (ground arith)
    | inr (hb, b) ↦ elim (Bool-cases (str_eq hb.node_id peer)) [
      | inl u ↦ inr (ground arith)
      | inr u ↦ inl (ground arith)
    ]
  ]
]

module _ {S V : Type 0} (yamux : YamuxStream S) (json : Json V) (policy : AuthPolicy) where
  pub greet-Opened :
      (sm : SessionManager) (hs : Map ℕ (Handler S)) (i y : ℕ) (cs : ControlStream S)
      (now clock : ℕ)
      → IsSound policy sm hs
      → Opened policy sm hs i (greet yamux json policy sm y cs now clock)
  unfolding greet
  greet-Opened sm hs i y cs now clock o = go (receive_handshake yamux json cs now clock)
    where
      go :
          (r : ControlStream S × Stream.Result Handshake)
          → Opened policy sm hs i (elim (r.1) [
            | Stream.err e ↦ refuses (handshake_failed e)
            | Stream.ok h ↦ authorise policy sm y r.0 h now
          ])
      go (cs', Stream.ok h) = authorise-Opened policy sm hs i y cs' h now o
      go (cs', Stream.err e) = tt

  pub open-Opened :
      (sm : SessionManager) (hs : Map ℕ (Handler S)) (i : ℕ) (conn : Connection S) (now clock : ℕ)
      → IsSound policy sm hs
      → Opened policy sm hs i (open_connection yamux json policy sm conn now clock)
  unfolding open_connection
  open-Opened sm hs i conn now clock o = go conn.tls_done conn.session conn.control
    where
      go :
          (b : Bool) (y : Option ℕ) (s : Option S)
          → Opened policy sm hs i (
              if b
              then (elim y [
                | none ↦ refuses no_session
                | some n ↦ (elim s [
                  | none ↦ refuses no_control_stream
                  | some t ↦ greet yamux json policy sm n (new_control_stream t) now clock
                ])
              ])
              else refuses tls_failed)
      go true (some y) (some s) = greet-Opened sm hs i y (new_control_stream s) now clock o
      go true (some y) none = tt
      go true none s = tt
      go false y s = tt
