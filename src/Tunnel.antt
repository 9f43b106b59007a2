-- ===== src/Tunnel.antt =====
-- pkg/tunnel/tunnel.go: what becomes of an accepted connection. TLS and yamux are parameters: a
-- `Connection` says how the TLS handshake, `yamux.Server` and `AcceptStream` end, and a yamux session
-- is a number. Logging is left out.
pub mod System
mod Examples
use grpc_mesh_server.Prelude.{
  ℕ, Bool, true, false, Option, none, some, if◌then◌else◌, Str, codes, str_eq,
}
use grpc_mesh_server.Control.Auth.{AuthError, AuthPolicy, authorize_node, granted, refused}
use grpc_mesh_server.Control.Messages.{Handshake, Heartbeat, ControlMessage}
use grpc_mesh_server.Control.Stream as Stream
use grpc_mesh_server.Control.Stream.{
  YamuxStream, ControlStream, StreamError, Json, new_control_stream, set_deadline,
  receive_handshake, receive_control_message_raw,
}
use grpc_mesh_server.Registry.Sessions.{
  SessionManager, SessionError, ok, err, Outcome, done, panicked, register_session, touch_heartbeat,
}

-- Two minutes.
abbrev pub control_read_idle_timeout : ℕ
control_read_idle_timeout = 120_000_000_000

pub record Connection (S : Type 0) : Type 0 where
  pub tls_done : Bool
  pub session : Option ℕ
  pub control : Option S

-- Why `handleConn` returns before it has registered a session.
pub data Refusal : Type 0 where
  tls_failed no_session no_control_stream : Refusal
  handshake_failed : StreamError → Refusal
  not_authorized : AuthError → Refusal
  not_registered : SessionError → Refusal

-- Where `handleConn` stands behind the registration: at its `select`, at the last receive from
-- `readDone`, or at its end.
pub data Stage : Type 0 where
  waiting draining finished : Stage

-- The variables of `handleConn`. `state` is the registered object, `reading` says whether
-- `readControlLoop` runs, and `read_done` is the buffer of the channel, which holds one error.
pub record Handler (S : Type 0) : Type 0 where
  pub peer : Str
  pub state : ℕ
  pub session : ℕ
  pub control : ControlStream S
  pub reading : Bool
  pub read_done : Option StreamError
  pub stage : Stage

pub data Opening (S : Type 0) : Type 0 where
  refuses : Refusal → Opening S
  serves : SessionManager → Handler S → Opening S
  crashes : Opening S

pub data Round (S : Type 0) : Type 0 where
  continues : SessionManager → ControlStream S → Round S
  ends : ControlStream S → StreamError → Round S
  faults : Round S

module _ {S : Type 0} where
  -- The registration, and the start of the read loop, which sets the deadline of its reads.
  unfoldable pub enter : SessionManager → ℕ → ControlStream S → Handshake → ℕ → Opening S
  enter sm y cs h now = elim (register_session sm h.node_id (some h) (some y) now) [
    | panicked sm' ↦ crashes
    | done sm' result ↦ (elim result [
      | err e ↦ refuses (not_registered e)
      | ok id ↦ serves sm' (record {
        peer = h.node_id;
        state = id;
        session = y;
        control = set_deadline cs control_read_idle_timeout;
        reading = true;
        read_done = none;
        stage = waiting;
      })
    ])
  ]

  unfoldable pub authorise :
      AuthPolicy → SessionManager → ℕ → ControlStream S → Handshake → ℕ → Opening S
  unfolding enter
  authorise policy sm y cs h now = elim (authorize_node policy h.node_id h.token) [
    | refused e ↦ refuses (not_authorized e)
    | granted ↦ enter sm y cs h now
  ]

-- One message of the read loop. The result of `hb.Validate` is only logged.
unfoldable pub on_message :
    {V : Type 0} → SessionManager → Str → ℕ → ControlMessage V → ℕ → Outcome (Unit {0})
on_message sm peer state m now =
    if str_eq m.kind (codes "heartbeat")
    then (elim m.heartbeat [
      | none ↦ done sm tt
      | some hb ↦ (if str_eq hb.node_id peer then touch_heartbeat sm state now else done sm tt)
    ])
    else done sm tt

module _ {S V : Type 0} (yamux : YamuxStream S) (json : Json V) where
  unfoldable pub greet : AuthPolicy → SessionManager → ℕ → ControlStream S → ℕ → ℕ → Opening S
  unfolding authorise
  greet policy sm y cs now clock =
      let (cs', result) = receive_handshake yamux json cs now clock in
      elim result [
        | Stream.err e ↦ refuses (handshake_failed e)
        | Stream.ok h ↦ authorise policy sm y cs' h now
      ]

  -- `handleConn` up to the start of the read loop. The registry is touched by the registration alone,
  -- so the whole is one step on it.
  unfoldable pub open_connection : AuthPolicy → SessionManager → Connection S → ℕ → ℕ → Opening S
  unfolding greet
  open_connection policy sm conn now clock =
      if conn.tls_done
      then (elim conn.session [
        | none ↦ refuses no_session
        | some y ↦ (elim conn.control [
          | none ↦ refuses no_control_stream
          | some s ↦ greet policy sm y (new_control_stream s) now clock
        ])
      ])
      else refuses tls_failed

  -- One round of `readControlLoop`.
  unfoldable pub read_round : SessionManager → Handler S → ℕ → Round S
  unfolding on_message
  read_round sm c now =
      let (cs, result) = receive_control_message_raw yamux json c.control now in
      elim result [
        | Stream.err e ↦ ends cs e
        | Stream.ok m ↦ (elim (on_message sm c.peer c.state m now) [
          | panicked sm' ↦ faults
          | done sm' u ↦ continues sm' cs
        ])
      ]
