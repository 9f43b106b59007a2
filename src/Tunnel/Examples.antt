-- ===== src/Tunnel/Examples.antt =====
-- One node connects, beats, and closes its control stream.
use grpc_mesh_server.Prelude.{
  ℕ, ◌^◌, ◌≡◌, refl, ◌≢◌, true, false, [], ◌∷◌, none, some, arith, Str, str_eq, codes, leb,
  if◌then◌else◌, length, take, drop, str_eq_instance, nat_eq,
}
use grpc_mesh_server.Map.{lookup, insert, has}
use grpc_mesh_server.Control.Auth.{AuthPolicy, authorize_node, new_auth_policy}
use grpc_mesh_server.Control.Messages.{Handshake, ControlMessage, validate_basics}
use grpc_mesh_server.Control.Stream as Stream
use grpc_mesh_server.Control.Stream.{
  YamuxStream, ControlStream, StreamError, Json, header_read_failed, new_control_stream,
  set_deadline, receive_handshake, receive_frame, receive_control_message_raw, uint32,
}
use grpc_mesh_server.Registry.Sessions.{
  SessionManager, get, done, cleanup, register_session, new_state, new, touch_heartbeat,
}
use grpc_mesh_server.Registry.Sessions.Closing.{IsGood}
use grpc_mesh_server.Tunnel.{
  Connection, Handler, waiting, draining, finished, open_connection, on_message, read_round,
}
use grpc_mesh_server.Tunnel.System.{
  System, Event, Progress, moves, panics, connects, reads, wakes_closed, wakes_read, drains,
  hangs_up, stops, all_finished, step, Reach, here, next, start, cleanup_max_age, is_closed,
}
use grpc_mesh_server.Tunnel.System.Admission.{IsAdmitted}
use grpc_mesh_server.Tunnel.System.Granted.{Reach-IsAdmitted}
use grpc_mesh_server.Tunnel.System.Leaving.{exit_deregisters}
use grpc_mesh_server.Tunnel.System.Wedging.{read_end_wedges}
use grpc_mesh_server.Tunnel.System.Alive.{heartbeat_keeps}

-- A stream is its unread bytes; a read that is too long fails.
abbrev bytes : YamuxStream Str
bytes = record {
  write = λ s b. (s, true);
  read_full = λ s n. if leb n (length s) then (drop n s, some (take n s)) else (s, none);
  set_deadline = λ s t. (s, true);
  close = λ s. ([], true);
}

abbrev hello : Handshake
hello = record {
  node_id = codes "a";
  version = codes "1";
  features = [];
  metadata = [];
  timestamp_sec = 0;
  token = codes "t";
}

abbrev beat : ControlMessage ℕ
beat = record {
  kind = codes "heartbeat";
  handshake = none;
  heartbeat = some (record {
    node_id = codes "a";
    timestamp_unix_sec = 0;
    sequence = 1;
    metrics = [];
    status = [];
  });
  payload = [];
}

-- Two documents: the handshake `h` and the heartbeat `b`.
abbrev json : Json ℕ
json = record {
  marshal = λ m. some (codes "b");
  unmarshal = λ t. if str_eq t (codes "b") then some beat else none;
  unmarshal_handshake = λ t. if str_eq t (codes "h") then some hello else none;
}

abbrev policy : AuthPolicy
policy = new_auth_policy true [] ((codes "a", codes "t") ∷ [])

-- The handshake, then one heartbeat.
abbrev sent : Str
sent = 0 ∷ 0 ∷ 0 ∷ 1 ∷ b'h' ∷ 0 ∷ 0 ∷ 0 ∷ 1 ∷ b'b' ∷ []

abbrev conn : Connection Str
conn = record { tls_done = true; session = some 7; control = some sent }

abbrev reached : Progress Str → System Str
reached (moves t) = t
reached _ = start

abbrev opened : System Str
opened = reached (step bytes json policy start (connects 0 conn 5 0))

abbrev beaten : System Str
beaten = reached (step bytes json policy opened (reads 0 9))

abbrev ended : System Str
ended = reached (step bytes json policy beaten (reads 0 10))

-- The handler of the connection, with the end of its stream read.
abbrev handler : Handler Str
handler = record {
  peer = codes "a";
  state = 0;
  session = 7;
  control = record { stream = []; max_frame = 2 ^ 20; deadline = 120_000_000_000 };
  reading = false;
  read_done = some header_read_failed;
  stage = waiting;
}

abbrev hung : System Str
hung = reached (step bytes json policy ended (hangs_up 7))

abbrev woken : System Str
woken = reached (step bytes json policy hung (wakes_closed 0))

woken_reached : Reach bytes json policy start woken
unfolding step start has lookup insert open_connection receive_handshake receive_frame
    new_control_stream uint32 validate_basics authorize_node new_auth_policy str_eq register_session
    new set_deadline read_round receive_control_message_raw on_message touch_heartbeat is_closed
woken_reached =
    next (wakes_closed 0)
      (next (hangs_up 7)
        (next (reads 0 10) (next (reads 0 9) (next (connects 0 conn 5 0) here refl) refl) refl)
        refl)
      refl

Reach-IsAdmitted_example :
    IsGood woken.manager
    × ((p : Str) (j : ℕ)
        → lookup p woken.manager.sessions ≡ some j
        → IsAdmitted policy woken.manager p j)
    × ((e : Event Str) → step bytes json policy woken e ≢ panics)
Reach-IsAdmitted_example = Reach-IsAdmitted bytes json policy woken_reached

-- The handler takes the error; then the server is stopped.
abbrev stuck : System Str
stuck = reached (step bytes json policy ended (wakes_read 0))

abbrev stopping : System Str
stopping = reached (step bytes json policy stuck stops)

read_end_wedges_example :
    ((d : Handler Str) × (lookup 0 stopping.handlers ≡ some d) × (d.stage ≡ draining))
    × (all_finished stopping.handlers ≡ false)
unfolding step start has lookup insert open_connection receive_handshake receive_frame
    new_control_stream uint32 validate_basics authorize_node new_auth_policy str_eq register_session
    new set_deadline read_round receive_control_message_raw on_message touch_heartbeat is_closed
    Stream.close
read_end_wedges_example =
    read_end_wedges bytes json policy ended stuck stopping 0 handler header_read_failed refl refl
      refl refl refl (next stops here refl)

exit_deregisters_example :
    (t : System Str) × (step bytes json policy woken (drains 0) ≡ moves t)
    × ((d : Handler Str) × (lookup 0 t.handlers ≡ some d) × (d.stage ≡ finished))
    × IsGood t.manager
    × (get t.manager (codes "a") ≢ some 0)
    × ((p : Str) (j : ℕ) → j ≢ 0 → get woken.manager p ≡ some j → get t.manager p ≡ some j)
unfolding step start has lookup insert open_connection receive_handshake receive_frame
    new_control_stream uint32 validate_basics authorize_node new_auth_policy str_eq register_session
    new set_deadline read_round receive_control_message_raw on_message touch_heartbeat is_closed
    Stream.close
exit_deregisters_example =
    exit_deregisters bytes json policy woken 0 (record handler { stage = draining })
      header_read_failed (Reach-IsAdmitted bytes json policy woken_reached).0 refl refl refl

heartbeat_keeps_example :
    (sm1 sm2 : SessionManager) × (n : ℕ) × (on_message opened.manager (codes "a") 0 beat 9
      ≡ done sm1 tt)
    × (cleanup sm1 cleanup_max_age 100_000_000_000 ≡ done sm2 n)
    × (get sm2 (codes "a") ≡ some 0)
unfolding step start has lookup insert open_connection receive_handshake receive_frame
    new_control_stream uint32 validate_basics authorize_node new_auth_policy str_eq register_session
    new set_deadline read_round receive_control_message_raw on_message touch_heartbeat is_closed get
heartbeat_keeps_example =
    heartbeat_keeps opened.manager (codes "a") 0 (new_state (codes "a") hello (some 7) 5) beat
      (record {
        node_id = codes "a";
        timestamp_unix_sec = 0;
        sequence = 1;
        metrics = [];
        status = [];
      })
      9 100_000_000_000
      (Reach-IsAdmitted bytes json policy (next (connects 0 conn 5 0) here refl)).0 refl refl refl
      refl refl refl (omega arith)
