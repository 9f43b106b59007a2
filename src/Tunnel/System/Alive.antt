-- ===== src/Tunnel/System/Alive.antt =====
-- A heartbeat keeps its session through the cleanups of the next two minutes.
use grpc_mesh_server.Prelude.{
  ℕ, ◌+◌, ◌≤◌, ◌≡◌, true, some, arith, Str, str_eq_iff, str_eq_instance, nat_eq, codes,
}
use grpc_mesh_server.Map.{lookup, insert}
use grpc_mesh_server.Control.Messages.{Heartbeat, ControlMessage}
use grpc_mesh_server.Registry.Sessions.{
  SessionState, SessionManager, done, cleanup, get, touch_heartbeat,
}
use grpc_mesh_server.Registry.Sessions.Closing.{IsGood}
use grpc_mesh_server.Registry.Sessions.Surviving.{touched_survives}
use grpc_mesh_server.Tunnel.{on_message}
use grpc_mesh_server.Tunnel.System.{cleanup_max_age}

-- A heartbeat of the node itself, whatever its timestamp says, keeps its connected session
-- registered through a cleanup up to two minutes after it was read.
pub heartbeat_keeps :
    {V : Type 0} (sm : SessionManager) (peer : Str) (id : ℕ) (s : SessionState)
    (m : ControlMessage V) (hb : Heartbeat V) (now later : ℕ)
    → IsGood sm
    → get sm peer ≡ some id
    → lookup id sm.objects ≡ some s
    → s.connected ≡ true
    → m.kind ≡ codes "heartbeat"
    → m.heartbeat ≡ some hb
    → hb.node_id ≡ peer
    → later ≤ now + cleanup_max_age
    → (sm1 sm2 : SessionManager) × (n : ℕ) × (on_message sm peer id m now ≡ done sm1 tt)
      × (cleanup sm1 cleanup_max_age later ≡ done sm2 n)
      × (get sm2 peer ≡ some id)
heartbeat_keeps sm peer id s m hb now later g a o c k b p le =
    let (sm2, n, q, r) = touched_survives sm peer id s cleanup_max_age now later g a o c le in
    (
      record sm { objects = insert id (record s { last_heartbeat = now }) sm.objects },
      sm2,
      n,
      (unfold on_message touch_heartbeat in
          ground
            (arith, k, b, o, str_eq_iff m.kind (codes "heartbeat"), str_eq_iff hb.node_id peer)),
      q,
      r,
    )
