-- ===== src/Registry/Sessions/Surviving.antt =====
-- A session whose heartbeat was touched, at the next cleanups.
use grpc_mesh_server.Prelude.{
  ℕ, ◌+◌, ◌≤◌, ◌≡◌, refl, true, false, some, arith, Str, str_eq_instance, nat_eq,
}
use grpc_mesh_server.Map.{lookup, insert, lookup-insert_self}
use grpc_mesh_server.Registry.Sessions.{SessionState, SessionManager, done, cleanup, get, is_stale}
use grpc_mesh_server.Registry.Sessions.Closing.{IsGood}
use grpc_mesh_server.Registry.Sessions.Pruning.{cleanup_lem}
use grpc_mesh_server.Registry.Sessions.History.{touched-IsGood}

pub touched_survives :
    (sm : SessionManager) (peer : Str) (id : ℕ) (s : SessionState) (age now later : ℕ)
    → IsGood sm
    → get sm peer ≡ some id
    → lookup id sm.objects ≡ some s
    → s.connected ≡ true
    → later ≤ now + age
    → (sm2 : SessionManager) × (n : ℕ) × (cleanup
          (record sm { objects = insert id (record s { last_heartbeat = now }) sm.objects })
          age
          later
        ≡ done sm2 n)
      × (get sm2 peer ≡ some id)
unfolding get
touched_survives sm peer id s age now later g a o c le =
    let t = record s { last_heartbeat = now } in
    let sm1 : SessionManager = record sm { objects = insert id t sm.objects } in
    let (sm2, n, q, r) = cleanup_lem age later sm1 (touched-IsGood sm id s t g o refl refl) in
    let fresh : is_stale age later t ≡ false = unfold is_stale in ground (arith, c) in
    let here : lookup id sm1.objects ≡ some t = lookup-insert_self id t sm.objects in
    (sm2, n, q, ground (arith, r.visited peer id t a here, fresh))
