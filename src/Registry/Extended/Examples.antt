-- ===== src/Registry/Extended/Examples.antt =====
-- One node registers, publishes a method, and leaves.
use grpc_mesh_server.Prelude.{
  ℕ, ◌+◌, ◌*◌, ◌≡◌, refl, true, not, ◌&&◌, List, [], ◌∷◌, Option, none, some, codes,
  str_eq_instance, ltb,
}
use grpc_mesh_server.Map.{lookup, has, insert}
use grpc_mesh_server.Fault.Breaker.{Floats}
use grpc_mesh_server.Registry.Sessions.{SessionState, open_channel, new, register, allocate}
use grpc_mesh_server.Registry.Methods.{MethodDescriptor, includes, new_method_registry, get_method}
use grpc_mesh_server.Registry.Methods.Index.{Change, update, run-new-IsConsistent, is_some}
use grpc_mesh_server.Registry.Extended.{
  ExtendedSessionManager, new_extended_session_manager, find_healthy_peers_with_method,
  get_circuit_breaker, is_open, register_session, update_peer_methods, init_breaker, after_register,
}
use grpc_mesh_server.Registry.Extended.Peers.{IsTied}
use grpc_mesh_server.Registry.Extended.Tied.{
  Call, creates, registers, updates, run, run-new-IsTied, survivor, step,
}
use grpc_mesh_server.Registry.Extended.Health.{find_healthy_exact}
use grpc_mesh_server.Registry.Methods.Index as Index

-- Halves as numbers: the ratio f / a is at least r / 2.
abbrev floats : Floats ℕ
floats = record { positive = ltb 0; ratio_ge = λ f a r. not (ltb (f + f) (r * a)) }

abbrev state : SessionState
state = record {
  peer_id = codes "a";
  handshake = none;
  session = none;
  control_chan = open_channel;
  connected = true;
  connected_at = 0;
  last_heartbeat = 0;
}

abbrev method : MethodDescriptor
method = record { name = codes "x"; rest = 0 }

abbrev calls : List (Call ℕ ℕ)
calls = creates state ∷ registers (some 0) 1 ∷ updates (codes "a") (method ∷ []) 2 ∷ []

-- The manager in which the calls end.
abbrev ending : Option (ExtendedSessionManager ℕ) → ExtendedSessionManager ℕ
ending none = new_extended_session_manager 1 new new_method_registry none
ending (some e) = e

abbrev finished : ExtendedSessionManager ℕ
finished = ending (run floats (ending none) calls)

run-new-IsTied_example : IsTied finished
unfolding run step survivor new_extended_session_manager register_session after_register
    init_breaker update_peer_methods register allocate lookup new new_method_registry insert
run-new-IsTied_example =
    run-new-IsTied floats 1 new new_method_registry none calls finished refl refl refl

abbrev published : ExtendedSessionManager ℕ
published =
    new_extended_session_manager 1 (record new { sessions = (codes "a", 0) ∷ [] })
      (Index.run (update (codes "a") (method ∷ []) 2 ∷ []) new_method_registry) none

find_healthy_exact_example :
    includes (codes "a") (find_healthy_peers_with_method published (codes "x") 3)
    ≡ is_some (get_method published.method_registry (codes "a") (codes "x"))
      && (has (codes "a") published.session_manager.sessions
          && (elim (get_circuit_breaker published (codes "a")) [
            | none ↦ true
            | some cb ↦ not (is_open cb.state)
          ]))
unfolding new_extended_session_manager Index.run
find_healthy_exact_example =
    find_healthy_exact published (codes "a") (codes "x") 3
      (run-new-IsConsistent (update (codes "a") (method ∷ []) 2 ∷ []))
