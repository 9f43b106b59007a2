-- ===== src/Registry/Extended/Health.antt =====
-- pkg/registry/session_ext.go: the lists of healthy peers.
use grpc_mesh_server.Prelude.{
  ℕ, ◌≡◌, sym, ap, ◌∙◌, Bool, true, not, ◌&&◌, List, [], ◌∷◌, none, some, arith, keep, Str, str_eq,
  str_eq_iff, str_eq_instance,
}
use grpc_mesh_server.Map.{has}
use grpc_mesh_server.Registry.Methods.{includes, find_peers_with_method, get_method, MethodRegistry}
use grpc_mesh_server.Registry.Methods.Index.{is_some, get_method-offers}
use grpc_mesh_server.Registry.Methods.Catalogs.{IsConsistent}
use grpc_mesh_server.Registry.Extended.{
  ExtendedSessionManager, is_open, is_healthy, health_check, find_healthy_peers_with_method,
  get_circuit_breaker,
}

includes-keep :
    (f : Str → Bool) (q : Str) (peers : List Str)
    → includes q (keep f peers) ≡ includes q peers && f q
unfolding includes
includes-keep f q [] = ground arith
includes-keep f q (p ∷ peers) =
    let same : str_eq p q ≡ true → f p ≡ f q = λ x. ap f (ground (arith, str_eq_iff p q)) in
    ground (arith, same, includes-keep f q peers)

listed :
    (mr : MethodRegistry) (q name : Str)
    → IsConsistent mr
    → includes q (find_peers_with_method mr name) ≡ is_some (get_method mr q name)
unfolding IsConsistent
listed mr q name h = h.1 q name ∙ sym (get_method-offers mr q name)

module _ {F : Type 0} where
  -- For a consistent method registry, the peers found for a method are exactly those that have the
  -- method, a session, and no circuit breaker that is open; a session marked disconnected counts.
  pub find_healthy_exact :
      (e : ExtendedSessionManager F) (q name : Str) (now : ℕ)
      → IsConsistent e.method_registry
      → includes q (find_healthy_peers_with_method e name now)
        ≡ is_some (get_method e.method_registry q name)
          && (has q e.session_manager.sessions && (elim (get_circuit_breaker e q) [
            | none ↦ true
            | some cb ↦ not (is_open cb.state)
          ]))
  unfolding find_healthy_peers_with_method is_healthy health_check get_circuit_breaker
  find_healthy_exact e q name now h =
      includes-keep (is_healthy e now) q (find_peers_with_method e.method_registry name)
      ∙ ground (arith, listed e.method_registry q name h)
