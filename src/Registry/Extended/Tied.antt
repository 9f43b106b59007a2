-- ===== src/Registry/Extended/Tied.antt =====
-- pkg/registry/session_ext.go: the three registries stay in step under the manager's own methods.
use grpc_mesh_server.Prelude.{
  ℕ, ◌≡◌, refl, List, [], ◌∷◌, Option, none, some, arith, Str, str_eq_iff, str_eq_instance, nat_eq,
  Option-cases, inl, inr,
}
use grpc_mesh_server.Map.{lookup, has, lookup-insert}
use grpc_mesh_server.Fault.Breaker.{Floats, CircuitBreakerConfig, CircuitBreaker, execute}
use grpc_mesh_server.Registry.Sessions.{SessionState, SessionManager, register, remove, allocate}
use grpc_mesh_server.Registry.Methods.{MethodDescriptor, MethodRegistry}
use grpc_mesh_server.Registry.Extended.{
  ExtendedSessionManager, Ending, returns, panics, new_extended_session_manager, register_session,
  remove_session, update_peer_methods, execute_with_circuit_breaker,
}
use grpc_mesh_server.Registry.Extended.Peers.{
  TiedAt, IsTied, after_register-TiedAt, after_remove-TiedAt, update_peer_methods-TiedAt,
}

module _ {F : Type 0} where
  unfoldable pub survivor : {A : Type 0} → Ending F A → Option (ExtendedSessionManager F)
  survivor (returns e r) = some e
  survivor (panics e) = none

  survivor-returns :
      {A : Type 0} (x : Ending F A) (e : ExtendedSessionManager F)
      → survivor x ≡ some e
      → (r : A) × (x ≡ returns e r)
  unfolding survivor
  survivor-returns (returns e' r) e h = (r, ground arith)
  survivor-returns (panics e') e h = absurd (ground arith)

  start :
      (half : F) (sm : SessionManager) (mr : MethodRegistry)
      (config : Option (CircuitBreakerConfig F))
      → sm.sessions ≡ []
      → mr.peer_methods ≡ []
      → IsTied (new_extended_session_manager half sm mr config)
  unfolding IsTied TiedAt has new_extended_session_manager
  start half sm mr config a b q = ground arith

-- A call of the manager; `creates` is the caller's allocation of a session that it may register.
pub data Call (F E : Type 0) : Type 0 where
  creates : SessionState → Call F E
  registers : Option ℕ → ℕ → Call F E
  removes : Str → Call F E
  updates : Str → List MethodDescriptor → ℕ → Call F E
  executes : Str → ℕ → (CircuitBreaker F → CircuitBreaker F) → Option E → ℕ → Call F E

module _ {F E : Type 0} (floats : Floats F) where
  execute-TiedAt :
      (e : ExtendedSessionManager F) (peer : Str) (now : ℕ)
      (during : CircuitBreaker F → CircuitBreaker F) (outcome : Option E) (later : ℕ) (q : Str)
      → TiedAt e q
      → TiedAt (execute_with_circuit_breaker floats e peer now during outcome later).0 q
  unfolding execute_with_circuit_breaker TiedAt has
  execute-TiedAt e peer now during outcome later q t =
      elim (Option-cases (lookup peer e.circuit_breakers)) [
        | inl n ↦ ground arith
        | inr (cb, k) ↦
            (let cb' = execute floats cb now (λ b. (during b, outcome)) later in
              ground (arith, lookup-insert peer q cb'.0 e.circuit_breakers, str_eq_iff peer q, t))
      ]

  unfoldable pub step : ExtendedSessionManager F → Call F E → Option (ExtendedSessionManager F)
  unfolding survivor
  step e (creates s) = some (record e { session_manager = allocate e.session_manager s })
  step e (registers session now) = survivor (register_session e session now)
  step e (removes peer) = survivor (remove_session e peer)
  step e (updates peer methods now) = some (update_peer_methods e peer methods now).0
  step e (executes peer now during outcome later) =
      some (execute_with_circuit_breaker floats e peer now during outcome later).0

  step-TiedAt :
      (e e' : ExtendedSessionManager F) (c : Call F E) (q : Str)
      → TiedAt e q
      → step e c ≡ some e'
      → TiedAt e' q
  unfolding step TiedAt register_session remove_session allocate
  step-TiedAt e e' (creates s) q t h = ground arith
  step-TiedAt e e' (registers session now) q t h =
      let (r, k) = survivor-returns (register_session e session now) e' h in
      after_register-TiedAt e e' session now r q (register e.session_manager session) t refl k
  step-TiedAt e e' (removes peer) q t h =
      let (r, k) = survivor-returns (remove_session e peer) e' h in
      after_remove-TiedAt e e' peer r q (remove e.session_manager peer) t refl k
  step-TiedAt e e' (updates peer methods now) q t h =
      ground (arith, update_peer_methods-TiedAt e peer methods now q t)
  step-TiedAt e e' (executes peer now during outcome later) q t h =
      ground (arith, execute-TiedAt e peer now during outcome later q t)

  -- none when a call panics.
  unfoldable pub run :
      ExtendedSessionManager F → List (Call F E) → Option (ExtendedSessionManager F)
  unfolding step
  run e [] = some e
  run e (c ∷ calls) = elim (step e c) [ none ↦ none | some e' ↦ run e' calls ]

  run-IsTied :
      (e e' : ExtendedSessionManager F) (calls : List (Call F E))
      → IsTied e
      → run e calls ≡ some e'
      → IsTied e'
  unfolding run IsTied
  run-IsTied e e' [] t h = λ q. ground (arith, t q)
  run-IsTied e e' (c ∷ calls) t h = elim (Option-cases (step e c)) [
    | inl n ↦ absurd (ground arith)
    | inr (e1, k) ↦ run-IsTied e1 e' calls (λ q. step-TiedAt e e1 c q (t q) k) (ground arith)
  ]

  -- From a manager over registries without sessions and catalogs, whatever calls of its methods
  -- follow without a panic, a peer has a circuit breaker exactly if it has a session, and has a
  -- method catalog only if it has a session.
  pub run-new-IsTied :
      (half : F) (sm : SessionManager) (mr : MethodRegistry)
      (config : Option (CircuitBreakerConfig F)) (calls : List (Call F E))
      (e : ExtendedSessionManager F)
      → sm.sessions ≡ []
      → mr.peer_methods ≡ []
      → run (new_extended_session_manager half sm mr config) calls ≡ some e
      → IsTied e
  run-new-IsTied half sm mr config calls e a b h =
      run-IsTied (new_extended_session_manager half sm mr config) e calls
        (start half sm mr config a b) h
