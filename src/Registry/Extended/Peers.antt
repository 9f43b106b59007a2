-- ===== src/Registry/Extended/Peers.antt =====
-- pkg/registry/session_ext.go: what each method does to the session, the breaker and the catalog of a peer.
use grpc_mesh_server.Prelude.{
  ℕ, ◌≡◌, ◌≢◌, true, false, List, Option, none, some, arith, if◌then◌else◌, Str, str_eq, str_eq_iff,
  str_eq_instance, nat_eq, Option-cases, inl, inr,
}
use grpc_mesh_server.Map.{lookup, has, lookup-insert, lookup-insert_ne, lookup-delete}
use grpc_mesh_server.Fault.Breaker.{new_circuit_breaker, register_callback}
use grpc_mesh_server.Registry.Sessions.{
  SessionState, SessionManager, closed_channel, Result, ok, err, Outcome, done, panicked, close,
  register, remove, get, SessionError,
}
use grpc_mesh_server.Registry.Methods.{
  MethodDescriptor, MethodRegistry, update_methods, remove_peer,
}
use grpc_mesh_server.Registry.Extended.{
  ExtendedSessionManager, returns, init_breaker, after_register, after_remove, update_peer_methods,
}

register-sessions :
    (sm sm' : SessionManager) (id : ℕ) (s : SessionState) (u : Unit {0}) (q : Str)
    → register sm (some id) ≡ done sm' (ok u)
    → lookup id sm'.objects ≡ some s
    → has q sm'.sessions ≡ (if str_eq s.peer_id q then true else has q sm.sessions)
unfolding register has close
register-sessions sm sm' id s u q h e = elim (Option-cases (lookup id sm.objects)) [
  | inl n ↦ absurd (ground arith)
  | inr (t, k) ↦ elim (Option-cases (lookup t.peer_id sm.sessions)) [
    | inl n ↦ ground (arith, lookup-insert t.peer_id q id sm.sessions)
    | inr (old, o) ↦ elim (Option-cases (lookup old sm.objects)) [
      | inl n ↦ absurd (ground arith)
      | inr (r, x) ↦ ground (
        arith,
        lookup-insert t.peer_id q id sm.sessions,
        nat_eq.beq_iff old id,
        lookup-insert old id (record r { connected = false; control_chan = closed_channel })
            sm.objects,
      )
    ]
  ]
]

remove-sessions :
    (sm sm' : SessionManager) (peer : Str) (u : Unit {0}) (q : Str)
    → remove sm peer ≡ done sm' (ok u)
    → has q sm'.sessions ≡ (if str_eq peer q then false else has q sm.sessions)
unfolding remove has close
remove-sessions sm sm' peer u q h = ground (arith, lookup-delete peer q sm.sessions)

register_err :
    (sm sm' : SessionManager) (session : Option ℕ) (x : SessionError)
    → register sm session ≡ done sm' (err x)
    → sm'.sessions ≡ sm.sessions
unfolding register close
register_err sm sm' none x h = ground arith
register_err sm sm' (some id) x h = ground arith

register-none : (sm sm' : SessionManager) (u : Unit {0}) → register sm none ≢ done sm' (ok u)
unfolding register
register-none sm sm' u = ground arith

remove_err :
    (sm sm' : SessionManager) (peer : Str) (x : SessionError)
    → remove sm peer ≡ done sm' (err x)
    → sm'.sessions ≡ sm.sessions
unfolding remove close
remove_err sm sm' peer x h = ground arith

remove_peer-lookup :
    (mr : MethodRegistry) (p q : Str)
    → lookup q (remove_peer mr p).peer_methods
      ≡ (if str_eq p q then none else lookup q mr.peer_methods)
unfolding remove_peer
remove_peer-lookup mr p q = ground (arith, lookup-delete p q mr.peer_methods, str_eq_iff p q)

update_methods-lookup :
    (mr : MethodRegistry) (p : Str) (methods : List MethodDescriptor) (now : ℕ) (q : Str)
    → str_eq p q ≡ false
    → lookup q (update_methods mr p methods now).0.peer_methods ≡ lookup q mr.peer_methods
unfolding update_methods
update_methods-lookup mr p methods now q h =
    lookup-insert_ne p q _ mr.peer_methods (λ x. ground (arith, str_eq_iff p q))

module _ {F : Type 0} where
  unfoldable pub TiedAt : ExtendedSessionManager F → Str → Type 0
  TiedAt e p =
      (has p e.circuit_breakers ≡ has p e.session_manager.sessions)
      × (has p e.session_manager.sessions ≡ false → lookup p e.method_registry.peer_methods ≡ none)

  -- A peer has a breaker exactly if it has a session, and a catalog only if it has a session.
  unfoldable pub IsTied : ExtendedSessionManager F → Type 0
  IsTied e = (p : Str) → TiedAt e p

  init_breaker-has :
      (e : ExtendedSessionManager F) (p q : Str) (now : ℕ)
      → has q (init_breaker e p now).circuit_breakers
        ≡ (if str_eq p q then true else has q e.circuit_breakers)
  unfolding init_breaker has
  init_breaker-has e p q now = ground (
    arith,
    str_eq_iff p q,
    lookup-insert p q (register_callback (new_circuit_breaker e.cb_config now)) e.circuit_breakers,
  )

  init_breaker-rest :
      (e : ExtendedSessionManager F) (p : Str) (now : ℕ)
      → ((init_breaker e p now).session_manager ≡ e.session_manager)
        × ((init_breaker e p now).method_registry ≡ e.method_registry)
  unfolding init_breaker
  init_breaker-rest e p now = ground arith

  pub after_register-TiedAt :
      (e e' : ExtendedSessionManager F) (session : Option ℕ) (now : ℕ) (r : Result (Unit {0}))
      (q : Str) (o : Outcome (Result (Unit {0})))
      → TiedAt e q
      → register e.session_manager session ≡ o
      → after_register e session now o ≡ returns e' r
      → TiedAt e' q
  unfolding after_register TiedAt
  after_register-TiedAt e e' session now r q (panicked sm) t g h = absurd (ground arith)
  after_register-TiedAt e e' session now r q (done sm (err x)) t g h =
      ground (arith, register_err e.session_manager sm session x g)
  after_register-TiedAt e e' none now r q (done sm (ok u)) t g h =
      absurd (register-none e.session_manager sm u g)
  after_register-TiedAt e e' (some id) now r q (done sm (ok u)) t g h =
      elim (Option-cases (lookup id sm.objects)) [
        | inl n ↦ absurd (ground arith)
        | inr (s, k) ↦
            (let e1 : ExtendedSessionManager F = record e { session_manager = sm } in
              let same : init_breaker e1 s.peer_id now ≡ e' = ground arith in
              ground (
                arith,
                same,
                init_breaker-has e1 s.peer_id q now,
                init_breaker-rest e1 s.peer_id now,
                register-sessions e.session_manager sm id s u q g k,
                t,
              ))
      ]

  pub after_remove-TiedAt :
      (e e' : ExtendedSessionManager F) (peer : Str) (r : Result (Unit {0})) (q : Str)
      (o : Outcome (Result (Unit {0})))
      → TiedAt e q
      → remove e.session_manager peer ≡ o
      → after_remove e peer o ≡ returns e' r
      → TiedAt e' q
  unfolding after_remove TiedAt has
  after_remove-TiedAt e e' peer r q (panicked sm) t g h = absurd (ground arith)
  after_remove-TiedAt e e' peer r q (done sm (err x)) t g h =
      ground (arith, remove_err e.session_manager sm peer x g)
  after_remove-TiedAt e e' peer r q (done sm (ok u)) t g h = ground (
    arith,
    remove-sessions e.session_manager sm peer u q g,
    lookup-delete peer q e.circuit_breakers,
    remove_peer-lookup e.method_registry peer q,
    t,
  )

  pub update_peer_methods-TiedAt :
      (e : ExtendedSessionManager F) (peer : Str) (methods : List MethodDescriptor) (now : ℕ)
      (q : Str)
      → TiedAt e q
      → TiedAt (update_peer_methods e peer methods now).0 q
  unfolding update_peer_methods TiedAt get has
  update_peer_methods-TiedAt e peer methods now q t =
      elim (Option-cases (lookup peer e.session_manager.sessions)) [
        | inl n ↦ ground arith
        | inr (id, k) ↦ ground (
          arith,
          update_methods-lookup e.method_registry peer methods now q,
          str_eq_iff peer q,
          t,
        )
      ]
