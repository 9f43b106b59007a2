-- ===== src/Registry/Extended.antt =====
-- pkg/registry/session_ext.go: the session registry, the method registry and one circuit breaker for
-- each peer. `half` is the constant 0.5. The three are guarded by locks of their own, and a method
-- is modelled as one step; the calls of the breaker's callback only log.
pub mod Peers
pub mod Tied
pub mod Health
mod Examples
use grpc_mesh_server.Prelude.{
  ℕ, ◌+◌, Bool, true, false, not, ◌&&◌, List, [], ◌∷◌, Option, none, some, length, keep,
  if◌then◌else◌, Str, str_eq_instance, nat_eq, map,
}
use grpc_mesh_server.Map.{Map, lookup, insert, delete, has}
use grpc_mesh_server.Fault.Breaker.{
  State, closed, open_state, half_open, Floats, CircuitBreakerConfig, CircuitBreaker, ExecuteError,
  fn_error, new_circuit_breaker, register_callback, execute,
}
use grpc_mesh_server.Registry.Sessions.Views as Views
use grpc_mesh_server.Registry.Sessions.Views.{list, SessionStats}
use grpc_mesh_server.Registry.Sessions.{
  SessionState, SessionManager, SessionError, session_not_found, Result, ok, err, Outcome, done,
  panicked, register, remove, get,
}
use grpc_mesh_server.Registry.Sessions as Sessions
use grpc_mesh_server.Registry.Methods.{
  MethodDescriptor, MethodRegistry, update_methods, remove_peer, get_peer_methods,
  find_peers_with_method,
}
use grpc_mesh_server.Registry.Methods as Methods

pub record ExtendedSessionManager (F : Type 0) : Type 0 where
  pub session_manager : SessionManager
  pub method_registry : MethodRegistry
  pub cb_config : CircuitBreakerConfig F
  pub circuit_breakers : Map Str (CircuitBreaker F)

pub record HealthCheckResult : Type 0 where
  pub peer_id : Str
  pub session_healthy : Bool
  pub circuit_breaker_state : State
  pub method_count : ℕ
  pub last_heartbeat : Option ℕ
  pub timestamp : ℕ

-- Without the float64 average.
pub record ExtendedStats : Type 0 where
  pub session_stats : SessionStats
  pub total_methods : ℕ
  pub total_peers : ℕ
  pub circuit_breaker_stats : Map Str State

-- How a method ends; a panic of the session registry goes through.
pub data Ending (F A : Type 0) : Type 0 where
  returns : ExtendedSessionManager F → A → Ending F A
  panics : ExtendedSessionManager F → Ending F A

-- A time that was never set is none.
heartbeat_of : SessionManager → Option ℕ → Option ℕ
heartbeat_of sm none = none
heartbeat_of sm (some id) = elim (lookup id sm.objects) [
  | none ↦ none
  | some s ↦ some s.last_heartbeat
]

abbrev pub is_open : State → Bool
is_open open_state = true
is_open _ = false

module _ {F : Type 0} where
  abbrev default_config : F → CircuitBreakerConfig F
  default_config half = record {
    max_failures = 5;
    timeout = 10_000_000_000;
    failure_ratio = half;
    half_open_max_attempts = 3;
  }

  unfoldable pub new_extended_session_manager :
      F
      → SessionManager
      → MethodRegistry
      → Option (CircuitBreakerConfig F)
      → ExtendedSessionManager F
  new_extended_session_manager half sm mr cb_config = record {
    session_manager = sm;
    method_registry = mr;
    cb_config = elim cb_config [ none ↦ default_config half | some config ↦ config ];
    circuit_breakers = [];
  }

  -- The breaker of a peer that has none yet.
  unfoldable pub init_breaker : ExtendedSessionManager F → Str → ℕ → ExtendedSessionManager F
  init_breaker e peer now = elim (lookup peer e.circuit_breakers) [
    | none ↦ record e {
      circuit_breakers =
          insert peer (register_callback (new_circuit_breaker e.cb_config now)) e.circuit_breakers;
    }
    | some cb ↦ e
  ]

  -- The rest of `RegisterSession` behind the call of `Register`. `session.PeerID` of no object faults.
  unfoldable pub after_register :
      ExtendedSessionManager F
      → Option ℕ
      → ℕ
      → Outcome (Result (Unit {0}))
      → Ending F (Result (Unit {0}))
  unfolding init_breaker
  after_register e session now (panicked sm) = panics (record e { session_manager = sm })
  after_register e session now (done sm (err x)) =
      returns (record e { session_manager = sm }) (err x)
  after_register e none now (done sm (ok u)) = panics (record e { session_manager = sm })
  after_register e (some id) now (done sm (ok u)) = elim (lookup id sm.objects) [
    | none ↦ panics (record e { session_manager = sm })
    | some s ↦ returns (init_breaker (record e { session_manager = sm }) s.peer_id now) (ok tt)
  ]

  unfoldable pub register_session :
      ExtendedSessionManager F → Option ℕ → ℕ → Ending F (Result (Unit {0}))
  unfolding after_register
  register_session e session now = after_register e session now (register e.session_manager session)

  -- The rest of `RemoveSession` behind the call of `Remove`.
  unfoldable pub after_remove :
      ExtendedSessionManager F → Str → Outcome (Result (Unit {0})) → Ending F (Result (Unit {0}))
  after_remove e peer (panicked sm) = panics (record e { session_manager = sm })
  after_remove e peer (done sm (err x)) = returns (record e { session_manager = sm }) (err x)
  after_remove e peer (done sm (ok u)) =
      returns
        (record e {
          session_manager = sm;
          method_registry = remove_peer e.method_registry peer;
          circuit_breakers = delete peer e.circuit_breakers;
        })
        (ok tt)

  unfoldable pub remove_session : ExtendedSessionManager F → Str → Ending F (Result (Unit {0}))
  unfolding after_remove
  remove_session e peer = after_remove e peer (remove e.session_manager peer)

  unfoldable pub update_peer_methods :
      ExtendedSessionManager F
      → Str
      → List MethodDescriptor
      → ℕ
      → ExtendedSessionManager F × Result (Unit {0})
  update_peer_methods e peer methods now = elim (get e.session_manager peer) [
    | none ↦ (e, err session_not_found)
    | some id ↦ (
      record e { method_registry = (update_methods e.method_registry peer methods now).0 },
      ok tt,
    )
  ]

  unfoldable pub get_circuit_breaker : ExtendedSessionManager F → Str → Option (CircuitBreaker F)
  get_circuit_breaker e peer = lookup peer e.circuit_breakers

  unfoldable pub health_check : ExtendedSessionManager F → Str → ℕ → HealthCheckResult
  unfolding heartbeat_of
  health_check e peer now = record {
    peer_id = peer;
    session_healthy = has peer e.session_manager.sessions;
    circuit_breaker_state = elim (lookup peer e.circuit_breakers) [
      | none ↦ closed
      | some cb ↦ cb.state
    ];
    method_count = elim (get_peer_methods e.method_registry peer) [
      | none ↦ 0
      | some methods ↦ length methods
    ];
    last_heartbeat = heartbeat_of e.session_manager (get e.session_manager peer);
    timestamp = now;
  }

  pub get_extended_stats : ExtendedSessionManager F → ExtendedStats
  get_extended_stats e = record {
    session_stats = Views.stats e.session_manager;
    total_methods = (Methods.stats e.method_registry).total_methods;
    total_peers = (Methods.stats e.method_registry).total_peers;
    circuit_breaker_stats = map (λ entry. (entry.0, entry.1.state)) e.circuit_breakers;
  }

  -- The test of both lists of healthy peers.
  unfoldable pub is_healthy : ExtendedSessionManager F → ℕ → Str → Bool
  unfolding health_check
  is_healthy e now peer =
      let health = health_check e peer now in
      health.session_healthy && not (is_open health.circuit_breaker_state)

  unfoldable pub list_healthy_peers : ExtendedSessionManager F → ℕ → List Str
  unfolding is_healthy
  list_healthy_peers e now = keep (is_healthy e now) (map (λ s. s.peer_id) (list e.session_manager))

  unfoldable pub find_healthy_peers_with_method : ExtendedSessionManager F → Str → ℕ → List Str
  unfolding is_healthy
  find_healthy_peers_with_method e name now =
      keep (is_healthy e now) (find_peers_with_method e.method_registry name)

-- `fn` is a call that does not use the registry; `during` is what other calls do to the breaker.
-- The peer keeps its entry during the call.
-- Without a breaker the error is that of `fn`.
unfoldable pub execute_with_circuit_breaker :
    {F E : Type 0}
    → Floats F
    → ExtendedSessionManager F
    → Str
    → ℕ
    → (CircuitBreaker F → CircuitBreaker F)
    → Option E
    → ℕ
    → ExtendedSessionManager F × Option (ExecuteError E)
execute_with_circuit_breaker floats e peer now during outcome later =
    elim (lookup peer e.circuit_breakers) [
      | none ↦ (e, (elim outcome [ none ↦ none | some x ↦ some (fn_error x) ]))
      | some cb ↦
          (let (cb', result) = execute floats cb now (λ b. (during b, outcome)) later in
            (record e { circuit_breakers = insert peer cb' e.circuit_breakers }, result))
    ]
