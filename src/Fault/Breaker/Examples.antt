-- ===== src/Fault/Breaker/Examples.antt =====
-- A breaker at concrete inputs; ratios are whole percentages.
use grpc_mesh_server.Prelude.{ℕ, ◌*◌, ◌≡◌, refl, true, false, List, [], ◌∷◌, none, arith, ltb, leb}
use grpc_mesh_server.Fault.Breaker.{
  closed, open_state, half_open, Floats, CircuitBreakerConfig, CircuitBreaker, new_circuit_breaker,
  allow, record_success, record_failure, force_open, register_callback,
}
use grpc_mesh_server.Fault.Breaker.Calls.{
  Call, allows, succeeds, fails, step, run, Transition, step-Transition,
}
use grpc_mesh_server.Fault.Breaker.Invariant.{Inv, run-new-Inv}
use grpc_mesh_server.Fault.Breaker.Tripping.{ask, forced_open_wedges}

abbrev percent : Floats ℕ
percent = record { positive = λ r. ltb 0 r; ratio_ge = λ f a r. leb (a * r) (100 * f) }

abbrev config : CircuitBreakerConfig ℕ
config = record { max_failures = 3; timeout = 10; failure_ratio = 0; half_open_max_attempts = 1 }

abbrev fresh : CircuitBreaker ℕ
unfolding new_circuit_breaker
fresh = new_circuit_breaker config 0

-- Two failures are forgiven by a success; three in a row trip; the trial after the timeout closes.
life : List (ℕ × Call)
life =
    (1, fails)
    ∷ (2, fails)
    ∷ (3, succeeds)
    ∷ (4, fails)
    ∷ (5, fails)
    ∷ (6, fails)
    ∷ (17, allows)
    ∷ (18, succeeds)
    ∷ []

life_closes : (run percent fresh life).state ≡ closed
unfolding run step life new_circuit_breaker allow record_failure record_success
life_closes = refl

life_told :
    (run percent (register_callback fresh) life).notified
    ≡ (closed, open_state) ∷ (open_state, half_open) ∷ (half_open, closed) ∷ []
unfolding run step life new_circuit_breaker allow record_failure record_success register_callback
life_told = refl

-- Half of four calls fail: the ratio of 50 percent trips below the failure limit.
ratio_trips :
    (run percent
      (record fresh { config = record config { failure_ratio = 50 } })
      ((1, succeeds) ∷ (2, succeeds) ∷ (3, fails) ∷ (4, fails) ∷ [])).state
    ≡ open_state
unfolding run step new_circuit_breaker record_failure record_success
ratio_trips = refl

step-Transition_example :
    Transition percent fresh 1 fails fresh.state (step percent fresh (1, fails)).state
step-Transition_example = step-Transition percent fresh 1 fails

run-new-Inv_example : Inv (run percent (new_circuit_breaker config 0) life)
run-new-Inv_example = run-new-Inv percent config 0 life (omega arith)

abbrev tripped : CircuitBreaker ℕ
tripped = record {
  config = config;
  state = open_state;
  failures = 3;
  successes = 0;
  attempts = 3;
  last_failure_time = none;
  state_changed = 6;
  on_state_change = false;
  notified = [];
}

forced_open_wedges_example :
    let tried = allow (force_open fresh 5) 20 in
    let wedged = record_failure percent tried.0 21 in
    (tried.1 ≡ true)
    × (wedged.state ≡ half_open)
    × (ask wedged (40 ∷ 4_000 ∷ []) ≡ (wedged, false ∷ false ∷ []))
unfolding new_circuit_breaker
forced_open_wedges_example =
    forced_open_wedges percent fresh 5 20 21 (40 ∷ 4_000 ∷ []) refl refl (omega arith) (omega arith)
