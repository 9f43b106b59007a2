-- ===== src/Fault/Breaker/Invariant.antt =====
-- What holds of a breaker between two calls.
use grpc_mesh_server.Prelude.{ℕ, ◌<◌, ◌≡◌, refl, true, false, List, [], ◌∷◌, ◌++◌, arith}
use grpc_mesh_server.Fault.Breaker.{
  State, closed, open_state, half_open, differs, Floats, CircuitBreakerConfig, CircuitBreaker,
  new_circuit_breaker, allow, record_success, record_failure, reset, force_open, force_close,
  register_callback,
}
use grpc_mesh_server.Fault.Breaker.Calls.{
  Call, allows, succeeds, fails, resets, opens, closes, step, run,
}

-- A closed breaker has not used up its failures, and no half-open phase has seen enough successes.
pub record Inv {F : Type 0} (cb : CircuitBreaker F) : Type 0 where
  pub spare : cb.state ≡ closed → cb.failures < cb.config.max_failures
  pub unrecovered : cb.successes < cb.config.half_open_max_attempts

new-Inv :
    {F : Type 0} (config : CircuitBreakerConfig F) (now : ℕ)
    → 0 < config.max_failures
    → Inv (new_circuit_breaker config now)
unfolding new_circuit_breaker
new-Inv config now h = ground arith

module _ {F : Type 0} (floats : Floats F) where
  step-Inv :
      (cb : CircuitBreaker F) (now : ℕ) (c : Call)
      → 0 < cb.config.max_failures
      → Inv cb
      → Inv (step floats cb (now, c))
  unfolding step allow record_success record_failure reset force_open force_close
  step-Inv cb now allows h v = ground arith
  step-Inv cb now succeeds h v = ground arith
  step-Inv cb now fails h v = ground arith
  step-Inv cb now resets h v = ground arith
  step-Inv cb now opens h v = ground arith
  step-Inv cb now closes h v = ground arith

  config-step : (cb : CircuitBreaker F) (c : ℕ × Call) → (step floats cb c).config ≡ cb.config
  unfolding step allow record_success record_failure reset force_open force_close
  config-step cb (now, allows) = ground arith
  config-step cb (now, succeeds) = ground arith
  config-step cb (now, fails) = ground arith
  config-step cb (now, resets) = refl
  config-step cb (now, opens) = refl
  config-step cb (now, closes) = refl

  run-Inv :
      (cb : CircuitBreaker F) (cs : List (ℕ × Call))
      → 0 < cb.config.max_failures
      → Inv cb
      → Inv (run floats cb cs)
  unfolding run
  run-Inv cb [] h v = v
  run-Inv cb ((now, c) ∷ cs) h v =
      run-Inv (step floats cb (now, c)) cs (ground (arith, config-step cb (now, c)))
        (step-Inv cb now c h v)

  -- After any sequence of calls on a new breaker with a positive failure limit, a closed breaker
  -- has counted fewer failures than the limit, and the successes counted stay below the number
  -- that would have closed a half-open breaker.
  pub run-new-Inv :
      (config : CircuitBreakerConfig F) (start : ℕ) (cs : List (ℕ × Call))
      → 0 < config.max_failures
      → Inv (run floats (new_circuit_breaker config start) cs)
  run-new-Inv config start cs h =
      run-Inv (new_circuit_breaker config start) cs (unfold new_circuit_breaker in ground arith)
        (new-Inv config start h)

-- The notices lead from one state to another, each a change from where the last one ended.
abbrev pub Chain : State → List (State × State) → State → Type 0
Chain s [] t = s ≡ t
Chain s ((a, b) ∷ rest) t = (s ≡ a) × (differs a b ≡ true) × Chain b rest t

Chain-snoc :
    (s : State) (l : List (State × State)) (t u : State)
    → Chain s l t
    → differs t u ≡ true
    → Chain s (l ++ (t, u) ∷ []) u
Chain-snoc s [] t u c d = (c, d, refl)
Chain-snoc s ((a, b) ∷ rest) t u c d = (c.0, c.1, Chain-snoc b rest t u c.2 d)

same_state : (s t : State) → differs s t ≡ false → s ≡ t
same_state closed closed h = refl
same_state open_state open_state h = refl
same_state half_open half_open h = refl
same_state closed open_state h = cc
same_state closed half_open h = cc
same_state open_state closed h = cc
same_state open_state half_open h = cc
same_state half_open closed h = cc
same_state half_open open_state h = cc

record Told {F : Type 0} (s : State) (cb : CircuitBreaker F) : Type 0 where
  registered : cb.on_state_change ≡ true
  told : Chain s cb.notified cb.state

module _ {F : Type 0} (floats : Floats F) where
  step-Told :
      (s : State) (cb : CircuitBreaker F) (now : ℕ) (c : Call)
      → Told s cb
      → Told s (step floats cb (now, c))
  unfolding step allow record_success record_failure reset force_open force_close
  step-Told s cb now allows v = ground (arith, Chain-snoc s cb.notified cb.state half_open)
  step-Told s cb now succeeds v = ground (arith, Chain-snoc s cb.notified cb.state closed)
  step-Told s cb now fails v =
      ground (arith, Chain-snoc s cb.notified cb.state open_state, same_state cb.state open_state)
  step-Told s cb now resets v =
      ground (arith, Chain-snoc s cb.notified cb.state closed, same_state cb.state closed)
  step-Told s cb now opens v =
      ground (arith, Chain-snoc s cb.notified cb.state open_state, same_state cb.state open_state)
  step-Told s cb now closes v =
      ground (arith, Chain-snoc s cb.notified cb.state closed, same_state cb.state closed)

  run-Told :
      (s : State) (cb : CircuitBreaker F) (cs : List (ℕ × Call))
      → Told s cb
      → Told s (run floats cb cs)
  unfolding run
  run-Told s cb [] v = v
  run-Told s cb ((now, c) ∷ cs) v = run-Told s (step floats cb (now, c)) cs (step-Told s cb now c v)

  -- From the moment a callback is registered on a breaker that has told nobody yet, the calls made
  -- to it form a chain: each is a real change, starts where the one before ended, the first starts
  -- at the state of the registration and the last ends at the present state.
  pub run-Chain :
      (cb : CircuitBreaker F) (cs : List (ℕ × Call))
      → cb.notified ≡ []
      → let after = run floats (register_callback cb) cs in
        Chain cb.state after.notified after.state
  unfolding register_callback
  run-Chain cb cs h =
      (run-Told cb.state (register_callback cb) cs
        (record { registered = refl; told = ground arith })).told
