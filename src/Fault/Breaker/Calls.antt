-- ===== src/Fault/Breaker/Calls.antt =====
-- The calls that a breaker receives, one after another, and where they can take its state.
use grpc_mesh_server.Prelude.{ℕ, ◌+◌, ◌-◌, ◌<◌, ◌≤◌, ◌≡◌, ◌⊎◌, true, List, [], ◌∷◌, arith}
use grpc_mesh_server.Fault.Breaker.{
  State, closed, open_state, half_open, Floats, CircuitBreaker, allow, record_success,
  record_failure, reset, force_open, force_close,
}

pub data Call : Type 0 where
  allows succeeds fails resets opens closes : Call

module _ {F : Type 0} (floats : Floats F) where
  unfoldable pub step : CircuitBreaker F → ℕ × Call → CircuitBreaker F
  step cb (now, allows) = (allow cb now).0
  step cb (now, succeeds) = record_success cb now
  step cb (now, fails) = record_failure floats cb now
  step cb (now, resets) = reset cb now
  step cb (now, opens) = force_open cb now
  step cb (now, closes) = force_close cb now

  unfoldable pub run : CircuitBreaker F → List (ℕ × Call) → CircuitBreaker F
  run cb [] = cb
  run cb (c ∷ cs) = run (step cb c) cs

-- Behind the timeout of an open breaker.
abbrev pub Waited : {F : Type 0} → CircuitBreaker F → ℕ → Type 0
Waited cb now = cb.config.timeout < now - cb.state_changed

module _ {F : Type 0} (floats : Floats F) where
  -- The failure counts of a breaker reach one of its two thresholds: the limit, or the ratio, where
  -- one is set, of the attempts.
  abbrev pub IsOverLimit : CircuitBreaker F → ℕ → ℕ → Type 0
  IsOverLimit cb failures attempts =
      (cb.config.max_failures ≤ failures)
      ⊎ ((floats.positive cb.config.failure_ratio ≡ true)
          × (floats.ratio_ge failures attempts cb.config.failure_ratio ≡ true))

  -- The edges of the state diagram out of a breaker's state: the call, its time and the new state,
  -- each with the condition under which it is taken.
  pub data Transition (cb : CircuitBreaker F) (now : ℕ) : Call → State → State → Type 0 where
    asked_closed : Transition cb now allows closed closed
    asked_half_open : Transition cb now allows half_open half_open
    refused : ¬ Waited cb now → Transition cb now allows open_state open_state
    probe : Waited cb now → Transition cb now allows open_state half_open
    worked : Transition cb now succeeds closed closed
    late : Transition cb now succeeds open_state open_state
    trial :
        cb.successes + 1 < cb.config.half_open_max_attempts
        → Transition cb now succeeds half_open half_open
    recover :
        cb.config.half_open_max_attempts ≤ cb.successes + 1
        → Transition cb now succeeds half_open closed
    failed :
        {s : State}
        → ¬ IsOverLimit cb (cb.failures + 1) (cb.attempts + 1)
        → Transition cb now fails s s
    trip :
        {s : State}
        → IsOverLimit cb (cb.failures + 1) (cb.attempts + 1)
        → Transition cb now fails s open_state
    by_reset : {s : State} → Transition cb now resets s closed
    by_close : {s : State} → Transition cb now closes s closed
    by_open : {s : State} → Transition cb now opens s open_state

  allow-Transition :
      (cb : CircuitBreaker F) (now : ℕ) → Transition cb now allows cb.state (allow cb now).0.state
  unfolding allow
  allow-Transition cb now = grind (arith, asked_closed, asked_half_open, refused, probe)

  success-Transition :
      (cb : CircuitBreaker F) (now : ℕ)
      → Transition cb now succeeds cb.state (record_success cb now).state
  unfolding record_success
  success-Transition cb now = grind (arith, worked, late, trial, recover)

  failure-Transition :
      (cb : CircuitBreaker F) (now : ℕ)
      → Transition cb now fails cb.state (record_failure floats cb now).state
  unfolding record_failure
  failure-Transition cb now = grind (arith, failed, trip)

  -- Every call moves the breaker along an edge of the state diagram whose condition holds: an open
  -- breaker is left by `Allow` exactly behind its timeout, a half-open one closes exactly with the
  -- last success it needs, and a failure opens exactly when a threshold is reached.
  pub step-Transition :
      (cb : CircuitBreaker F) (now : ℕ) (c : Call)
      → Transition cb now c cb.state (step floats cb (now, c)).state
  unfolding step reset force_open force_close
  step-Transition cb now allows = allow-Transition cb now
  step-Transition cb now succeeds = success-Transition cb now
  step-Transition cb now fails = failure-Transition cb now
  step-Transition cb now resets = by_reset
  step-Transition cb now opens = by_open
  step-Transition cb now closes = by_close
