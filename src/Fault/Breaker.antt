-- ===== src/Fault/Breaker.antt =====
-- pkg/fault/circuit_breaker.go. A method that changes `*CircuitBreaker` returns the new record; each
-- call takes the time that `time.Now()` gives it, in nanoseconds. The mutex makes a method one step.
-- Go's float64 is the parameter `F` with the two tests that `shouldTrip` makes on it. Counters do not
-- wrap, and the two thresholds of the configuration are not negative.
pub mod Calls
pub mod Invariant
pub mod Tripping
mod Examples
use grpc_mesh_server.Prelude.{
  ℕ, ◌+◌, ◌-◌, Bool, true, false, ◌&&◌, List, [], ◌∷◌, ◌++◌, Option, none, some, ltb, leb, ◌==◌,
  if◌then◌else◌,
}

pub data State : Type 0 where
  closed open_state half_open : State

pub State-discrete : Discrete State
State-discrete = hlevel

-- `oldState != newState`.
abbrev pub differs : State → State → Bool
differs closed closed = false
differs open_state open_state = false
differs half_open half_open = false
differs _ _ = true

-- `positive r` is `r > 0`; `ratio_ge f a r` is `float64(f) / float64(a) >= r`.
pub record Floats (F : Type 0) : Type 0 where
  pub positive : F → Bool
  pub ratio_ge : ℕ → ℕ → F → Bool

pub record CircuitBreakerConfig (F : Type 0) : Type 0 where
  pub max_failures : ℕ
  pub timeout : ℕ
  pub failure_ratio : F
  pub half_open_max_attempts : ℕ

-- `on_state_change` says whether a callback is registered, and `notified` lists the calls made to it.
pub record CircuitBreaker (F : Type 0) : Type 0 where
  pub config : CircuitBreakerConfig F
  pub state : State
  pub failures : ℕ
  pub successes : ℕ
  pub attempts : ℕ
  pub last_failure_time : Option ℕ
  pub state_changed : ℕ
  pub on_state_change : Bool
  pub notified : List (State × State)

-- What `Execute` returns: its own error, or the outcome of `fn`.
pub data ExecuteError (E : Type 0) : Type 0 where
  breaker_open : ExecuteError E
  fn_error : E → ExecuteError E

module _ {F : Type 0} where
  pub new_circuit_breaker : CircuitBreakerConfig F → ℕ → CircuitBreaker F
  new_circuit_breaker config now = record {
    config =
        if config.half_open_max_attempts == 0
        then record config { half_open_max_attempts = 1 }
        else config;
    state = closed;
    failures = 0;
    successes = 0;
    attempts = 0;
    last_failure_time = none;
    state_changed = now;
    on_state_change = false;
    notified = [];
  }

  set_state : CircuitBreaker F → State → ℕ → CircuitBreaker F
  set_state cb s now = record cb {
    state = s;
    state_changed = now;
    notified =
        if cb.on_state_change && differs cb.state s
        then cb.notified ++ (cb.state, s) ∷ []
        else cb.notified;
  }

  reset_counters : CircuitBreaker F → CircuitBreaker F
  reset_counters cb = record cb { failures = 0; successes = 0; attempts = 0 }

  -- The `switch` of `Allow`.
  allow_in : State → CircuitBreaker F → ℕ → CircuitBreaker F × Bool
  unfolding set_state
  allow_in closed cb now = (cb, true)
  allow_in open_state cb now =
      if ltb cb.config.timeout (now - cb.state_changed)
      then (record (set_state cb half_open now) { attempts = 0 }, true)
      else (cb, false)
  allow_in half_open cb now = (cb, ltb cb.attempts cb.config.half_open_max_attempts)

  unfoldable pub allow : CircuitBreaker F → ℕ → CircuitBreaker F × Bool
  unfolding allow_in
  allow cb now = allow_in cb.state cb now

  record_success_in : State → CircuitBreaker F → ℕ → CircuitBreaker F
  unfolding set_state reset_counters
  record_success_in half_open cb now =
      let cb' = record cb { successes = cb.successes + 1 } in
      if leb cb.config.half_open_max_attempts cb'.successes
      then reset_counters (set_state cb' closed now)
      else cb'
  record_success_in closed cb now = record cb { attempts = cb.attempts + 1; failures = 0 }
  record_success_in open_state cb now = cb

  unfoldable pub record_success : CircuitBreaker F → ℕ → CircuitBreaker F
  unfolding record_success_in
  record_success cb now = record_success_in cb.state cb now

  -- `Reset`; `ForceClose` has the same body.
  pub reset : CircuitBreaker F → ℕ → CircuitBreaker F
  unfolding set_state reset_counters
  reset cb now = reset_counters (set_state cb closed now)

  pub force_close : CircuitBreaker F → ℕ → CircuitBreaker F
  unfolding set_state reset_counters
  force_close cb now = reset_counters (set_state cb closed now)

  pub force_open : CircuitBreaker F → ℕ → CircuitBreaker F
  unfolding set_state
  force_open cb now = set_state cb open_state now

  pub register_callback : CircuitBreaker F → CircuitBreaker F
  register_callback cb = record cb { on_state_change = true }

module _ {F : Type 0} (floats : Floats F) where
  should_trip : CircuitBreaker F → Bool
  should_trip cb =
      if leb cb.config.max_failures cb.failures
      then true
      else if floats.positive cb.config.failure_ratio && ltb 0 cb.attempts
      then floats.ratio_ge cb.failures cb.attempts cb.config.failure_ratio
      else false

  unfoldable pub record_failure : CircuitBreaker F → ℕ → CircuitBreaker F
  unfolding should_trip set_state
  record_failure cb now =
      let cb' = record cb {
        failures = cb.failures + 1;
        last_failure_time = some now;
        attempts = cb.attempts + 1;
      } in
      if should_trip cb' then set_state cb' open_state now else cb'

  -- `fn` is run between two sections of the lock: other calls may run in between, so its effect on
  -- the breaker is the function `during`. `later` is the time when it returns.
  unfoldable pub execute :
      {E : Type 0}
      → CircuitBreaker F
      → ℕ
      → (CircuitBreaker F → CircuitBreaker F × Option E)
      → ℕ
      → CircuitBreaker F × Option (ExecuteError E)
  unfolding allow record_failure record_success
  execute cb now fn later =
      let (cb', allowed) = allow cb now in
      let (cb'', err) = fn cb' in
      if allowed
      then (elim err [
        | some e ↦ (record_failure cb'' later, some (fn_error e))
        | none ↦ (record_success cb'' later, none)
      ])
      else (cb', some breaker_open)
