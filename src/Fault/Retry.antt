-- ===== src/Fault/Retry.antt =====
-- pkg/fault/retry.go. What the loop cannot decide is a `World`: how each call of `fn` ends, and what
-- the context reports after a call and during a wait, by the number of the attempt. Durations are
-- nanoseconds, not negative; a float64 is the parameter `F` with the operations used on it.
pub mod Runs
pub mod Delays
mod Examples
use grpc_mesh_server.Prelude.{
  ℕ, zero, suc, ◌+◌, Bool, true, false, List, [], ◌∷◌, Option, none, some, ltb, leb, ltb_ℤ, ℤ, pos,
  negsuc, pos_part, if◌then◌else◌,
}

-- gRPC status codes.
pub data Code : Type 0 where
  code_ok code_canceled code_unknown code_invalid_argument code_deadline_exceeded code_not_found :
      Code
  code_already_exists code_permission_denied code_resource_exhausted code_failed_precondition : Code
  code_aborted code_out_of_range code_unimplemented code_internal code_unavailable code_data_loss :
      Code
  code_unauthenticated : Code

-- An error as `DefaultRetryableErrors` tells them apart: the two context errors, one with a gRPC
-- status, and any other.
pub data GoError : Type 0 where
  context_canceled context_deadline_exceeded : GoError
  with_status : Code → GoError
  plain : ℕ → GoError

retryable_code : Code → Bool
retryable_code code_unavailable = true
retryable_code code_resource_exhausted = true
retryable_code code_aborted = true
retryable_code code_deadline_exceeded = true
retryable_code code_internal = true
retryable_code _ = false

pub default_retryable_errors : Option GoError → Bool
unfolding retryable_code
default_retryable_errors none = false
default_retryable_errors (some context_canceled) = false
default_retryable_errors (some context_deadline_exceeded) = false
default_retryable_errors (some (with_status c)) = retryable_code c
default_retryable_errors (some (plain n)) = true

pub record RetryConfig (F : Type 0) : Type 0 where
  pub max_attempts : ℤ
  pub initial_delay : ℕ
  pub max_delay : ℕ
  pub multiplier : F
  pub jitter : Bool
  pub retryable_errors : Option (Option GoError → Bool)
  pub on_retry : Bool

-- `DefaultRetryConfig`; `two` is the constant 2.0.
pub default_retry_config : {F : Type 0} → F → RetryConfig F
default_retry_config two = record {
  max_attempts = pos 3;
  initial_delay = 100_000_000;
  max_delay = 10_000_000_000;
  multiplier = two;
  jitter = true;
  retryable_errors = some default_retryable_errors;
  on_retry = false;
}

-- `of_ns d` is `float64(d)`, `to_ns x` is `time.Duration(x)`, `gt x y` is `x > y`.
pub record DelayFloats (F : Type 0) : Type 0 where
  pub of_ns : ℕ → F
  pub to_ns : F → ℕ
  pub times : F → F → F
  pub gt : F → F → Bool

module _ {F : Type 0} (floats : DelayFloats F) where
  unfoldable pub grow : ℕ → F → F → F
  grow zero multiplier delay = delay
  grow (suc i) multiplier delay = grow i multiplier (floats.times delay multiplier)

  -- `factor` is the random number 0.5 + rand.Float64() of the call.
  unfoldable pub calculate_delay : ℕ → RetryConfig F → F → ℕ
  unfolding grow
  calculate_delay attempt config factor =
      let delay = grow attempt config.multiplier (floats.of_ns config.initial_delay) in
      let limit = floats.of_ns config.max_delay in
      let result = floats.to_ns (if floats.gt delay limit then limit else delay) in
      if config.jitter then floats.to_ns (floats.times (floats.of_ns result) factor) else result

pub data FnOutcome : Type 0 where
  succeeds : FnOutcome
  fails : GoError → FnOutcome
  panics : FnOutcome

pub record World (F : Type 0) : Type 0 where
  pub call : ℕ → FnOutcome
  pub context_err : ℕ → Option GoError
  pub done_first : ℕ → Option GoError
  pub factor : ℕ → F

pub data RetryResult : Type 0 where
  nil : RetryResult
  returned : GoError → RetryResult
  context_ended : GoError → RetryResult
  attempts_exceeded : ℤ → Option GoError → RetryResult
  panicking : RetryResult
  recovered : RetryResult
  out_of_fuel : RetryResult

-- The result, with the number of calls of `fn`, the calls of `OnRetry` and the delays waited for.
pub record Trace : Type 0 where
  pub result : RetryResult
  pub calls : ℕ
  pub notices : List (ℕ × ℕ × GoError)
  pub waits : List ℕ

abbrev pub stop : RetryResult → ℕ → Trace
stop r n = record { result = r; calls = n; notices = []; waits = [] }

abbrev is_retryable : {F : Type 0} → RetryConfig F → GoError → Bool
is_retryable config err = elim config.retryable_errors [ none ↦ true | some p ↦ p (some err) ]

module _ {F : Type 0} (floats : DelayFloats F) (world : World F) (config : RetryConfig F) where
  notify : ℕ → ℕ → GoError → Trace → Trace
  notify attempt delay err t =
      if config.on_retry then record t { notices = (attempt + 1, delay, err) ∷ t.notices } else t

  abbrev delay_of : ℕ → ℕ
  delay_of attempt = calculate_delay floats attempt config (world.factor attempt)

  -- The wait, and then `rest`.
  wait : ℕ → GoError → Trace → Trace
  unfolding notify
  wait attempt err rest =
      let delay = delay_of attempt in
      notify attempt delay err (elim (world.done_first attempt) [
        | some c ↦ stop (context_ended c) (attempt + 1)
        | none ↦ record rest { waits = delay ∷ rest.waits }
      ])

  -- The body of the loop behind a failed call; `rest` is the loop from the next attempt on.
  after_failure : ℕ → GoError → Trace → Trace
  unfolding wait
  after_failure attempt err rest =
      if ltb_ℤ (pos attempt) config.max_attempts
      then (if is_retryable config err
          then (elim (world.context_err attempt) [
            | some c ↦ stop (context_ended c) (attempt + 1)
            | none ↦ wait attempt err rest
          ])
          else stop (returned err) (attempt + 1))
      else stop (attempts_exceeded config.max_attempts (some err)) (attempt + 1)

  -- The loop; running out of fuel is a result of its own, which no run of the code has.
  unfoldable pub retry_loop : ℕ → ℕ → Option GoError → Trace
  unfolding after_failure
  retry_loop zero attempt last = stop out_of_fuel attempt
  retry_loop (suc n) attempt last =
      if ltb_ℤ config.max_attempts (pos attempt)
      then stop (attempts_exceeded config.max_attempts last) attempt
      else (elim (world.call attempt) [
        | succeeds ↦ stop nil (attempt + 1)
        | panics ↦ stop panicking (attempt + 1)
        | fails err ↦ after_failure attempt err (retry_loop n (attempt + 1) (some err))
      ])

  -- One round more than the guards of the loop let pass, so that they bound the calls.
  unfoldable pub retry : Trace
  unfolding retry_loop
  retry = retry_loop (pos_part config.max_attempts + 2) 0 none

  -- The deferred `recover`.
  unfoldable pub retry_with_recovery : Trace
  retry_with_recovery = elim retry.result [
    | panicking ↦ record retry { result = recovered }
    | _ ↦ retry
  ]

-- `NewExecutor`, and the options, which copy the configuration.
pub new_executor : {F : Type 0} → F → Option (RetryConfig F) → RetryConfig F
new_executor two none = default_retry_config two
new_executor two (some config) = config

pub with_max_attempts : {F : Type 0} → RetryConfig F → ℤ → RetryConfig F
with_max_attempts config n = record config { max_attempts = n }

pub with_initial_delay : {F : Type 0} → RetryConfig F → ℕ → RetryConfig F
with_initial_delay config d = record config { initial_delay = d }

pub with_max_delay : {F : Type 0} → RetryConfig F → ℕ → RetryConfig F
with_max_delay config d = record config { max_delay = d }

-- `Executor.Execute`: `fn` is closed over the context and run by the loop.
pub execute : {F : Type 0} → DelayFloats F → World F → RetryConfig F → Trace
unfolding retry
execute floats world config = retry floats world config
