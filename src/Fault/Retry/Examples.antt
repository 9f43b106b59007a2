-- ===== src/Fault/Retry/Examples.antt =====
-- `Retry` at concrete inputs; floats are half units, so that 0.5, 1.5 and 2.0 can be written.
use grpc_mesh_server.Prelude.{
  ℕ, ◌+◌, ◌*◌, ◌/◌, ◌^◌, ◌<◌, ◌≤◌, ◌≡◌, refl, true, false, [], ◌∷◌, none, some, arith, ltb, length,
  if◌then◌else◌, pos,
}
use grpc_mesh_server.Fault.Retry.{
  with_status, code_unavailable, code_not_found, default_retryable_errors, RetryConfig, DelayFloats,
  calculate_delay, grow, FnOutcome, succeeds, fails, World, nil, attempts_exceeded, retry,
  retry_loop,
}
use grpc_mesh_server.Fault.Retry.Runs.{Keeps, retry-Keeps, retry_succeeds, retry_exhausts}
use grpc_mesh_server.Fault.Retry.Delays.{IsFaithful, delay_bounded}

abbrev halves : DelayFloats ℕ
halves = record {
  of_ns = λ d. 2 * d;
  to_ns = λ x. x / 2;
  times = λ x y. x * y / 2;
  gt = λ x y. ltb y x;
}

abbrev config : RetryConfig ℕ
config = record {
  max_attempts = pos 3;
  initial_delay = 100;
  max_delay = 300;
  multiplier = 4;
  jitter = true;
  retryable_errors = some default_retryable_errors;
  on_retry = true;
}

abbrev third_time : ℕ → FnOutcome
third_time i = if ltb i 2 then fails (with_status code_unavailable) else succeeds

abbrev world : World ℕ
world = record {
  call = third_time;
  context_err = λ i. none;
  done_first = λ i. none;
  factor = λ i. 3;
}

backoff : retry halves world config ≡ record {
  result = nil;
  calls = 3;
  notices = (1, 150, with_status code_unavailable) ∷ (2, 300, with_status code_unavailable) ∷ [];
  waits = 150 ∷ 300 ∷ [];
}
unfolding retry default_retryable_errors calculate_delay
backoff = refl

not_retried :
    (retry halves (record world { call = λ i. fails (with_status code_not_found) }) config).calls
    ≡ 1
unfolding retry default_retryable_errors
not_retried = refl

retry-Keeps_example :
    let t = retry halves world config in
    Keeps halves world config 3 0 t × ((k : ℕ) → retry_loop halves world config (5 + k) 0 none ≡ t)
retry-Keeps_example = retry-Keeps halves world config 3 refl

retry_succeeds_example :
    let t = retry halves world config in (t.result ≡ nil) × (t.calls ≡ 3) × (length t.waits ≡ 2)
unfolding default_retryable_errors
retry_succeeds_example =
    retry_succeeds halves world config 3 2 refl (omega arith)
      (
        with_status code_unavailable,
        refl,
        refl,
        refl,
        refl,
        (with_status code_unavailable, refl, refl, refl, refl, tt),
      )
      refl

abbrev down : World ℕ
down = record world { call = λ i. fails (with_status code_unavailable) }

retry_exhausts_example :
    let t = retry halves down (record config { max_attempts = pos 1 }) in
    (t.result ≡ attempts_exceeded (pos 1) (some (with_status code_unavailable)))
    × (t.calls ≡ 2)
    × (length t.waits ≡ 1)
unfolding default_retryable_errors
retry_exhausts_example =
    retry_exhausts halves down (record config { max_attempts = pos 1 }) 1
      (with_status code_unavailable) refl (with_status code_unavailable, refl, refl, refl, refl, tt)
      refl

-- Numbers from 2 ^ 62 on stand for the NaN and the negative ones.
IsHalf : ℕ → Type 0
IsHalf x = x < 2 ^ 62

halves-IsFaithful : IsFaithful halves IsHalf 1_000
halves-IsFaithful = record {
  round_trip = λ d h. omega arith;
  bounded = λ x d h o f. ground (arith, f);
}

delay_bounded_example :
    (config.jitter ≡ false → calculate_delay halves 2 config 3 ≤ 300)
    × (2 * calculate_delay halves 2 config 3 ≤ 3 * 300)
unfolding grow IsHalf
delay_bounded_example =
    delay_bounded halves IsHalf 1_000 halves-IsFaithful 2 config 3 (omega arith) (omega arith)
      (λ d h. omega arith)
