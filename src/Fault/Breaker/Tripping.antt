-- ===== src/Fault/Breaker/Tripping.antt =====
-- When the breaker trips, how long it stays open, and what a half-open phase lets through.
use grpc_mesh_server.Prelude.{
  ℕ, suc, ◌+◌, ◌-◌, ◌<◌, ◌≤◌, ◌≡◌, refl, Bool, true, false, List, [], ◌∷◌, map, arith, leb, length,
  if◌then◌else◌, All,
}
use grpc_mesh_server.Fault.Breaker.{
  closed, open_state, half_open, Floats, CircuitBreaker, allow, record_failure, force_open,
}

-- `Allow` at each of the times, with the answers.
unfoldable pub ask : {F : Type 0} → CircuitBreaker F → List ℕ → CircuitBreaker F × List Bool
ask cb [] = (cb, [])
ask cb (now ∷ times) =
    let (cb', allowed) = allow cb now in
    let (cb'', answers) = ask cb' times in (cb'', allowed ∷ answers)

abbrev pub refusals : {A : Type 0} → List A → List Bool
refusals = map λ _. false

module _ {F : Type 0} (floats : Floats F) where
  -- A failure run of length k: `RecordFailure` at each of the times.
  unfoldable pub fail_run : CircuitBreaker F → List ℕ → CircuitBreaker F
  fail_run cb [] = cb
  fail_run cb (now ∷ times) = fail_run (record_failure floats cb now) times

  failure_trips :
      (cb : CircuitBreaker F) (now : ℕ)
      → cb.config.max_failures ≤ cb.failures + 1
      → (record_failure floats cb now).state ≡ open_state
  unfolding record_failure
  failure_trips cb now h = ground arith

  failure_counts :
      (cb : CircuitBreaker F) (now : ℕ)
      → ((record_failure floats cb now).failures ≡ cb.failures + 1)
        × ((record_failure floats cb now).config ≡ cb.config)
  unfolding record_failure
  failure_counts cb now = ground arith

  fail_run_trips :
      (cb : CircuitBreaker F) (now : ℕ) (times : List ℕ)
      → cb.config.max_failures ≤ cb.failures + suc (length times)
      → (fail_run cb (now ∷ times)).state ≡ open_state
  unfolding fail_run
  fail_run_trips cb now [] h = failure_trips cb now (omega arith)
  fail_run_trips cb now (t ∷ times) h =
      fail_run_trips (record_failure floats cb now) t times (ground (arith, failure_counts cb now))

  failure_spares :
      (cb : CircuitBreaker F) (now : ℕ)
      → floats.positive cb.config.failure_ratio ≡ false
      → cb.failures + 1 < cb.config.max_failures
      → (record_failure floats cb now).state ≡ cb.state
  unfolding record_failure
  failure_spares cb now r h = ground arith

  fail_run_spares :
      (cb : CircuitBreaker F) (times : List ℕ)
      → floats.positive cb.config.failure_ratio ≡ false
      → cb.failures + length times < cb.config.max_failures
      → (fail_run cb times).state ≡ cb.state
  unfolding fail_run
  fail_run_spares cb [] r h = refl
  fail_run_spares cb (t ∷ times) r h = ground (
    arith,
    failure_spares cb t,
    failure_counts cb t,
    fail_run_spares (record_failure floats cb t) times,
  )

  -- With the failure ratio switched off, a closed breaker is open after a nonempty run of failures
  -- exactly if the failures counted before, together with those of the run, reach the limit;
  -- otherwise it is still closed.
  pub fail_run_state :
      (cb : CircuitBreaker F) (now : ℕ) (times : List ℕ)
      → floats.positive cb.config.failure_ratio ≡ false
      → cb.state ≡ closed
      → (fail_run cb (now ∷ times)).state ≡ (
          if leb cb.config.max_failures (cb.failures + suc (length times))
          then open_state
          else closed)
  fail_run_state cb now times r c =
      ground (arith, fail_run_trips cb now times, fail_run_spares cb (now ∷ times))

allow_open :
    {F : Type 0} (cb : CircuitBreaker F) (now : ℕ)
    → cb.state ≡ open_state
    → now - cb.state_changed ≤ cb.config.timeout
    → allow cb now ≡ (cb, false)
unfolding allow
allow_open cb now s h = ground arith

-- An open breaker answers no, and does not change, at every time up to `timeout` after it opened;
-- at any later time it answers yes, and becomes half-open with no attempts counted.
pub open_period :
    {F : Type 0} (cb : CircuitBreaker F) (times : List ℕ) (late : ℕ)
    → cb.state ≡ open_state
    → All (λ t. t - cb.state_changed ≤ cb.config.timeout) times
    → cb.config.timeout < late - cb.state_changed
    → (ask cb times ≡ (cb, refusals times))
      × ((allow cb late).1 ≡ true)
      × ((allow cb late).0.state ≡ half_open)
      × ((allow cb late).0.attempts ≡ 0)
unfolding ask allow
open_period cb [] late s h l = ground arith
open_period cb (t ∷ times) late s h l =
    ground (arith, allow_open cb t s h.0, open_period cb times late s h.1 l)

-- A half-open breaker whose attempts have reached `half_open_max_attempts` answers no at every time
-- from then on, however much time goes by.
pub half_open_wedged :
    {F : Type 0} (cb : CircuitBreaker F) (times : List ℕ)
    → cb.state ≡ half_open
    → cb.config.half_open_max_attempts ≤ cb.attempts
    → ask cb times ≡ (cb, refusals times)
unfolding ask allow
half_open_wedged cb [] s h = refl
half_open_wedged cb (t ∷ times) s h = ground (arith, half_open_wedged cb times s h)

-- A half-open breaker that has attempts left answers yes to any number of calls of `Allow`: the
-- calls that it lets through are not counted.
pub half_open_unlimited :
    {F : Type 0} (cb : CircuitBreaker F) (times : List ℕ)
    → cb.state ≡ half_open
    → cb.attempts < cb.config.half_open_max_attempts
    → ask cb times ≡ (cb, map (λ _. true) times)
unfolding ask allow
half_open_unlimited cb [] s h = refl
half_open_unlimited cb (t ∷ times) s h = ground (arith, half_open_unlimited cb times s h)

-- A breaker with one trial attempt, a failure limit that one more failure does not reach and the
-- ratio switched off, that is forced open at `start`, tried after the timeout and fails that trial,
-- refuses every call from then on: the failed trial neither reopens it nor leaves it an attempt.
pub forced_open_wedges :
    {F : Type 0} (floats : Floats F) (cb : CircuitBreaker F) (start trial failed : ℕ)
    (times : List ℕ)
    → floats.positive cb.config.failure_ratio ≡ false
    → cb.config.half_open_max_attempts ≡ 1
    → cb.failures + 1 < cb.config.max_failures
    → cb.config.timeout < trial - start
    → let tried = allow (force_open cb start) trial in
      let wedged = record_failure floats tried.0 failed in
      (tried.1 ≡ true) × (wedged.state ≡ half_open) × (ask wedged times ≡ (wedged, refusals times))
unfolding allow record_failure force_open
forced_open_wedges floats cb start trial failed times r m f t =
    let wedged = record_failure floats (allow (force_open cb start) trial).0 failed in
    (ground arith, ground arith, half_open_wedged wedged times (ground arith) (ground arith))
