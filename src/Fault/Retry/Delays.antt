-- ===== src/Fault/Retry/Delays.antt =====
-- How long `Retry` waits.
use grpc_mesh_server.Prelude.{
  ℕ, ◌*◌, ◌<◌, ◌≤◌, ◌≡◌, true, false, arith, if◌then◌else◌, Bool-cases, inl, inr,
}
use grpc_mesh_server.Fault.Retry.{RetryConfig, DelayFloats, grow, calculate_delay}

-- What the conversions between durations and float64 keep to. A duration up to `exact` (2 ^ 51, say)
-- is a float64 of its own: it comes back unchanged, and an ordinary number (not NaN, not negative)
-- that is not greater than it becomes, cut to whole nanoseconds, a duration that is not longer.
-- Nothing is said of greater numbers, whose conversion may not fit an int64.
pub record IsFaithful {F : Type 0} (floats : DelayFloats F) (IsOrdinary : F → Type 0) (exact : ℕ)
    : Type 0 where
  pub round_trip : (d : ℕ) → d ≤ exact → floats.to_ns (floats.of_ns d) ≡ d
  pub bounded :
      (x : F) (d : ℕ)
      → d ≤ exact
      → IsOrdinary x
      → floats.gt x (floats.of_ns d) ≡ false
      → floats.to_ns x ≤ d

-- A jitter factor below 1.5, in the way it acts on the durations up to `exact`.
abbrev pub IsJitter : {F : Type 0} → DelayFloats F → ℕ → F → Type 0
IsJitter floats exact factor =
    (d : ℕ) → d ≤ exact → 2 * floats.to_ns (floats.times (floats.of_ns d) factor) ≤ 3 * d

module _ {F : Type 0} (floats : DelayFloats F) (IsOrdinary : F → Type 0) (exact : ℕ)
    (faithful : IsFaithful floats IsOrdinary exact) where
  capped :
      (x : F) (limit : ℕ)
      → limit ≤ exact
      → IsOrdinary x
      → floats.to_ns (if floats.gt x (floats.of_ns limit) then floats.of_ns limit else x) ≤ limit
  capped x limit h o = elim (Bool-cases (floats.gt x (floats.of_ns limit))) [
    | inl t ↦ rw t (ground (arith, faithful.round_trip limit h))
    | inr f ↦ rw f (faithful.bounded x limit h o f)
  ]

  -- For faithful conversions, a limit in the exact range and an exponential delay that is an
  -- ordinary number, however large, the delay of the attempt is at most `max_delay` without jitter;
  -- with jitter it is at most one and a half times `max_delay`.
  pub delay_bounded :
      (attempt : ℕ) (config : RetryConfig F) (factor : F)
      → config.max_delay ≤ exact
      → IsOrdinary (grow floats attempt config.multiplier (floats.of_ns config.initial_delay))
      → IsJitter floats exact factor
      → let delay = calculate_delay floats attempt config factor in
        (config.jitter ≡ false → delay ≤ config.max_delay) × (2 * delay ≤ 3 * config.max_delay)
  unfolding calculate_delay
  delay_bounded attempt config factor h o j =
      let x = grow floats attempt config.multiplier (floats.of_ns config.initial_delay) in
      let limit = floats.of_ns config.max_delay in
      let base = floats.to_ns (if floats.gt x limit then limit else x) in
      elim (Bool-cases config.jitter) [
        | inl e ↦ rw e (ground (arith, capped x config.max_delay h o, j base))
        | inr e ↦ rw e (ground (arith, capped x config.max_delay h o))
      ]

  -- With jitter, an attempt whose exponential delay passes `max_delay` waits longer than `max_delay`
  -- whenever the jitter factor lengthens `max_delay`.
  pub jitter_exceeds :
      (attempt : ℕ) (config : RetryConfig F) (factor : F)
      → config.max_delay ≤ exact
      → config.jitter ≡ true
      → floats.gt
          (grow floats attempt config.multiplier (floats.of_ns config.initial_delay))
          (floats.of_ns config.max_delay)
        ≡ true
      → config.max_delay < floats.to_ns (floats.times (floats.of_ns config.max_delay) factor)
      → config.max_delay < calculate_delay floats attempt config factor
  unfolding calculate_delay
  jitter_exceeds attempt config factor h j g f = rw (j, g, faithful.round_trip config.max_delay h) f
