-- ===== src/Fault/Retry/Runs.antt =====
-- How often `Retry` calls the function, and what it returns.
use grpc_mesh_server.Prelude.{
  ℕ, zero, suc, ◌+◌, ◌-◌, ◌<◌, ◌≤◌, ◌≡◌, refl, ◌≢◌, ◌⊎◌, inl, inr, true, Option, none, some, arith,
  length, pos, negsuc, pos_part, ap, ltb_ℤ, Bool-cases,
}
use grpc_mesh_server.Fault.Retry.{
  GoError, RetryConfig, DelayFloats, FnOutcome, succeeds, fails, panics, World, after_failure, nil,
  out_of_fuel, attempts_exceeded, panicking, Trace, stop, is_retryable, retry_loop, retry,
  retry_with_recovery,
}

FnOutcome-cases :
    (o : FnOutcome) → (o ≡ succeeds) ⊎ (o ≡ panics) ⊎ ((err : GoError) × (o ≡ fails err))
FnOutcome-cases succeeds = inl refl
FnOutcome-cases panics = inr (inl refl)
FnOutcome-cases (fails err) = inr (inr (err, refl))

module _ {F : Type 0} (floats : DelayFloats F) (world : World F) (config : RetryConfig F) where
  -- What the trace of the loop from `attempt` on keeps to: an end, calls up to the limit, `nil` only behind
  -- a last call that succeeds, and a notice before each wait.
  pub record Keeps (m attempt : ℕ) (t : Trace) : Type 0 where
    pub ended : t.result ≢ out_of_fuel
    pub at_most : t.calls ≤ m + 1
    pub nil_succeeded : t.result ≡ nil → (0 < t.calls) × (world.call (t.calls - 1) ≡ succeeds)
    pub waits_between : attempt + length t.waits ≤ t.calls
    pub told : attempt + length t.notices ≤ t.calls

  after_failure-Keeps :
      (m attempt : ℕ) (err : GoError) (rest : Trace)
      → attempt ≤ m
      → Keeps m (attempt + 1) rest
      → Keeps m attempt (after_failure floats world config attempt err rest)
  unfolding after_failure
  after_failure-Keeps m attempt err rest h r = ground arith

  loop-Keeps :
      (m n attempt : ℕ) (last : Option GoError)
      → config.max_attempts ≡ pos m
      → n + attempt ≡ m + 2
      → attempt ≤ m + 1
      → Keeps m attempt (retry_loop floats world config n attempt last)
  unfolding retry_loop
  loop-Keeps m zero attempt last p e l = absurd (omega arith)
  loop-Keeps m (suc n) attempt last p e l = elim (FnOutcome-cases (world.call attempt)) [
    | inl ok ↦ ground arith
    | inr (inl q) ↦ ground arith
    | inr (inr (err, f)) ↦ ground (
      arith,
      after_failure-Keeps m attempt err (retry_loop floats world config n (attempt + 1) (some err)),
      loop-Keeps m n (attempt + 1) (some err) p,
    )
  ]

  -- More fuel than the guards can use changes nothing.
  loop_stable :
      (m n k attempt : ℕ) (last : Option GoError)
      → config.max_attempts ≡ pos m
      → n + attempt ≡ m + 2
      → attempt ≤ m + 1
      → retry_loop floats world config (n + k) attempt last
        ≡ retry_loop floats world config n attempt last
  unfolding retry_loop
  loop_stable m zero k attempt last p e l = absurd (omega arith)
  loop_stable m (suc n) k attempt last p e l =
      let s : suc n + k ≡ suc (n + k) = omega arith in
      rw s (elim (Bool-cases (ltb_ℤ config.max_attempts (pos attempt))) [
        | inl t ↦ rw t refl
        | inr u ↦ rw u (elim (FnOutcome-cases (world.call attempt)) [
          | inl ok ↦ rw ok refl
          | inr (inl q) ↦ rw q refl
          | inr (inr (err, f)) ↦
              let h : attempt ≤ m = ground (arith, p, u) in
              let same = loop_stable m n k (attempt + 1) (some err) p (omega arith) (omega arith) in
              rw f (ap (after_failure floats world config attempt err) same)
        ])
      ])

  -- With a limit of m retries the loop ends, and more fuel than `retry` gives it changes nothing;
  -- `fn` is called at most m + 1 times; the result is nil only if the last call succeeded; and there
  -- are at most as many waits, and as many notices, as calls.
  pub retry-Keeps :
      (m : ℕ)
      → config.max_attempts ≡ pos m
      → let t = retry floats world config in
        Keeps m 0 t × ((k : ℕ) → retry_loop floats world config (m + 2 + k) 0 none ≡ t)
  unfolding retry
  retry-Keeps m p =
      let fuel : pos_part config.max_attempts + 2 ≡ m + 2 = ap (λ x. pos_part x + 2) p in
      rw fuel (
        loop-Keeps m (m + 2) 0 none p (omega arith) (omega arith),
        λ k. loop_stable m (m + 2) k 0 none p (omega arith) (omega arith),
      )

  -- A negative limit: `fn` is never called, and the error wraps no error.
  pub retry_negative :
      (n : ℕ)
      → config.max_attempts ≡ negsuc n
      → retry floats world config ≡ stop (attempts_exceeded (negsuc n) none) 0
  unfolding retry retry_loop
  retry_negative n p = ground arith

  -- The attempts i, i + 1, ... (j of them) fail with an error that is retried, and the context does
  -- not end.
  abbrev pub Failing : ℕ → ℕ → Type 0
  Failing i zero = Unit
  Failing i (suc j) =
      (err : GoError) × (world.call i ≡ fails err)
      × (is_retryable config err ≡ true)
      × (world.context_err i ≡ none)
      × (world.done_first i ≡ none)
      × Failing (i + 1) j

  loop_step :
      (m n i : ℕ) (last : Option GoError) (err : GoError)
      → config.max_attempts ≡ pos m
      → i < m
      → world.call i ≡ fails err
      → is_retryable config err ≡ true
      → world.context_err i ≡ none
      → world.done_first i ≡ none
      → let t = retry_loop floats world config (suc n) i last in
        let rest = retry_loop floats world config n (i + 1) (some err) in
        (t.result ≡ rest.result)
        × (t.calls ≡ rest.calls)
        × (length t.waits ≡ suc (length rest.waits))
  unfolding retry_loop
  loop_step m n i last err p h f r c d = ground arith

  loop_succeeds :
      (m n j i k : ℕ) (last : Option GoError)
      → config.max_attempts ≡ pos m
      → i + j ≡ k
      → k ≤ m
      → j < n
      → Failing i j
      → world.call k ≡ succeeds
      → let t = retry_loop floats world config n i last in
        (t.result ≡ nil) × (t.calls ≡ k + 1) × (length t.waits ≡ j)
  unfolding retry_loop
  loop_succeeds m zero j i k last p e h l f s = absurd (omega arith)
  loop_succeeds m (suc n) zero i k last p e h l f s = ground arith
  loop_succeeds m (suc n) (suc j) i k last p e h l f s =
      let (err, c, r, x, d, rest) = f in
      ground (arith, loop_step m n i last err p, loop_succeeds m n j (i + 1) k (some err) p)

  -- If the attempts below k fail with errors that are retried, the context does not end, and attempt
  -- k, within the limit, succeeds, then `Retry` returns nil after k + 1 calls and k waits.
  pub retry_succeeds :
      (m k : ℕ)
      → config.max_attempts ≡ pos m
      → k ≤ m
      → Failing 0 k
      → world.call k ≡ succeeds
      → let t = retry floats world config in
        (t.result ≡ nil) × (t.calls ≡ k + 1) × (length t.waits ≡ k)
  unfolding retry
  retry_succeeds m k p h f s = ground (arith, loop_succeeds m (m + 2) k 0 k none p)

  loop_exhausts :
      (m n j i : ℕ) (last : Option GoError) (err : GoError)
      → config.max_attempts ≡ pos m
      → i + j ≡ m
      → j < n
      → Failing i j
      → world.call m ≡ fails err
      → let t = retry_loop floats world config n i last in
        (t.result ≡ attempts_exceeded (pos m) (some err)) × (t.calls ≡ m + 1) × (length t.waits ≡ j)
  unfolding retry_loop
  loop_exhausts m zero j i last err p e l f s = absurd (omega arith)
  loop_exhausts m (suc n) zero i last err p e l f s = ground arith
  loop_exhausts m (suc n) (suc j) i last err p e l f s =
      let (err', c, r, x, d, rest) = f in
      ground (arith, loop_step m n i last err' p, loop_exhausts m n j (i + 1) (some err') err p)

  -- If the attempts below the limit m fail with errors that are retried, the context does not end,
  -- and attempt m fails, retried or not, then `Retry` gives up after m + 1 calls and m waits, with
  -- the last error.
  pub retry_exhausts :
      (m : ℕ) (err : GoError)
      → config.max_attempts ≡ pos m
      → Failing 0 m
      → world.call m ≡ fails err
      → let t = retry floats world config in
        (t.result ≡ attempts_exceeded (pos m) (some err)) × (t.calls ≡ m + 1) × (length t.waits ≡ m)
  unfolding retry
  retry_exhausts m err p f s = ground (arith, loop_exhausts m (m + 2) m 0 none err p)

  -- With the deferred `recover` no panic comes through, and every other result is that of `Retry`.
  pub recovery_total :
      ((retry_with_recovery floats world config).result ≢ panicking)
      × ((retry floats world config).result ≢ panicking
          → retry_with_recovery floats world config ≡ retry floats world config)
  unfolding retry_with_recovery
  recovery_total = (ground arith, ground arith)
