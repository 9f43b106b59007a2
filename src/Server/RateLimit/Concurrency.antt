-- ===== src/Server/RateLimit/Concurrency.antt =====
-- The promise of the concurrency limiter: no key has more calls in flight than its limit.
use grpc_mesh_server.Prelude.{
  ℕ, ◌+◌, ◌-◌, ◌≤◌, ◌≡◌, Bool, true, false, List, [], ◌∷◌, arith, if◌then◌else◌, Str, str_eq,
  str_eq_iff, str_eq_instance,
}
use grpc_mesh_server.Map.{Map, lookup, insert, lookup-insert}
use grpc_mesh_server.Server.RateLimit.{
  limiter_key, ConcurrencyLimiter, new_concurrency_limiter, count_of, allow_concurrent,
  release_concurrent,
}

pub data Event : Type 0 where
  allows releases : Str → Str → Event

unfoldable pub step : ConcurrencyLimiter → Event → ConcurrencyLimiter
step cl (allows peer method) = (allow_concurrent cl peer method).0
step cl (releases peer method) = release_concurrent cl peer method

unfoldable pub run : ConcurrencyLimiter → List Event → ConcurrencyLimiter
run cl [] = cl
run cl (e ∷ events) = run (step cl e) events

abbrev one_if : Bool → ℕ
one_if true = 1
one_if false = 0

-- The calls for the key that are granted, and the releases for it.
unfoldable pub granted : ConcurrencyLimiter → List Event → Str → ℕ
granted cl [] key = 0
granted cl (allows peer method ∷ events) key =
    (if str_eq (limiter_key peer method) key then one_if (allow_concurrent cl peer method).1 else 0)
    + granted (step cl (allows peer method)) events key
granted cl (releases peer method ∷ events) key = granted (step cl (releases peer method)) events key

unfoldable pub released : List Event → Str → ℕ
released [] key = 0
released (allows peer method ∷ events) key = released events key
released (releases peer method ∷ events) key =
    (if str_eq (limiter_key peer method) key then 1 else 0) + released events key

pub count_of-insert :
    (m : Map Str ℕ) (k key : Str) (n : ℕ)
    → count_of (insert k n m) key ≡ (if str_eq k key then n else count_of m key)
unfolding count_of
count_of-insert m k key n = ground (arith, lookup-insert k key n m)

-- One event: the limit stays, the count stays within it, and grants and releases balance.
step_balance :
    (cl : ConcurrencyLimiter) (e : Event) (key : Str)
    → count_of cl.current key ≤ cl.max_concurrent
    → ((step cl e).max_concurrent ≡ cl.max_concurrent)
      × (count_of (step cl e).current key ≤ cl.max_concurrent)
      × (granted cl (e ∷ []) key + count_of cl.current key
          ≤ count_of (step cl e).current key + released (e ∷ []) key)
unfolding step granted released allow_concurrent release_concurrent
step_balance cl (allows peer method) key h =
    let k = limiter_key peer method in
    ground (arith, count_of-insert cl.current k key (count_of cl.current k + 1), str_eq_iff k key)
step_balance cl (releases peer method) key h =
    let k = limiter_key peer method in
    ground (arith, count_of-insert cl.current k key (count_of cl.current k - 1), str_eq_iff k key)

run_balance :
    (cl : ConcurrencyLimiter) (events : List Event) (key : Str)
    → count_of cl.current key ≤ cl.max_concurrent
    → (count_of (run cl events).current key ≤ cl.max_concurrent)
      × (granted cl events key + count_of cl.current key
          ≤ count_of (run cl events).current key + released events key)
unfolding run granted released
run_balance cl [] key h = ground arith
run_balance cl (allows peer method ∷ events) key h =
    let e = allows peer method in
    ground (arith, step_balance cl e key h, run_balance (step cl e) events key)
run_balance cl (releases peer method ∷ events) key h =
    let e = releases peer method in
    ground (arith, step_balance cl e key h, run_balance (step cl e) events key)

-- After any events on a new limiter the count of a key is within the limit, and the grants for the
-- key exceed its releases by at most this count, so by at most the limit.
pub in_flight_bounded :
    (max : ℕ) (events : List Event) (key : Str)
    → let cl = new_concurrency_limiter max in
      (count_of (run cl events).current key ≤ max)
      × (granted cl events key ≤ count_of (run cl events).current key + released events key)
unfolding new_concurrency_limiter count_of lookup
in_flight_bounded max events key =
    let b = run_balance (new_concurrency_limiter max) events key (omega arith) in ground (arith, b)
