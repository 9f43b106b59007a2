-- ===== src/Server/RateLimit/Examples.antt =====
-- Limiters at concrete times, with the exact refill.
use grpc_mesh_server.Prelude.{
  ℕ, ◌+◌, ◌-◌, ◌*◌, ◌/◌, ◌≤◌, ◌≡◌, refl, true, false, List, [], ◌∷◌, arith, Str, codes, str_eq,
}
use grpc_mesh_server.Map.{lookup, insert, delete}
use grpc_mesh_server.Server.RateLimit.{
  limiter_key, new_token_bucket_limiter, allow_tokens, new_concurrency_limiter, count_of,
  allow_concurrent, release_concurrent,
}
use grpc_mesh_server.Server.RateLimit.Budgets.{second, scale, token, IsRefill, Call, run, granted}
use grpc_mesh_server.Server.RateLimit.Tokens.{granted_bounded}
use grpc_mesh_server.Server.RateLimit.Concurrency
use grpc_mesh_server.Server.RateLimit.Concurrency.{Event, allows, releases, in_flight_bounded}

abbrev exact : ℕ → ℕ → ℕ
exact elapsed rate = rate * elapsed / second

exact-IsRefill : IsRefill exact
exact-IsRefill = record {
  not_above = λ elapsed rate r. omega arith;
  not_below = λ elapsed rate r. omega arith;
}

abbrev key : Str
key = codes "a:m"

-- Two calls at once, one too many, and one more after a second.
abbrev calls : List Call
calls =
    (0, codes "a", codes "m")
    ∷ (0, codes "a", codes "m")
    ∷ (0, codes "a", codes "m")
    ∷ (second, codes "a", codes "m")
    ∷ []

-- The bucket is full again, and no more.
abbrev after_a_while : List Call
after_a_while = (99 * second, codes "a", codes "m") ∷ (99 * second, codes "a", codes "m") ∷ []

answers : (run exact (new_token_bucket_limiter 1 2) calls).1 ≡ true ∷ true ∷ false ∷ true ∷ []
unfolding run allow_tokens new_token_bucket_limiter insert delete lookup str_eq limiter_key
answers = refl

granted_bounded_example :
    let start = new_token_bucket_limiter 1 2 in
    let later = (run exact start calls).0 in
    (granted exact start calls key * token ≤ 2 * token + 1 * (second - 0) * (scale + 1))
    × (granted exact later after_a_while key * token
        ≤ (2 + 2) * token + 1 * (100 * second - second) * (scale + 1))
granted_bounded_example =
    granted_bounded exact exact-IsRefill 1 2 calls after_a_while key 0 second (100 * second)
      (omega arith) (omega arith) (omega arith)

abbrev events : List Event
events =
    allows (codes "a") (codes "m")
    ∷ allows (codes "a") (codes "m")
    ∷ releases (codes "a") (codes "m")
    ∷ allows (codes "a") (codes "m")
    ∷ []

one_at_a_time : Concurrency.granted (new_concurrency_limiter 1) events key ≡ 2
unfolding Concurrency.granted Concurrency.step allow_concurrent release_concurrent
    new_concurrency_limiter count_of insert delete lookup str_eq limiter_key
one_at_a_time = refl

in_flight_bounded_example :
    let cl = new_concurrency_limiter 1 in
    (count_of (Concurrency.run cl events).current key ≤ 1)
    × (Concurrency.granted cl events key
        ≤ count_of (Concurrency.run cl events).current key + Concurrency.released events key)
in_flight_bounded_example = in_flight_bounded 1 events key
