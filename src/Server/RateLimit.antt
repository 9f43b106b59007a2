-- ===== src/Server/RateLimit.antt =====
-- pkg/server/ratelimit.go. Times are nanoseconds and do not run backwards; rates, bursts and limits
-- are not negative, the tokens of a bucket and of a refill together fit an int, and the two clock
-- readings behind a new bucket are one. `refill elapsed rate` is the float64 computation
-- `int(elapsed.Seconds() * float64(rate))`; its law is Budgets' IsRefill. Each `Allow` holds the
-- mutex, so it is one step.
pub mod Budgets
pub mod Tokens
pub mod Concurrency
mod Examples
use grpc_mesh_server.Prelude.{
  ℕ, ◌+◌, ◌-◌, Bool, true, false, List, [], ◌∷◌, ◌++◌, Option, none, some, ltb, if◌then◌else◌, Str,
  str_eq_instance,
}
use grpc_mesh_server.Map.{Map, lookup, insert}

-- `peerID + ":" + method`.
pub limiter_key : Str → Str → Str
limiter_key peer method = peer ++ (58 ∷ []) ++ method

pub record Bucket : Type 0 where
  pub tokens : ℕ
  pub last_refill : ℕ

pub record TokenBucketLimiter : Type 0 where
  pub rate : ℕ
  pub burst : ℕ
  pub buckets : Map Str Bucket

pub new_token_bucket_limiter : ℕ → ℕ → TokenBucketLimiter
new_token_bucket_limiter rate burst = record { rate = rate; burst = burst; buckets = [] }

-- The bucket of a key; a new one starts full.
pub bucket_of : TokenBucketLimiter → Str → ℕ → Bucket
bucket_of tbl key now = elim (lookup key tbl.buckets) [
  | none ↦ record { tokens = tbl.burst; last_refill = now }
  | some b ↦ b
]

module _ (refill : ℕ → ℕ → ℕ) where
  -- The refill, at the time `now`.
  topped_up : ℕ → ℕ → Bucket → ℕ → Bucket
  topped_up rate burst b now =
      let tokens_to_add = refill (now - b.last_refill) rate in
      let total = b.tokens + tokens_to_add in
      if ltb 0 tokens_to_add
      then record { tokens = if ltb burst total then burst else total; last_refill = now }
      else b

  -- The check behind it.
  consume : Bucket → Bucket × Bool
  consume b = if ltb 0 b.tokens then (record b { tokens = b.tokens - 1 }, true) else (b, false)

  pub take_token : ℕ → ℕ → Bucket → ℕ → Bucket × Bool
  unfolding topped_up consume
  take_token rate burst b now = consume (topped_up rate burst b now)

  unfoldable pub allow_tokens : TokenBucketLimiter → Str → Str → ℕ → TokenBucketLimiter × Bool
  unfolding bucket_of take_token
  allow_tokens tbl peer method now =
      let key = limiter_key peer method in
      let (b, allowed) = take_token tbl.rate tbl.burst (bucket_of tbl key now) now in
      (record tbl { buckets = insert key b tbl.buckets }, allowed)

-- A token bucket is released by nothing.
pub release_tokens : TokenBucketLimiter → Str → Str → TokenBucketLimiter
release_tokens tbl peer method = tbl

pub record ConcurrencyLimiter : Type 0 where
  pub max_concurrent : ℕ
  pub current : Map Str ℕ

pub new_concurrency_limiter : ℕ → ConcurrencyLimiter
new_concurrency_limiter max = record { max_concurrent = max; current = [] }

-- `cl.current[key]`, with the zero value for a missing key.
unfoldable pub count_of : Map Str ℕ → Str → ℕ
count_of m key = elim (lookup key m) [ none ↦ 0 | some n ↦ n ]

unfoldable pub allow_concurrent : ConcurrencyLimiter → Str → Str → ConcurrencyLimiter × Bool
unfolding count_of
allow_concurrent cl peer method =
    let key = limiter_key peer method in
    let n = count_of cl.current key in
    if ltb n cl.max_concurrent
    then (record cl { current = insert key (n + 1) cl.current }, true)
    else (cl, false)

unfoldable pub release_concurrent : ConcurrencyLimiter → Str → Str → ConcurrencyLimiter
unfolding count_of
release_concurrent cl peer method =
    let key = limiter_key peer method in
    let n = count_of cl.current key in
    if ltb 0 n then record cl { current = insert key (n - 1) cl.current } else cl

-- The interface `RateLimiter`, with `NoOpLimiter`.
pub data RateLimiter : Type 0 where
  token_bucket : TokenBucketLimiter → RateLimiter
  concurrency : ConcurrencyLimiter → RateLimiter
  no_op : RateLimiter

abbrev wrap : {A : Type 0} → (A → RateLimiter) → A × Bool → RateLimiter × Bool
wrap f (l, allowed) = (f l, allowed)

unfoldable pub allow : (ℕ → ℕ → ℕ) → RateLimiter → Str → Str → ℕ → RateLimiter × Bool
allow refill (token_bucket tbl) peer method now =
    wrap token_bucket (allow_tokens refill tbl peer method now)
allow refill (concurrency cl) peer method now = wrap concurrency (allow_concurrent cl peer method)
allow refill no_op peer method now = (no_op, true)

unfoldable pub release : RateLimiter → Str → Str → RateLimiter
unfolding release_tokens
release (token_bucket tbl) peer method = token_bucket (release_tokens tbl peer method)
release (concurrency cl) peer method = concurrency (release_concurrent cl peer method)
release no_op peer method = no_op
