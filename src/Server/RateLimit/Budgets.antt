-- ===== src/Server/RateLimit/Budgets.antt =====
-- What a bucket of the token bucket limiter can still grant.
use grpc_mesh_server.Prelude.{
  ℕ, ◌+◌, ◌-◌, ◌*◌, ◌^◌, ◌<◌, ◌≤◌, ◌≡◌, refl, ◌≢◌, inl, inr, Bool, List, [], ◌∷◌, arith,
  if◌then◌else◌, Str, str_eq, str_eq_iff, str_eq_instance, Bool-cases,
}
use grpc_mesh_server.Map.{lookup-insert}
use grpc_mesh_server.Server.RateLimit.{
  limiter_key, Bucket, TokenBucketLimiter, take_token, bucket_of, allow_tokens,
}

abbrev pub second : ℕ
second = 1_000_000_000

-- The inverse of the relative error of the refill.
abbrev pub scale : ℕ
scale = 1_125_899_906_842_624

-- A token, in the unit in which grants are compared with rates.
abbrev pub token : ℕ
token = second * scale

-- The time is a `time.Duration`, and the tokens of it fit well into an int.
abbrev pub InRange : ℕ → ℕ → Type 0
InRange elapsed rate = (elapsed < 2 ^ 63) × (rate * elapsed < 2 ^ 62 * second)

-- The refill in float64, in range: four roundings to 53 bits change the exact value by less than its
-- 2 ^ 50-th part, and the conversion to int cuts the fraction off.
pub record IsRefill (refill : ℕ → ℕ → ℕ) : Type 0 where
  pub not_above :
      (elapsed rate : ℕ)
      → InRange elapsed rate
      → refill elapsed rate * token ≤ rate * elapsed * (scale + 1)
  pub not_below :
      (elapsed rate : ℕ)
      → InRange elapsed rate
      → rate * elapsed * scale ≤ (refill elapsed rate + 1) * second * (scale + 1)

-- A call of `Allow`: the time, the peer and the method.
abbrev pub Call : Type 0
Call = ℕ × Str × Str

module _ (refill : ℕ → ℕ → ℕ) where
  unfoldable pub run : TokenBucketLimiter → List Call → TokenBucketLimiter × List Bool
  run tbl [] = (tbl, [])
  run tbl ((now, peer, method) ∷ calls) =
      let (tbl', allowed) = allow_tokens refill tbl peer method now in
      let (tbl'', answers) = run tbl' calls in (tbl'', allowed ∷ answers)

  -- How many calls for the key are granted.
  unfoldable pub granted : TokenBucketLimiter → List Call → Str → ℕ
  granted tbl [] key = 0
  granted tbl ((now, peer, method) ∷ calls) key =
      let (tbl', allowed) = allow_tokens refill tbl peer method now in
      let rest = granted tbl' calls key in
      if str_eq (limiter_key peer method) key then (if allowed then rest + 1 else rest) else rest

-- The times do not run backwards, begin at `from` and stay up to `till`.
abbrev pub Between : ℕ → ℕ → List Call → Type 0
Between from till [] = from ≤ till
Between from till ((now, peer, method) ∷ calls) = (from ≤ now) × Between now till calls

pub Between-le : (from till : ℕ) (calls : List Call) → Between from till calls → from ≤ till
Between-le from till [] h = h
Between-le from till ((now, peer, method) ∷ calls) h =
    omega (arith, h.0, Between-le now till calls h.1)

-- What a bucket can still grant until `till`.
abbrev pub budget : ℕ → ℕ → Bucket → ℕ
budget rate till b = b.tokens * token + rate * (till - b.last_refill) * (scale + 1)

pub mul_split : (rate a b c : ℕ) → a ≤ b → b ≤ c → rate * (c - a) ≡ rate * (b - a) + rate * (c - b)
mul_split rate a b c h k = let e : c - a ≡ (b - a) + (c - b) = omega arith in rw e (omega arith)

pub mul_mono : (rate a b : ℕ) → a ≤ b → rate * a ≤ rate * b
mul_mono rate a b h = grind arith

pub InRange-shorter : (a b rate : ℕ) → a ≤ b → InRange b rate → InRange a rate
InRange-shorter a b rate h r = omega (arith, h, r.0, r.1, mul_mono rate a b h)

module _ (tbl : TokenBucketLimiter) (key : Str) where
  -- A key that is not used keeps its budget, or loses a part.
  pub bucket_of_later :
      (since from now till : ℕ)
      → since ≤ from
      → from ≤ now
      → now ≤ till
      → (bucket_of tbl key from).last_refill ≤ from
      → since ≤ (bucket_of tbl key from).last_refill
      → (budget tbl.rate till (bucket_of tbl key now)
          ≤ budget tbl.rate till (bucket_of tbl key from))
        × ((bucket_of tbl key now).last_refill ≤ now)
        × (since ≤ (bucket_of tbl key now).last_refill)
  unfolding bucket_of
  bucket_of_later since from now till o h k l m =
      ground (arith, mul_mono tbl.rate (till - now) (till - from))

module _ (refill : ℕ → ℕ → ℕ) (law : IsRefill refill) where
  take_token-budget :
      (rate burst : ℕ) (b : Bucket) (since now till : ℕ)
      → b.last_refill ≤ now
      → since ≤ b.last_refill
      → now ≤ till
      → InRange (till - since) rate
      → let r = take_token refill rate burst b now in
        (budget rate till r.0 + (if r.1 then token else 0) ≤ budget rate till b)
        × (r.0.last_refill ≤ now)
        × (since ≤ r.0.last_refill)
  unfolding take_token
  take_token-budget rate burst b since now till h o k r =
      let e = now - b.last_refill in
      let shorter : e ≤ till - since = omega (arith, h, o, k) in
      let more = law.not_above e rate (InRange-shorter e (till - since) rate shorter r) in
      ground (arith, more, mul_split rate b.last_refill now till h k)

  -- The bucket of a key behind a call of `Allow`, for this key or for another one.
  pub bucket_of-allow :
      (tbl : TokenBucketLimiter) (key peer method : Str) (now : ℕ)
      → let r = allow_tokens refill tbl peer method now in
        let t = take_token refill tbl.rate tbl.burst (bucket_of tbl key now) now in
        (r.0.rate ≡ tbl.rate)
        × (r.0.burst ≡ tbl.burst)
        × (limiter_key peer method ≡ key → (bucket_of r.0 key now ≡ t.0) × (r.1 ≡ t.1))
        × (limiter_key peer method ≢ key → bucket_of r.0 key now ≡ bucket_of tbl key now)
  unfolding allow_tokens bucket_of
  bucket_of-allow tbl key peer method now =
      let key' = limiter_key peer method in
      let b = (take_token refill tbl.rate tbl.burst (bucket_of tbl key' now) now).0 in
      (
        refl,
        refl,
        (λ e. ground (arith, lookup-insert key' key b tbl.buckets, str_eq_iff key' key)),
        (λ e. ground (arith, lookup-insert key' key b tbl.buckets, str_eq_iff key' key)),
      )

  pub granted-budget :
      (tbl : TokenBucketLimiter) (calls : List Call) (key : Str) (since from till : ℕ)
      → Between from till calls
      → since ≤ from
      → (bucket_of tbl key from).last_refill ≤ from
      → since ≤ (bucket_of tbl key from).last_refill
      → InRange (till - since) tbl.rate
      → granted refill tbl calls key * token ≤ budget tbl.rate till (bucket_of tbl key from)
  unfolding granted
  granted-budget tbl [] key since from till h o l m range = omega arith
  granted-budget tbl ((now, peer, method) ∷ calls) key since from till h o l m range =
      let tbl' = (allow_tokens refill tbl peer method now).0 in
      let b = bucket_of tbl key now in
      let k = Between-le now till calls h.1 in
      let later = bucket_of_later tbl key since from now till o h.0 k l m in
      let spent = take_token-budget tbl.rate tbl.burst b since now till later.1 later.2 k range in
      let (rate, burst, here, there) = bucket_of-allow tbl key peer method now in
      let ih = granted-budget tbl' calls key since now till h.1 (omega (arith, o, h.0)) in
      elim (Bool-cases (str_eq (limiter_key peer method) key)) [
        | inl t ↦ rw t (ground (arith, here ((str_eq_iff _ key).0 t)))
        | inr f ↦
            rw f (ground (arith, there (λ e. cc ((str_eq_iff (limiter_key peer method) key).1 e))))
      ]
