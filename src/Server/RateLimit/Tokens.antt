-- ===== src/Server/RateLimit/Tokens.antt =====
-- The promise of the token bucket: a key gets its burst, and its rate over time.
use grpc_mesh_server.Prelude.{
  ℕ, ◌+◌, ◌-◌, ◌*◌, ◌≤◌, ◌≡◌, refl, ap, ◌∙◌, inl, inr, Bool, List, [], ◌∷◌, ◌++◌, arith,
  if◌then◌else◌, Str, str_eq, str_eq_iff, str_eq_instance, Bool-cases,
}
use mathlib.Core.List.{append_assoc}
use grpc_mesh_server.Map.{lookup, insert}
use grpc_mesh_server.Server.RateLimit.{
  limiter_key, Bucket, TokenBucketLimiter, new_token_bucket_limiter, take_token, bucket_of,
  allow_tokens,
}
use grpc_mesh_server.Server.RateLimit.Budgets.{
  scale, token, InRange, IsRefill, Call, run, granted, Between, Between-le, budget, mul_split,
  mul_mono, InRange-shorter, bucket_of-allow, granted-budget,
}

-- The bucket of a key at the time `now`: at most full, and refilled last between `since` and `now`.
record IsSound (since now : ℕ) (tbl : TokenBucketLimiter) (key : Str) : Type 0 where
  full : (bucket_of tbl key now).tokens ≤ tbl.burst
  past : (bucket_of tbl key now).last_refill ≤ now
  known : since ≤ (bucket_of tbl key now).last_refill

IsSound-later :
    (since from now : ℕ) (tbl : TokenBucketLimiter) (key : Str)
    → since ≤ from
    → from ≤ now
    → IsSound since from tbl key
    → IsSound since now tbl key
unfolding bucket_of
IsSound-later since from now tbl key o h s = ground (arith, s.full, s.past, s.known)

module _ (refill : ℕ → ℕ → ℕ) (law : IsRefill refill) where
  take_token-full :
      (rate burst : ℕ) (b : Bucket) (since now : ℕ)
      → b.tokens ≤ burst
      → b.last_refill ≤ now
      → since ≤ b.last_refill
      → let r = take_token refill rate burst b now in
        (r.0.tokens ≤ burst) × (r.0.last_refill ≤ now) × (since ≤ r.0.last_refill)
  unfolding take_token
  take_token-full rate burst b since now f h o = ground (arith, f, h, o)

  allow-IsSound :
      (tbl : TokenBucketLimiter) (key peer method : Str) (since now : ℕ)
      → IsSound since now tbl key
      → IsSound since now (allow_tokens refill tbl peer method now).0 key
  allow-IsSound tbl key peer method since now s =
      let b = bucket_of tbl key now in
      let kept = take_token-full tbl.rate tbl.burst b since now s.full s.past s.known in
      let (rate, burst, here, there) = bucket_of-allow refill law tbl key peer method now in
      elim (Bool-cases (str_eq (limiter_key peer method) key)) [
        | inl t ↦ ground (arith, kept, burst, here ((str_eq_iff _ key).0 t))
        | inr f ↦ ground (
          arith,
          burst,
          s.full,
          s.past,
          s.known,
          there (λ e. cc ((str_eq_iff (limiter_key peer method) key).1 e)),
        )
      ]

  run-IsSound :
      (tbl : TokenBucketLimiter) (calls : List Call) (key : Str) (since from till : ℕ)
      → Between from till calls
      → since ≤ from
      → IsSound since from tbl key
      → let after = (run refill tbl calls).0 in
        IsSound since till after key × (after.rate ≡ tbl.rate) × (after.burst ≡ tbl.burst)
  unfolding run
  run-IsSound tbl [] key since from till h o s =
      (IsSound-later since from till tbl key o h s, refl, refl)
  run-IsSound tbl ((now, peer, method) ∷ calls) key since from till h o s =
      let tbl' = (allow_tokens refill tbl peer method now).0 in
      let (rate, burst, here, there) = bucket_of-allow refill law tbl key peer method now in
      let s' =
        allow-IsSound tbl key peer method since now
          (IsSound-later since from now tbl key o h.0 s) in
      let ih = run-IsSound tbl' calls key since now till h.1 (omega (arith, o, h.0)) s' in
      (ih.0, ih.1 ∙ rate, ih.2 ∙ burst)

  -- A token taken from a bucket that is at most full: what is left, from now on.
  take_token-capped :
      (rate burst : ℕ) (b : Bucket) (since now till : ℕ)
      → b.tokens ≤ burst
      → b.last_refill ≤ now
      → since ≤ b.last_refill
      → now ≤ till
      → InRange (till - since) rate
      → let r = take_token refill rate burst b now in
        budget rate till r.0 + (if r.1 then token else 0)
        ≤ (burst + 2) * token + rate * (till - now) * (scale + 1)
  unfolding take_token
  take_token-capped rate burst b since now till f h o k range =
      let e = now - b.last_refill in
      let shorter : e ≤ till - since = omega (arith, h, o, k) in
      let less = law.not_below e rate (InRange-shorter e (till - since) rate shorter range) in
      ground (arith, less, mul_split rate b.last_refill now till h k)

  -- The calls granted to a key from a bucket that is at most full.
  granted-window :
      (tbl : TokenBucketLimiter) (calls : List Call) (key : Str) (since from till : ℕ)
      → Between from till calls
      → since ≤ from
      → IsSound since from tbl key
      → InRange (till - since) tbl.rate
      → granted refill tbl calls key * token
        ≤ (tbl.burst + 2) * token + tbl.rate * (till - from) * (scale + 1)
  unfolding granted
  granted-window tbl [] key since from till h o s range = omega arith
  granted-window tbl ((now, peer, method) ∷ calls) key since from till h o s range =
      let tbl' = (allow_tokens refill tbl peer method now).0 in
      let b = bucket_of tbl key now in
      let k = Between-le now till calls h.1 in
      let now_sound = IsSound-later since from now tbl key o h.0 s in
      let next = allow-IsSound tbl key peer method since now now_sound in
      let (rate, burst, here, there) = bucket_of-allow refill law tbl key peer method now in
      let later : since ≤ now = omega (arith, o, h.0) in
      let range' : InRange (till - since) tbl'.rate = rw rate range in
      let less = mul_mono tbl.rate (till - now) (till - from) (omega (arith, h.0)) in
      elim (Bool-cases (str_eq (limiter_key peer method) key)) [
        | inl t ↦
            (let rest =
                granted-budget refill law tbl' calls key since now till h.1 later next.past
                  next.known range' in
              let spent =
                take_token-capped tbl.rate tbl.burst b since now till now_sound.full now_sound.past
                  now_sound.known k range in
              rw t (ground (arith, here ((str_eq_iff _ key).0 t), rest, spent, less)))
        | inr f ↦
            (let ih = granted-window tbl' calls key since now till h.1 later next range' in
              rw f (ground (arith, ih, rate, burst, less)))
      ]

  new-IsSound :
      (rate burst : ℕ) (key : Str) (from : ℕ)
      → IsSound from from (new_token_bucket_limiter rate burst) key
  unfolding bucket_of new_token_bucket_limiter lookup
  new-IsSound rate burst key from = ground arith

  -- For a refill that keeps to its law and calls in the order of their times, from `from` to
  -- `middle` and on to `till`, with the whole time in range: up to the 2 ^ 50-th part by which a
  -- refill may be rounded up, a new limiter grants a key at most `burst` calls until `middle`, and
  -- `rate` more per second; and however long the key was left unused by then, at most `burst` + 2
  -- calls from `middle` to `till`, and `rate` more per second of that time.
  pub granted_bounded :
      (rate burst : ℕ) (before calls : List Call) (key : Str) (from middle till : ℕ)
      → Between from middle before
      → Between middle till calls
      → InRange (till - from) rate
      → let start = new_token_bucket_limiter rate burst in
        let later = (run refill start before).0 in
        (granted refill start before key * token
          ≤ burst * token + rate * (middle - from) * (scale + 1))
        × (granted refill later calls key * token
            ≤ (burst + 2) * token + rate * (till - middle) * (scale + 1))
  unfolding bucket_of new_token_bucket_limiter lookup
  granted_bounded rate burst before calls key from middle till h h' range =
      let start = new_token_bucket_limiter rate burst in
      let le = Between-le from middle before h in
      let le' = Between-le middle till calls h' in
      let s = new-IsSound rate burst key from in
      let shorter = InRange-shorter (middle - from) (till - from) rate (omega (arith, le')) range in
      let (sound, r, b) = run-IsSound start before key from from middle h (omega arith) s in
      let later = (run refill start before).0 in
      let range' : InRange (till - from) later.rate = rw r range in
      let w = granted-window later calls key from middle till h' le sound range' in
      (
        granted-budget refill law start before key from from middle h (omega arith) s.past s.known
            shorter,
        ground (arith, w, r, b),
      )

same_key :
    (peer middle method : Str)
    → limiter_key (peer ++ (58 ∷ middle)) method ≡ limiter_key peer (middle ++ (58 ∷ method))
unfolding limiter_key
same_key peer middle method = simp append_assoc

-- `Allow` behind its first line.
served : (ℕ → ℕ → ℕ) → TokenBucketLimiter → Str → ℕ → TokenBucketLimiter × Bool
unfolding allow_tokens
served refill tbl key now =
    let (b, allowed) = take_token refill tbl.rate tbl.burst (bucket_of tbl key now) now in
    (record tbl { buckets = insert key b tbl.buckets }, allowed)

-- Two pairs of a peer and a method with a colon in the one or the other share their bucket: a call
-- for either changes the limiter, and is answered, as a call for the other would be.
pub keys_collide :
    (refill : ℕ → ℕ → ℕ) (tbl : TokenBucketLimiter) (peer middle method : Str) (now : ℕ)
    → allow_tokens refill tbl (peer ++ (58 ∷ middle)) method now
      ≡ allow_tokens refill tbl peer (middle ++ (58 ∷ method)) now
unfolding allow_tokens served
keys_collide refill tbl peer middle method now =
    ap (λ key. served refill tbl key now) (same_key peer middle method)
