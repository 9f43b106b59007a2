-- ===== src/Server/Invoke/Slots.antt =====
-- The slots of a concurrency limit that calls through the proxy take and give back.
use grpc_mesh_server.Prelude.{
  ℕ, ◌+◌, ◌-◌, ◌≡◌, refl, Bool, true, false, arith, if◌then◌else◌, Str, str_eq, str_eq_iff,
  str_eq_instance,
}
use grpc_mesh_server.Registry.Sessions.{Outcome, Result, done, panicked, heartbeat}
use grpc_mesh_server.Reverse.{Grpc, Context, InvokeRequest, Answer, response, error, millis}
use grpc_mesh_server.Server.RateLimit.{
  RateLimiter, concurrency, ConcurrencyLimiter, count_of, limiter_key, allow_concurrent,
  release_concurrent, allow, release,
}
use grpc_mesh_server.Server.RateLimit.Concurrency.{count_of-insert}
use grpc_mesh_server.Server.Invoke.Fates.{
  Fate, nameless, methodless, denied, over_limit, offline, forwarded, invoke-Fate,
}
use grpc_mesh_server.Server.Invoke.{
  InvokeProxy, Served, serves, panics, Conditions, invoke, conclude, releasing, timed,
}

-- The proxy as a call leaves it.
abbrev pub left : Served → InvokeProxy
left (serves p a) = p
left (panics p) = p

-- The same calls in flight for every key.
abbrev pub Balanced : ConcurrencyLimiter → ConcurrencyLimiter → Type 0
Balanced a b = (key : Str) → count_of a.current key ≡ count_of b.current key

-- The limiter is a concurrency limiter with the calls in flight of `cl`.
abbrev pub Holds : RateLimiter → ConcurrencyLimiter → Type 0
Holds l cl = (cl' : ConcurrencyLimiter) × (l ≡ concurrency cl') × Balanced cl' cl

taken_count :
    (cl taken : ConcurrencyLimiter) (peer method key : Str)
    → allow_concurrent cl peer method ≡ (taken, true)
    → count_of taken.current key ≡ (
        if str_eq (limiter_key peer method) key
        then count_of cl.current key + 1
        else count_of cl.current key)
unfolding allow_concurrent
taken_count cl taken peer method key a =
    let k = limiter_key peer method in
    ground
      (arith, a, count_of-insert cl.current k key (count_of cl.current k + 1), str_eq_iff k key)

given_count :
    (cl : ConcurrencyLimiter) (peer method key : Str)
    → count_of (release_concurrent cl peer method).current key ≡ (
        if str_eq (limiter_key peer method) key
        then count_of cl.current key - 1
        else count_of cl.current key)
unfolding release_concurrent
given_count cl peer method key =
    let k = limiter_key peer method in
    ground (arith, count_of-insert cl.current k key (count_of cl.current k - 1), str_eq_iff k key)

-- A slot that is taken and given back: whatever others took meanwhile they have given back as well.
slot_balance :
    (cl taken later : ConcurrencyLimiter) (peer method : Str)
    → allow_concurrent cl peer method ≡ (taken, true)
    → Balanced later taken
    → Balanced (release_concurrent later peer method) cl
slot_balance cl taken later peer method a b key =
    ground (arith, taken_count cl taken peer method key a, given_count later peer method key, b key)

-- What `Allow` and `Release` of the interface do on a concurrency limiter.
taken_slot :
    (refill : ℕ → ℕ → ℕ) (p : InvokeProxy) (req : InvokeRequest) (w : Conditions)
    (cl : ConcurrencyLimiter) (l : RateLimiter)
    → p.limiter ≡ concurrency cl
    → allow refill p.limiter req.peer_id req.method w.allowed_at ≡ (l, true)
    → (taken : ConcurrencyLimiter) × (l ≡ concurrency taken)
      × (allow_concurrent cl req.peer_id req.method ≡ (taken, true))
unfolding allow
taken_slot refill p req w cl l e g = go (allow_concurrent cl req.peer_id req.method) refl
  where
    go :
        (x : ConcurrencyLimiter × Bool)
        → allow_concurrent cl req.peer_id req.method ≡ x
        → (taken : ConcurrencyLimiter) × (l ≡ concurrency taken)
          × (allow_concurrent cl req.peer_id req.method ≡ (taken, true))
    go (taken, true) q = (taken, ground (arith, e, g, q), q)
    go (taken, false) q = absurd (ground (arith, e, g, q))

untaken_slot :
    (refill : ℕ → ℕ → ℕ) (p : InvokeProxy) (req : InvokeRequest) (w : Conditions)
    (cl : ConcurrencyLimiter) (l : RateLimiter)
    → p.limiter ≡ concurrency cl
    → allow refill p.limiter req.peer_id req.method w.allowed_at ≡ (l, false)
    → l ≡ concurrency cl
unfolding allow allow_concurrent
untaken_slot refill p req w cl l e g = ground (arith, e, g)

give :
    (peer method : Str) (l : RateLimiter) (cl taken : ConcurrencyLimiter)
    → allow_concurrent cl peer method ≡ (taken, true)
    → Holds l taken
    → Holds (release l peer method) cl
unfolding release
give peer method l cl taken g (later, e, b) = (
  release_concurrent later peer method,
  ground (arith, e),
  slot_balance cl taken later peer method g b,
)

module _ {C S E : Type 0} (grpc : Grpc C S E) where
  conclude-Holds :
      (p : InvokeProxy) (req : InvokeRequest) (a b now : ℕ) (answer : Answer)
      (cl : ConcurrencyLimiter)
      → Holds p.limiter cl
      → Holds (left (conclude grpc p req a b now answer)).limiter cl
  unfolding conclude
  conclude-Holds p req a b now (error st) cl h = h
  conclude-Holds p req a b now (response resp) cl h = go (heartbeat p.sessions req.peer_id now)
    where
      go :
          (o : Outcome (Result (Unit {0})))
          → Holds
              (left (elim o [
                | panicked sm ↦ panics (record p { sessions = sm })
                | done sm result ↦
                    serves (record p { sessions = sm }) (response (timed resp (millis a b)))
              ])).limiter
              cl
      go (done sm r) = h
      go (panicked sm) = h

  released-Holds :
      (peer method : Str) (served : Served) (cl taken : ConcurrencyLimiter)
      → allow_concurrent cl peer method ≡ (taken, true)
      → Holds (left served).limiter taken
      → Holds (left (releasing peer method served)).limiter cl
  unfolding releasing
  released-Holds peer method (serves p a) cl taken g h = give peer method p.limiter cl taken g h
  released-Holds peer method (panics p) cl taken g h = give peer method p.limiter cl taken g h

module _ {C S E : Type 0} (grpc : Grpc C S E) (refill : ℕ → ℕ → ℕ) where
  Fate-Holds :
      (p : InvokeProxy) (req : InvokeRequest) (w : Conditions) (ctx : Context) (started : ℕ)
      (cl : ConcurrencyLimiter) (x : Served)
      → p.limiter ≡ concurrency cl
      → ((q : InvokeProxy) (c : ConcurrencyLimiter)
          → Holds q.limiter c
          → Holds (w.meanwhile q).limiter c)
      → Fate grpc refill p req w ctx started x
      → Holds (left x).limiter cl
  Fate-Holds p req w ctx started cl x e m (nameless a) = (cl, e, λ key. refl)
  Fate-Holds p req w ctx started cl x e m (methodless a) = (cl, e, λ key. refl)
  Fate-Holds p req w ctx started cl x e m (denied a b c) = (cl, e, λ key. refl)
  Fate-Holds p req w ctx started cl x e m (over_limit a b c) =
      (cl, untaken_slot refill p req w cl _ e c, λ key. refl)
  Fate-Holds p req w ctx started cl x e m (offline {l} a n) =
      let (taken, f, g) = taken_slot refill p req w cl l e a.granted in
      released-Holds grpc req.peer_id req.method _ cl taken g (taken, f, λ key. refl)
  Fate-Holds p req w ctx started cl x e m (forwarded {l} a n r) =
      let (taken, f, g) = taken_slot refill p req w cl l e a.granted in
      released-Holds grpc req.peer_id req.method _ cl taken g (
        conclude-Holds grpc _ req started w.answered_at w.beaten_at _ taken
          (m _ taken (taken, f, λ key. refl)))

  -- Every call through the proxy gives back what it took of a concurrency limit, on every path: refused
  -- by a guard, refused by the limit itself, for an unknown peer, after a failed dial, after an answer
  -- and after a panic. If the calls that others make meanwhile leave each count as they found it, then
  -- afterwards each key has as many calls in flight as before.
  pub slots_balance :
      (p : InvokeProxy) (ctx : Context) (req : InvokeRequest) (started : ℕ) (w : Conditions)
      (cl : ConcurrencyLimiter)
      → p.limiter ≡ concurrency cl
      → ((q : InvokeProxy) (c : ConcurrencyLimiter)
          → Holds q.limiter c
          → Holds (w.meanwhile q).limiter c)
      → Holds (left (invoke grpc refill p ctx req started w)).limiter cl
  slots_balance p ctx req started w cl e m =
      Fate-Holds p req w ctx started cl _ e m (invoke-Fate grpc refill p req w ctx started)
