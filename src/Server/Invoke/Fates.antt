-- ===== src/Server/Invoke/Fates.antt =====
-- The ways that a call through the proxy can go.
use grpc_mesh_server.Prelude.{
  ℕ, ◌≡◌, refl, sym, Bool, true, false, not, List, ◌++◌, Option, none, some, arith, if◌then◌else◌,
  Str, codes, is_empty,
}
use mathlib.Core.Path.{subst}
use grpc_mesh_server.Registry.Sessions.{SessionManager, get}
use grpc_mesh_server.Reverse.{
  Grpc, Context, InvokeRequest, InvokeResponse, Answer, response, error, invalid_argument,
  permission_denied, resource_exhausted, not_found, Gateway, Times, Dialed, DialError, dial_peer,
  ensure_deadline, connected, dial_failed, call_over, failure, dial_text, millis,
}
use grpc_mesh_server.Reverse as Reverse
use grpc_mesh_server.Server.Acl.{check}
use grpc_mesh_server.Server.RateLimit.{RateLimiter, allow}
use grpc_mesh_server.Server.Invoke.{
  InvokeProxy, Served, serves, Conditions, forward, invoke, conclude, releasing, refuse, limited,
}

module _ {C S E : Type 0} (grpc : Grpc C S E) where
  pub always_responds :
      (g : Gateway) (during : List SessionManager) (ctx : Context) (peer : Str)
      (req : InvokeRequest) (t : Times)
      → (resp : InvokeResponse) × ((Reverse.invoke grpc g during ctx peer req t).0 ≡ response resp)
  unfolding Reverse.invoke
  always_responds g during ctx peer req t =
      go
        (dial_peer grpc g.dialer during (ensure_deadline g ctx req.timeout_ms t.started) peer
          t.dialing)
        refl
    where
      go :
          (x : Dialed C (DialError E))
          → dial_peer grpc g.dialer during
              (ensure_deadline g ctx req.timeout_ms t.started)
              peer
              t.dialing
            ≡ x
          → (resp : InvokeResponse) × ((Reverse.invoke grpc g during ctx peer req t).0
              ≡ response resp)
      go (connected c) q = (
        call_over grpc c (ensure_deadline g ctx req.timeout_ms t.started) req t,
        ground (arith, q),
      )
      go (dial_failed e) q = (
        failure req (codes "DIAL_FAILED") (codes "failed to dial peer: " ++ dial_text grpc e)
            (millis t.started t.ended),
        ground (arith, q),
      )

module _ (refill : ℕ → ℕ → ℕ) (p : InvokeProxy) (req : InvokeRequest) (w : Conditions) where
  -- The request passes every guard, and takes a slot of the limiter.
  pub record IsAllowed (l : RateLimiter) : Type 0 where
    pub named : is_empty req.peer_id ≡ false
    pub called : is_empty req.method ≡ false
    pub permitted : check p.acl req.peer_id req.method ≡ true
    pub granted : allow refill p.limiter req.peer_id req.method w.allowed_at ≡ (l, true)

module _ {C S E : Type 0} (grpc : Grpc C S E) (refill : ℕ → ℕ → ℕ) (p : InvokeProxy)
    (req : InvokeRequest) (w : Conditions) where
  pub data Fate (ctx : Context) (started : ℕ) : Served → Type 0 where
    nameless :
        is_empty req.peer_id ≡ true
        → Fate ctx started (serves p (refuse invalid_argument (codes "peer_id is required")))
    methodless :
        is_empty req.method ≡ true
        → Fate ctx started (serves p (refuse invalid_argument (codes "method is required")))
    denied :
        is_empty req.peer_id ≡ false
        → is_empty req.method ≡ false
        → check p.acl req.peer_id req.method ≡ false
        → Fate ctx started
            (serves p (refuse permission_denied (codes "access denied by ACL policy")))
    over_limit :
        {l : RateLimiter}
        → is_empty req.peer_id ≡ false
        → is_empty req.method ≡ false
        → allow refill p.limiter req.peer_id req.method w.allowed_at ≡ (l, false)
        → Fate ctx started (
            serves
              (record p { limiter = l })
              (refuse resource_exhausted (codes "rate limit exceeded")))
    offline :
        {l : RateLimiter}
        → IsAllowed refill p req w l
        → get p.sessions req.peer_id ≡ none
        → Fate ctx started (
            releasing req.peer_id req.method (
              serves
                (record p { limiter = l })
                (refuse not_found (codes "peer not found or offline"))))
    forwarded :
        {l : RateLimiter} {id : ℕ} {resp : InvokeResponse}
        → IsAllowed refill p req w l
        → get p.sessions req.peer_id ≡ some id
        → (Reverse.invoke grpc p.gateway w.during
            (limited ctx req w.limited_at)
            req.peer_id
            req
            w.times).0
          ≡ response resp
        → Fate ctx started (
            releasing req.peer_id req.method (
              conclude grpc
                (w.meanwhile (record p { limiter = l }))
                req
                started
                w.answered_at
                w.beaten_at
                (response resp)))

  allowed-Fate :
      (ctx : Context) (started : ℕ) (l : RateLimiter)
      → IsAllowed refill p req w l
      → Fate ctx started (
          releasing req.peer_id req.method
            (forward grpc (record p { limiter = l }) ctx req started w))
  unfolding forward
  allowed-Fate ctx started l a =
      let (resp, r) =
        always_responds grpc p.gateway w.during (limited ctx req w.limited_at) req.peer_id req
          w.times in
      go (get p.sessions req.peer_id) refl resp r
    where
      calls : Answer → Served
      calls answer =
          conclude grpc (w.meanwhile (record p { limiter = l })) req started w.answered_at
            w.beaten_at answer

      answer : Answer
      answer =
          (Reverse.invoke grpc p.gateway w.during (limited ctx req w.limited_at) req.peer_id req
            w.times).0

      go :
          (o : Option ℕ)
          → get p.sessions req.peer_id ≡ o
          → (resp : InvokeResponse) → answer ≡ response resp
          → Fate ctx started (
              releasing req.peer_id req.method (elim o [
                | none ↦
                    serves
                      (record p { limiter = l })
                      (refuse not_found (codes "peer not found or offline"))
                | some id ↦ calls answer
              ]))
      go none e resp r = offline a e
      go (some id) e resp r =
          subst (λ x. Fate ctx started (releasing req.peer_id req.method (calls x))) (sym r)
            (forwarded a e r)

  pub invoke-Fate :
      (ctx : Context) (started : ℕ) → Fate ctx started (invoke grpc refill p ctx req started w)
  unfolding invoke
  invoke-Fate ctx started =
      go (is_empty req.peer_id) (is_empty req.method) (check p.acl req.peer_id req.method)
        (allow refill p.limiter req.peer_id req.method w.allowed_at) refl refl refl refl
    where
      go :
          (a b c : Bool) (g : RateLimiter × Bool)
          → is_empty req.peer_id ≡ a
          → is_empty req.method ≡ b
          → check p.acl req.peer_id req.method ≡ c
          → allow refill p.limiter req.peer_id req.method w.allowed_at ≡ g
          → Fate ctx started (
              if a
              then serves p (refuse invalid_argument (codes "peer_id is required"))
              else if b
              then serves p (refuse invalid_argument (codes "method is required"))
              else if not c
              then serves p (refuse permission_denied (codes "access denied by ACL policy"))
              else if g.1
              then releasing req.peer_id req.method
                  (forward grpc (record p { limiter = g.0 }) ctx req started w)
              else serves
                  (record p { limiter = g.0 })
                  (refuse resource_exhausted (codes "rate limit exceeded")))
      go true b c g ea eb ec eg = nameless ea
      go false true c g ea eb ec eg = methodless eb
      go false false false g ea eb ec eg = denied ea eb ec
      go false false true (l, true) ea eb ec eg =
          allowed-Fate ctx started l
            (record { named = ea; called = eb; permitted = ec; granted = eg })
      go false false true (l, false) ea eb ec eg = over_limit ea eb eg
