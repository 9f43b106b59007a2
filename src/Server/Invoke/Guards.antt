-- ===== src/Server/Invoke/Guards.antt =====
-- Which calls get to a node, and what the others are answered.
use grpc_mesh_server.Prelude.{
  ℕ, ◌≡◌, ◌≢◌, ◌↔◌, ◌⊎◌, inl, inr, refl, true, false, none, some, arith, codes, is_empty, nat_eq,
  str_eq_instance, Bool-cases,
}
use mathlib.Core.Path.{subst}
use grpc_mesh_server.Registry.Sessions.{Outcome, Result, done, panicked, get, heartbeat}
use grpc_mesh_server.Reverse.{
  Grpc, Context, InvokeRequest, InvokeResponse, response, error, Code, invalid_argument,
  permission_denied, resource_exhausted, not_found, Status, millis,
}
use grpc_mesh_server.Server.Acl.{check}
use grpc_mesh_server.Server.RateLimit.{RateLimiter, allow}
use grpc_mesh_server.Server.Invoke.Fates.{
  IsAllowed, Fate, nameless, methodless, denied, over_limit, offline, forwarded, invoke-Fate,
}
use grpc_mesh_server.Server.Invoke.{
  InvokeProxy, Served, serves, panics, Conditions, invoke, conclude, releasing, refuse, timed,
  validate_request,
}

-- The codes that `Invoke` answers with, each with the reason for it.
pub data IsReason (refill : ℕ → ℕ → ℕ) (p : InvokeProxy) (req : InvokeRequest) (w : Conditions)
    : Code → Type 0 where
  incomplete :
      (is_empty req.peer_id ≡ true) ⊎ (is_empty req.method ≡ true)
      → IsReason refill p req w invalid_argument
  forbidden : check p.acl req.peer_id req.method ≡ false → IsReason refill p req w permission_denied
  exhausted :
      (allow refill p.limiter req.peer_id req.method w.allowed_at).1 ≡ false
      → IsReason refill p req w resource_exhausted
  absent : get p.sessions req.peer_id ≡ none → IsReason refill p req w not_found

-- What a call promises: with a response, that every guard let it through; with an error, its reason;
-- and without either, nothing.
pub data IsAnswered (refill : ℕ → ℕ → ℕ) (p : InvokeProxy) (req : InvokeRequest) (w : Conditions)
    : Served → Type 0 where
  answered :
      {q : InvokeProxy} {resp : InvokeResponse} {l : RateLimiter} {id : ℕ}
      → IsAllowed refill p req w l
      → get p.sessions req.peer_id ≡ some id
      → IsAnswered refill p req w (serves q (response resp))
  rejected :
      {q : InvokeProxy} {st : Status}
      → IsReason refill p req w st.code
      → IsAnswered refill p req w (serves q (error st))
  lost :
      {q : InvokeProxy} {l : RateLimiter} {id : ℕ}
      → IsAllowed refill p req w l
      → get p.sessions req.peer_id ≡ some id
      → IsAnswered refill p req w (panics q)

module _ {C S E : Type 0} (grpc : Grpc C S E) (refill : ℕ → ℕ → ℕ) where
  forwarded-IsAnswered :
      (p q : InvokeProxy) (req : InvokeRequest) (w : Conditions) (a b now : ℕ)
      (resp : InvokeResponse) (l : RateLimiter) (id : ℕ)
      → IsAllowed refill p req w l
      → get p.sessions req.peer_id ≡ some id
      → IsAnswered refill p req w
          (releasing req.peer_id req.method (conclude grpc q req a b now (response resp)))
  unfolding conclude releasing
  forwarded-IsAnswered p q req w a b now resp l id h g = go (heartbeat q.sessions req.peer_id now)
    where
      go :
          (o : Outcome (Result (Unit {0})))
          → IsAnswered refill p req w (
              releasing req.peer_id req.method (elim o [
                | panicked sm ↦ panics (record q { sessions = sm })
                | done sm result ↦
                    serves (record q { sessions = sm }) (response (timed resp (millis a b)))
              ]))
      go (done sm r) = answered h g
      go (panicked sm) = lost h g

  Fate-IsAnswered :
      (p : InvokeProxy) (req : InvokeRequest) (w : Conditions) (ctx : Context) (started : ℕ)
      (x : Served)
      → Fate grpc refill p req w ctx started x
      → IsAnswered refill p req w x
  unfolding refuse releasing
  Fate-IsAnswered p req w ctx started x (nameless a) = rejected (incomplete (inl a))
  Fate-IsAnswered p req w ctx started x (methodless a) = rejected (incomplete (inr a))
  Fate-IsAnswered p req w ctx started x (denied a b c) = rejected (forbidden c)
  Fate-IsAnswered p req w ctx started x (over_limit a b c) =
      rejected (exhausted (ground (arith, c)))
  Fate-IsAnswered p req w ctx started x (offline a n) = rejected (absent n)
  Fate-IsAnswered p req w ctx started x (forwarded {l} {id} a n r) =
      forwarded-IsAnswered p _ req w started w.answered_at w.beaten_at _ l id a n

  -- Every call through the proxy comes to one of these ends: a response, and then the request names a
  -- peer and a method, the policy permits them, the limiter granted the call and the peer is registered;
  -- or an error, whose code tells which of these does not hold and is never Unavailable, since the
  -- gateway's own failures are responses; or a panic, at the heartbeat of a call that was let through.
  pub invoke-IsAnswered :
      (p : InvokeProxy) (ctx : Context) (req : InvokeRequest) (started : ℕ) (w : Conditions)
      → IsAnswered refill p req w (invoke grpc refill p ctx req started w)
  invoke-IsAnswered p ctx req started w =
      Fate-IsAnswered p req w ctx started _ (invoke-Fate grpc refill p req w ctx started)

-- No error for an invalid argument.
abbrev NotInvalid : Served → Type 0
NotInvalid (serves q (error st)) = st.code ≢ invalid_argument
NotInvalid (serves q (response resp)) = Unit
NotInvalid (panics q) = Unit

reason-NotInvalid :
    (refill : ℕ → ℕ → ℕ) (p : InvokeProxy) (req : InvokeRequest) (w : Conditions) (code : Code)
    → validate_request (some req) ≡ none
    → IsReason refill p req w code
    → code ≢ invalid_argument
unfolding validate_request
reason-NotInvalid refill p req w code v (incomplete (inl e)) = absurd (ground (arith, v, e))
reason-NotInvalid refill p req w code v (incomplete (inr e)) = absurd (ground (arith, v, e))
reason-NotInvalid refill p req w code v (forbidden e) = λ q. ground (arith, q)
reason-NotInvalid refill p req w code v (exhausted e) = λ q. ground (arith, q)
reason-NotInvalid refill p req w code v (absent e) = λ q. ground (arith, q)

answered-NotInvalid :
    (refill : ℕ → ℕ → ℕ) (p : InvokeProxy) (req : InvokeRequest) (w : Conditions) (x : Served)
    → validate_request (some req) ≡ none
    → IsAnswered refill p req w x
    → NotInvalid x
answered-NotInvalid refill p req w x v (answered a g) = tt
answered-NotInvalid refill p req w x v (rejected r) = reason-NotInvalid refill p req w _ v r
answered-NotInvalid refill p req w x v (lost a g) = tt

-- `ValidateRequest` accepts exactly the requests that `Invoke`, in any state of the proxy and whatever
-- happens during the call, does not answer with the code InvalidArgument.
pub validates_iff :
    {C S E : Type 0} (grpc : Grpc C S E) (refill : ℕ → ℕ → ℕ) (p : InvokeProxy) (ctx : Context)
    (req : InvokeRequest) (started : ℕ) (w : Conditions)
    → (validate_request (some req) ≡ none) ↔ (
        (q : InvokeProxy) (st : Status)
        → invoke grpc refill p ctx req started w ≡ serves q (error st)
        → st.code ≢ invalid_argument)
validates_iff grpc refill p ctx req started w = (
  λ v q st e.
      subst NotInvalid e (
        answered-NotInvalid refill p req w _ v (invoke-IsAnswered grpc refill p ctx req started w)),
  λ h. elim (Bool-cases (is_empty req.peer_id)) [
    | inl e ↦ absurd (
        h p (record { code = invalid_argument; message = codes "peer_id is required" })
          (unfold invoke refuse in ground (arith, e)) refl)
    | inr e ↦ elim (Bool-cases (is_empty req.method)) [
      | inl f ↦ absurd (
          h p (record { code = invalid_argument; message = codes "method is required" })
            (unfold invoke refuse in ground (arith, e, f)) refl)
      | inr f ↦ unfold validate_request in ground (arith, e, f)
    ]
  ],
)
