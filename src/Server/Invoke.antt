-- ===== src/Server/Invoke.antt =====
-- pkg/server/invoke.go, and `InvokePlaneService.Invoke` of pkg/server/server.go. What other goroutines
-- do to the proxy's registry and limiter while the gateway calls the node is a function `meanwhile`.
pub mod Fates
pub mod Slots
pub mod Guards
pub mod Beats
mod Examples
use grpc_mesh_server.Prelude.{
  ℕ, ◌*◌, Bool, true, false, not, List, [], ◌∷◌, ◌++◌, Option, none, some, ltb, ◌==◌, if◌then◌else◌,
  Str, codes, is_empty,
}
use grpc_mesh_server.Registry.Sessions.{SessionManager, done, panicked, get, heartbeat}
use grpc_mesh_server.Reverse.{
  InvokeRequest, InvokeResponse, ErrorDetail, Code, invalid_argument, permission_denied,
  resource_exhausted, not_found, unavailable, Status, Context, with_timeout, Grpc, Gateway, Times,
  millis, Answer, response, error,
}
use grpc_mesh_server.Reverse as Reverse
use grpc_mesh_server.Server.Acl.{AclPolicy, permissive_acl, check}
use grpc_mesh_server.Server.RateLimit.{RateLimiter, no_op, allow, release}

pub record InvokeProxy : Type 0 where
  pub sessions : SessionManager
  pub gateway : Gateway
  pub acl : AclPolicy
  pub limiter : RateLimiter

-- `none` is a nil interface.
pub new_invoke_proxy :
    SessionManager → Gateway → Option AclPolicy → Option RateLimiter → InvokeProxy
new_invoke_proxy sm g acl limiter = record {
  sessions = sm;
  gateway = g;
  acl = elim acl [ none ↦ permissive_acl | some a ↦ a ];
  limiter = elim limiter [ none ↦ no_op | some l ↦ l ];
}

-- A call ends with an answer, or it panics.
pub data Served : Type 0 where
  serves : InvokeProxy → Answer → Served
  panics : InvokeProxy → Served

unfoldable pub refuse : Code → Str → Answer
refuse code message = error (record { code = code; message = message })

-- What the calls of one request find: the states of the registry during the dial, what the others have
-- done when the gateway returns, and the clocks.
pub record Conditions : Type 0 where
  pub during : List SessionManager
  pub meanwhile : InvokeProxy → InvokeProxy
  pub allowed_at : ℕ
  pub limited_at : ℕ
  pub times : Times
  pub answered_at : ℕ
  pub beaten_at : ℕ

-- `resp.ElapsedMs`, when the node has left it at zero.
unfoldable pub timed : InvokeResponse → ℕ → InvokeResponse
timed resp elapsed = if resp.elapsed_ms == 0 then record resp { elapsed_ms = elapsed } else resp

unfoldable pub limited : Context → InvokeRequest → ℕ → Context
unfolding with_timeout
limited ctx req now =
    if ltb 0 req.timeout_ms then with_timeout ctx now (req.timeout_ms * 1_000_000) else ctx

-- The deferred `Release`, whether the call returns or panics.
unfoldable pub releasing : Str → Str → Served → Served
releasing peer method (serves p a) = serves (record p { limiter = release p.limiter peer method }) a
releasing peer method (panics p) = panics (record p { limiter = release p.limiter peer method })

module _ {C S E : Type 0} (grpc : Grpc C S E) where
  -- Behind the gateway's answer: timing, and the heartbeat.
  unfoldable pub conclude : InvokeProxy → InvokeRequest → ℕ → ℕ → ℕ → Answer → Served
  unfolding timed
  conclude p req started answered_at now (error st) = serves p (
      error
        (record { code = unavailable; message = codes "invoke failed: " ++ grpc.status_text st }))
  conclude p req started answered_at now (response resp) =
      elim (heartbeat p.sessions req.peer_id now) [
        | panicked sm ↦ panics (record p { sessions = sm })
        | done sm result ↦
            serves (record p { sessions = sm }) (response (timed resp (millis started answered_at)))
      ]

  -- With a slot of the limiter taken.
  unfoldable pub forward : InvokeProxy → Context → InvokeRequest → ℕ → Conditions → Served
  unfolding conclude limited
  forward p ctx req started w = elim (get p.sessions req.peer_id) [
    | none ↦ serves p (refuse not_found (codes "peer not found or offline"))
    | some id ↦
        conclude (w.meanwhile p) req started w.answered_at w.beaten_at
          (Reverse.invoke grpc p.gateway w.during (limited ctx req w.limited_at) req.peer_id req
            w.times).0
  ]

  unfoldable pub invoke :
      (ℕ → ℕ → ℕ) → InvokeProxy → Context → InvokeRequest → ℕ → Conditions → Served
  unfolding forward releasing
  invoke refill p ctx req started w =
      if is_empty req.peer_id
      then serves p (refuse invalid_argument (codes "peer_id is required"))
      else if is_empty req.method
      then serves p (refuse invalid_argument (codes "method is required"))
      else if not (check p.acl req.peer_id req.method)
      then serves p (refuse permission_denied (codes "access denied by ACL policy"))
      else let (limiter, allowed) = allow refill p.limiter req.peer_id req.method w.allowed_at in
        let p' = record p { limiter = limiter } in
        if allowed
        then releasing req.peer_id req.method (forward p' ctx req started w)
        else serves p' (refuse resource_exhausted (codes "rate limit exceeded"))

  -- `InvokePlaneService.Invoke`, the gateway without the proxy's guards.
  pub plane_invoke : Gateway → List SessionManager → Context → InvokeRequest → Times → Answer
  plane_invoke g during ctx req t = (Reverse.invoke grpc g during ctx req.peer_id req t).0

  -- One request of `InvokeStream` and its answer, as the messages of the stream; the fields of the two
  -- kinds of messages are the same.
  unfoldable pub stream_response : InvokeRequest → Answer → InvokeResponse
  stream_response req (response resp) = resp
  stream_response req (error st) = record {
    peer_id = req.peer_id;
    method = req.method;
    result = [];
    success = false;
    error = some (record { code = grpc.code_name st.code; message = st.message });
    correlation_id = req.correlation_id;
    elapsed_ms = 0;
  }

  -- `InvokeStream` on the requests that `Recv` returns before its error; with each request, whether
  -- `Send` takes the response. The result is the proxy and the responses sent, or a panic.
  unfoldable pub invoke_stream :
      (ℕ → ℕ → ℕ)
      → InvokeProxy
      → Context
      → List (InvokeRequest × ℕ × Conditions × Bool)
      → InvokeProxy × List InvokeResponse × Bool
  unfolding invoke stream_response
  invoke_stream refill p ctx [] = (p, [], true)
  invoke_stream refill p ctx ((req, started, w, sends) ∷ rest) =
      elim (invoke refill p ctx req started w) [
        | panics p' ↦ (p', [], false)
        | serves p' answer ↦
            (let (p'', sent, ended) = invoke_stream refill p' ctx rest in
              if sends then (p'', stream_response req answer ∷ sent, ended) else (p', [], true))
      ]

-- `none` is no error, and `some` its text; the argument is a pointer.
unfoldable pub validate_request : Option InvokeRequest → Option Str
validate_request none = some (codes "request is nil")
validate_request (some req) =
    if is_empty req.peer_id
    then some (codes "peer_id is required")
    else if is_empty req.method
    then some (codes "method is required")
    else none
