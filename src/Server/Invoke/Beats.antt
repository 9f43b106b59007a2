-- ===== src/Server/Invoke/Beats.antt =====
-- What a call does to the heartbeat of the peer's session.
use grpc_mesh_server.Prelude.{
  ℕ, ◌+◌, ◌≤◌, ◌≡◌, sym, ◌∙◌, ap, true, false, List, some, arith, Str, codes, is_empty, nat_eq,
  str_eq_instance, ◌++◌,
}
use mathlib.Core.Path.{subst}
use grpc_mesh_server.Map.{lookup, insert}
use grpc_mesh_server.Registry.Sessions.{
  SessionManager, SessionState, Result, done, ok, get, cleanup, heartbeat,
}
use grpc_mesh_server.Registry.Sessions.Closing.{IsGood}
use grpc_mesh_server.Registry.Sessions.Surviving.{touched_survives}
use grpc_mesh_server.Reverse.{
  Grpc, Context, InvokeRequest, InvokeResponse, response, connected, dial_failed, Streamed, Times,
  failure, millis, with_timeout, ensure_deadline,
}
use grpc_mesh_server.Reverse as Reverse
use grpc_mesh_server.Server.RateLimit.{RateLimiter, release}
use grpc_mesh_server.Server.Invoke.Fates.{IsAllowed}
use grpc_mesh_server.Server.Invoke.{
  InvokeProxy, serves, Conditions, forward, invoke, conclude, releasing, timed, limited,
}

module _ {C S E : Type 0} (grpc : Grpc C S E) (refill : ℕ → ℕ → ℕ) where
  beat :
      (q : InvokeProxy) (peer : Str) (id : ℕ) (s : SessionState) (now : ℕ)
      → get q.sessions peer ≡ some id
      → lookup id q.sessions.objects ≡ some s
      → heartbeat q.sessions peer now
        ≡ done
            (record q.sessions {
              objects = insert id (record s { last_heartbeat = now }) q.sessions.objects;
            })
            (ok tt)
  unfolding heartbeat get
  beat q peer id s now r o = ground (arith, r, o)

  failed_answer :
      (p : InvokeProxy) (during : List SessionManager) (ctx : Context) (req : InvokeRequest)
      (t : Times) (e : E)
      → is_empty req.peer_id ≡ false
      → ((during : List SessionManager) (c : Context) (target : Str)
            (f : SessionManager → Context → Streamed)
          → grpc.dial during c target f ≡ dial_failed e)
      → (Reverse.invoke grpc p.gateway during ctx req.peer_id req t).0
        ≡ response (
            failure req
              (codes "DIAL_FAILED")
              (codes "failed to dial peer: " ++ (codes "failed to dial: " ++ grpc.error_text e))
              (millis t.started t.ended))
  unfolding Reverse.invoke Reverse.dial_peer Reverse.dial_text
  failed_answer p during ctx req t e n d = ground (
    arith,
    n,
    d during
        (with_timeout (ensure_deadline p.gateway ctx req.timeout_ms t.started) t.dialing
          p.gateway.dialer.dial_timeout)
        (codes "passthrough:///" ++ req.peer_id) (Reverse.dial_context grpc req.peer_id),
  )

  allowed_runs :
      (p : InvokeProxy) (ctx : Context) (req : InvokeRequest) (started : ℕ) (w : Conditions)
      (l : RateLimiter) (id : ℕ)
      → IsAllowed refill p req w l
      → get p.sessions req.peer_id ≡ some id
      → invoke grpc refill p ctx req started w
        ≡ releasing req.peer_id req.method (
            conclude grpc
              (w.meanwhile (record p { limiter = l }))
              req
              started
              w.answered_at
              w.beaten_at
              (Reverse.invoke grpc p.gateway w.during
                (limited ctx req w.limited_at)
                req.peer_id
                req
                w.times).0)
  unfolding invoke forward
  allowed_runs p ctx req started w l id a r =
      ground (arith, a.named, a.called, a.permitted, a.granted, r)

  concluded :
      (q : InvokeProxy) (req : InvokeRequest) (a b now : ℕ) (resp : InvokeResponse)
      (sm : SessionManager) (res : Result (Unit {0}))
      → heartbeat q.sessions req.peer_id now ≡ done sm res
      → releasing req.peer_id req.method (conclude grpc q req a b now (response resp))
        ≡ serves
            (record q { sessions = sm; limiter = release q.limiter req.peer_id req.method })
            (response (timed resp (millis a b)))
  unfolding conclude releasing
  concluded q req a b now resp sm res h = ground (arith, h)

  failure-timed :
      (req : InvokeRequest) (code message : Str) (elapsed now : ℕ)
      → (timed (failure req code message elapsed) now).success ≡ false
  unfolding timed failure
  failure-timed req code message elapsed now = ground arith

  -- A call that every dial fails for is answered with an unsuccessful response, and still counts as a
  -- sign of life of the peer: if the peer has a connected session, which the others leave as it is
  -- meanwhile, then no cleanup up to `age` after the call removes the session, however long the node
  -- itself has been silent.
  pub failed_call_beats :
      (p : InvokeProxy) (ctx : Context) (req : InvokeRequest) (started : ℕ) (w : Conditions)
      (l : RateLimiter) (id : ℕ) (s : SessionState) (e : E) (age later : ℕ)
      → IsAllowed refill p req w l
      → IsGood p.sessions
      → get p.sessions req.peer_id ≡ some id
      → lookup id p.sessions.objects ≡ some s
      → s.connected ≡ true
      → ((q : InvokeProxy) → (w.meanwhile q).sessions ≡ q.sessions)
      → ((during : List SessionManager) (c : Context) (target : Str)
            (f : SessionManager → Context → Streamed)
          → grpc.dial during c target f ≡ dial_failed e)
      → later ≤ w.beaten_at + age
      → (q : InvokeProxy) × (resp : InvokeResponse) × (sm : SessionManager) × (n : ℕ) × (invoke grpc
            refill p ctx req started w
          ≡ serves q (response resp))
        × (resp.success ≡ false)
        × (cleanup q.sessions age later ≡ done sm n)
        × (get sm req.peer_id ≡ some id)
  failed_call_beats p ctx req started w l id s e age later a g r o c m d le =
      let q = w.meanwhile (record p { limiter = l }) in
      let same : q.sessions ≡ p.sessions = m (record p { limiter = l }) in
      let here : get q.sessions req.peer_id ≡ some id = ap (λ x. get x req.peer_id) same ∙ r in
      let there : lookup id q.sessions.objects ≡ some s = ap (λ x. lookup id x.objects) same ∙ o in
      let good : IsGood q.sessions = subst IsGood (sym same) g in
      let (sm, n, k, v) =
        touched_survives q.sessions req.peer_id id s age w.beaten_at later good here there c le in
      (
        _,
        _,
        sm,
        n,
        allowed_runs p ctx req started w l id a r
            ∙ ap
                (λ x.
                  releasing req.peer_id req.method
                    (conclude grpc q req started w.answered_at w.beaten_at x))
                (failed_answer p w.during (limited ctx req w.limited_at) req w.times e a.named d)
            ∙ concluded q req started w.answered_at w.beaten_at _ _ _
                (beat q req.peer_id id s w.beaten_at here there),
        failure-timed req _ _ _ _,
        k,
        v,
      )
