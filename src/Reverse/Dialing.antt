-- ===== src/Reverse/Dialing.antt =====
-- Which peers a dial can reach.
use grpc_mesh_server.Prelude.{
  ℕ, ◌≡◌, refl, inl, inr, true, false, List, [], ◌++◌, some, arith, Str, codes, is_empty,
  Option-cases, Bool-cases, nat_eq, str_eq_instance,
}
use mathlib.Core.List.{Mem}
use grpc_mesh_server.Map.{lookup}
use grpc_mesh_server.Registry.Sessions.{SessionState, SessionManager, get, open_stream}
use grpc_mesh_server.Reverse.{
  Grpc, Context, InvokeRequest, InvokeResponse, Gateway, Times, Dialed, connected, dial_failed,
  Streamed, conn, failure, response, dial_context, dial_peer, invoke, Answer, dial_text,
  ensure_deadline, with_timeout, millis,
}

-- The peer has a connected session, over yamux.
pub record IsReachable (sm : SessionManager) (peer : Str) : Type 0 where
  pub id : ℕ
  pub state : SessionState
  pub session : ℕ
  pub registered : get sm peer ≡ some id
  pub found : lookup id sm.objects ≡ some state
  pub online : state.connected ≡ true
  pub tunnelled : state.session ≡ some session

-- What `WithBlock` and `WithContextDialer` of grpc-go promise: a dial that connects has obtained its
-- connection from the given function, in one of the states that the registry went through.
pub record IsDialing {C S E : Type 0} (grpc : Grpc C S E) : Type 0 where
  pub dials :
      (during : List SessionManager) (ctx : Context) (target : Str)
      (f : SessionManager → Context → Streamed) (c : C)
      → grpc.dial during ctx target f ≡ connected c
      → (sm : SessionManager) × Mem sm during × (inner : Context) × (y : ℕ) × (f sm inner ≡ conn y)

module _ {C S E : Type 0} (grpc : Grpc C S E) where
  dial_context-IsReachable :
      (peer : Str) (sm : SessionManager) (ctx : Context) (y : ℕ)
      → dial_context grpc peer sm ctx ≡ conn y
      → IsReachable sm peer
  unfolding dial_context open_stream get
  dial_context-IsReachable peer sm ctx y e = elim (Option-cases (lookup peer sm.sessions)) [
    | inl n ↦ ground arith
    | inr (id, r) ↦ elim (Option-cases (lookup id sm.objects)) [
      | inl n ↦ ground arith
      | inr (s, f) ↦ elim (Bool-cases s.connected) [
        | inr n ↦ ground arith
        | inl on ↦ elim (Option-cases s.session) [
          | inl n ↦ ground arith
          | inr (z, t) ↦ record {
            id = id;
            state = s;
            session = z;
            registered = r;
            found = f;
            online = on;
            tunnelled = t;
          }
        ]
      ]
    ]
  ]

  fails_by_itself :
      (g : Gateway) (during : List SessionManager) (ctx : Context) (peer : Str)
      (req : InvokeRequest) (t : Times)
      → IsDialing grpc
      → ((sm : SessionManager) → Mem sm during → ¬ IsReachable sm peer)
      → (message : Str) × (elapsed : ℕ) × (invoke grpc g during ctx peer req t
          ≡ (response (failure req (codes "DIAL_FAILED") message elapsed), []))
  unfolding invoke dial_peer dial_text
  fails_by_itself g during ctx peer req t d never = elim (Bool-cases (is_empty peer)) [
    | inl e ↦ (
      codes "failed to dial peer: " ++ codes "peer_id is required",
      millis t.started t.ended,
      ground (arith, e),
    )
    | inr e ↦
        go e
          (grpc.dial during
            (with_timeout (ensure_deadline g ctx req.timeout_ms t.started) t.dialing
              g.dialer.dial_timeout)
            (codes "passthrough:///" ++ peer) (dial_context grpc peer))
          refl
  ]
    where
      Fails : Answer × List C → Type 0
      Fails x =
          (message : Str) × (elapsed : ℕ) × (x
            ≡ (response (failure req (codes "DIAL_FAILED") message elapsed), []))

      go :
          is_empty peer ≡ false
          → (x : Dialed C E)
          → grpc.dial during
              (with_timeout
                (ensure_deadline g ctx req.timeout_ms t.started)
                t.dialing
                g.dialer.dial_timeout)
              (codes "passthrough:///" ++ peer)
              (dial_context grpc peer)
            ≡ x
          → Fails (invoke grpc g during ctx peer req t)
      go e (connected c) q =
          let (sm, m, inner, y, r) = d.dials during _ _ _ c q in
          elim (never sm m (dial_context-IsReachable peer sm inner y r)) [ ]
      go e (dial_failed x) q = (
        codes "failed to dial peer: " ++ (codes "failed to dial: " ++ grpc.error_text x),
        millis t.started t.ended,
        ground (arith, e, q),
      )

  -- When the peer has a connected session in no state that the registry goes through during a call,
  -- the gateway answers without an error with a response of its own: for the request's peer and
  -- method, not successful, without a result, with the error code DIAL_FAILED and without the
  -- request's correlation id. It has opened no connection that it would have to close.
  pub unreachable_fails :
      (g : Gateway) (during : List SessionManager) (ctx : Context) (peer : Str)
      (req : InvokeRequest) (t : Times)
      → IsDialing grpc
      → ((sm : SessionManager) → Mem sm during → ¬ IsReachable sm peer)
      → (resp : InvokeResponse) × (message : Str) × (invoke grpc g during ctx peer req t
          ≡ (response resp, []))
        × (resp.success ≡ false)
        × (resp.error ≡ some (record { code = codes "DIAL_FAILED"; message = message }))
        × (resp.correlation_id ≡ [])
        × (resp.result ≡ [])
        × (resp.peer_id ≡ req.peer_id)
        × (resp.method ≡ req.method)
  unfolding failure
  unreachable_fails g during ctx peer req t d never =
      let (message, elapsed, e) = fails_by_itself g during ctx peer req t d never in
      (
        failure req (codes "DIAL_FAILED") message elapsed,
        message,
        e,
        refl,
        refl,
        refl,
        refl,
        refl,
        refl,
      )
