-- ===== src/Server/Lifecycle/Restarts.antt =====
-- What a server holds and serves after starts and stops.
use grpc_mesh_server.Prelude.{
  ◌+◌, ◌≤◌, ◌≡◌, refl, ◌⊎◌, inl, inr, Bool-cases, true, false, List, [], ◌∷◌, arith, if◌then◌else◌,
}
use grpc_mesh_server.Metrics.{start_metrics, stop_metrics}
use grpc_mesh_server.Server.Lifecycle.{
  GrpcOps, Server, Binds, Waits, returned, blocked, left, Call, starts, stops, ok, new, start, stop,
  step, run, start_tunnel, stop_tunnel, start_behind, start_grpc,
}

-- What grpc-go documents: a new server serves nothing, a call of `Serve` serves one listener more,
-- `GracefulStop` closes the listeners, and `Serve` on a server that was stopped returns with an error.
pub record IsGrpc {G : Type 0} (ops : GrpcOps G) : Type 0 where
  pub fresh : ops.serving ops.new_server ≡ 0
  pub one_more : (g : G) → ops.serving (ops.serve g) ≤ ops.serving g + 1
  pub emptied : (g : G) → ops.serving (ops.graceful_stop g) ≡ 0
  pub over : (g : G) → ops.stopped (ops.graceful_stop g) ≡ true
  pub closed : (g : G) → ops.stopped g ≡ true → ops.serve g ≡ g

module _ {G : Type 0} (ops : GrpcOps G) where
  -- The exporter's one listener stands for its being started, and nothing is open without it; no listener
  -- of the tunnel was replaced while it was open.
  pub record IsTidy (s : Server G) : Type 0 where
    pub metrics_open : s.metrics.listening ≡ (if s.metrics.started then 1 else 0)
    pub guarded :
        s.metrics.started ≡ false → (s.tunnel.current_open ≡ false) × (ops.serving s.grpc ≡ 0)
    pub none_leaked : s.tunnel.leaked ≡ 0
    pub one_served : ops.serving s.grpc ≤ 1
    pub has : s.tunnel.current_open ≡ true → s.tunnel.has_listener ≡ true

  -- A server that was stopped.
  pub record IsOver (s : Server G) : Type 0 where
    pub deaf : ops.stopped s.grpc ≡ true
    pub silent : ops.serving s.grpc ≡ 0
    pub shut : s.tunnel.cancelled ≡ true
    pub unswept : s.cancelled ≡ true

-- How a stop of the server `s` ends.
module _ {G : Type 0} (ops : GrpcOps G) (s : Server G) (w : Waits) where
  pub record HasReturned : Type 0 where
    pub after : Server G
    pub returns : stop ops s w ≡ returned after
    pub rpcs_ended : w.rpcs_end ≡ true
    pub handlers_ended : w.handlers_end ≡ true
    pub unserved : ops.serving after.grpc ≡ 0
    pub told : after.cancelled ≡ true
    pub unlistened : after.metrics.listening ≡ 0
    pub restartable : after.metrics.started ≡ false
    pub shut : after.tunnel.current_open ≡ false
    pub none_leaked : after.tunnel.leaked ≡ 0

  pub record WaitsForRpcs : Type 0 where
    pub after : Server G
    pub waits : stop ops s w ≡ blocked after
    pub running : w.rpcs_end ≡ false
    pub unserved : ops.serving after.grpc ≡ 0
    pub told : after.cancelled ≡ true
    pub exporter : after.metrics ≡ s.metrics
    pub tunnel : after.tunnel ≡ s.tunnel

  pub record WaitsForHandlers : Type 0 where
    pub after : Server G
    pub waits : stop ops s w ≡ blocked after
    pub rpcs_ended : w.rpcs_end ≡ true
    pub running : w.handlers_end ≡ false
    pub unserved : ops.serving after.grpc ≡ 0
    pub told : after.cancelled ≡ true
    pub exporter : after.metrics ≡ s.metrics
    pub shut : after.tunnel.current_open ≡ false
    pub cancelled : after.tunnel.cancelled ≡ true

module _ {G : Type 0} (ops : GrpcOps G) (law : IsGrpc ops) where
  pub new-IsTidy : IsTidy ops (new ops)
  unfolding new
  new-IsTidy = record {
    metrics_open = refl;
    guarded = λ e. (refl, law.fresh);
    none_leaked = refl;
    one_served = omega (arith, law.fresh);
    has = λ e. e;
  }

  -- With the exporter just started, nothing else runs yet.
  start-IsTidy : (s : Server G) (b : Binds) → IsTidy ops s → IsTidy ops (start ops s b).0
  unfolding start start_metrics start_behind start_tunnel start_grpc
  start-IsTidy s b t = record {
    metrics_open = ground (arith, t.metrics_open);
    guarded = λ e. (ground (arith, e, t.guarded), ground (arith, e, t.guarded));
    none_leaked = ground (arith, t.none_leaked, t.guarded);
    one_served = ground (arith, t.one_served, t.guarded, law.one_more s.grpc);
    has = λ e. ground (arith, e, t.has, t.guarded);
  }

  pub step-IsTidy : (s : Server G) (c : Call) → IsTidy ops s → IsTidy ops (step ops s c)
  unfolding step stop stop_metrics stop_tunnel
  step-IsTidy s (starts b) t = start-IsTidy s b t
  step-IsTidy s (stops w) t =
      let none_served = law.emptied s.grpc in
      record {
        metrics_open = ground (arith, t.metrics_open);
        guarded = λ e. ground (arith, e, t.guarded, t.has, none_served);
        none_leaked = ground (arith, t.none_leaked);
        one_served = ground (arith, none_served);
        has = λ e. ground (arith, e, t.has);
      }

  run-IsTidy : (s : Server G) (calls : List Call) → IsTidy ops s → IsTidy ops (run ops s calls)
  unfolding run
  run-IsTidy s [] t = t
  run-IsTidy s (c ∷ calls) t = run-IsTidy (step ops s c) calls (step-IsTidy s c t)

  stop-cases :
      (s : Server G) (w : Waits)
      → IsTidy ops s
      → HasReturned ops s w ⊎ WaitsForRpcs ops s w ⊎ WaitsForHandlers ops s w
  unfolding stop stop_metrics stop_tunnel
  stop-cases s w t = elim (Bool-cases w.rpcs_end) [
    | inr f ↦ inr (
        inl (record {
          after = left (stop ops s w);
          waits = ground (arith, f);
          running = f;
          unserved = ground (arith, f, law.emptied s.grpc);
          told = ground (arith, f);
          exporter = ground (arith, f);
          tunnel = ground (arith, f);
        }))
    | inl r ↦ elim (Bool-cases w.handlers_end) [
      | inr f ↦ inr (
          inr (record {
            after = left (stop ops s w);
            waits = ground (arith, r, f);
            rpcs_ended = r;
            running = f;
            unserved = ground (arith, r, f, law.emptied s.grpc);
            told = ground (arith, r, f);
            exporter = ground (arith, r, f);
            shut = ground (arith, r, f, t.has);
            cancelled = ground (arith, r, f);
          }))
      | inl h ↦ inl (record {
        after = left (stop ops s w);
        returns = ground (arith, r, h);
        rpcs_ended = r;
        handlers_ended = h;
        unserved = ground (arith, r, h, law.emptied s.grpc);
        told = ground (arith, r, h);
        unlistened = ground (arith, r, h, t.metrics_open);
        restartable = ground (arith, r, h);
        shut = ground (arith, r, h, t.has);
        none_leaked = ground (arith, r, h, t.none_leaked);
      })
    ]
  ]

  -- After any starts and stops of a server, however the network answers and whatever wait does not
  -- end, at most one listener of each kind is open and none was lost behind another one. A stop then
  -- returns, with every listener closed and an exporter that can be started again, just when both of
  -- its waits end. Otherwise it is blocked and leaves the exporter as it was: behind running RPCs
  -- with the tunnel as it was, and behind handlers with the tunnel's listener closed. In each case
  -- the gRPC listener is closed and the cleanup loop is told to end.
  pub stop_closes :
      (calls : List Call) (w : Waits)
      → let s = run ops (new ops) calls in
        (s.metrics.listening ≤ 1)
        × (s.tunnel.leaked ≡ 0)
        × (ops.serving s.grpc ≤ 1)
        × (HasReturned ops s w ⊎ WaitsForRpcs ops s w ⊎ WaitsForHandlers ops s w)
  stop_closes calls w =
      let s = run ops (new ops) calls in
      let t = run-IsTidy (new ops) calls new-IsTidy in
      (ground (arith, t.metrics_open), t.none_leaked, t.one_served, stop-cases s w t)

  step-IsOver : (s : Server G) (c : Call) → IsOver ops s → IsOver ops (step ops s c)
  unfolding step start start_metrics start_behind start_tunnel start_grpc stop stop_tunnel
  step-IsOver s (starts b) o = record {
    deaf = ground (arith, o.deaf, law.closed s.grpc);
    silent = ground (arith, o.deaf, o.silent, law.closed s.grpc);
    shut = ground (arith, o.shut);
    unswept = ground (arith, o.unswept);
  }
  step-IsOver s (stops w) o = record {
    deaf = ground (arith, law.over s.grpc);
    silent = ground (arith, law.emptied s.grpc);
    shut = ground (arith, o.shut);
    unswept = ground (arith, o.unswept);
  }

  run-IsOver : (s : Server G) (calls : List Call) → IsOver ops s → IsOver ops (run ops s calls)
  unfolding run
  run-IsOver s [] o = o
  run-IsOver s (c ∷ calls) o = run-IsOver (step ops s c) calls (step-IsOver s c o)

  -- Once a stop of a server has returned, no series of starts and stops brings the server back: no
  -- gRPC listener is served, the tunnel's context is cancelled, and no cleanup runs. A start right
  -- behind the stop all the same reports success when the network lets it bind.
  pub stopped_for_good :
      (s s' : Server G) (w : Waits) (calls : List Call)
      → IsTidy ops s
      → stop ops s w ≡ returned s'
      → IsOver ops (run ops s' calls)
        × ((start ops s' (record { metrics = true; tunnel = true; grpc = true })).1 ≡ ok)
  unfolding stop stop_metrics stop_tunnel start start_metrics start_behind start_tunnel start_grpc
  stopped_for_good s s' w calls t e = (
    run-IsOver s' calls (record {
      deaf = ground (arith, e, law.over s.grpc);
      silent = ground (arith, e, law.emptied s.grpc);
      shut = ground (arith, e);
      unswept = ground (arith, e);
    }),
    ground (arith, e),
  )
