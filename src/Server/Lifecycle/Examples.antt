-- ===== src/Server/Lifecycle/Examples.antt =====
-- A server that is started, stopped and started again.
use grpc_mesh_server.Prelude.{
  ℕ, ◌+◌, ◌≤◌, ◌≡◌, refl, ◌⊎◌, Bool, true, false, [], ◌∷◌, List, arith, if◌then◌else◌,
}
use grpc_mesh_server.Metrics.{new_exporter, start_metrics, stop_metrics}
use grpc_mesh_server.Server.Lifecycle.{
  GrpcOps, Binds, Waits, Server, left, Call, starts, stops, ok, new, start, stop, step, run,
  start_behind, start_tunnel, start_grpc, stop_tunnel,
}
use grpc_mesh_server.Server.Lifecycle.Restarts.{
  IsGrpc, IsOver, HasReturned, WaitsForRpcs, WaitsForHandlers, new-IsTidy, step-IsTidy, stop_closes,
  stopped_for_good,
}

abbrev free : Binds
free = record { metrics = true; tunnel = true; grpc = true }

-- All waits end.
abbrev promptly : Waits
promptly = record { rpcs_end = true; handlers_end = true }

-- The tunnel's port is taken at first.
abbrev calls : List Call
calls =
    starts (record { metrics = true; tunnel = false; grpc = true })
    ∷ starts free
    ∷ stops promptly
    ∷ starts free
    ∷ []

-- A gRPC server is a mark for its being stopped and the number of its listeners.
abbrev counted : GrpcOps (Bool × ℕ)
counted = record {
  new_server = (false, 0);
  serve = λ g. if g.0 then g else (false, g.1 + 1);
  graceful_stop = λ g. (true, 0);
  stopped = λ g. g.0;
  serving = λ g. g.1;
}

counted-IsGrpc : IsGrpc counted
counted-IsGrpc = record {
  fresh = refl;
  one_more = λ g. ground arith;
  emptied = λ g. refl;
  over = λ g. refl;
  closed = λ g e. ground (arith, e);
}

-- The one connection's handler does not end.
abbrev held : Waits
held = record { rpcs_end = true; handlers_end = false }

stop_closes_example :
    let s = run counted (new counted) calls in
    (s.metrics.listening ≤ 1)
    × (s.tunnel.leaked ≡ 0)
    × (counted.serving s.grpc ≤ 1)
    × (HasReturned counted s held ⊎ WaitsForRpcs counted s held ⊎ WaitsForHandlers counted s held)
stop_closes_example = stop_closes counted counted-IsGrpc calls held

-- The exporter is still started behind a stop that is blocked.
exporter_stays : (left (stop counted (run counted (new counted) calls) held)).metrics.started ≡ true
unfolding stop run step start start_metrics stop_metrics start_behind start_tunnel start_grpc
    stop_tunnel new new_exporter
exporter_stays = refl

abbrev running : Server (Bool × ℕ)
unfolding start start_metrics start_behind start_tunnel start_grpc new new_exporter
running = (start counted (new counted) free).0

abbrev ended : Server (Bool × ℕ)
unfolding start start_metrics start_behind start_tunnel start_grpc new new_exporter stop
    stop_metrics stop_tunnel
ended = left (stop counted running promptly)

stopped_for_good_example :
    IsOver counted (run counted ended calls) × ((start counted ended free).1 ≡ ok)
unfolding start start_metrics start_behind start_tunnel start_grpc new new_exporter stop
    stop_metrics stop_tunnel step
stopped_for_good_example =
    stopped_for_good counted counted-IsGrpc running ended promptly calls
      (step-IsTidy counted counted-IsGrpc (new counted) (starts free)
        (new-IsTidy counted counted-IsGrpc))
      refl
