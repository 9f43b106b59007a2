-- ===== src/Server/Lifecycle.antt =====
-- pkg/server/server.go: New, Start and Stop; with Start and Stop of pkg/tunnel/tunnel.go. Whether a
-- listener can bind is the network's answer to each call of `Listen`, and whether the two waits of a
-- stop end depends on the RPCs and the handlers that run (`Waits`). The gRPC server is a parameter
-- (`GrpcOps`).
mod Restarts
mod Examples
use grpc_mesh_server.Prelude.{ℕ, ◌+◌, ◌-◌, Bool, true, false, not, List, [], ◌∷◌, if◌then◌else◌}
use grpc_mesh_server.Metrics.{
  Exporter, new_exporter, is_started, not_bound, listens, start_metrics, stop_metrics,
}

-- `cancelled` is the tunnel's own context; `has_listener` is `listener != nil`, `current_open` tells
-- whether that listener is open, and `leaked` counts open listeners that it replaced.
pub record Tunnel : Type 0 where
  pub cancelled : Bool
  pub has_listener : Bool
  pub current_open : Bool
  pub leaked : ℕ

-- A gRPC server `G` of grpc-go: `grpc.NewServer`, `Serve` in its goroutine and `GracefulStop`, with
-- the number of the listeners that it serves.
pub record GrpcOps (G : Type 0) : Type 0 where
  pub new_server : G
  pub serve : G → G
  pub graceful_stop : G → G
  pub stopped : G → Bool
  pub serving : G → ℕ

-- `cancelled` is the context of the cleanup loop.
pub record Server (G : Type 0) : Type 0 where
  pub metrics : Exporter
  pub tunnel : Tunnel
  pub grpc : G
  pub cancelled : Bool

pub data StartError : Type 0 where
  already_started metrics_not_bound tunnel_not_bound grpc_not_bound : StartError

pub data Started : Type 0 where
  ok : Started
  failed : StartError → Started

-- `Server.Start` of the tunnel: a new listener takes the place of an earlier one, open or not.
unfoldable pub start_tunnel : Tunnel → Bool → Tunnel × Started
start_tunnel t binds =
    if binds
    then (
      record t {
        has_listener = true;
        current_open = true;
        leaked = if t.current_open then t.leaked + 1 else t.leaked;
      },
      ok,
    )
    else (t, failed tunnel_not_bound)

-- `Server.Stop` of the tunnel, up to the `wg.Wait()` behind which it returns.
unfoldable pub stop_tunnel : Tunnel → Tunnel
stop_tunnel t = record t {
  cancelled = true;
  current_open = if t.has_listener then false else t.current_open;
}

-- What the network answers to the three calls of `Listen`.
pub record Binds : Type 0 where
  pub metrics : Bool
  pub tunnel : Bool
  pub grpc : Bool

-- Whether the waits of a stop end: `GracefulStop` for the running RPCs, and `wg.Wait()` for the
-- handlers of the tunnel's connections.
pub record Waits : Type 0 where
  pub rpcs_end : Bool
  pub handlers_end : Bool

-- A stop that has returned, or one that waits forever, with the server as it is then.
pub data Stopping (G : Type 0) : Type 0 where
  returned blocked : Server G → Stopping G

abbrev pub left : {G : Type 0} → Stopping G → Server G
left (returned s) = s
left (blocked s) = s

-- The calls come one after another; the one behind a stop that is blocked is another goroutine's.
pub data Call : Type 0 where
  starts : Binds → Call
  stops : Waits → Call

module _ {G : Type 0} (ops : GrpcOps G) where
  -- `New`, which starts the cleanup loop.
  unfoldable pub new : Server G
  unfolding new_exporter
  new = record {
    metrics = new_exporter;
    tunnel = record { cancelled = false; has_listener = false; current_open = false; leaked = 0 };
    grpc = ops.new_server;
    cancelled = false;
  }

  unfoldable pub start_grpc : Server G → Bool → Server G × Started
  start_grpc s binds =
      if binds then (record s { grpc = ops.serve s.grpc }, ok) else (s, failed grpc_not_bound)

  unfoldable pub start_behind : Server G → Binds → Server G × Started
  unfolding start_grpc start_tunnel
  start_behind s b =
      let (t, result) = start_tunnel s.tunnel b.tunnel in
      elim result [ failed e ↦ (s, failed e) | ok ↦ start_grpc (record s { tunnel = t }) b.grpc ]

  unfoldable pub start : Server G → Binds → Server G × Started
  unfolding start_metrics start_behind
  start s b =
      let (m, result) = start_metrics s.metrics b.metrics in
      elim result [
        | is_started ↦ (s, failed already_started)
        | not_bound ↦ (s, failed metrics_not_bound)
        | listens ↦ start_behind (record s { metrics = m }) b
      ]

  -- The gRPC listeners are closed before `GracefulStop` waits.
  unfoldable pub stop : Server G → Waits → Stopping G
  unfolding stop_metrics stop_tunnel
  stop s w =
      let s' = record s { cancelled = true; grpc = ops.graceful_stop s.grpc } in
      let s'' = record s' { tunnel = stop_tunnel s'.tunnel } in
      if not w.rpcs_end
      then blocked s'
      else if not w.handlers_end
      then blocked s''
      else returned (record s'' { metrics = stop_metrics s''.metrics })

  unfoldable pub step : Server G → Call → Server G
  unfolding start stop
  step s (starts b) = (start s b).0
  step s (stops w) = left (stop s w)

  unfoldable pub run : Server G → List Call → Server G
  run s [] = s
  run s (c ∷ calls) = run (step s c) calls
