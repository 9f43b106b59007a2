-- ===== src/Metrics.antt =====
-- pkg/metrics/metrics.go: the exporter. The collectors are prometheus and are left out; whether the
-- listener can bind is the network's answer.
use grpc_mesh_server.Prelude.{ℕ, ◌+◌, ◌-◌, Bool, true, false, if◌then◌else◌}

-- `server != nil`, and the listeners that are open.
pub record Exporter : Type 0 where
  pub started : Bool
  pub listening : ℕ

-- What `Start` returns: nil, `ErrAlreadyStarted`, or the error of `net.Listen`.
pub data Outcome : Type 0 where
  listens is_started not_bound : Outcome

unfoldable pub new_exporter : Exporter
new_exporter = record { started = false; listening = 0 }

unfoldable pub start_metrics : Exporter → Bool → Exporter × Outcome
start_metrics e binds =
    if e.started
    then (e, is_started)
    else if binds
    then (record { started = true; listening = e.listening + 1 }, listens)
    else (e, not_bound)

unfoldable pub stop_metrics : Exporter → Exporter
stop_metrics e = if e.started then record { started = false; listening = e.listening - 1 } else e
