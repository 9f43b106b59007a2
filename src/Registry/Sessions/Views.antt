-- ===== src/Registry/Sessions/Views.antt =====
-- pkg/registry/registry.go: the methods that only look at the sessions.
use grpc_mesh_server.Prelude.{
  ℕ, ◌+◌, List, [], ◌∷◌, none, some, length, if◌then◌else◌, Str, str_eq_instance, nat_eq, map,
}
use grpc_mesh_server.Map.{Map, lookup, copy_into}
use grpc_mesh_server.Control.Messages.{Handshake}
use grpc_mesh_server.Registry.Sessions.{SessionState, SessionManager, nil_channel}

unfoldable pub clone_handshake : Handshake → Handshake
unfolding copy_into
clone_handshake h = record h { metadata = copy_into [] h.metadata }

unfoldable pub snapshot : SessionState → SessionState
unfolding clone_handshake
snapshot s = record s {
  handshake = elim s.handshake [ none ↦ none | some h ↦ some (clone_handshake h) ];
  session = none;
  control_chan = nil_channel;
}

-- The objects that the map holds, in the order of the iteration.
unfoldable pub states : SessionManager → Map Str ℕ → List SessionState
states sm [] = []
states sm ((peer, id) ∷ rest) =
    let others = states sm rest in
    elim (lookup id sm.objects) [ none ↦ others | some s ↦ s ∷ others ]

-- `List` and `ListAll`.
unfoldable pub list : SessionManager → List SessionState
unfolding states snapshot
list sm = map snapshot (states sm sm.sessions)

unfoldable pub size : SessionManager → ℕ
size sm = length sm.sessions

pub record SessionStats : Type 0 where
  pub total_sessions : ℕ
  pub active_sessions : ℕ
  pub inactive_sessions : ℕ

unfoldable pub count_states : SessionStats → List SessionState → SessionStats
count_states stats [] = stats
count_states stats (s ∷ rest) =
    count_states
      (if s.connected
        then record stats { active_sessions = stats.active_sessions + 1 }
        else record stats { inactive_sessions = stats.inactive_sessions + 1 })
      rest

unfoldable pub stats : SessionManager → SessionStats
unfolding count_states states
stats sm =
    count_states
      (record { total_sessions = length sm.sessions; active_sessions = 0; inactive_sessions = 0 })
      (states sm sm.sessions)
