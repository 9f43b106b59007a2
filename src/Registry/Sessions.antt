-- ===== src/Registry/Sessions.antt =====
-- pkg/registry/registry.go. A `*SessionState` is a number that the store `objects` maps to the
-- state, so that a session that was replaced is another one than its successor. Times are
-- nanoseconds. The write lock makes a method one step. `close` of a Go channel panics on a channel
-- that is closed or nil; a panic carries the store as it stands.
pub mod Views
pub mod Closing
pub mod Registering
pub mod Entering
pub mod Advertised
pub mod Pruning
pub mod History
pub mod Surviving
pub mod Looping
mod Examples
use grpc_mesh_server.Prelude.{
  ℕ, suc, ◌+◌, ◌-◌, Bool, true, false, not, ◌||◌, List, [], ◌∷◌, ◌++◌, Option, none, some, ltb,
  ◌==◌, length, if◌then◌else◌, Str, codes, is_empty, str_eq_instance, nat_eq, map,
}
use grpc_mesh_server.Map.{Map, lookup, insert, delete, copy_into}
use grpc_mesh_server.Strings.{split}
use grpc_mesh_server.Control.Messages.{Handshake}

pub data Channel : Type 0 where
  nil_channel open_channel closed_channel : Channel

-- `session` is the yamux session, by a number; the messages in the control channel are left out.
pub record SessionState : Type 0 where
  pub peer_id : Str
  pub handshake : Option Handshake
  pub session : Option ℕ
  pub control_chan : Channel
  pub connected : Bool
  pub connected_at : ℕ
  pub last_heartbeat : ℕ

-- `yamux_closed` lists the calls of `Close` on yamux sessions.
pub record SessionManager : Type 0 where
  pub objects : Map ℕ SessionState
  pub next_object : ℕ
  pub sessions : Map Str ℕ
  pub yamux_closed : List ℕ

pub data SessionError : Type 0 where
  session_not_found invalid_handshake peer_not_connected : SessionError

pub data Result (A : Type 0) : Type 0 where
  ok : A → Result A
  err : SessionError → Result A

pub data Outcome (A : Type 0) : Type 0 where
  done : SessionManager → A → Outcome A
  panicked : SessionManager → Outcome A

infixl 5 ◌>>=◌
abbrev pub ◌>>=◌ : {A B : Type 0} → Outcome A → (SessionManager → A → Outcome B) → Outcome B
done sm a >>= f = f sm a
panicked sm >>= f = panicked sm

unfoldable pub new : SessionManager
new = record { objects = []; next_object = 0; sessions = []; yamux_closed = [] }

-- A new object in the store.
unfoldable pub allocate : SessionManager → SessionState → SessionManager
allocate sm s = record sm {
  objects = insert sm.next_object s sm.objects;
  next_object = sm.next_object + 1;
}

abbrev put : SessionManager → ℕ → SessionState → SessionManager
put sm id s = record sm { objects = insert id s sm.objects }

-- `TouchHeartbeat`.
unfoldable pub touch_heartbeat : SessionManager → ℕ → ℕ → Outcome (Unit {0})
touch_heartbeat sm id now = elim (lookup id sm.objects) [
  | none ↦ panicked sm
  | some s ↦ done (put sm id (record s { last_heartbeat = now })) tt
]

-- What `Close` does to a state whose channel is as given.
close_state : SessionManager → ℕ → SessionState → Channel → Outcome (Unit {0})
close_state sm id s open_channel =
    done
      (record sm {
        objects =
            insert id (record s { connected = false; control_chan = closed_channel }) sm.objects;
        yamux_closed = elim s.session [ none ↦ sm.yamux_closed | some y ↦ y ∷ sm.yamux_closed ];
      })
      tt
close_state sm id s closed_channel = panicked (put sm id (record s { connected = false }))
close_state sm id s nil_channel = panicked (put sm id (record s { connected = false }))

-- `SessionState.Close`; a pointer to no object faults.
unfoldable pub close : SessionManager → ℕ → Outcome (Unit {0})
unfolding close_state
close sm id = elim (lookup id sm.objects) [
  | none ↦ panicked sm
  | some s ↦ close_state sm id s s.control_chan
]

-- The common end of `Register` and `RegisterSession`: an earlier session of the peer is closed.
replace : SessionManager → Str → ℕ → Outcome (Unit {0})
replace sm peer id = elim (lookup peer sm.sessions) [
  | none ↦ done (record sm { sessions = insert peer id sm.sessions }) tt
  | some existing ↦
      (close sm existing >>= λ sm' _.
      done (record sm' { sessions = insert peer id sm'.sessions }) tt)
]

-- `Register` of a pointer, nil or to an object.
unfoldable pub register : SessionManager → Option ℕ → Outcome (Result (Unit {0}))
unfolding replace
register sm none = done sm (err invalid_handshake)
register sm (some id) = elim (lookup id sm.objects) [
  | none ↦ panicked sm
  | some s ↦ (replace sm s.peer_id id >>= λ sm' _. done sm' (ok tt))
]

unfoldable pub new_state : Str → Handshake → Option ℕ → ℕ → SessionState
new_state peer h session now = record {
  peer_id = peer;
  handshake = some h;
  session = session;
  control_chan = open_channel;
  connected = true;
  connected_at = now;
  last_heartbeat = now;
}

unfoldable pub register_session :
    SessionManager → Str → Option Handshake → Option ℕ → ℕ → Outcome (Result ℕ)
unfolding replace new_state allocate
register_session sm peer none session now = done sm (err invalid_handshake)
register_session sm peer (some h) session now =
    let id = sm.next_object in
    replace (allocate sm (new_state peer h session now)) peer id >>= λ sm' _. done sm' (ok id)

unfoldable pub get : SessionManager → Str → Option ℕ
get sm peer = lookup peer sm.sessions

unfoldable pub remove : SessionManager → Str → Outcome (Result (Unit {0}))
remove sm peer = elim (lookup peer sm.sessions) [
  | none ↦ done sm (err session_not_found)
  | some id ↦
      (close sm id >>= λ sm' _. done (record sm' { sessions = delete peer sm'.sessions }) (ok tt))
]

unfoldable pub remove_if_current : SessionManager → Str → ℕ → Outcome (Result (Unit {0}))
remove_if_current sm peer session = elim (lookup peer sm.sessions) [
  | none ↦ done sm (err session_not_found)
  | some current ↦
      (if current == session
        then (close sm current >>= λ sm' _.
            done (record sm' { sessions = delete peer sm'.sessions }) (ok tt))
        else done sm (ok tt))
]

-- `OpenStream`: `opened` is what yamux returns, or the error of a context that ends first.
unfoldable pub open_stream : {A : Type 0} → SessionManager → Str → (ℕ → A) → Result A
open_stream sm peer opened = elim (lookup peer sm.sessions) [
  | none ↦ err session_not_found
  | some id ↦ (elim (lookup id sm.objects) [
    | none ↦ err peer_not_connected
    | some s ↦
        (if s.connected
          then (elim s.session [ none ↦ err peer_not_connected | some y ↦ ok (opened y) ])
          else err peer_not_connected)
  ])
]

pub control_channel : SessionManager → Str → Result Channel
control_channel sm peer = elim (lookup peer sm.sessions) [
  | none ↦ err session_not_found
  | some id ↦ (elim (lookup id sm.objects) [
    | none ↦ err session_not_found
    | some s ↦ ok s.control_chan
  ])
]

unfoldable pub heartbeat : SessionManager → Str → ℕ → Outcome (Result (Unit {0}))
unfolding touch_heartbeat
heartbeat sm peer now = elim (lookup peer sm.sessions) [
  | none ↦ done sm (err session_not_found)
  | some id ↦ (touch_heartbeat sm id now >>= λ sm' _. done sm' (ok tt))
]

unfoldable pub mark_disconnected : SessionManager → Str → Outcome (Unit {0})
mark_disconnected sm peer = elim (lookup peer sm.sessions) [
  | none ↦ done sm tt
  | some id ↦ (elim (lookup id sm.objects) [
    | none ↦ panicked sm
    | some s ↦ done (put sm id (record s { connected = false })) tt
  ])
]

-- `!state.Connected || now.Sub(state.LastHeartbeat) > maxAge`
unfoldable pub is_stale : ℕ → ℕ → SessionState → Bool
is_stale max_age now s = not s.connected || ltb max_age (now - s.last_heartbeat)

-- The loop of `Cleanup` over the entries that the iteration still has to visit.
unfoldable pub cleanup_from : ℕ → ℕ → SessionManager → Map Str ℕ → ℕ → Outcome ℕ
cleanup_from max_age now sm [] removed = done sm removed
cleanup_from max_age now sm ((peer, id) ∷ rest) removed = elim (lookup id sm.objects) [
  | none ↦ panicked sm
  | some s ↦ (elim (is_stale max_age now s) [
    | false ↦ cleanup_from max_age now sm rest removed
    | true ↦ (elim (close sm id) [
      | panicked sm' ↦ panicked sm'
      | done sm' u ↦
          cleanup_from max_age now (record sm' { sessions = delete peer sm'.sessions }) rest
            (removed + 1)
    ])
  ])
]

unfoldable pub cleanup : SessionManager → ℕ → ℕ → Outcome ℕ
unfolding cleanup_from
cleanup sm max_age now = cleanup_from max_age now sm sm.sessions 0

-- What the goroutine of `StartCleanupLoop` receives: a tick, at a time, or the end of its context.
pub data Signal : Type 0 where
  ticks : ℕ → Signal
  cancels : Signal

-- `StartCleanupLoop`: the rounds of its goroutine; nothing is received behind a cancelled context.
unfoldable pub cleanup_loop : SessionManager → ℕ → List Signal → Outcome (Unit {0})
unfolding cleanup
cleanup_loop sm max_age [] = done sm tt
cleanup_loop sm max_age (cancels ∷ signals) = done sm tt
cleanup_loop sm max_age (ticks now ∷ signals) = elim (cleanup sm max_age now) [
  | panicked sm' ↦ panicked sm'
  | done sm' removed ↦ cleanup_loop sm' max_age signals
]
