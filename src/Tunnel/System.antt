-- ===== src/Tunnel/System.antt =====
-- pkg/tunnel/tunnel.go: the connections of one server over one registry, step by step. An event is a
-- step of one goroutine, or of the world: `arrives` puts another state in place of a yamux stream,
-- `hangs_up` closes a session from outside, and `cleans` is a tick of the registry's cleanup loop.
pub mod Evolving
pub mod Admission
pub mod Opening
pub mod Sound
pub mod Granted
pub mod Sparing
pub mod Wedging
pub mod Leaving
pub mod Alive
use grpc_mesh_server.Prelude.{
  ℕ, ◌≡◌, Bool, true, false, ◌||◌, ◌&&◌, List, [], ◌∷◌, Option, none, some, if◌then◌else◌, ◌==◌,
  any, nat_eq, Str,
}
use grpc_mesh_server.Map.{Map, lookup, insert, has}
use grpc_mesh_server.Control.Auth.{AuthPolicy}
use grpc_mesh_server.Control.Stream.{YamuxStream, Json, StreamError, close}
use grpc_mesh_server.Registry.Sessions.{
  SessionManager, done, panicked, remove_if_current, cleanup, new,
}
use grpc_mesh_server.Tunnel.{
  Connection, Stage, waiting, draining, finished, Handler, refuses, serves, crashes, continues,
  ends, faults, open_connection, read_round,
}

-- `stopped` is the cancelled context; `hung_up` lists the sessions closed by their handlers or by the
-- other end. A handler that was refused has no entry.
pub record System (S : Type 0) : Type 0 where
  pub manager : SessionManager
  pub handlers : Map ℕ (Handler S)
  pub stopped : Bool
  pub hung_up : List ℕ

pub data Event (S : Type 0) : Type 0 where
  connects : ℕ → Connection S → ℕ → ℕ → Event S
  arrives : ℕ → S → Event S
  reads : ℕ → ℕ → Event S
  wakes_stopped wakes_closed wakes_read drains : ℕ → Event S
  stops : Event S
  hangs_up : ℕ → Event S
  cleans : ℕ → Event S

-- What an event does: it cannot happen, it leads to a state, or it panics and ends the process.
pub data Progress (S : Type 0) : Type 0 where
  blocked : Progress S
  moves : System S → Progress S
  panics : Progress S

-- The age that `server.New` gives to the cleanup loop.
abbrev pub cleanup_max_age : ℕ
cleanup_max_age = 120_000_000_000

abbrev pub is_waiting : Stage → Bool
is_waiting waiting = true
is_waiting _ = false

abbrev pub is_draining : Stage → Bool
is_draining draining = true
is_draining _ = false

abbrev pub is_finished : Stage → Bool
is_finished finished = true
is_finished _ = false

module _ {S : Type 0} where
  -- `s.wg.Wait()` of `Stop` returns: every handler has ended.
  unfoldable pub all_finished : Map ℕ (Handler S) → Bool
  all_finished [] = true
  all_finished ((i, c) ∷ rest) = let others = all_finished rest in is_finished c.stage && others

  abbrev pub put : System S → ℕ → Handler S → System S
  put sys i c = record sys { handlers = insert i c sys.handlers }

  -- `session.CloseChan()` is ready: the session was closed by the registry or otherwise.
  unfoldable pub is_closed : System S → ℕ → Bool
  is_closed sys y = any (λ z. z == y) sys.hung_up || any (λ z. z == y) sys.manager.yamux_closed

  -- A step of handler `i`, if it is there.
  unfoldable pub with_handler : System S → ℕ → (Handler S → Progress S) → Progress S
  with_handler sys i f = elim (lookup i sys.handlers) [ none ↦ blocked | some c ↦ f c ]

  unfoldable pub drain : System S → ℕ → Handler S → Progress S
  drain sys i c = elim (remove_if_current sys.manager c.peer c.state) [
    | panicked sm ↦ panics
    | done sm result ↦
        moves
          (put (record sys { manager = sm }) i (record c { read_done = none; stage = finished }))
  ]

module _ {S : Type 0} (yamux : YamuxStream S) where
  -- Behind the `select`: the control stream and the session are closed.
  unfoldable pub wake : System S → ℕ → Handler S → Progress S
  wake sys i c =
      let (cs, shut) = close yamux c.control in
      moves (
        put (record sys { hung_up = c.session ∷ sys.hung_up }) i
          (record c { control = cs; stage = draining }))

module _ {S V : Type 0} (yamux : YamuxStream S) (json : Json V) where
  unfoldable pub connect : AuthPolicy → System S → ℕ → Connection S → ℕ → ℕ → Progress S
  connect policy sys i conn now clock =
      elim (open_connection yamux json policy sys.manager conn now clock) [
        | refuses e ↦ moves sys
        | serves sm c ↦ moves (put (record sys { manager = sm }) i c)
        | crashes ↦ panics
      ]

  -- The read loop sends its error once and ends.
  unfoldable pub read : System S → ℕ → ℕ → Handler S → Progress S
  read sys i now c = elim (read_round yamux json sys.manager c now) [
    | continues sm cs ↦ moves (put (record sys { manager = sm }) i (record c { control = cs }))
    | ends cs e ↦ moves (put sys i (record c { control = cs; reading = false; read_done = some e }))
    | faults ↦ panics
  ]

  unfoldable pub step : AuthPolicy → System S → Event S → Progress S
  unfolding with_handler wake connect read drain
  step policy sys (connects i conn now clock) =
      if has i sys.handlers then blocked else connect policy sys i conn now clock
  step policy sys (arrives i s) =
      with_handler sys i
        λ c. moves (put sys i (record c { control = record c.control { stream = s } }))
  step policy sys (reads i now) =
      with_handler sys i λ c. if c.reading then read sys i now c else blocked
  step policy sys (wakes_stopped i) =
      with_handler sys i
        λ c. if is_waiting c.stage && sys.stopped then wake yamux sys i c else blocked
  step policy sys (wakes_closed i) =
      with_handler sys i
        λ c. if is_waiting c.stage && is_closed sys c.session then wake yamux sys i c else blocked
  step policy sys (wakes_read i) = with_handler sys i λ c.
      if is_waiting c.stage
      then (elim c.read_done [
        | none ↦ blocked
        | some e ↦ wake yamux sys i (record c { read_done = none })
      ])
      else blocked
  step policy sys (drains i) = with_handler sys i λ c.
      if is_draining c.stage
      then (elim c.read_done [ none ↦ blocked | some e ↦ drain sys i c ])
      else blocked
  step policy sys stops = moves (record sys { stopped = true })
  step policy sys (hangs_up y) = moves (record sys { hung_up = y ∷ sys.hung_up })
  step policy sys (cleans now) = elim (cleanup sys.manager cleanup_max_age now) [
    | panicked sm ↦ panics
    | done sm removed ↦ moves (record sys { manager = sm })
  ]

  -- The states behind a series of events that all happen.
  pub data Reach (policy : AuthPolicy) (start : System S) : System S → Type 0 where
    here : Reach policy start start
    next :
        {s t : System S} (e : Event S)
        → Reach policy start s
        → step policy s e ≡ moves t
        → Reach policy start t

-- A server at its start: an empty registry, and no connections.
unfoldable pub start : {S : Type 0} → System S
start = record { manager = new; handlers = []; stopped = false; hung_up = [] }
