-- ===== src/Tunnel/System/Sound.antt =====
-- Each step of a connection keeps the registry sound.
use grpc_mesh_server.Prelude.{
  ℕ, ◌≡◌, refl, sym, ◌∙◌, inl, inr, false, none, some, arith, str_eq_instance, nat_eq,
}
use mathlib.Core.Path.{subst}
use grpc_mesh_server.Map.{Map, lookup, insert}
use grpc_mesh_server.Control.Auth.{AuthPolicy}
use grpc_mesh_server.Control.Messages.{ControlMessage}
use grpc_mesh_server.Control.Stream as Stream
use grpc_mesh_server.Control.Stream.{
  close, StreamError, YamuxStream, ControlStream, Json, new_control_stream, receive_handshake,
  receive_control_message_raw, set_deadline,
}
use grpc_mesh_server.Registry.Sessions.{
  Result, SessionManager, Outcome, done, panicked, touch_heartbeat, remove_if_current, cleanup,
}
use grpc_mesh_server.Registry.Sessions.Closing.{IsGood}
use grpc_mesh_server.Registry.Sessions.Pruning.{cleanup_lem}
use grpc_mesh_server.Registry.Sessions.History.{touched-IsGood, remove_current-Fine}
use grpc_mesh_server.Tunnel.{
  Connection, Handler, Opening, refuses, draining, finished, serves, crashes, open_connection,
  on_message, read_round, Round, continues, ends, faults,
}
use grpc_mesh_server.Tunnel.System.{
  System, Progress, blocked, moves, panics, cleanup_max_age, drain, wake, connect, read, put,
}
use grpc_mesh_server.Tunnel.System.Evolving.{touch-Keeps, remove-Keeps, cleanup-Keeps}
use grpc_mesh_server.Tunnel.System.Admission.{IsSound, advance, update, Opened}
use grpc_mesh_server.Tunnel.System.Opening.{message_effect, open-Opened}

module _ {S : Type 0} (policy : AuthPolicy) where
  -- An event that can happen leads to a sound state.
  abbrev pub Sound : Progress S → Type 0
  Sound blocked = Unit
  Sound (moves t) = IsSound policy t.manager t.handlers
  Sound panics = ⊥

module _ {S V : Type 0} (yamux : YamuxStream S) (json : Json V) (policy : AuthPolicy) where
  pub connect-Sound :
      (sys : System S) (i : ℕ) (conn : Connection S) (now clock : ℕ)
      → IsSound policy sys.manager sys.handlers
      → Sound policy (connect yamux json policy sys i conn now clock)
  unfolding connect
  connect-Sound sys i conn now clock o =
      go (open_connection yamux json policy sys.manager conn now clock)
        (open-Opened yamux json policy sys.manager sys.handlers i conn now clock o)
    where
      go :
          (x : Opening S)
          → Opened policy sys.manager sys.handlers i x
          → Sound policy (elim x [
            | refuses e ↦ moves sys
            | serves sm c ↦ moves (put (record sys { manager = sm }) i c)
            | crashes ↦ panics
          ])
      go (refuses e) h = o
      go (serves sm c) h = h
      go crashes h = h

  -- No message faults, and the registry stays sound.
  message-Sound :
      (sm : SessionManager) (hs : Map ℕ (Handler S)) (i : ℕ) (c : Handler S) (m : ControlMessage V)
      (now : ℕ)
      → IsSound policy sm hs
      → lookup i hs ≡ some c
      → (sm' : SessionManager) × (on_message sm c.peer c.state m now ≡ done sm' tt)
        × IsSound policy sm' hs
  message-Sound sm hs i c m now o e = elim (message_effect sm c.peer c.state m now) [
    | inl q ↦ (sm, q, o)
    | inr q ↦
        (let (s, f, x) = o.owned i c e in
          let t = record s { last_heartbeat = now } in
          let sm' : SessionManager = record sm { objects = insert c.state t sm.objects } in
          let r : touch_heartbeat sm c.state now ≡ done sm' tt =
            unfold touch_heartbeat in ground (arith, f) in
          let (k, l) = touch-Keeps sm sm' c.state now r in
          (
            sm',
            q ∙ r,
            advance policy sm sm' hs o (touched-IsGood sm c.state s t o.good f refl refl) k
                (λ p j a. a),
          ))
  ]

  pub read-Sound :
      (sys : System S) (i now : ℕ) (c : Handler S)
      → IsSound policy sys.manager sys.handlers
      → lookup i sys.handlers ≡ some c
      → Sound policy (read yamux json sys i now c)
  unfolding read read_round
  read-Sound sys i now c o e = go (receive_control_message_raw yamux json c.control now)
    where
      fate : ControlStream S → Outcome (Unit {0}) → Round S
      fate cs x = elim x [ panicked sm' ↦ faults | done sm' u ↦ continues sm' cs ]

      round : ControlStream S × Stream.Result (ControlMessage V) → Round S
      round (cs, r) = elim r [
        | Stream.err x ↦ ends cs x
        | Stream.ok m ↦ fate cs (on_message sys.manager c.peer c.state m now)
      ]

      after : Round S → Progress S
      after x = elim x [
        | continues sm cs ↦ moves (put (record sys { manager = sm }) i (record c { control = cs }))
        | ends cs x ↦
            moves (put sys i (record c { control = cs; reading = false; read_done = some x }))
        | faults ↦ panics
      ]

      go : (r : ControlStream S × Stream.Result (ControlMessage V)) → Sound policy (after (round r))
      go (cs, Stream.err x) =
          update policy sys.manager sys.handlers i c
            (record c { control = cs; reading = false; read_done = some x }) o e refl refl
      go (cs, Stream.ok m) =
          let (sm', q, o') = message-Sound sys.manager sys.handlers i c m now o e in
          subst (λ x. Sound policy (after (fate cs x))) (sym q)
            (update policy sm' sys.handlers i c (record c { control = cs }) o' e refl refl)

  pub wake-Sound :
      (sys : System S) (i : ℕ) (c c' : Handler S)
      → IsSound policy sys.manager sys.handlers
      → lookup i sys.handlers ≡ some c
      → c'.state ≡ c.state
      → c'.peer ≡ c.peer
      → Sound policy (wake yamux sys i c')
  unfolding wake
  wake-Sound sys i c c' o e a b =
      update policy sys.manager sys.handlers i c
        (record c' { control = (close yamux c'.control).0; stage = draining }) o e a b

  pub drain-Sound :
      (sys : System S) (i : ℕ) (c : Handler S)
      → IsSound policy sys.manager sys.handlers
      → lookup i sys.handlers ≡ some c
      → Sound policy (drain sys i c)
  unfolding drain
  drain-Sound sys i c o e = go (remove_if_current sys.manager c.peer c.state) refl
    where
      c' : Handler S
      c' = record c { read_done = none; stage = finished }

      go :
          (x : Outcome (Result (Unit {0})))
          → remove_if_current sys.manager c.peer c.state ≡ x
          → Sound policy (elim x [
            | panicked sm ↦ panics
            | done sm result ↦ moves (put (record sys { manager = sm }) i c')
          ])
      go (panicked sm) h =
          let (sm', q, g) = remove_current-Fine sys.manager c.peer c.state o.good in
          absurd (ground arith)
      go (done sm r) h =
          let (sm', q, g) = remove_current-Fine sys.manager c.peer c.state o.good in
          let same : sm' ≡ sm = ground arith in
          let (k, l) = remove-Keeps sys.manager sm c.peer c.state r h in
          update policy sm sys.handlers i c c'
            (advance policy sys.manager sm sys.handlers o (subst IsGood same g) k l) e refl refl

  pub clean-Sound :
      (sys : System S) (now : ℕ)
      → IsSound policy sys.manager sys.handlers
      → Sound policy (elim (cleanup sys.manager cleanup_max_age now) [
        | panicked sm ↦ panics
        | done sm removed ↦ moves (record sys { manager = sm })
      ])
  clean-Sound sys now o =
      let (sm', n, q, r) = cleanup_lem cleanup_max_age now sys.manager o.good in
      let (k, l) = cleanup-Keeps cleanup_max_age now sys.manager sm' n q in
      subst
        (λ x.
          Sound policy (elim x [
            | panicked sm ↦ panics
            | done sm removed ↦ moves (record sys { manager = sm })
          ]))
        (sym q) (advance policy sys.manager sm' sys.handlers o r.good k l)
