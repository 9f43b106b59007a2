-- ===== src/Tunnel/System/Granted.antt =====
-- Whatever the order of the steps, only authorised nodes are registered, and nothing panics.
use grpc_mesh_server.Prelude.{
  ℕ, Bool, ◌&&◌, ◌≡◌, refl, ◌≢◌, true, false, Option, none, some, if◌then◌else◌, Str,
  str_eq_instance, nat_eq,
}
use mathlib.Core.Path.{subst}
use grpc_mesh_server.Map.{lookup, has}
use grpc_mesh_server.Control.Auth.{AuthPolicy}
use grpc_mesh_server.Control.Stream.{StreamError, YamuxStream, Json}
use grpc_mesh_server.Registry.Sessions.{new}
use grpc_mesh_server.Registry.Sessions.Closing.{IsGood}
use grpc_mesh_server.Registry.Sessions.History.{new-IsGood}
use grpc_mesh_server.Tunnel.{Handler}
use grpc_mesh_server.Tunnel.System.{
  System, Event, Progress, blocked, panics, connects, arrives, reads, wakes_stopped, wakes_closed,
  wakes_read, drains, stops, hangs_up, cleans, with_handler, is_closed, is_waiting, is_draining,
  drain, wake, connect, read, step, Reach, here, next, start,
}
use grpc_mesh_server.Tunnel.System.Admission.{IsAdmitted, IsSound, update}
use grpc_mesh_server.Tunnel.System.Sound.{
  Sound, connect-Sound, read-Sound, wake-Sound, drain-Sound, clean-Sound,
}

module _ {S V : Type 0} (yamux : YamuxStream S) (json : Json V) (policy : AuthPolicy) where
  with-Sound :
      (sys : System S) (i : ℕ) (f : Handler S → Progress S)
      → ((c : Handler S) → lookup i sys.handlers ≡ some c → Sound policy (f c))
      → Sound policy (with_handler sys i f)
  unfolding with_handler
  with-Sound sys i f h = go (lookup i sys.handlers) refl
    where
      go :
          (x : Option (Handler S))
          → lookup i sys.handlers ≡ x
          → Sound policy (elim x [ none ↦ blocked | some c ↦ f c ])
      go none e = tt
      go (some c) e = h c e

  when-Sound :
      (b : Bool) (x : Progress S) → Sound policy x → Sound policy (if b then x else blocked)
  when-Sound true x h = h
  when-Sound false x h = tt

  step-Sound :
      (sys : System S) (e : Event S)
      → IsSound policy sys.manager sys.handlers
      → Sound policy (step yamux json policy sys e)
  unfolding step
  step-Sound sys (connects i conn now clock) o = go (has i sys.handlers)
    where
      go :
          (b : Bool)
          → Sound policy (if b then blocked else connect yamux json policy sys i conn now clock)
      go true = tt
      go false = connect-Sound yamux json policy sys i conn now clock o
  step-Sound sys (arrives i s) o =
      with-Sound sys i _ λ c e. update policy sys.manager sys.handlers i c _ o e refl refl
  step-Sound sys (reads i now) o = with-Sound sys i _ λ c e.
      when-Sound c.reading (read yamux json sys i now c)
        (read-Sound yamux json policy sys i now c o e)
  step-Sound sys (wakes_stopped i) o = with-Sound sys i _ λ c e.
      when-Sound (is_waiting c.stage && sys.stopped) (wake yamux sys i c)
        (wake-Sound yamux json policy sys i c c o e refl refl)
  step-Sound sys (wakes_closed i) o = with-Sound sys i _ λ c e.
      when-Sound (is_waiting c.stage && is_closed sys c.session) (wake yamux sys i c)
        (wake-Sound yamux json policy sys i c c o e refl refl)
  step-Sound sys (wakes_read i) o = with-Sound sys i _ λ c e.
      when-Sound (is_waiting c.stage)
        (elim c.read_done [
          | none ↦ blocked
          | some x ↦ wake yamux sys i (record c { read_done = none })
        ])
        (go c e c.read_done)
    where
      go :
          (c : Handler S)
          → lookup i sys.handlers ≡ some c
          → (r : Option StreamError)
          → Sound policy (elim r [
            | none ↦ blocked
            | some x ↦ wake yamux sys i (record c { read_done = none })
          ])
      go c e none = tt
      go c e (some x) =
          wake-Sound yamux json policy sys i c (record c { read_done = none }) o e refl refl
  step-Sound sys (drains i) o = with-Sound sys i _ λ c e.
      when-Sound (is_draining c.stage)
        (elim c.read_done [ none ↦ blocked | some x ↦ drain sys i c ]) (go c e c.read_done)
    where
      go :
          (c : Handler S)
          → lookup i sys.handlers ≡ some c
          → (r : Option StreamError)
          → Sound policy (elim r [ none ↦ blocked | some x ↦ drain sys i c ])
      go c e none = tt
      go c e (some x) = drain-Sound yamux json policy sys i c o e
  step-Sound sys stops o = o
  step-Sound sys (hangs_up y) o = o
  step-Sound sys (cleans now) o = clean-Sound yamux json policy sys now o

  start-IsSound : IsSound {S = S} policy (start {S = S}).manager (start {S = S}).handlers
  unfolding start new lookup
  start-IsSound = record { good = new-IsGood; admitted = λ p j a. cc; owned = λ i c a. cc }

  Reach-IsSound :
      {sys : System S} → Reach yamux json policy start sys → IsSound policy sys.manager sys.handlers
  Reach-IsSound here = start-IsSound
  Reach-IsSound (next {s} e r q) = subst (Sound policy) q (step-Sound s e (Reach-IsSound r))

  -- In every state that a server can reach from its start, whatever connections are opened, read,
  -- replaced, cleaned up and ended in whatever order: the registry is good; every session in it was
  -- opened with a handshake that claims the node it is registered for, with a token that the policy
  -- grants to this node; and no event panics.
  pub Reach-IsAdmitted :
      {sys : System S}
      → Reach yamux json policy start sys
      → IsGood sys.manager
        × ((p : Str) (j : ℕ)
            → lookup p sys.manager.sessions ≡ some j
            → IsAdmitted policy sys.manager p j)
        × ((e : Event S) → step yamux json policy sys e ≢ panics)
  Reach-IsAdmitted {sys} r =
      let o = Reach-IsSound r in
      (o.good, o.admitted, λ e q. subst (Sound policy) q (step-Sound sys e o))
