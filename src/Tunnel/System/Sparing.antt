-- ===== src/Tunnel/System/Sparing.antt =====
-- A step of one handler leaves every other handler as it is.
use grpc_mesh_server.Prelude.{
  ℕ, Bool, ◌&&◌, ◌≡◌, refl, ap, ◌∙◌, ◌≢◌, true, false, ◌∷◌, Option, none, some, if◌then◌else◌,
  str_eq_instance, nat_eq,
}
use grpc_mesh_server.Map.{Map, lookup, has, lookup-insert_ne}
use grpc_mesh_server.Control.Auth.{AuthPolicy}
use grpc_mesh_server.Control.Stream.{StreamError, YamuxStream, Json}
use grpc_mesh_server.Registry.Sessions.{Result, Outcome, done, panicked, remove_if_current, cleanup}
use grpc_mesh_server.Tunnel.{
  Handler, Opening, refuses, serves, crashes, finished, open_connection, read_round, Round,
  continues, ends, faults,
}
use grpc_mesh_server.Tunnel.System.{
  System, Event, Progress, blocked, moves, panics, connects, arrives, reads, wakes_stopped,
  wakes_closed, wakes_read, drains, stops, hangs_up, cleans, with_handler, cleanup_max_age,
  is_closed, is_waiting, is_draining, drain, wake, connect, read, step, put,
}

-- The handler that an event is about, if there is one.
abbrev pub target : {S : Type 0} → Event S → Option ℕ
target (connects i conn now clock) = some i
target (arrives i s) = some i
target (reads i now) = some i
target (wakes_stopped i) = some i
target (wakes_closed i) = some i
target (wakes_read i) = some i
target (drains i) = some i
target stops = none
target (hangs_up y) = none
target (cleans now) = none

module _ {S : Type 0} (q : ℕ) (hs : Map ℕ (Handler S)) where
  -- Whatever happens, handler `q` is as it was.
  abbrev pub Spares : Progress S → Type 0
  Spares blocked = Unit
  Spares (moves t) = lookup q t.handlers ≡ lookup q hs
  Spares panics = Unit

  put-Spares :
      (sys : System S) (i : ℕ) (c : Handler S)
      → i ≢ q
      → sys.handlers ≡ hs
      → Spares (moves (put sys i c))
  put-Spares sys i c ne e = lookup-insert_ne i q c sys.handlers ne ∙ ap (lookup q) e

  with-Spares :
      (sys : System S) (i : ℕ) (f : Handler S → Progress S)
      → ((c : Handler S) → Spares (f c))
      → Spares (with_handler sys i f)
  unfolding with_handler
  with-Spares sys i f h = go (lookup i sys.handlers)
    where
      go : (x : Option (Handler S)) → Spares (elim x [ none ↦ blocked | some c ↦ f c ])
      go none = tt
      go (some c) = h c

  when-Spares : (b : Bool) (x : Progress S) → Spares x → Spares (if b then x else blocked)
  when-Spares true x h = h
  when-Spares false x h = tt

module _ {S V : Type 0} (yamux : YamuxStream S) (json : Json V) (policy : AuthPolicy) where
  pub step-Spares :
      (sys : System S) (e : Event S) (q : ℕ)
      → target e ≢ some q
      → Spares q sys.handlers (step yamux json policy sys e)
  unfolding step connect read wake drain
  step-Spares sys (connects i conn now clock) q ne =
      go (has i sys.handlers) (open_connection yamux json policy sys.manager conn now clock)
    where
      go :
          (b : Bool) (x : Opening S)
          → Spares q sys.handlers (
              if b then blocked else (elim x [
                | refuses e ↦ moves sys
                | serves sm c ↦ moves (put (record sys { manager = sm }) i c)
                | crashes ↦ panics
              ]))
      go true x = tt
      go false (refuses e) = refl
      go false (serves sm c) =
          put-Spares q sys.handlers (record sys { manager = sm }) i c (λ k. ne (ap some k)) refl
      go false crashes = tt
  step-Spares sys (arrives i s) q ne =
      with-Spares q sys.handlers sys i _
        λ c. put-Spares q sys.handlers sys i _ (λ k. ne (ap some k)) refl
  step-Spares sys (reads i now) q ne = with-Spares q sys.handlers sys i _ λ c.
      when-Spares q sys.handlers c.reading (read yamux json sys i now c)
        (go c (read_round yamux json sys.manager c now))
    where
      go :
          (c : Handler S) (x : Round S)
          → Spares q sys.handlers (elim x [
            | continues sm cs ↦
                moves (put (record sys { manager = sm }) i (record c { control = cs }))
            | ends cs e ↦
                moves (put sys i (record c { control = cs; reading = false; read_done = some e }))
            | faults ↦ panics
          ])
      go c (continues sm cs) =
          put-Spares q sys.handlers (record sys { manager = sm }) i (record c { control = cs })
            (λ k. ne (ap some k)) refl
      go c (ends cs e) =
          put-Spares q sys.handlers sys i
            (record c { control = cs; reading = false; read_done = some e }) (λ k. ne (ap some k))
            refl
      go c faults = tt
  step-Spares sys (wakes_stopped i) q ne = with-Spares q sys.handlers sys i _ λ c.
      when-Spares q sys.handlers (is_waiting c.stage && sys.stopped) (wake yamux sys i c) (
        put-Spares q sys.handlers (record sys { hung_up = c.session ∷ sys.hung_up }) i _
          (λ k. ne (ap some k)) refl)
  step-Spares sys (wakes_closed i) q ne = with-Spares q sys.handlers sys i _ λ c.
      when-Spares q sys.handlers (is_waiting c.stage && is_closed sys c.session)
        (wake yamux sys i c)
        (put-Spares q sys.handlers (record sys { hung_up = c.session ∷ sys.hung_up }) i _
          (λ k. ne (ap some k)) refl)
  step-Spares sys (wakes_read i) q ne = with-Spares q sys.handlers sys i _ λ c.
      when-Spares q sys.handlers (is_waiting c.stage)
        (elim c.read_done [
          | none ↦ blocked
          | some x ↦ wake yamux sys i (record c { read_done = none })
        ])
        (go c c.read_done)
    where
      go :
          (c : Handler S) (r : Option StreamError)
          → Spares q sys.handlers (elim r [
            | none ↦ blocked
            | some x ↦ wake yamux sys i (record c { read_done = none })
          ])
      go c none = tt
      go c (some x) =
          put-Spares q sys.handlers (record sys { hung_up = c.session ∷ sys.hung_up }) i _
            (λ k. ne (ap some k)) refl
  step-Spares sys (drains i) q ne = with-Spares q sys.handlers sys i _ λ c.
      when-Spares q sys.handlers (is_draining c.stage)
        (elim c.read_done [ none ↦ blocked | some x ↦ drain sys i c ])
        (go c c.read_done (remove_if_current sys.manager c.peer c.state))
    where
      go :
          (c : Handler S) (r : Option StreamError) (x : Outcome (Result (Unit {0})))
          → Spares q sys.handlers (elim r [
            | none ↦ blocked
            | some e ↦ (elim x [
              | panicked sm ↦ panics
              | done sm result ↦ moves (
                  put
                    (record sys { manager = sm })
                    i
                    (record c { read_done = none; stage = finished }))
            ])
          ])
      go c none x = tt
      go c (some e) (panicked sm) = tt
      go c (some e) (done sm r) =
          put-Spares q sys.handlers (record sys { manager = sm }) i _ (λ k. ne (ap some k)) refl
  step-Spares sys stops q ne = refl
  step-Spares sys (hangs_up y) q ne = refl
  step-Spares sys (cleans now) q ne = go (cleanup sys.manager cleanup_max_age now)
    where
      go :
          (x : Outcome ℕ)
          → Spares q sys.handlers (elim x [
            | panicked sm ↦ panics
            | done sm removed ↦ moves (record sys { manager = sm })
          ])
      go (panicked sm) = tt
      go (done sm n) = refl
