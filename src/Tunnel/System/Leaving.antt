-- ===== src/Tunnel/System/Leaving.antt =====
-- How a handler ends at its last receive from `readDone`.
use grpc_mesh_server.Prelude.{
  ℕ, ◌≡◌, refl, ap, ◌∙◌, ◌≢◌, inl, inr, none, some, arith, ◌==◌, Str, str_eq_instance, nat_eq,
  Bool-cases, ==_iff,
}
use mathlib.Core.Path.{subst}
use grpc_mesh_server.Map.{lookup, lookup-insert_self}
use grpc_mesh_server.Control.Auth.{AuthPolicy}
use grpc_mesh_server.Control.Stream.{StreamError, YamuxStream, Json}
use grpc_mesh_server.Registry.Sessions.{
  SessionManager, Result, ok, err, session_not_found, done, remove_if_current, get,
}
use grpc_mesh_server.Registry.Sessions.Closing.{IsGood, dropped, Str-cases}
use grpc_mesh_server.Registry.Sessions.Registering.{removal}
use grpc_mesh_server.Tunnel.{Handler, draining, finished}
use grpc_mesh_server.Tunnel.System.{System, moves, drains, with_handler, drain, step, put}

module _ {S V : Type 0} (yamux : YamuxStream S) (json : Json V) (policy : AuthPolicy) where
  drain_moves :
      (sys : System S) (q : ℕ) (c : Handler S) (e : StreamError) (sm : SessionManager)
      (res : Result (Unit {0}))
      → lookup q sys.handlers ≡ some c
      → c.stage ≡ draining
      → c.read_done ≡ some e
      → remove_if_current sys.manager c.peer c.state ≡ done sm res
      → step yamux json policy sys (drains q)
        ≡ moves
            (put (record sys { manager = sm }) q (record c { read_done = none; stage = finished }))
  unfolding step with_handler drain
  drain_moves sys q c e sm res f w r h = ground (arith, f, w, r, h)

  -- A handler at its last receive from `readDone`, with the end of the read loop still to receive,
  -- returns: its session is then not registered any more under its peer, while every other session
  -- that was registered, a successor of the same peer as well, still is.
  pub exit_deregisters :
      (sys : System S) (q : ℕ) (c : Handler S) (e : StreamError)
      → IsGood sys.manager
      → lookup q sys.handlers ≡ some c
      → c.stage ≡ draining
      → c.read_done ≡ some e
      → (t : System S) × (step yamux json policy sys (drains q) ≡ moves t)
        × ((d : Handler S) × (lookup q t.handlers ≡ some d) × (d.stage ≡ finished))
        × IsGood t.manager
        × (get t.manager c.peer ≢ some c.state)
        × ((p : Str) (j : ℕ) → j ≢ c.state → get sys.manager p ≡ some j → get t.manager p ≡ some j)
  exit_deregisters sys q c e g f w r =
      let c' : Handler S = record c { read_done = none; stage = finished } in
      let at_end : (sm : SessionManager)
          → (d : Handler S) × (lookup q (put (record sys { manager = sm }) q c').handlers ≡ some d)
            × (d.stage ≡ finished) =
        λ sm. (c', lookup-insert_self q c' sys.handlers, refl) in
      elim (removal sys.manager g c.peer) [
        | inl (a, x, y) ↦ (
          _,
          drain_moves sys q c e sys.manager (err session_not_found) f w r (y c.state),
          at_end sys.manager,
          g,
          λ k. ground arith,
          λ p j ne k. k,
        )
        | inr (id, s, a, o, x, y, other, g', gone, kept) ↦ elim (Bool-cases (id == c.state)) [
          | inl same ↦
              (let k : id ≡ c.state = (==_iff id c.state).0 same in
                let sm = dropped sys.manager c.peer id s in
                (
                  _,
                  drain_moves sys q c e sm (ok tt) f w r
                      (subst (λ n. remove_if_current sys.manager c.peer n ≡ done sm (ok tt)) k y),
                  at_end sm,
                  g',
                  λ h. ground arith,
                  λ p j ne h. elim (Str-cases c.peer p) [
                    | inl (eq, t) ↦ absurd (ground (arith, ap (get sys.manager) eq))
                    | inr (apart, t) ↦ kept p apart ∙ h
                  ],
                ))
          | inr differs ↦ (
            _,
            drain_moves sys q c e sys.manager (ok tt) f w r (other c.state (λ h. ground arith)),
            at_end sys.manager,
            g,
            λ h. ground arith,
            λ p j ne h. h,
          )
        ]
      ]
