-- ===== src/Tunnel/System/Wedging.antt =====
-- A handler whose `select` has taken the error of its read loop.
use grpc_mesh_server.Prelude.{
  ℕ, ◌≡◌, refl, sym, ◌∙◌, ap, inl, inr, false, [], ◌∷◌, none, some, arith, ◌==◌, str_eq_instance,
  nat_eq, Option-cases, Bool-cases,
}
use mathlib.Core.Path.{subst}
use grpc_mesh_server.Map.{Map, lookup, has, lookup-insert_self}
use grpc_mesh_server.Control.Auth.{AuthPolicy}
use grpc_mesh_server.Control.Stream.{close, StreamError, YamuxStream, Json}
use grpc_mesh_server.Tunnel.{Handler, draining, waiting}
use grpc_mesh_server.Tunnel.System.{
  System, Event, Progress, blocked, moves, panics, connects, arrives, reads, wakes_stopped,
  wakes_closed, wakes_read, drains, stops, hangs_up, cleans, with_handler, wake, step, Reach, here,
  next, put, all_finished, is_finished,
}
use grpc_mesh_server.Tunnel.System.Sparing.{target, Spares, step-Spares}

module _ {S V : Type 0} (yamux : YamuxStream S) (json : Json V) (policy : AuthPolicy) where
  -- At the last receive from `readDone`, with the read loop ended and its only error already received.
  pub record IsStuck (c : Handler S) : Type 0 where
    pub stage : c.stage ≡ draining
    pub reading : c.reading ≡ false
    pub read_done : c.read_done ≡ none

  abbrev Stays : ℕ → Progress S → Type 0
  Stays q (moves t) = (c : Handler S) × (lookup q t.handlers ≡ some c) × IsStuck c
  Stays q _ = Unit

  blocked-Stays : (q : ℕ) (x : Progress S) → x ≡ blocked → Stays q x
  blocked-Stays q x e = subst (Stays q) (sym e) tt

  -- Its own events cannot happen, but for the arrival of bytes.
  own-Stays :
      (sys : System S) (e : Event S) (q : ℕ) (c : Handler S)
      → target e ≡ some q
      → lookup q sys.handlers ≡ some c
      → IsStuck c
      → Stays q (step yamux json policy sys e)
  own-Stays sys (connects i conn now clock) q c t e s =
      blocked-Stays q _ (unfold step has in let k : i ≡ q = ground arith in ground (arith, k, e))
  own-Stays sys (arrives i b) q c t e s =
      let k : i ≡ q = ground arith in
      let c' : Handler S = record c { control = record c.control { stream = b } } in
      let p : step yamux json policy sys (arrives i b) ≡ moves (put sys i c') =
        unfold step with_handler in ground (arith, k, e) in
      subst (Stays q) (sym p) (
        c',
        rw k (lookup-insert_self q c' sys.handlers),
        record { stage = s.stage; reading = s.reading; read_done = s.read_done },
      )
  own-Stays sys (reads i now) q c t e s =
      blocked-Stays q _ (
        unfold step with_handler in let k : i ≡ q = ground arith in ground (arith, k, e, s.reading))
  own-Stays sys (wakes_stopped i) q c t e s =
      blocked-Stays q _
        (unfold step with_handler in let k : i ≡ q = ground arith in ground (arith, k, e, s.stage))
  own-Stays sys (wakes_closed i) q c t e s =
      blocked-Stays q _
        (unfold step with_handler in let k : i ≡ q = ground arith in ground (arith, k, e, s.stage))
  own-Stays sys (wakes_read i) q c t e s =
      blocked-Stays q _
        (unfold step with_handler in let k : i ≡ q = ground arith in ground (arith, k, e, s.stage))
  own-Stays sys (drains i) q c t e s = blocked-Stays q _ (
      unfold step with_handler in let k : i ≡ q = ground arith in ground (arith, k, e, s.read_done))
  own-Stays sys stops q c t e s = absurd (ground arith)
  own-Stays sys (hangs_up y) q c t e s = absurd (ground arith)
  own-Stays sys (cleans now) q c t e s = absurd (ground arith)

  spared-Stays :
      (sys : System S) (q : ℕ) (c : Handler S) (x : Progress S)
      → lookup q sys.handlers ≡ some c
      → IsStuck c
      → Spares q sys.handlers x
      → Stays q x
  spared-Stays sys q c blocked e s h = tt
  spared-Stays sys q c (moves t) e s h = (c, h ∙ e, s)
  spared-Stays sys q c panics e s h = tt

  step-Stays :
      (sys : System S) (e : Event S) (q : ℕ) (c : Handler S)
      → lookup q sys.handlers ≡ some c
      → IsStuck c
      → Stays q (step yamux json policy sys e)
  step-Stays sys e q c f s = elim (Option-cases (target e)) [
    | inl n ↦ spared-Stays sys q c _ f s (step-Spares yamux json policy sys e q (λ k. ground arith))
    | inr (i, t) ↦ elim (Bool-cases (i == q)) [
      | inl same ↦ own-Stays sys e q c (ground arith) f s
      | inr other ↦
          spared-Stays sys q c _ f s (step-Spares yamux json policy sys e q (λ k. ground arith))
    ]
  ]

  Reach-Stays :
      {sys sys' : System S} (q : ℕ) (c : Handler S)
      → lookup q sys.handlers ≡ some c
      → IsStuck c
      → Reach yamux json policy sys sys'
      → (c' : Handler S) × (lookup q sys'.handlers ≡ some c') × IsStuck c'
  Reach-Stays q c e s here = (c, e, s)
  Reach-Stays q c e s (next {s = mid} ev r p) =
      let (c1, e1, s1) = Reach-Stays q c e s r in subst (Stays q) p (step-Stays mid ev q c1 e1 s1)

  unfinished :
      (q : ℕ) (hs : Map ℕ (Handler S)) (d : Handler S)
      → lookup q hs ≡ some d
      → d.stage ≡ draining
      → all_finished hs ≡ false
  unfolding lookup all_finished
  unfinished q [] d e s = absurd (ground (arith, e))
  unfinished q ((i, c) ∷ rest) d e s = elim (Bool-cases (i == q)) [
    | inl t ↦ ground (arith, e, t, s)
    | inr f ↦
        (let u = unfinished q rest d (ground (arith, e, f)) s in
          elim (Bool-cases (is_finished c.stage)) [
            | inl k ↦ ground (arith, u, k)
            | inr k ↦ ground (arith, u, k)
          ])
  ]

  -- When the `select` of a handler receives the end of the read loop, the handler is lost: it closes
  -- the stream and the session and then waits for a second value of `readDone`, which nobody sends.
  -- In every state reachable from there, whatever happens, it is still at that wait, so that it never
  -- comes to deregister its session or to return, and the server's `Stop` waits for ever.
  pub read_end_wedges :
      (sys t u : System S) (q : ℕ) (c : Handler S) (e : StreamError)
      → lookup q sys.handlers ≡ some c
      → c.stage ≡ waiting
      → c.reading ≡ false
      → c.read_done ≡ some e
      → step yamux json policy sys (wakes_read q) ≡ moves t
      → Reach yamux json policy t u
      → ((d : Handler S) × (lookup q u.handlers ≡ some d) × (d.stage ≡ draining))
        × (all_finished u.handlers ≡ false)
  unfolding step with_handler wake
  read_end_wedges sys t u q c e f w r d k p =
      let c' : Handler S = record c {
        control = (close yamux c.control).0;
        read_done = none;
        stage = draining;
      } in
      let t' = put (record sys { hung_up = c.session ∷ sys.hung_up }) q c' in
      let same : t' ≡ t = ground (arith, f, w, d, k) in
      let (d', l, s) =
        Reach-Stays q c'
          (ap (λ x. lookup q x.handlers) (sym same) ∙ lookup-insert_self q c' sys.handlers)
          (record { stage = refl; reading = r; read_done = refl }) p in
      ((d', l, s.stage), unfinished q u.handlers d' l s.stage)
