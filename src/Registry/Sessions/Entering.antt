-- ===== src/Registry/Sessions/Entering.antt =====
-- `Register` of a state that is in no map yet.
use grpc_mesh_server.Prelude.{
  ℕ, ◌≡◌, refl, sym, ◌∙◌, inl, inr, none, some, arith, str_eq_instance, nat_eq, Option-cases,
}
use grpc_mesh_server.Map.{lookup, insert, delete, delete_absent, lookup-insert_ne, insert-IsMap}
use grpc_mesh_server.Registry.Sessions.{
  open_channel, SessionState, SessionManager, ok, done, allocate, register,
}
use grpc_mesh_server.Registry.Sessions.Closing.{
  closed, after_close, close_open, Held, IsGood, dropped-Held, dropped-IsGood, Held-enter,
}
use grpc_mesh_server.Registry.Sessions.Registering.{fresh_object, old_object, allocate-IsGood}

module _ (sm : SessionManager) (good : IsGood sm) (s : SessionState)
    (opened : s.control_chan ≡ open_channel) where
  -- The registry with the new object.
  abbrev start : SessionManager
  start = allocate sm s

  abbrev id : ℕ
  id = sm.next_object

  first :
      lookup s.peer_id sm.sessions ≡ none
      → (sm' : SessionManager) × (register start (some id) ≡ done sm' (ok tt)) × IsGood sm'
  unfolding register
  first none_yet =
      let g = allocate-IsGood sm good s in
      let f = fresh_object sm good s in
      let sm' = record start { sessions = insert s.peer_id id sm.sessions } in
      let rest : Held (record start { sessions = delete s.peer_id start.sessions }) =
        unfold allocate in rw (delete_absent s.peer_id sm.sessions none_yet) g.held in
      (
        sm',
        unfold allocate in ground (arith, none_yet, f),
        unfold allocate in
            record {
              unique = insert-IsMap s.peer_id id sm.sessions good.unique;
              held = Held-enter start s.peer_id id s rest f refl opened;
              fresh = g.fresh;
            },
      )

  again :
      (old : ℕ) (t : SessionState)
      → lookup s.peer_id sm.sessions ≡ some old
      → lookup old sm.objects ≡ some t
      → t.control_chan ≡ open_channel
      → (sm' : SessionManager) × (register start (some id) ≡ done sm' (ok tt)) × IsGood sm'
  unfolding register allocate
  again old t a e c =
      let g = allocate-IsGood sm good s in
      let f = fresh_object sm good s in
      let (apart, e') = old_object sm good s old t e in
      let mid = after_close start old t in
      let sm' = record mid { sessions = insert s.peer_id id sm.sessions } in
      (
        sm',
        ground (arith, a, f, close_open start old t e' c),
        record {
          unique = insert-IsMap s.peer_id id sm.sessions good.unique;
          held =
              Held-enter mid s.peer_id id s (dropped-Held start s.peer_id old t g.held a)
                (lookup-insert_ne old id (closed t) start.objects (λ k. apart (sym k)) ∙ f) refl
                opened;
          fresh = (dropped-IsGood start s.peer_id old t g a e').fresh;
        },
      )

  pub register-IsGood :
      (sm' : SessionManager) × (register (allocate sm s) (some sm.next_object) ≡ done sm' (ok tt))
      × IsGood sm'
  register-IsGood = elim (Option-cases (lookup s.peer_id sm.sessions)) [
    | inl e ↦ first e
    | inr (old, a) ↦ (let (t, e, x, c) = good.held s.peer_id old a in again old t a e c)
  ]
