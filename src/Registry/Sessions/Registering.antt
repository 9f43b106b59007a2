-- ===== src/Registry/Sessions/Registering.antt =====
-- Registration, replacement and removal.
use grpc_mesh_server.Prelude.{
  ℕ, ◌≡◌, refl, sym, ◌∙◌, ◌≢◌, ◌⊎◌, inl, inr, Option, none, some, arith, Str, str_eq_instance,
  nat_eq, Option-cases,
}
use grpc_mesh_server.Map.{
  lookup, insert, delete, lookup-insert_self, delete_absent, lookup-insert_ne, lookup-delete_ne,
  lookup-delete_self, insert-IsMap,
}
use grpc_mesh_server.Control.Messages.{Handshake}
use grpc_mesh_server.Registry.Sessions.{
  open_channel, SessionState, SessionManager, session_not_found, ok, err, done, allocate, new_state,
  register_session, get, remove, remove_if_current,
}
use grpc_mesh_server.Registry.Sessions.Closing.{
  closed, after_close, close_open, Held, IsGood, dropped, dropped-Held, dropped-IsGood, Held-enter,
}

-- The registry with a new object for the peer.
abbrev pub entered : SessionManager → Str → Handshake → Option ℕ → ℕ → SessionManager
entered sm peer h y now = allocate sm (new_state peer h y now)

module _ (sm : SessionManager) (good : IsGood sm) (s : SessionState) where
  pub fresh_object : lookup sm.next_object (allocate sm s).objects ≡ some s
  unfolding allocate
  fresh_object = lookup-insert_self sm.next_object s sm.objects

  pub old_object :
      (id : ℕ) (t : SessionState)
      → lookup id sm.objects ≡ some t
      → (sm.next_object ≢ id) × (lookup id (allocate sm s).objects ≡ some t)
  unfolding allocate
  old_object id t e =
      let ne : sm.next_object ≢ id = λ k. let f = good.fresh id (omega arith) in ground arith in
      (ne, lookup-insert_ne sm.next_object id s sm.objects ne ∙ e)

  pub allocate-IsGood : IsGood (allocate sm s)
  unfolding allocate
  allocate-IsGood = record {
    unique = good.unique;
    held = λ p id a. let (t, e, x, c) = good.held p id a in (t, (old_object id t e).1, x, c);
    fresh = λ id le.
        let ne : sm.next_object ≢ id = λ k. omega arith in
        lookup-insert_ne sm.next_object id s sm.objects ne ∙ good.fresh id (omega arith);
  }

-- What a registration leaves: a new object under the peer's name, every other entry as it was, the
-- peer's old session closed, and every other object as it was.
pub record Registered (sm : SessionManager) (peer : Str) (h : Handshake) (y : Option ℕ) (now : ℕ)
    (sm' : SessionManager) : Type 0 where
  pub good : IsGood sm'
  pub entry : get sm' peer ≡ some sm.next_object
  pub object : lookup sm.next_object sm'.objects ≡ some (new_state peer h y now)
  pub others : (q : Str) → peer ≢ q → get sm' q ≡ get sm q
  pub old_closed :
      (old : ℕ) (t : SessionState)
      → get sm peer ≡ some old
      → lookup old sm.objects ≡ some t
      → lookup old sm'.objects ≡ some (closed t)
  pub kept :
      (id : ℕ) (t : SessionState)
      → lookup id sm.objects ≡ some t
      → get sm peer ≢ some id
      → lookup id sm'.objects ≡ some t

module _ (sm : SessionManager) (good : IsGood sm) (peer : Str) (h : Handshake) (y : Option ℕ)
    (now : ℕ) where
  abbrev state : SessionState
  state = new_state peer h y now

  abbrev start : SessionManager
  start = allocate sm state

  first :
      lookup peer sm.sessions ≡ none
      → (sm' : SessionManager) × (register_session sm peer (some h) y now
          ≡ done sm' (ok sm.next_object))
        × Registered sm peer h y now sm'
  unfolding register_session get
  first none_yet =
      let id = sm.next_object in
      let g = allocate-IsGood sm good state in
      let sm' = record start { sessions = insert peer id sm.sessions } in
      let f = fresh_object sm good state in
      let rest : Held (record start { sessions = delete peer start.sessions }) =
        unfold allocate in rw (delete_absent peer sm.sessions none_yet) g.held in
      (
        sm',
        unfold allocate in ground (arith, none_yet),
        record {
          good =
              unfold allocate in
              record {
                unique = insert-IsMap peer id sm.sessions good.unique;
                held = Held-enter start peer id state rest f refl refl;
                fresh = g.fresh;
              };
          entry = lookup-insert_self peer id sm.sessions;
          object = f;
          others = λ q ne. lookup-insert_ne peer q id sm.sessions ne;
          old_closed = λ old t a e. absurd (ground arith);
          kept = λ j t e ne. (old_object sm good state j t e).1;
        },
      )

  again :
      (old : ℕ) (t : SessionState)
      → lookup peer sm.sessions ≡ some old
      → lookup old sm.objects ≡ some t
      → t.control_chan ≡ open_channel
      → (sm' : SessionManager) × (register_session sm peer (some h) y now
          ≡ done sm' (ok sm.next_object))
        × Registered sm peer h y now sm'
  unfolding register_session get allocate
  again old t a e c =
      let id = sm.next_object in
      let g = allocate-IsGood sm good state in
      let (apart, e') = old_object sm good state old t e in
      let mid = after_close start old t in
      let sm' = record mid { sessions = insert peer id sm.sessions } in
      (
        sm',
        ground (arith, a, close_open start old t e' c),
        record {
          good = record {
            unique = insert-IsMap peer id sm.sessions good.unique;
            held =
                Held-enter mid peer id state (dropped-Held start peer old t g.held a)
                  (lookup-insert_ne old id (closed t) start.objects (λ k. apart (sym k))
                    ∙ fresh_object sm good state)
                  refl refl;
            fresh = (dropped-IsGood start peer old t g a e').fresh;
          };
          entry = lookup-insert_self peer id sm.sessions;
          object =
              lookup-insert_ne old id (closed t) start.objects (λ k. apart (sym k))
              ∙ fresh_object sm good state;
          others = λ q ne. lookup-insert_ne peer q id sm.sessions ne;
          old_closed = λ old' t' a' f.
              ground (arith, a, a', e, f, lookup-insert_self old (closed t) start.objects);
          kept = λ j t' f ne.
              lookup-insert_ne old j (closed t) start.objects (λ k. ne (rw (← k) a))
              ∙ (old_object sm good state j t' f).1;
        },
      )

  -- On a good registry the registration of a session with a handshake never panics, returns the new
  -- object, and leaves a good registry that is as `Registered` says.
  pub register_session_lem :
      (sm' : SessionManager) × (register_session sm peer (some h) y now
        ≡ done sm' (ok sm.next_object))
      × Registered sm peer h y now sm'
  register_session_lem = elim (Option-cases (lookup peer sm.sessions)) [
    | inl e ↦ first e
    | inr (old, a) ↦ (let (t, e, x, c) = good.held peer old a in again old t a e c)
  ]

  -- When a node reconnects, the handler of its old connection, which removes by identity, leaves the
  -- successor alone: its call changes nothing, and the new session is still registered and open.
  pub successor_survives :
      (old : ℕ)
      → get sm peer ≡ some old
      → (sm' : SessionManager) × (register_session sm peer (some h) y now
          ≡ done sm' (ok sm.next_object))
        × (remove_if_current sm' peer old ≡ done sm' (ok tt))
        × (get sm' peer ≡ some sm.next_object)
        × (lookup sm.next_object sm'.objects ≡ some (new_state peer h y now))
  unfolding remove_if_current get
  successor_survives old a =
      let (sm', e, r) = register_session_lem in
      let (t, o, x, c) = good.held peer old a in
      let ne : sm.next_object ≢ old = (old_object sm good state old t o).0 in
      (sm', e, ground (arith, r.entry), r.entry, r.object)

module _ (sm : SessionManager) (good : IsGood sm) (peer : Str) where
  -- On a good registry, `Remove` and `RemoveIfCurrent` of an unknown peer fail and change nothing.
  -- For a registered one `Remove`, and `RemoveIfCurrent` with the session that is registered, close
  -- that session, forget the peer and keep all others; with another session `RemoveIfCurrent`
  -- changes nothing.
  pub removal :
      ((get sm peer ≡ none)
        × (remove sm peer ≡ done sm (err session_not_found))
        × ((id : ℕ) → remove_if_current sm peer id ≡ done sm (err session_not_found)))
      ⊎ ((id : ℕ) × (s : SessionState) × (get sm peer ≡ some id)
          × (lookup id sm.objects ≡ some s)
          × (remove sm peer ≡ done (dropped sm peer id s) (ok tt))
          × (remove_if_current sm peer id ≡ done (dropped sm peer id s) (ok tt))
          × ((other : ℕ) → id ≢ other → remove_if_current sm peer other ≡ done sm (ok tt))
          × IsGood (dropped sm peer id s)
          × (get (dropped sm peer id s) peer ≡ none)
          × ((q : Str) → peer ≢ q → get (dropped sm peer id s) q ≡ get sm q))
  unfolding get remove remove_if_current
  removal = elim (Option-cases (lookup peer sm.sessions)) [
    | inl e ↦ inl (e, ground arith, λ id. ground arith)
    | inr (id, a) ↦
        (let (s, e, x, c) = good.held peer id a in
          inr (
            id,
            s,
            a,
            e,
            ground (arith, close_open sm id s e c),
            ground (arith, close_open sm id s e c),
            (λ other ne. ground arith),
            dropped-IsGood sm peer id s good a e,
            lookup-delete_self peer sm.sessions,
            (λ q ne. lookup-delete_ne peer q sm.sessions ne),
          ))
  ]
