-- ===== src/Registry/Sessions/Closing.antt =====
-- `Close`, and what the registry keeps true of its sessions.
use grpc_mesh_server.Prelude.{
  ℕ, ◌≤◌, ◌≡◌, refl, sym, ◌∙◌, ◌≢◌, ◌⊎◌, inl, inr, true, false, List, ◌∷◌, none, some, arith, Str,
  str_eq, str_eq_iff, str_eq_instance, nat_eq, Option-cases,
}
use grpc_mesh_server.Map.{
  lookup, insert, delete, IsMap, lookup-insert, lookup-delete, lookup-insert_self, lookup-insert_ne,
  lookup-delete_ne, delete-IsMap,
}
use grpc_mesh_server.Registry.Sessions.{
  open_channel, closed_channel, SessionState, SessionManager, done, panicked, close,
}

-- A state behind `Close`, and the log of the yamux sessions that it closes.
abbrev pub closed : SessionState → SessionState
closed s = record s { connected = false; control_chan = closed_channel }

abbrev pub logged : SessionState → List ℕ → List ℕ
logged s log = elim s.session [ none ↦ log | some y ↦ y ∷ log ]

abbrev pub after_close : SessionManager → ℕ → SessionState → SessionManager
after_close sm id s = record sm {
  objects = insert id (closed s) sm.objects;
  yamux_closed = logged s sm.yamux_closed;
}

pub close_open :
    (sm : SessionManager) (id : ℕ) (s : SessionState)
    → lookup id sm.objects ≡ some s
    → s.control_chan ≡ open_channel
    → close sm id ≡ done (after_close sm id s) tt
unfolding close
close_open sm id s e c = ground arith

close_closed :
    (sm : SessionManager) (id : ℕ) (s : SessionState)
    → lookup id sm.objects ≡ some s
    → s.control_chan ≡ closed_channel
    → close sm id
      ≡ panicked (record sm { objects = insert id (record s { connected = false }) sm.objects })
unfolding close
close_closed sm id s e c = ground arith

close_done :
    (sm sm' : SessionManager) (id : ℕ)
    → close sm id ≡ done sm' tt
    → (s : SessionState) × (lookup id sm'.objects ≡ some s) × (s.control_chan ≡ closed_channel)
unfolding close
close_done sm sm' id h = elim (Option-cases (lookup id sm.objects)) [
  | inl e ↦ absurd (ground arith)
  | inr (s, e) ↦ (closed s, ground (arith, lookup-insert_self id (closed s) sm.objects), refl)
]

-- `Close` is not idempotent: after a call that returns, the next call on the same session panics,
-- on the closed channel.
pub close_twice :
    (sm sm' : SessionManager) (id : ℕ)
    → close sm id ≡ done sm' tt
    → (sm'' : SessionManager) × (close sm' id ≡ panicked sm'')
close_twice sm sm' id h = let (s, e, c) = close_done sm sm' id h in (_, close_closed sm' id s e c)

pub Str-cases : (p q : Str) → ((p ≡ q) × (str_eq p q ≡ true)) ⊎ ((p ≢ q) × (str_eq p q ≡ false))
Str-cases p q = ground (arith, str_eq_iff p q)

-- Every session of the map is an object of its peer with an open channel.
abbrev pub Held : SessionManager → Type 0
Held sm =
    (p : Str) (id : ℕ)
    → lookup p sm.sessions ≡ some id
    → (s : SessionState) × (lookup id sm.objects ≡ some s)
      × (s.peer_id ≡ p)
      × (s.control_chan ≡ open_channel)

pub record IsGood (sm : SessionManager) : Type 0 where
  pub unique : IsMap sm.sessions
  pub held : Held sm
  pub fresh : (id : ℕ) → sm.next_object ≤ id → lookup id sm.objects ≡ none

-- Two peers never share an object.
pub Held-apart :
    (sm : SessionManager) (p q : Str) (id : ℕ)
    → Held sm
    → lookup p sm.sessions ≡ some id
    → lookup q sm.sessions ≡ some id
    → p ≡ q
Held-apart sm p q id h a b =
    let (s, e, x, c) = h p id a in
    let (t, f, y, d) = h q id b in
    let same : s ≡ t = ground (arith, e, f) in ground (arith, x, y, same)

-- An object that no session uses may change.
pub Held-insert_unused :
    (sm : SessionManager) (id : ℕ) (s : SessionState)
    → Held sm
    → ((p : Str) → lookup p sm.sessions ≢ some id)
    → Held (record sm { objects = insert id s sm.objects })
Held-insert_unused sm id s h u p j a =
    let (t, e, x, c) = h p j a in
    (t, rw (lookup-insert_ne id j s sm.objects (λ k. u p (rw k a))) e, x, c)

module _ (sm : SessionManager) (peer : Str) (id : ℕ) (s : SessionState) where
  -- The registry behind the close of a session and the removal of its entry.
  abbrev pub dropped : SessionManager
  dropped = record (after_close sm id s) { sessions = delete peer sm.sessions }

  pub dropped-Held : Held sm → lookup peer sm.sessions ≡ some id → Held dropped
  dropped-Held h a q j b =
      let ne : peer ≢ q =
        λ e. ground (arith, lookup-delete peer q sm.sessions, str_eq_iff peer q) in
      let b' : lookup q sm.sessions ≡ some j = sym (lookup-delete_ne peer q sm.sessions ne) ∙ b in
      let (t, e, x, c) = h q j b' in
      let apart : id ≢ j = λ k. ne (Held-apart sm peer q j h (rw (← k) a) b') in
      (t, lookup-insert_ne id j (closed s) sm.objects apart ∙ e, x, c)

  pub dropped-IsGood :
      IsGood sm → lookup peer sm.sessions ≡ some id → lookup id sm.objects ≡ some s → IsGood dropped
  dropped-IsGood g a e = record {
    unique = delete-IsMap peer sm.sessions g.unique;
    held = dropped-Held g.held a;
    fresh = λ j le.
        let ne : id ≢ j = λ k. let f = g.fresh j le in ground arith in
        lookup-insert_ne id j (closed s) sm.objects ne ∙ g.fresh j le;
  }

-- A new entry for an object of this peer with an open channel.
pub Held-enter :
    (sm : SessionManager) (peer : Str) (id : ℕ) (s : SessionState)
    → Held (record sm { sessions = delete peer sm.sessions })
    → lookup id sm.objects ≡ some s
    → s.peer_id ≡ peer
    → s.control_chan ≡ open_channel
    → Held (record sm { sessions = insert peer id sm.sessions })
Held-enter sm peer id s h e x c q j a = elim (Str-cases peer q) [
  | inl (same, t) ↦
      (let k : id ≡ j = ground (arith, lookup-insert peer q id sm.sessions) in
        (s, rw (← k) e, x ∙ same, c))
  | inr (other, t) ↦
      h q j (ground (arith, lookup-insert peer q id sm.sessions, lookup-delete peer q sm.sessions))
]
