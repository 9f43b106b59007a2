-- ===== src/Tunnel/System/Evolving.antt =====
-- What no operation of the registry undoes: objects stay, with their peer and handshake, and only a
-- registration adds an entry.
use grpc_mesh_server.Prelude.{
  ℕ, ◌+◌, ◌≡◌, refl, ap, ◌∙◌, ◌⊎◌, inl, inr, false, [], ◌∷◌, some, arith, ◌==◌, Str,
  str_eq_instance, nat_eq, Option-cases, Bool-cases, ==_iff,
}
use grpc_mesh_server.Map.{Map, lookup, insert, delete, lookup-insert, lookup-delete}
use grpc_mesh_server.Registry.Sessions.{
  SessionState, SessionManager, Result, Outcome, done, panicked, closed_channel, close,
  touch_heartbeat, remove_if_current, cleanup, cleanup_from, is_stale,
}

-- The object of the later registry is the same session.
pub record IsSame (sm sm' : SessionManager) (j : ℕ) (s : SessionState) : Type 0 where
  pub later : SessionState
  pub found : lookup j sm'.objects ≡ some later
  pub peer : later.peer_id ≡ s.peer_id
  pub shake : later.handshake ≡ s.handshake

abbrev pub Keeps : SessionManager → SessionManager → Type 0
Keeps sm sm' = (j : ℕ) (s : SessionState) → lookup j sm.objects ≡ some s → IsSame sm sm' j s

abbrev pub Shrinks : SessionManager → SessionManager → Type 0
Shrinks sm sm' = (p : Str) (j : ℕ) → lookup p sm'.sessions ≡ some j → lookup p sm.sessions ≡ some j

pub Keeps-refl : (sm : SessionManager) → Keeps sm sm
Keeps-refl sm j s e = record { later = s; found = e; peer = refl; shake = refl }

pub Keeps-trans : (a b c : SessionManager) → Keeps a b → Keeps b c → Keeps a c
Keeps-trans a b c h k j s e =
    let x = h j s e in
    let y = k j x.later x.found in
    record { later = y.later; found = y.found; peer = y.peer ∙ x.peer; shake = y.shake ∙ x.shake }

-- A write to an object that keeps its peer and handshake.
pub Keeps-insert :
    (sm sm' : SessionManager) (id : ℕ) (s t : SessionState)
    → lookup id sm.objects ≡ some s
    → t.peer_id ≡ s.peer_id
    → t.handshake ≡ s.handshake
    → sm'.objects ≡ insert id t sm.objects
    → Keeps sm sm'
Keeps-insert sm sm' id s t e p h o j u f = elim (Bool-cases (id == j)) [
  | inl same ↦
      (let k : id ≡ j = (==_iff id j).0 same in
        let f' : lookup id sm.objects ≡ some u = rw k f in
        let one : s ≡ u = ground (arith, e, f') in
        record {
          later = t;
          found = rw o (ground (arith, lookup-insert id j t sm.objects));
          peer = p ∙ ap (λ v. v.peer_id) one;
          shake = h ∙ ap (λ v. v.handshake) one;
        })
  | inr other ↦ record {
    later = u;
    found = rw o (ground (arith, lookup-insert id j t sm.objects));
    peer = refl;
    shake = refl;
  }
]

Outcome-cases :
    {A : Type 0} (o : Outcome A)
    → ((sm : SessionManager) × (o ≡ panicked sm))
      ⊎ ((sm : SessionManager) × (a : A) × (o ≡ done sm a))
Outcome-cases (done sm a) = inr (sm, a, refl)
Outcome-cases (panicked sm) = inl (sm, refl)

-- A session is closed and an entry removed.
close-Keeps :
    (sm sm' : SessionManager) (p : Str) (id : ℕ)
    → close sm id ≡ done sm' tt
    → let sm'' = record sm' { sessions = delete p sm'.sessions } in Keeps sm sm'' × Shrinks sm sm''
unfolding close
close-Keeps sm sm' p id h = elim (Option-cases (lookup id sm.objects)) [
  | inl e ↦ absurd (ground arith)
  | inr (s, e) ↦ (
    Keeps-insert sm (record sm' { sessions = delete p sm'.sessions }) id s
        (record s { connected = false; control_chan = closed_channel }) e refl refl (ground arith),
    λ q j a. ground (arith, lookup-delete p q sm.sessions),
  )
]

pub touch-Keeps :
    (sm sm' : SessionManager) (id now : ℕ)
    → touch_heartbeat sm id now ≡ done sm' tt
    → Keeps sm sm' × (sm'.sessions ≡ sm.sessions)
unfolding touch_heartbeat
touch-Keeps sm sm' id now h = elim (Option-cases (lookup id sm.objects)) [
  | inl e ↦ absurd (ground arith)
  | inr (s, e) ↦ (
    Keeps-insert sm sm' id s (record s { last_heartbeat = now }) e refl refl (ground arith),
    ground arith,
  )
]

pub remove-Keeps :
    (sm sm' : SessionManager) (peer : Str) (id : ℕ) (r : Result (Unit {0}))
    → remove_if_current sm peer id ≡ done sm' r
    → Keeps sm sm' × Shrinks sm sm'
unfolding remove_if_current
remove-Keeps sm sm' peer id r h = elim (Option-cases (lookup peer sm.sessions)) [
  | inl e ↦ (let k : sm ≡ sm' = ground arith in (rw (← k) (Keeps-refl sm), λ q j a. ground arith))
  | inr (cur, e) ↦ elim (Bool-cases (cur == id)) [
    | inr other ↦
        (let k : sm ≡ sm' = ground arith in (rw (← k) (Keeps-refl sm), λ q j a. ground arith))
    | inl same ↦ elim (Outcome-cases (close sm cur)) [
      | inl (sm1, c) ↦ absurd (ground arith)
      | inr (sm1, u, c) ↦
          (let k : record sm1 { sessions = delete peer sm1.sessions } ≡ sm' = ground arith in
            rw (← k) (close-Keeps sm sm1 peer cur c))
    ]
  ]
]

cleanup_from-Keeps :
    (max_age now : ℕ) (sm sm' : SessionManager) (es : Map Str ℕ) (n m : ℕ)
    → cleanup_from max_age now sm es n ≡ done sm' m
    → Keeps sm sm' × Shrinks sm sm'
unfolding cleanup_from
cleanup_from-Keeps max_age now sm sm' [] n m h =
    (let k : sm ≡ sm' = ground arith in (rw (← k) (Keeps-refl sm), λ q j a. ground arith))
cleanup_from-Keeps max_age now sm sm' ((p, id) ∷ es) n m h =
    elim (Option-cases (lookup id sm.objects)) [
      | inl e ↦ absurd (ground arith)
      | inr (s, e) ↦ elim (Bool-cases (is_stale max_age now s)) [
        | inr f ↦ cleanup_from-Keeps max_age now sm sm' es n m (ground arith)
        | inl t ↦ elim (Outcome-cases (close sm id)) [
          | inl (sm1, c) ↦ absurd (ground arith)
          | inr (sm1, u, c) ↦
              (let sm2 = record sm1 { sessions = delete p sm1.sessions } in
                let (k, l) = close-Keeps sm sm1 p id c in
                let (k', l') = cleanup_from-Keeps max_age now sm2 sm' es (n + 1) m (ground arith) in
                (Keeps-trans sm sm2 sm' k k', λ q j a. l q j (l' q j a)))
        ]
      ]
    ]

pub cleanup-Keeps :
    (max_age now : ℕ) (sm sm' : SessionManager) (m : ℕ)
    → cleanup sm max_age now ≡ done sm' m
    → Keeps sm sm' × Shrinks sm sm'
unfolding cleanup
cleanup-Keeps max_age now sm sm' m h = cleanup_from-Keeps max_age now sm sm' sm.sessions 0 m h
