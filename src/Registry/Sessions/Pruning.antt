-- ===== src/Registry/Sessions/Pruning.antt =====
-- `Cleanup` removes the stale sessions and no other.
use grpc_mesh_server.Prelude.{
  ℕ, ◌+◌, ◌≡◌, refl, ◌∙◌, ◌≢◌, inl, inr, true, false, [], ◌∷◌, none, some, arith, if◌then◌else◌,
  length, Str, str_eq_instance, nat_eq, Bool-cases, beq_refl,
}
use grpc_mesh_server.Map.{
  Map, lookup, delete, has, IsMap, lookup-insert_ne, lookup-delete_ne, lookup-delete_self,
  length-delete,
}
use grpc_mesh_server.Registry.Sessions.{
  SessionState, SessionManager, done, get, is_stale, cleanup_from, cleanup,
}
use grpc_mesh_server.Registry.Sessions.Closing.{
  closed, close_open, IsGood, Held-apart, dropped, dropped-IsGood, Str-cases,
}

-- The entries that are still to be visited are in the map.
abbrev Present : SessionManager → Map Str ℕ → Type 0
Present sm es = (q : Str) (j : ℕ) → lookup q es ≡ some j → lookup q sm.sessions ≡ some j

-- What a run over the entries leaves: the sessions of these entries that are stale are gone, all
-- other entries and their objects are as before, and the counts fit.
pub record Pruned (max_age now : ℕ) (sm : SessionManager) (es : Map Str ℕ) (sm' : SessionManager)
    (n : ℕ) : Type 0 where
  pub good : IsGood sm'
  pub unvisited : (q : Str) → lookup q es ≡ none → get sm' q ≡ get sm q
  pub visited :
      (q : Str) (j : ℕ) (s : SessionState)
      → lookup q es ≡ some j
      → lookup j sm.objects ≡ some s
      → get sm' q ≡ (if is_stale max_age now s then none else some j)
  pub kept :
      (j : ℕ) (s : SessionState)
      → lookup j sm.objects ≡ some s
      → is_stale max_age now s ≡ false
      → lookup j sm'.objects ≡ some s
  pub counted : length sm'.sessions + n ≡ length sm.sessions

head_apart :
    (p q : Str) (id j : ℕ) (rest : Map Str ℕ)
    → has p rest ≡ false
    → lookup q rest ≡ some j
    → (p ≢ q) × (lookup q ((p, id) ∷ rest) ≡ some j)
unfolding has lookup
head_apart p q id j rest h a = elim (Str-cases p q) [
  | inl (e, t) ↦ absurd (ground arith)
  | inr (ne, f) ↦ (ne, rw f a)
]

Present-tail :
    (sm : SessionManager) (p : Str) (id : ℕ) (rest : Map Str ℕ)
    → has p rest ≡ false
    → Present sm ((p, id) ∷ rest)
    → Present sm rest
Present-tail sm p id rest h pr q j a = pr q j (head_apart p q id j rest h a).1

absent : (p : Str) (rest : Map Str ℕ) → has p rest ≡ false → lookup p rest ≡ none
unfolding has
absent p rest h = ground arith

module _ (max_age now : ℕ) where
  -- A session that is not stale is passed over.
  skipped :
      (sm : SessionManager) (p : Str) (id : ℕ) (s : SessionState) (rest : Map Str ℕ)
      (sm' : SessionManager) (n : ℕ)
      → IsMap ((p, id) ∷ rest)
      → Present sm ((p, id) ∷ rest)
      → lookup id sm.objects ≡ some s
      → is_stale max_age now s ≡ false
      → Pruned max_age now sm rest sm' n
      → Pruned max_age now sm ((p, id) ∷ rest) sm' n
  unfolding lookup has get
  skipped sm p id s rest sm' n m pr e f r = record {
    good = r.good;
    unvisited = λ q a. elim (Str-cases p q) [
      | inl (same, t) ↦ absurd (ground arith)
      | inr (ne, t) ↦ r.unvisited q (ground arith)
    ];
    visited = λ q j t a o. elim (Str-cases p q) [
      | inl (same, t') ↦
          (let none_left : lookup q rest ≡ none = rw (← same) (absent p rest (m.0)) in
            let u : lookup q sm'.sessions ≡ lookup q sm.sessions = r.unvisited q none_left in
            let here : lookup q sm.sessions ≡ some j = pr q j a in
            let both : id ≡ j = ground arith in
            let one : s ≡ t = ground (arith, e, o) in ground arith)
      | inr (ne, t') ↦ r.visited q j t (ground arith) o
    ];
    kept = r.kept;
    counted = r.counted;
  }

  -- A stale session is closed and its entry removed.
  pruned :
      (sm : SessionManager) (p : Str) (id : ℕ) (s : SessionState) (rest : Map Str ℕ)
      (sm' : SessionManager) (n : ℕ)
      → IsGood sm
      → IsMap ((p, id) ∷ rest)
      → Present sm ((p, id) ∷ rest)
      → lookup id sm.objects ≡ some s
      → is_stale max_age now s ≡ true
      → Pruned max_age now (dropped sm p id s) rest sm' n
      → Pruned max_age now sm ((p, id) ∷ rest) sm' (n + 1)
  unfolding lookup has get
  pruned sm p id s rest sm' n g m pr e f r =
      let here : lookup p sm.sessions ≡ some id = pr p id (rw (beq_refl p) refl) in
      let others : (j : ℕ) (t : SessionState)
          → id ≢ j
          → lookup j sm.objects ≡ some t
          → lookup j (dropped sm p id s).objects ≡ some t =
        λ j t ne o. lookup-insert_ne id j (closed s) sm.objects ne ∙ o in
      record {
        good = r.good;
        unvisited = λ q a. elim (Str-cases p q) [
          | inl (same, t) ↦ absurd (ground arith)
          | inr (ne, t) ↦ r.unvisited q (ground arith) ∙ lookup-delete_ne p q sm.sessions ne
        ];
        visited = λ q j t a o. elim (Str-cases p q) [
          | inl (same, t') ↦
              (let none_left : lookup q rest ≡ none = rw (← same) (absent p rest (m.0)) in
                let u : lookup q sm'.sessions ≡ lookup q (delete p sm.sessions) =
                  r.unvisited q none_left in
                let gone : lookup q (delete p sm.sessions) ≡ none =
                  rw (← same) (lookup-delete_self p sm.sessions) in
                let both : id ≡ j = ground arith in
                let one : s ≡ t = ground (arith, e, o) in ground arith)
          | inr (ne, t') ↦
              (let b : lookup q rest ≡ some j = ground arith in
                let apart : id ≢ j =
                  λ k. ne (Held-apart sm p q j g.held (rw (← k) here) (pr q j a)) in
                r.visited q j t b (others j t apart o))
        ];
        kept = λ j t o fresh.
            let apart : id ≢ j = λ k.
              let o' : lookup id sm.objects ≡ some t = rw k o in
              let one : s ≡ t = ground (arith, e, o') in ground arith in
            r.kept j t (others j t apart o) fresh;
        counted =
            omega (arith, r.counted, length-delete p sm.sessions g.unique (rw (here, has) refl));
      }

  cleanup_from_lem :
      (sm : SessionManager) (es : Map Str ℕ) (removed : ℕ)
      → IsGood sm
      → IsMap es
      → Present sm es
      → (sm' : SessionManager) × (n : ℕ) × (cleanup_from max_age now sm es removed
          ≡ done sm' (removed + n))
        × Pruned max_age now sm es sm' n
  unfolding cleanup_from
  cleanup_from_lem sm [] removed g m pr = (
    sm,
    0,
    ground arith,
    record {
      good = g;
      unvisited = λ q a. refl;
      visited = λ q j s a o. unfold lookup in cc;
      kept = λ j s o f. o;
      counted = omega arith;
    },
  )
  cleanup_from_lem sm ((p, id) ∷ rest) removed g m pr =
      let here : lookup p sm.sessions ≡ some id = pr p id (unfold lookup in rw (beq_refl p) refl) in
      let (s, e, x, c) = g.held p id here in
      elim (Bool-cases (is_stale max_age now s)) [
        | inl t ↦
            (let sm1 = dropped sm p id s in
              let pr1 : Present sm1 rest = λ q j a.
                let (ne, b) = head_apart p q id j rest (m.0) a in
                lookup-delete_ne p q sm.sessions ne ∙ pr q j b in
              let (sm', n, run, r) =
                cleanup_from_lem sm1 rest (removed + 1) (dropped-IsGood sm p id s g here e) (m.1)
                  pr1 in
              (
                sm',
                n + 1,
                ground (arith, e, t, close_open sm id s e c, run),
                pruned sm p id s rest sm' n g m pr e t r,
              ))
        | inr f ↦
            (let (sm', n, run, r) =
                cleanup_from_lem sm rest removed g (m.1) (Present-tail sm p id rest (m.0) pr) in
              (sm', n, ground (arith, e, f, run), skipped sm p id s rest sm' n m pr e f r))
      ]

  pub cleanup_lem :
      (sm : SessionManager)
      → IsGood sm
      → (sm' : SessionManager) × (n : ℕ) × (cleanup sm max_age now ≡ done sm' n)
        × Pruned max_age now sm sm.sessions sm' n
  unfolding cleanup
  cleanup_lem sm g =
      let (sm', n, run, r) = cleanup_from_lem sm sm.sessions 0 g g.unique (λ q j a. a) in
      (sm', n, ground (arith, run), r)
