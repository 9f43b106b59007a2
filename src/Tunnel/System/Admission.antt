-- ===== src/Tunnel/System/Admission.antt =====
-- A connection that is opened leaves a registry of admitted nodes.
use grpc_mesh_server.Prelude.{
  ℕ, ◌≡◌, refl, sym, ap, ◌∙◌, inl, inr, true, Option, none, some, arith, ◌==◌, Str, str_eq_instance,
  nat_eq, Option-cases, Bool-cases, ==_iff,
}
use mathlib.Core.Path.{subst}
use grpc_mesh_server.Map.{Map, lookup, insert, lookup-insert}
use grpc_mesh_server.Control.Auth.{AuthPolicy, Verdict, authorize_node, granted, refused}
use grpc_mesh_server.Control.Messages.{Handshake}
use grpc_mesh_server.Control.Stream.{ControlStream, set_deadline}
use grpc_mesh_server.Registry.Sessions.{SessionState, SessionManager, new_state, get}
use grpc_mesh_server.Registry.Sessions.Closing.{closed, IsGood, Str-cases}
use grpc_mesh_server.Registry.Sessions.Registering.{Registered, register_session_lem}
use grpc_mesh_server.Tunnel.{
  Handler, Opening, refuses, not_authorized, waiting, serves, crashes, enter, authorise,
  control_read_idle_timeout,
}
use grpc_mesh_server.Tunnel.System.Evolving.{Keeps, Shrinks}

-- The session registered for a node was opened with a handshake that claims this very node, with a
-- token that the policy grants to it.
pub record IsAdmitted (policy : AuthPolicy) (sm : SessionManager) (p : Str) (j : ℕ) : Type 0 where
  pub state : SessionState
  pub shake : Handshake
  pub found : lookup j sm.objects ≡ some state
  pub told : state.handshake ≡ some shake
  pub claimed : shake.node_id ≡ p
  pub allowed : authorize_node policy p shake.token ≡ granted

pub record IsSound {S : Type 0} (policy : AuthPolicy) (sm : SessionManager) (hs : Map ℕ (Handler S))
    : Type 0 where
  pub good : IsGood sm
  pub admitted : (p : Str) (j : ℕ) → lookup p sm.sessions ≡ some j → IsAdmitted policy sm p j
  pub owned :
      (i : ℕ) (c : Handler S)
      → lookup i hs ≡ some c
      → (s : SessionState) × (lookup c.state sm.objects ≡ some s) × (s.peer_id ≡ c.peer)

kept-IsAdmitted :
    (policy : AuthPolicy) (sm sm' : SessionManager) (p : Str) (j : ℕ)
    → Keeps sm sm'
    → IsAdmitted policy sm p j
    → IsAdmitted policy sm' p j
kept-IsAdmitted policy sm sm' p j k a =
    let x = k j a.state a.found in
    record {
      state = x.later;
      shake = a.shake;
      found = x.found;
      told = x.shake ∙ a.told;
      claimed = a.claimed;
      allowed = a.allowed;
    }

register-Keeps :
    (sm sm' : SessionManager) (peer : Str) (h : Handshake) (y : Option ℕ) (now : ℕ)
    → Registered sm peer h y now sm'
    → Keeps sm sm'
unfolding get
register-Keeps sm sm' peer h y now r j s e = elim (Option-cases (get sm peer)) [
  | inl n ↦ record {
    later = s;
    found = r.kept j s e (λ q. ground arith);
    peer = refl;
    shake = refl;
  }
  | inr (old, o) ↦ elim (Bool-cases (old == j)) [
    | inl same ↦
        (let k : old ≡ j = (==_iff old j).0 same in
          record {
            later = closed s;
            found = r.old_closed j s (rw (← k) o) e;
            peer = refl;
            shake = refl;
          })
    | inr other ↦ record {
      later = s;
      found = r.kept j s e (λ q. ground arith);
      peer = refl;
      shake = refl;
    }
  ]
]

module _ {S : Type 0} (policy : AuthPolicy) where
  pub advance :
      (sm sm' : SessionManager) (hs : Map ℕ (Handler S))
      → IsSound policy sm hs
      → IsGood sm'
      → Keeps sm sm'
      → Shrinks sm sm'
      → IsSound policy sm' hs
  advance sm sm' hs o g k l = record {
    good = g;
    admitted = λ p j a. kept-IsAdmitted policy sm sm' p j k (o.admitted p j (l p j a));
    owned = λ i c a.
        let (s, e, x) = o.owned i c a in let y = k c.state s e in (y.later, y.found, y.peer ∙ x);
  }

  pub update :
      (sm : SessionManager) (hs : Map ℕ (Handler S)) (i : ℕ) (c c' : Handler S)
      → IsSound policy sm hs
      → lookup i hs ≡ some c
      → c'.state ≡ c.state
      → c'.peer ≡ c.peer
      → IsSound policy sm (insert i c' hs)
  update sm hs i c c' o e a b = record {
    good = o.good;
    admitted = o.admitted;
    owned = λ j d f. elim (Bool-cases (i == j)) [
      | inl same ↦
          (let (s, x, y) = o.owned i c e in
            let k : c' ≡ d = ground (arith, lookup-insert i j c' hs) in
            (
              s,
              ap (λ n. lookup n sm.objects) (sym (ap (λ h. h.state) k) ∙ a) ∙ x,
              y ∙ sym b ∙ ap (λ h. h.peer) k,
            ))
      | inr other ↦ o.owned j d (ground (arith, lookup-insert i j c' hs))
    ];
  }

  -- What the opening of a connection leaves behind.
  abbrev pub Opened : SessionManager → Map ℕ (Handler S) → ℕ → Opening S → Type 0
  Opened sm hs i (refuses e) = Unit
  Opened sm hs i (serves sm' c) = IsSound policy sm' (insert i c hs)
  Opened sm hs i crashes = ⊥

  -- The state of a system behind a registration.
  entered-IsSound :
      (sm sm' : SessionManager) (hs : Map ℕ (Handler S)) (i : ℕ) (c : Handler S) (h : Handshake)
      (y : Option ℕ) (now : ℕ)
      → IsSound policy sm hs
      → authorize_node policy h.node_id h.token ≡ granted
      → Registered sm h.node_id h y now sm'
      → c.peer ≡ h.node_id
      → c.state ≡ sm.next_object
      → IsSound policy sm' (insert i c hs)
  unfolding get new_state
  entered-IsSound sm sm' hs i c h y now o a r cp cs =
      let k = register-Keeps sm sm' h.node_id h y now r in
      record {
        good = r.good;
        admitted = λ p j b. elim (Str-cases h.node_id p) [
          | inl (same, t) ↦
              (let en : sm.next_object ≡ j = ground (arith, r.entry, b, same) in
                record {
                  state = new_state h.node_id h y now;
                  shake = h;
                  found = rw (← en) r.object;
                  told = refl;
                  claimed = same;
                  allowed = rw (← same) a;
                })
          | inr (other, t) ↦
              kept-IsAdmitted policy sm sm' p j k (o.admitted p j (sym (r.others p other) ∙ b))
        ];
        owned = λ n d f. elim (Bool-cases (i == n)) [
          | inl same ↦
              (let e : c ≡ d = ground (arith, lookup-insert i n c hs) in
                (
                  new_state h.node_id h y now,
                  ap (λ m. lookup m sm'.objects) (sym (ap (λ x. x.state) e) ∙ cs) ∙ r.object,
                  sym cp ∙ ap (λ x. x.peer) e,
                ))
          | inr other ↦
              (let (s, x, z) = o.owned n d (ground (arith, lookup-insert i n c hs)) in
                let w = k d.state s x in (w.later, w.found, w.peer ∙ z))
        ];
      }

  enter-Opened :
      (sm : SessionManager) (hs : Map ℕ (Handler S)) (i y : ℕ) (cs : ControlStream S)
      (h : Handshake) (now : ℕ)
      → IsSound policy sm hs
      → authorize_node policy h.node_id h.token ≡ granted
      → Opened sm hs i (enter sm y cs h now)
  unfolding enter
  enter-Opened sm hs i y cs h now o a =
      let (sm', e, r) = register_session_lem sm o.good h.node_id h (some y) now in
      let c : Handler S = record {
        peer = h.node_id;
        state = sm.next_object;
        session = y;
        control = set_deadline cs control_read_idle_timeout;
        reading = true;
        read_done = none;
        stage = waiting;
      } in
      let q : enter sm y cs h now ≡ serves sm' c = ground (arith, e) in
      subst (Opened sm hs i) (sym q) (entered-IsSound sm sm' hs i c h (some y) now o a r refl refl)

  pub authorise-Opened :
      (sm : SessionManager) (hs : Map ℕ (Handler S)) (i y : ℕ) (cs : ControlStream S)
      (h : Handshake) (now : ℕ)
      → IsSound policy sm hs
      → Opened sm hs i (authorise policy sm y cs h now)
  unfolding authorise
  authorise-Opened sm hs i y cs h now o = go (authorize_node policy h.node_id h.token) refl
    where
      go :
          (v : Verdict)
          → authorize_node policy h.node_id h.token ≡ v
          → Opened sm hs i
              (elim v [ refused e ↦ refuses (not_authorized e) | granted ↦ enter sm y cs h now ])
      go granted a = enter-Opened sm hs i y cs h now o a
      go (refused e) a = tt
