-- ===== src/Registry/Sessions/History.antt =====
-- Any history of calls, and the statistics.
use grpc_mesh_server.Prelude.{
  ℕ, ◌+◌, ◌≡◌, refl, ◌∙◌, ◌≢◌, inl, inr, false, List, [], ◌∷◌, Option, none, some, arith,
  if◌then◌else◌, length, Str, str_eq_instance, nat_eq, ◌==◌, ==_iff, Option-cases, Bool-cases,
  beq_refl, str_eq, str_eq_iff,
}
use grpc_mesh_server.Map.{Map, lookup, insert, lookup-insert_self, lookup-insert_ne, IsMap, has}
use grpc_mesh_server.Control.Messages.{Handshake}
use grpc_mesh_server.Registry.Sessions.Views.{SessionStats, states, count_states, stats, size}
use grpc_mesh_server.Registry.Sessions.{
  SessionState, SessionManager, Outcome, done, panicked, new, register_session, register, allocate,
  open_channel, remove, remove_if_current, heartbeat, mark_disconnected, cleanup,
}
use grpc_mesh_server.Registry.Sessions.Closing.{IsGood}
use grpc_mesh_server.Registry.Sessions.Registering.{register_session_lem, removal}
use grpc_mesh_server.Registry.Sessions.Entering.{register-IsGood}
use grpc_mesh_server.Registry.Sessions.Pruning.{cleanup_lem}

-- The calls on a registry; `now` is the time of the call. `registers_state` is the deprecated
-- `Register`, of nil or of a pointer to a new object in the given state. A pointer that is
-- registered a second time is left out: this call closes the session and keeps it in the map, and
-- its removal then panics.
pub data Call : Type 0 where
  registers : Str → Option Handshake → Option ℕ → ℕ → Call
  registers_state : Option SessionState → Call
  removes : Str → Call
  removes_current : Str → ℕ → Call
  beats : Str → ℕ → Call
  marks : Str → Call
  cleans : ℕ → ℕ → Call

abbrev forget : {A : Type 0} → Outcome A → Outcome (Unit {0})
forget (done sm a) = done sm tt
forget (panicked sm) = panicked sm

unfoldable pub step : SessionManager → Call → Outcome (Unit {0})
step sm (registers p h y now) = forget (register_session sm p h y now)
step sm (registers_state none) = forget (register sm none)
step sm (registers_state (some s)) = forget (register (allocate sm s) (some sm.next_object))
step sm (removes p) = forget (remove sm p)
step sm (removes_current p id) = forget (remove_if_current sm p id)
step sm (beats p now) = forget (heartbeat sm p now)
step sm (marks p) = mark_disconnected sm p
step sm (cleans max_age now) = forget (cleanup sm max_age now)

-- The control channel of a state given to `Register` is open.
abbrev pub IsOpen : Call → Type 0
IsOpen (registers_state (some s)) = s.control_chan ≡ open_channel
IsOpen _ = Unit

abbrev pub AreOpen : List Call → Type 0
AreOpen [] = Unit
AreOpen (c ∷ calls) = IsOpen c × AreOpen calls

-- A panic ends the run.
unfoldable pub run : SessionManager → List Call → Outcome (Unit {0})
run sm [] = done sm tt
run sm (c ∷ calls) = elim (step sm c) [ panicked sm' ↦ panicked sm' | done sm' u ↦ run sm' calls ]

-- A call that returns, and leaves a good registry.
abbrev Fine : Outcome (Unit {0}) → Type 0
Fine o = (sm' : SessionManager) × (o ≡ done sm' tt) × IsGood sm'

-- A new state for an object that keeps its peer and its channel.
pub touched-IsGood :
    (sm : SessionManager) (id : ℕ) (s t : SessionState)
    → IsGood sm
    → lookup id sm.objects ≡ some s
    → t.peer_id ≡ s.peer_id
    → t.control_chan ≡ s.control_chan
    → IsGood (record sm { objects = insert id t sm.objects })
touched-IsGood sm id s t g e p c = record {
  unique = g.unique;
  held = λ q j a.
      let (u, o, x, d) = g.held q j a in
      elim (Bool-cases (id == j)) [
        | inl same ↦
            (let k : id ≡ j = (==_iff id j).0 same in
              let o' : lookup id sm.objects ≡ some u = rw k o in
              let one : s ≡ u = ground (arith, e, o') in
              (
                t,
                rw (← k) (lookup-insert_self id t sm.objects),
                ground (arith, one, p, x),
                ground (arith, one, c, d),
              ))
        | inr other ↦
            (let ne : id ≢ j = λ k. ground arith in
              (u, lookup-insert_ne id j t sm.objects ne ∙ o, x, d))
      ];
  fresh = λ j le.
      let f = g.fresh j le in
      let ne : id ≢ j = λ k. ground arith in lookup-insert_ne id j t sm.objects ne ∙ f;
}

heartbeat-Fine :
    (sm : SessionManager) (p : Str) (now : ℕ) → IsGood sm → Fine (forget (heartbeat sm p now))
unfolding heartbeat
heartbeat-Fine sm p now g = elim (Option-cases (lookup p sm.sessions)) [
  | inl e ↦ (sm, ground arith, g)
  | inr (id, a) ↦
      (let (s, e, x, c) = g.held p id a in
        let t = record s { last_heartbeat = now } in
        (_, ground (arith, a, e), touched-IsGood sm id s t g e refl refl))
]

mark-Fine : (sm : SessionManager) (p : Str) → IsGood sm → Fine (mark_disconnected sm p)
unfolding mark_disconnected
mark-Fine sm p g = elim (Option-cases (lookup p sm.sessions)) [
  | inl e ↦ (sm, ground arith, g)
  | inr (id, a) ↦
      (let (s, e, x, c) = g.held p id a in
        let t = record s { connected = false } in
        (_, ground (arith, a, e), touched-IsGood sm id s t g e refl refl))
]

remove-Fine : (sm : SessionManager) (p : Str) → IsGood sm → Fine (forget (remove sm p))
remove-Fine sm p g = elim (removal sm g p) [
  | inl (a, r, c) ↦ (sm, ground arith, g)
  | inr (id, s, a, o, r, c, other, g', gone, kept) ↦ (_, ground arith, g')
]

pub remove_current-Fine :
    (sm : SessionManager) (p : Str) (id : ℕ) → IsGood sm → Fine (forget (remove_if_current sm p id))
remove_current-Fine sm p id g = elim (removal sm g p) [
  | inl (a, r, c) ↦ (sm, ground (arith, c id), g)
  | inr (cur, s, a, o, r, c, other, g', gone, kept) ↦ (elim (Bool-cases (cur == id)) [
    | inl same ↦ (let k : cur ≡ id = (==_iff cur id).0 same in (_, rw (← k) (ground arith), g'))
    | inr ne ↦ (sm, ground (arith, other id), g)
  ])
]

step-Fine : (sm : SessionManager) (c : Call) → IsOpen c → IsGood sm → Fine (step sm c)
unfolding step
step-Fine sm (registers p none y now) o g = (sm, unfold register_session in refl, g)
step-Fine sm (registers p (some h) y now) o g =
    let (sm', e, r) = register_session_lem sm g p h y now in (sm', ground (arith, e), r.good)
step-Fine sm (registers_state none) o g = (sm, unfold register in refl, g)
step-Fine sm (registers_state (some s)) o g =
    let (sm', e, g') = register-IsGood sm g s o in (sm', ground (arith, e), g')
step-Fine sm (removes p) o g = remove-Fine sm p g
step-Fine sm (removes_current p id) o g = remove_current-Fine sm p id g
step-Fine sm (beats p now) o g = heartbeat-Fine sm p now g
step-Fine sm (marks p) o g = mark-Fine sm p g
step-Fine sm (cleans max_age now) o g =
    let (sm', n, e, r) = cleanup_lem max_age now sm g in (sm', ground (arith, e), r.good)

run-Fine :
    (sm : SessionManager) (calls : List Call) → AreOpen calls → IsGood sm → Fine (run sm calls)
unfolding run
run-Fine sm [] o g = (sm, refl, g)
run-Fine sm (c ∷ calls) o g =
    let (sm', e, g') = step-Fine sm c o.0 g in
    let (sm'', e', g'') = run-Fine sm' calls o.1 g' in (sm'', ground (arith, e, e'), g'')

pub new-IsGood : IsGood new
unfolding new lookup
new-IsGood = record { unique = tt; held = λ p id a. cc; fresh = λ id le. refl }

-- No history of removals, heartbeats, disconnect marks, cleanups and registrations on a new registry,
-- where each `Register` is given nil or a new session with an open channel, ends in a panic: each session that is still in the map afterwards is an object of its peer whose
-- channel is open, so that it is closed once at most.
pub run-new-IsGood :
    (calls : List Call)
    → AreOpen calls
    → (sm' : SessionManager) × (run new calls ≡ done sm' tt) × IsGood sm'
run-new-IsGood calls o = run-Fine new calls o new-IsGood

count_states_sum :
    (st : SessionStats) (l : List SessionState)
    → ((count_states st l).active_sessions + (count_states st l).inactive_sessions
        ≡ st.active_sessions + st.inactive_sessions + length l)
      × ((count_states st l).total_sessions ≡ st.total_sessions)
unfolding count_states
count_states_sum st [] = ground arith
count_states_sum st (s ∷ l) =
    let st' =
      if s.connected
      then record st { active_sessions = st.active_sessions + 1 }
      else record st { inactive_sessions = st.inactive_sessions + 1 } in
    ground (arith, count_states_sum st' l)

length-states :
    (sm : SessionManager) (m : Map Str ℕ)
    → IsMap m
    → ((p : Str) (id : ℕ)
        → lookup p m ≡ some id
        → (s : SessionState) × (lookup id sm.objects ≡ some s))
    → length (states sm m) ≡ length m
unfolding states has
length-states sm [] u h = refl
length-states sm ((p, id) ∷ m) u h =
    let (s, e) = h p id (unfold lookup in rw (beq_refl p) refl) in
    let rest = length-states sm m (u.1) λ q j a. h q j (
      unfold lookup in
      elim (Bool-cases (str_eq p q)) [
        | inl t ↦ (let k : p ≡ q = (str_eq_iff p q).0 t in absurd (ground (arith, u.0)))
        | inr f ↦ rw f a
      ]) in
    ground (arith, rest)

-- On a good registry the active and the inactive sessions of the statistics add up to the total,
-- which is the size of the registry.
pub stats_total :
    (sm : SessionManager)
    → IsGood sm
    → ((stats sm).active_sessions + (stats sm).inactive_sessions ≡ size sm)
      × ((stats sm).total_sessions ≡ size sm)
unfolding stats size
stats_total sm g =
    let start : SessionStats = record {
      total_sessions = length sm.sessions;
      active_sessions = 0;
      inactive_sessions = 0;
    } in
    ground (
      arith,
      count_states_sum start (states sm sm.sessions),
      length-states sm sm.sessions g.unique λ p id a. let (s, e, x, c) = g.held p id a in (s, e),
    )
