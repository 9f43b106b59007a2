-- ===== src/Registry/Sessions/Examples.antt =====
-- A registry with one session.
use grpc_mesh_server.Prelude.{
  ℕ, ◌≡◌, refl, ◌≢◌, ◌⊎◌, inl, inr, true, List, [], ◌∷◌, none, some, arith, Str, codes, str_eq,
  str_eq_instance, nat_eq,
}
use grpc_mesh_server.Map.{lookup, insert, delete, has}
use grpc_mesh_server.Control.Messages.{Handshake}
use grpc_mesh_server.Registry.Sessions.{
  SessionState, SessionManager, open_channel, done, ok, err, new, session_not_found, new_state,
  register_session, get, remove, remove_if_current,
}
use grpc_mesh_server.Registry.Sessions.Closing.{IsGood, dropped, Str-cases, after_close}
use grpc_mesh_server.Registry.Sessions.Registering.{
  Registered, register_session_lem, successor_survives, removal,
}
use grpc_mesh_server.Strings.{split, split_from, trim_space, drop_space}
use grpc_mesh_server.Strings.Spaces.{IsBlank, IsWord}
use grpc_mesh_server.Registry.Sessions.Advertised.{
  mesh_methods_key, methods, parse_mesh_methods, Entry, text, listing, IsEntry, advertised_methods,
}
use grpc_mesh_server.Registry.Sessions.History.{
  Call, registers, registers_state, removes_current, beats, cleans, run, run-new-IsGood,
}

abbrev hello : Handshake
hello = record {
  node_id = codes "a";
  version = codes "1";
  features = [];
  metadata = [];
  timestamp_sec = 0;
  token = [];
}

abbrev state : SessionState
state = record {
  peer_id = codes "a";
  handshake = some hello;
  session = some 7;
  control_chan = open_channel;
  connected = true;
  connected_at = 0;
  last_heartbeat = 0;
}

abbrev one : SessionManager
one = record {
  objects = (0, state) ∷ [];
  next_object = 1;
  sessions = (codes "a", 0) ∷ [];
  yamux_closed = [];
}

one-IsGood : IsGood one
unfolding lookup has
one-IsGood = record {
  unique = (refl, tt);
  held = λ p id a. elim (Str-cases (codes "a") p) [
    | inl (same, t) ↦
        (let k : ◌≡◌ {A = ℕ} 0 id = ground arith in (state, rw (← k) refl, same, refl))
    | inr (ne, f) ↦ absurd (ground arith)
  ];
  fresh = λ id le. ground arith;
}

after_one_close : SessionManager
unfolding insert delete
after_one_close = after_close one 0 state

register_session_lem_example :
    (sm' : SessionManager) × (register_session one (codes "b") (some hello) none 5
      ≡ done sm' (ok 1))
    × Registered one (codes "b") hello none 5 sm'
register_session_lem_example = register_session_lem one one-IsGood (codes "b") hello none 5

successor_survives_example :
    (sm' : SessionManager) × (register_session one (codes "a") (some hello) (some 8) 5
      ≡ done sm' (ok 1))
    × (remove_if_current sm' (codes "a") 0 ≡ done sm' (ok tt))
    × (get sm' (codes "a") ≡ some 1)
    × (lookup 1 sm'.objects ≡ some (new_state (codes "a") hello (some 8) 5))
unfolding get lookup str_eq
successor_survives_example = successor_survives one one-IsGood (codes "a") hello (some 8) 5 0 refl

removal_example :
    ((get one (codes "a") ≡ none)
      × (remove one (codes "a") ≡ done one (err session_not_found))
      × ((id : ℕ) → remove_if_current one (codes "a") id ≡ done one (err session_not_found)))
    ⊎ ((id : ℕ) × (s : SessionState) × (get one (codes "a") ≡ some id)
        × (lookup id one.objects ≡ some s)
        × (remove one (codes "a") ≡ done (dropped one (codes "a") id s) (ok tt))
        × (remove_if_current one (codes "a") id ≡ done (dropped one (codes "a") id s) (ok tt))
        × ((other : ℕ) → id ≢ other → remove_if_current one (codes "a") other ≡ done one (ok tt))
        × IsGood (dropped one (codes "a") id s)
        × (get (dropped one (codes "a") id s) (codes "a") ≡ none)
        × ((q : Str) → codes "a" ≢ q → get (dropped one (codes "a") id s) q ≡ get one q))
removal_example = removal one one-IsGood (codes "a")

calls : List Call
calls =
    registers (codes "a") (some hello) (some 7) 0
    ∷ registers (codes "a") (some hello) (some 8) 5
    ∷ registers_state (some state)
    ∷ removes_current (codes "a") 0
    ∷ beats (codes "a") 50
    ∷ cleans 60 100
    ∷ cleans 60 111
    ∷ []

run-new-IsGood_example : (sm' : SessionManager) × (run new calls ≡ done sm' tt) × IsGood sm'
unfolding calls
run-new-IsGood_example = run-new-IsGood calls (tt, (tt, (refl, (tt, (tt, (tt, (tt, tt)))))))

abbrev entries : List Entry
entries =
    record { before = codes " "; name = codes "calc/Add"; behind = codes " " }
    ∷ record { before = codes " "; name = codes "calc/Health"; behind = [] }
    ∷ []

abbrev told : Handshake
told = record hello { metadata = insert mesh_methods_key (listing entries) [] }

told_methods :
    methods (record state { handshake = some told }) ≡ codes "calc/Add" ∷ codes "calc/Health" ∷ []
unfolding methods parse_mesh_methods lookup insert str_eq listing text split split_from trim_space
    drop_space
told_methods = refl

advertised_methods_example :
    methods (record state { handshake = some told }) ≡ codes "calc/Add" ∷ codes "calc/Health" ∷ []
unfolding IsEntry IsBlank IsWord
advertised_methods_example =
    advertised_methods (record state { handshake = some told }) hello entries refl
      (
        ((refl, tt), (refl, refl), (refl, tt), refl, refl),
        (((refl, tt), (refl, refl), tt, refl, refl), tt),
      )
