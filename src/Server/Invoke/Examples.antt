-- ===== src/Server/Invoke/Examples.antt =====
-- A proxy with one registered node, which no dial reaches, and one slot.
use grpc_mesh_server.Prelude.{
  ℕ, ◌≡◌, ◌≢◌, ◌↔◌, refl, inl, inr, true, false, [], ◌∷◌, none, some, arith, Str, codes, str_eq,
  str_eq_instance, nat_eq,
}
use grpc_mesh_server.Map.{lookup, insert, has}
use grpc_mesh_server.Control.Messages.{Handshake}
use grpc_mesh_server.Registry.Sessions.{
  SessionState, SessionManager, open_channel, done, get, cleanup,
}
use grpc_mesh_server.Registry.Sessions.Closing.{IsGood, Str-cases}
use grpc_mesh_server.Reverse.{
  Grpc, Context, InvokeRequest, InvokeResponse, Status, dial_failed, call_failed, no_stream,
  response, error, new_gateway, invalid_argument,
}
use grpc_mesh_server.Server.Acl.{permissive_acl, check}
use grpc_mesh_server.Server.RateLimit.{
  ConcurrencyLimiter, RateLimiter, concurrency, limiter_key, allow_concurrent, allow,
}
use grpc_mesh_server.Server.Invoke.{InvokeProxy, serves, Conditions, invoke, validate_request}
use grpc_mesh_server.Server.Invoke.Fates.{IsAllowed}
use grpc_mesh_server.Server.Invoke.Slots.{Holds, left, slots_balance}
use grpc_mesh_server.Server.Invoke.Guards.{IsAnswered, invoke-IsAnswered, validates_iff}
use grpc_mesh_server.Server.Invoke.Beats.{failed_call_beats}

abbrev hello : Handshake
hello = record {
  node_id = codes "a";
  version = codes "1";
  features = [];
  metadata = [];
  timestamp_sec = 0;
  token = [];
}

abbrev state : SessionState
state = record {
  peer_id = codes "a";
  handshake = some hello;
  session = some 7;
  control_chan = open_channel;
  connected = true;
  connected_at = 0;
  last_heartbeat = 0;
}

abbrev one : SessionManager
one = record {
  objects = (0, state) ∷ [];
  next_object = 1;
  sessions = (codes "a", 0) ∷ [];
  yamux_closed = [];
}

abbrev dead : Grpc ℕ ℕ Str
dead = record {
  dial = λ during ctx target f. dial_failed (codes "deadline exceeded");
  call = λ c ctx req. call_failed [];
  open_call = λ c ctx. call_failed [];
  from_error = λ e. none;
  error_text = λ e. e;
  status_text = λ st. [];
  code_name = λ c. [];
  open_yamux = λ ctx y. no_stream [];
}

abbrev slots : ConcurrencyLimiter
slots = record { max_concurrent = 1; current = [] }

abbrev proxy : InvokeProxy
proxy = record {
  sessions = one;
  gateway = new_gateway;
  acl = permissive_acl;
  limiter = concurrency slots;
}

abbrev request : InvokeRequest
request = record {
  peer_id = codes "a";
  method = codes "m";
  payload = [];
  correlation_id = codes "7";
  timeout_ms = 20;
}

abbrev ctx : Context
ctx = record { deadline = none }

-- Nobody else does anything meanwhile.
abbrev calm : Conditions
calm = record {
  during = one ∷ [];
  meanwhile = λ p. p;
  allowed_at = 1;
  limited_at = 2;
  times = record { started = 3; dialing = 4; ended = 5 };
  answered_at = 6;
  beaten_at = 7;
}

slots_balance_example : Holds (left (invoke dead (λ e r. 0) proxy ctx request 0 calm)).limiter slots
slots_balance_example =
    slots_balance dead (λ e r. 0) proxy ctx request 0 calm slots refl (λ q c h. h)

invoke-IsAnswered_example :
    IsAnswered (λ e r. 0) proxy request calm (invoke dead (λ e r. 0) proxy ctx request 0 calm)
invoke-IsAnswered_example = invoke-IsAnswered dead (λ e r. 0) proxy ctx request 0 calm

validates_iff_example : (validate_request (some request) ≡ none) ↔ (
    (q : InvokeProxy) (st : Status)
    → invoke dead (λ e r. 0) proxy ctx request 0 calm ≡ serves q (error st)
    → st.code ≢ invalid_argument)
validates_iff_example = validates_iff dead (λ e r. 0) proxy ctx request 0 calm

one-IsGood : IsGood one
unfolding lookup has
one-IsGood = record {
  unique = (refl, tt);
  held = λ p id a. elim (Str-cases (codes "a") p) [
    | inl (same, t) ↦
        (let k : ◌≡◌ {A = ℕ} 0 id = ground arith in (state, rw (← k) refl, same, refl))
    | inr (ne, f) ↦ absurd (ground arith)
  ];
  fresh = λ id le. ground arith;
}

abbrev taken : RateLimiter
taken =
    concurrency
      (record { max_concurrent = 1; current = insert (limiter_key (codes "a") (codes "m")) 1 [] })

allowed : IsAllowed (λ e r. 0) proxy request calm taken
unfolding allow allow_concurrent lookup check
allowed = record { named = refl; called = refl; permitted = refl; granted = refl }

failed_call_beats_example :
    (q : InvokeProxy) × (resp : InvokeResponse) × (sm : SessionManager) × (n : ℕ) × (invoke dead
        (λ e r. 0)
        proxy
        ctx
        request
        0
        calm
      ≡ serves q (response resp))
    × (resp.success ≡ false)
    × (cleanup q.sessions 100 107 ≡ done sm n)
    × (get sm (codes "a") ≡ some 0)
unfolding lookup get str_eq
failed_call_beats_example =
    failed_call_beats dead (λ e r. 0) proxy ctx request 0 calm taken 0 state
      (codes "deadline exceeded") 100 107 allowed one-IsGood refl refl refl (λ q. refl)
      (λ during c target f. refl) (omega arith)
