-- ===== src/Reverse/Examples.antt =====
-- A gateway over a registry with no sessions.
use grpc_mesh_server.Prelude.{
  ℕ, ◌+◌, ◌*◌, ◌≡◌, refl, false, List, [], ◌∷◌, none, some, arith, Str, codes, str_eq,
  str_eq_instance, inl, inr,
}
use mathlib.Core.HLevel.{⊥_prop}
use mathlib.Core.Logic.{∥∥₁_elim}
use mathlib.Core.List.{Mem, mem-cons, mem-cons_self, mem-cons_of_mem, not-mem-nil}
use grpc_mesh_server.Map.{lookup}
use grpc_mesh_server.Registry.Sessions.{SessionManager, new, get}
use grpc_mesh_server.Reverse.{
  Grpc, Context, InvokeRequest, InvokeResponse, Dialed, connected, dial_failed, Streamed, conn,
  failed_to_open, replied, stream, response, failure, new_gateway, ensure_deadline, invoke,
  parse_target,
}
use grpc_mesh_server.Reverse.Deadlines.{IsEarlier, deadline_earliest}
use grpc_mesh_server.Reverse.Dialing.{IsDialing, IsReachable, unreachable_fails}

-- The stream of the first state in which the function has one.
first_stream : List SessionManager → Context → (SessionManager → Context → Streamed) → Dialed ℕ Str
first_stream [] ctx f = dial_failed (codes "deadline exceeded")
first_stream (sm ∷ rest) ctx f =
    let others = first_stream rest ctx f in
    elim (f sm ctx) [ conn y ↦ connected y | failed_to_open e ↦ others ]

abbrev sampled : Grpc ℕ ℕ Str
sampled = record {
  dial = λ during ctx target f. first_stream during ctx f;
  call = λ c ctx req. replied (failure req [] [] 0);
  open_call = λ c ctx. replied c;
  from_error = λ e. none;
  error_text = λ e. e;
  status_text = λ st. [];
  code_name = λ c. [];
  open_yamux = λ ctx y. stream y;
}

sampled_dials :
    (during : List SessionManager) (ctx : Context) (f : SessionManager → Context → Streamed) (c : ℕ)
    → first_stream during ctx f ≡ connected c
    → (sm : SessionManager) × Mem sm during × (inner : Context) × (y : ℕ) × (f sm inner ≡ conn y)
unfolding first_stream
sampled_dials [] ctx f c q = absurd (ground (arith, q))
sampled_dials (sm ∷ rest) ctx f c q = go (f sm ctx) refl λ h. sampled_dials rest ctx f c h
  where
    Found : List SessionManager → Type 0
    Found l =
        (sm' : SessionManager) × Mem sm' l × (inner : Context) × (y : ℕ) × (f sm' inner ≡ conn y)

    go :
        (x : Streamed)
        → f sm ctx ≡ x
        → (first_stream rest ctx f ≡ connected c → Found rest)
        → Found (sm ∷ rest)
    go (conn y) e later = (sm, mem-cons_self, ctx, y, e)
    go (failed_to_open x) e later =
        let (sm', m, inner, y, r) = later (ground (arith, q, e)) in
        (sm', mem-cons_of_mem _ m, inner, y, r)

sampled-IsDialing : IsDialing sampled
sampled-IsDialing = record { dials = λ during ctx target f c q. sampled_dials during ctx f c q }

abbrev request : InvokeRequest
request = record {
  peer_id = codes "a";
  method = codes "m";
  payload = [];
  correlation_id = codes "7";
  timeout_ms = 20;
}

abbrev soon : Context
soon = record { deadline = some 5_000_000 }

-- The caller's deadline of 5 ms is earlier than the request's 20 ms.
deadline_earliest_example :
    IsEarlier soon (ensure_deadline new_gateway soon 20 100) (100 + 20 * 1_000_000)
deadline_earliest_example = (deadline_earliest new_gateway soon 20 100).0 (omega arith)

nobody : (sm : SessionManager) → Mem sm (new ∷ []) → ¬ IsReachable sm (codes "a")
unfolding get new lookup
nobody sm m r =
    ∥∥₁_elim (mem-cons.0 m) ⊥_prop
      λ o. elim o [ inl e ↦ absurd (ground (arith, r.registered, e)) | inr k ↦ not-mem-nil k ]

unreachable_fails_example :
    (resp : InvokeResponse) × (message : Str) × (invoke sampled new_gateway
        (new ∷ [])
        soon
        (codes "a")
        request
        (record { started = 1; dialing = 2; ended = 3 })
      ≡ (response resp, []))
    × (resp.success ≡ false)
    × (resp.error ≡ some (record { code = codes "DIAL_FAILED"; message = message }))
    × (resp.correlation_id ≡ [])
    × (resp.result ≡ [])
    × (resp.peer_id ≡ request.peer_id)
    × (resp.method ≡ request.method)
unreachable_fails_example =
    unreachable_fails sampled new_gateway (new ∷ []) soon (codes "a") request
      (record { started = 1; dialing = 2; ended = 3 }) sampled-IsDialing nobody

parsed : parse_target (codes "passthrough:///node-1") ≡ some (codes "node-1")
unfolding parse_target str_eq
parsed = refl
