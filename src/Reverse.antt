-- ===== src/Reverse.antt =====
-- pkg/reverse/gateway.go and pkg/reverse/dialer.go, over the messages of pkg/rpc. Times are
-- nanoseconds; a context is its deadline. grpc-go and yamux are parameters (`Grpc`). Other goroutines
-- change the registry while a dial runs: `during` lists the states that it goes through.
pub mod Streams
pub mod Deadlines
pub mod Dialing
mod Examples
use grpc_mesh_server.Prelude.{
  ℕ, ◌+◌, ◌-◌, ◌*◌, ◌/◌, Bool, true, false, ◌&&◌, List, [], ◌∷◌, ◌++◌, Option, none, some, ltb,
  length, if◌then◌else◌, Str, codes, is_empty, take, drop, str_eq,
}
use grpc_mesh_server.Registry.Sessions.{SessionManager, SessionError, Result, ok, err, open_stream}

pub record InvokeRequest : Type 0 where
  pub peer_id : Str
  pub method : Str
  pub payload : Str
  pub correlation_id : Str
  pub timeout_ms : ℕ

pub record ErrorDetail : Type 0 where
  pub code : Str
  pub message : Str

pub record InvokeResponse : Type 0 where
  pub peer_id : Str
  pub method : Str
  pub result : Str
  pub success : Bool
  pub error : Option ErrorDetail
  pub correlation_id : Str
  pub elapsed_ms : ℕ

-- The codes of google.golang.org/grpc/codes that the code names, and the others.
pub data Code : Type 0 where
  invalid_argument permission_denied resource_exhausted not_found unavailable unknown : Code
  other : ℕ → Code

pub record Status : Type 0 where
  pub code : Code
  pub message : Str

pub record Context : Type 0 where
  pub deadline : Option ℕ

-- `context.WithTimeout` at the time `now`: a parent's earlier deadline stays.
unfoldable pub with_timeout : Context → ℕ → ℕ → Context
with_timeout ctx now timeout = elim ctx.deadline [
  | none ↦ record { deadline = some (now + timeout) }
  | some d ↦ record { deadline = some (if ltb d (now + timeout) then d else now + timeout) }
]

-- What `OpenStream` of a yamux session returns.
pub data Opened : Type 0 where
  stream : ℕ → Opened
  no_stream : Str → Opened

pub data Dialed (C E : Type 0) : Type 0 where
  connected : C → Dialed C E
  dial_failed : E → Dialed C E

pub data Called (A E : Type 0) : Type 0 where
  replied : A → Called A E
  call_failed : E → Called A E

-- `err` of `DialPeer`: its own, or the one that `grpc.DialContext` returns.
pub data DialError (E : Type 0) : Type 0 where
  missing_peer_id : DialError E
  failed_to_dial : E → DialError E

-- `err` of `DialContext`.
pub data StreamFailure : Type 0 where
  no_session : SessionError → StreamFailure
  no_yamux_stream : Str → StreamFailure

pub data Streamed : Type 0 where
  conn : ℕ → Streamed
  failed_to_open : StreamFailure → Streamed

-- grpc-go, with connections `C`, streams `S` and errors `E`. `dial` is `grpc.DialContext` with the
-- function of `WithContextDialer`, which it may apply in the states that the registry goes through.
pub record Grpc (C S E : Type 0) : Type 0 where
  pub dial :
      List SessionManager → Context → Str → (SessionManager → Context → Streamed) → Dialed C E
  pub call : C → Context → InvokeRequest → Called InvokeResponse E
  pub open_call : C → Context → Called S E
  pub from_error : E → Option Status
  pub error_text : E → Str
  pub status_text : Status → Str
  pub code_name : Code → Str
  pub open_yamux : Context → ℕ → Opened

pub record Dialer : Type 0 where
  pub dial_timeout : ℕ

-- Ten seconds.
unfoldable pub new_dialer : Dialer
new_dialer = record { dial_timeout = 10_000_000_000 }

pub with_dial_timeout : Dialer → ℕ → Dialer
with_dial_timeout d timeout = record d { dial_timeout = timeout }

pub record Gateway : Type 0 where
  pub dialer : Dialer
  pub timeout : ℕ

-- Thirty seconds.
unfoldable pub new_gateway : Gateway
unfolding new_dialer
new_gateway = record { dialer = new_dialer; timeout = 30_000_000_000 }

pub with_invoke_timeout : Gateway → ℕ → Gateway
with_invoke_timeout g timeout = record g { timeout = timeout }

unfoldable pub ensure_deadline : Gateway → Context → ℕ → ℕ → Context
unfolding with_timeout
ensure_deadline g ctx timeout_ms now =
    if ltb 0 timeout_ms
    then with_timeout ctx now (timeout_ms * 1_000_000)
    else if ltb 0 g.timeout
    then with_timeout ctx now g.timeout
    else ctx

abbrev passthrough : Str
passthrough = codes "passthrough:///"

-- `none` is the error `target is required`.
unfoldable pub parse_target : Str → Option Str
parse_target target =
    if is_empty target
    then none
    else if ltb 15 (length target) && str_eq (take 15 target) passthrough
    then some (drop 15 target)
    else some target

-- What comes of a call: a response or a status error.
pub data Answer : Type 0 where
  response : InvokeResponse → Answer
  error : Status → Answer

-- The clock as `Invoke` reads it: at its start, in `DialPeer`, and at its end.
pub record Times : Type 0 where
  pub started : ℕ
  pub dialing : ℕ
  pub ended : ℕ

-- `uint64(time.Since(start).Milliseconds())`.
pub millis : ℕ → ℕ → ℕ
millis start now = (now - start) / 1_000_000

-- A response made by the gateway itself: no result, and no correlation id.
unfoldable pub failure : InvokeRequest → Str → Str → ℕ → InvokeResponse
failure req code message elapsed = record {
  peer_id = req.peer_id;
  method = req.method;
  result = [];
  success = false;
  error = some (record { code = code; message = message });
  correlation_id = [];
  elapsed_ms = elapsed;
}

module _ {C S E : Type 0} (grpc : Grpc C S E) where
  unfoldable pub dial_context : Str → SessionManager → Context → Streamed
  dial_context peer sm ctx = elim (open_stream sm peer (grpc.open_yamux ctx)) [
    | err e ↦ failed_to_open (no_session e)
    | ok opened ↦ (elim opened [
      | stream s ↦ conn s
      | no_stream e ↦ failed_to_open (no_yamux_stream e)
    ])
  ]

  unfoldable pub dial_peer :
      Dialer → List SessionManager → Context → Str → ℕ → Dialed C (DialError E)
  unfolding with_timeout
  dial_peer d during ctx peer now =
      if is_empty peer
      then dial_failed missing_peer_id
      else (elim (grpc.dial during (with_timeout ctx now d.dial_timeout) (passthrough ++ peer)
          (dial_context peer)) [
            | dial_failed e ↦ dial_failed (failed_to_dial e)
            | connected c ↦ connected c
          ])

  unfoldable pub dial_text : DialError E → Str
  dial_text missing_peer_id = codes "peer_id is required"
  dial_text (failed_to_dial e) = codes "failed to dial: " ++ grpc.error_text e

  -- `status.FromError`, and `codes.Unknown` for an error that has no status.
  unfoldable pub status_of : E → Status
  status_of e = elim (grpc.from_error e) [
    | none ↦ record { code = unknown; message = grpc.error_text e }
    | some st ↦ st
  ]

  -- The call over a connection, which is closed behind it.
  unfoldable pub call_over : C → Context → InvokeRequest → Times → InvokeResponse
  unfolding status_of failure
  call_over c ctx req t = elim (grpc.call c ctx req) [
    | replied resp ↦ resp
    | call_failed e ↦
        failure req (grpc.code_name (status_of e).code) (status_of e).message
          (millis t.started t.ended)
  ]

  -- `Gateway.Invoke`, with the connections that it closes. Its error is always nil.
  unfoldable pub invoke :
      Gateway → List SessionManager → Context → Str → InvokeRequest → Times → Answer × List C
  unfolding ensure_deadline dial_peer dial_text call_over failure
  invoke g during ctx peer req t =
      let ctx' = ensure_deadline g ctx req.timeout_ms t.started in
      elim (dial_peer g.dialer during ctx' peer t.dialing) [
        | dial_failed e ↦ (
          response (
              failure req (codes "DIAL_FAILED") (codes "failed to dial peer: " ++ dial_text e)
                (millis t.started t.ended)),
          [],
        )
        | connected c ↦ (response (call_over c ctx' req t), c ∷ [])
      ]
