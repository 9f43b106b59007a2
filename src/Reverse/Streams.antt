-- ===== src/Reverse/Streams.antt =====
-- pkg/reverse/gateway.go: InvokeStream and Dial, which leave the connection to the caller.
use grpc_mesh_server.Prelude.{ℕ, List, [], ◌∷◌, Str}
use grpc_mesh_server.Registry.Sessions.{SessionManager}
use grpc_mesh_server.Reverse.{
  Grpc, Context, Gateway, Dialed, connected, dial_failed, DialError, replied, call_failed,
  dial_peer,
}

module _ {C S E : Type 0} (grpc : Grpc C S E) where
  -- `Gateway.InvokeStream`: a stream with its connection, which `cleanup` closes, or an error; and the
  -- connections that it closes itself.
  pub data StreamAnswer : Type 0 where
    opens : S → C → StreamAnswer
    fails_to_dial : DialError E → StreamAnswer
    fails_to_open : E → StreamAnswer

  unfoldable pub invoke_stream :
      Gateway → List SessionManager → Context → Str → ℕ → StreamAnswer × List C
  unfolding dial_peer
  invoke_stream g during ctx peer now = elim (dial_peer grpc g.dialer during ctx peer now) [
    | dial_failed e ↦ (fails_to_dial e, [])
    | connected c ↦ (elim (grpc.open_call c ctx) [
      | call_failed e ↦ (fails_to_open e, c ∷ [])
      | replied s ↦ (opens s c, [])
    ])
  ]

  -- `Gateway.Dial`.
  pub dial : Gateway → List SessionManager → Context → Str → ℕ → Dialed C (DialError E)
  dial g during ctx peer now = dial_peer grpc g.dialer during ctx peer now
