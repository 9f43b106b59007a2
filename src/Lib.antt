-- ===== src/Lib.antt =====
-- grpc-mesh-server: the server of a mesh. Nodes connect over yamux; on the first stream they
-- authenticate with a handshake and then send heartbeats; the server keeps a registry of sessions
-- and of the methods of each node, and forwards calls to the nodes under an access policy, rate
-- limits, a circuit breaker and retries.
--
-- The parts and their files. A method that changes its receiver returns the new state; a mutex
-- makes a call one step; errors are values of a data type of the model.
--
--   Prelude, Map, Strings   shared names, numbers and lists; Go's maps as association lists; the
--                           functions of Go's package strings that the code calls
--   Control.Messages        pkg/control/types.go: Handshake, Heartbeat, ControlMessage and their
--                           Validate, over int64 words (Control.Words)
--   Control.Auth            pkg/control/auth.go: NewAuthPolicy, Authorize, AuthorizeNode
--   Control.Stream          pkg/control/stream.go: frames with a 4-byte length (SendFrame,
--                           ReceiveFrame), the JSON messages over them, feature sets
--   Registry.Sessions       pkg/registry/registry.go: the store of *SessionState objects, with the
--                           panic on the second close of a channel as an outcome; its child
--                           Advertised reads the methods that a handshake reports
--   Registry.Methods        pkg/registry/method_registry.go: method catalogs and the reverse index
--   Registry.Extended       pkg/registry/session_ext.go: ExtendedSessionManager over the two registries
--                           and the breakers of Fault.Breaker
--   Server.Acl              pkg/server/acl.go: the three policies, patterns and priorities
--   Server.RateLimit        pkg/server/ratelimit.go: token buckets, concurrency counts, no limit
--   Server.Invoke           pkg/server/invoke.go: Invoke with its guards, InvokeStream,
--                           ValidateRequest; Invoke of InvokePlaneService in pkg/server/server.go
--   Server.Lifecycle        pkg/server/server.go: New, Start and Stop, with Start and Stop of
--                           pkg/tunnel/tunnel.go
--   Metrics                 pkg/metrics/metrics.go: the exporter's Start and Stop
--   Config                  pkg/config/config.go: Load, LoadBytes and the checks of the values
--   Reverse                 pkg/reverse/gateway.go and pkg/reverse/dialer.go: deadlines, dials over the
--                           registry, calls with their errors as responses
--   Tunnel, Tunnel.System   pkg/tunnel/tunnel.go: handleConn and readControlLoop, and the steps of
--                           all connections of a server over one registry, in any order
--   Meshlib                 cmd/meshlib/main.go: the exported C functions over server and string
--                           handles (Meshlib.Store), next to a table without addresses (Meshlib.Table)
--   Fault.Breaker           pkg/fault/circuit_breaker.go: the circuit breaker, with Execute
--   Fault.Retry             pkg/fault/retry.go: Retry, RetryWithRecovery, Executor
--
-- How they meet: Control.Stream sends the messages of Control.Messages and validates them;
-- Registry.Sessions keeps the handshakes of Control.Messages; the children of each module hold its
-- properties, and its Examples the runs on concrete inputs. Tunnel authorises a handshake with
-- Control.Auth, registers it in Registry.Sessions and reads messages with Control.Stream; an event
-- of Tunnel.System is a step of one goroutine, of the world, or of the cleanup loop. Server.Invoke
-- asks Server.Acl, takes a slot of Server.RateLimit, calls the node through Reverse, which dials
-- over Registry.Sessions, and touches the heartbeat that Tunnel and the cleanup read.
--
-- Parameters: the yamux stream is a record of operations on an unread and a sent byte list
-- (YamuxStream), JSON a pair of functions (Json), float64 a type with the operations that the code
-- applies (Floats, DelayFloats), the token bucket's float computation a function `refill`, and
-- calls of user code the outcomes of a World, grpc-go a record of dials and calls (Grpc) and one of
-- servers (GrpcOps), a connection the ends of its TLS and yamux handshakes (Connection), the
-- packages under the C library a record (Host), with the C allocator as a function `malloc`. The
-- laws assumed of them are named: IsReader, IsWriter, IsJson, IgnoresEnvelope, IsFaithful, IsJitter,
-- IsRefill, IsDialing, IsGrpc, IsAllocator. They are kept to what the packages do: IsJson speaks of
-- messages of ASCII strings and of values that survive (IsPlain), and up to the order of maps;
-- IsFaithful of conversions of durations that float64 represents; IsRefill of a float64 product up
-- to its rounding, before it leaves the range of an int.
--
-- Bounds and fuel: int64 times are written out modulo 2 ^ 64, lengths of frames modulo 2 ^ 32.
-- Handles of the C library wrap at 2 ^ 64, and 20 rounds print one. Other counters (breaker, rate
-- limits, sizes) are natural numbers and do not wrap. The loop of Retry runs on MaxAttempts + 2
-- rounds of fuel, one more than its guards let pass, and running out of fuel is a result of its own;
-- Fault.Retry.Runs shows that it is never reached. All other loops run over lists.
--
-- Waits: a stop of the server (Server.Lifecycle) waits for the running RPCs and for the handlers of
-- the tunnel's connections; whether these end is its argument `Waits`, and a stop that waits forever
-- is a result of its own. A call behind it is one of another goroutine.
--
-- Not modelled: the TLS configuration, the development certificate and the certificate watcher of
-- pkg/tunnel/tunnel.go (crypto, fsnotify), the collectors of pkg/metrics (prometheus), logging
-- (pkg/logging, the set-up of zap), viper behind pkg/config, the command (cmd/server, flags and
-- signals) and the generated pkg/rpc, but for its messages. Of the other files: Heartbeat.Age,
-- AcceptControlStream, and the float64 averages of the statistics.
pub mod Config
pub mod Control
pub mod Fault
pub mod Map
pub mod Meshlib
pub mod Metrics
pub mod Prelude
pub mod Registry
pub mod Reverse
pub mod Server
pub mod Strings
pub mod Tunnel
