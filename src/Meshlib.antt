-- ===== src/Meshlib.antt =====
-- cmd/meshlib/main.go: the C library. Each exported function is one step, called on a thread, which is
-- a number. A C string is an address in `heap`; the allocator is a parameter. Servers are objects of a
-- store, behind the operations of a `Host`, which may panic.
pub mod Store
pub mod Table
pub mod Owning
pub mod Holding
pub mod Releasing
pub mod Writing
pub mod Refining
pub mod Keeping
pub mod Refusing
pub mod Handles
mod Examples
use grpc_mesh_server.Prelude.{
  ℕ, zero, suc, ◌+◌, ◌%◌, ◌^◌, ◌/◌, Bool, true, false, List, [], ◌∷◌, ◌++◌, Option, none, some, ltb,
  ◌==◌, if◌then◌else◌, Str, codes, nat_eq,
}
use grpc_mesh_server.Map.{Map, lookup, insert, delete}
use grpc_mesh_server.Registry.Sessions.{SessionState}
use grpc_mesh_server.Registry.Sessions.Advertised as Advertised
use grpc_mesh_server.Reverse.{InvokeRequest, InvokeResponse, Status}
use grpc_mesh_server.Meshlib.Store.{Strings, set_err, register_c_string, no_strings}

-- What a call of Go code comes to: a value, an error, or a panic with its text.
pub data Ran (A : Type 0) : Type 0 where
  returned : A → Ran A
  failed : Str → Ran A
  raised : Str → Ran A

pub record NodeJson : Type 0 where
  pub node_id : Str
  pub version : Str
  pub methods : List Str
  pub connected_at : Str
  pub last_heartbeat : Str

-- The packages below, for configurations `C` and servers `V`: `config.LoadBytes`, the methods of `server.Server`, the JSON
-- encoders and the format of times. A call leaves the server in a new state even when it panics.
pub record Host (C V : Type 0) : Type 0 where
  pub load_bytes : Str → Ran C
  pub create : C → Ran V
  pub start : V → V × Ran (Unit {0})
  pub stop : V → V × Ran (Unit {0})
  pub gateway_invoke : V → InvokeRequest → V × Ran InvokeResponse
  pub registry_list : V → List SessionState
  pub marshal_response : InvokeResponse → Ran Str
  pub marshal_nodes : List NodeJson → Ran Str
  pub format_time : ℕ → Str

-- The variables of the package. `servers` holds the objects that `handles` points to.
pub record Library (V : Type 0) : Type 0 where
  pub next_id : ℕ
  pub handles : Map ℕ ℕ
  pub servers : Map ℕ V
  pub next_server : ℕ
  pub strings : Strings

unfoldable pub new_library : {V : Type 0} → Library V
unfolding no_strings
new_library = record {
  next_id = 0;
  handles = [];
  servers = [];
  next_server = 0;
  strings = no_strings;
}

-- `%d` of a number below 10 ^ 20.
abbrev digits : ℕ → ℕ → Str → Str
digits zero n rest = rest
digits (suc fuel) n rest =
    let text = (48 + n % 10) ∷ rest in
    let more = digits fuel (n / 10) text in if ltb n 10 then text else more

pub decimal : ℕ → Str
decimal n = digits 20 n []

module _ {C V : Type 0} (host : Host C V) (malloc : Map ℕ Str → ℕ) where
  abbrev fail : Library V → ℕ → Str → Library V
  fail lib thread message = record lib { strings = set_err malloc lib.strings thread message }

  unfoldable pub invalid_handle : Library V → ℕ → ℕ → Library V
  invalid_handle lib thread handle = fail lib thread (codes "invalid handle: " ++ decimal handle)

  -- `lookup`: the object behind a handle.
  unfoldable pub lookup_handle : Library V → ℕ → Option ℕ
  lookup_handle lib handle = lookup handle lib.handles

  abbrev store : Library V → ℕ → V → Library V
  store lib object v = record lib { servers = insert object v lib.servers }

  -- `handles[nextID] = &meshServer{srv: srv}`.
  unfoldable pub add_handle : Library V → V → Library V × ℕ
  add_handle lib v =
      let id = (lib.next_id + 1) % 2 ^ 64 in
      (
        record lib {
          next_id = id;
          handles = insert id lib.next_server lib.handles;
          servers = insert lib.next_server v lib.servers;
          next_server = lib.next_server + 1;
        },
        id,
      )

  unfoldable pub create_server : Library V → ℕ → Ran V → Library V × ℕ
  unfolding add_handle
  create_server lib thread (returned v) = add_handle lib v
  create_server lib thread (failed e) =
      (fail lib thread (codes "failed to construct server: " ++ e), 0)
  create_server lib thread (raised r) =
      (fail lib thread (codes "panic in mesh_server_new: " ++ r), 0)

  unfoldable pub mesh_server_new : Library V → ℕ → Str → Library V × ℕ
  unfolding create_server
  mesh_server_new lib thread config = elim (host.load_bytes config) [
    | failed e ↦ (fail lib thread (codes "invalid config: " ++ e), 0)
    | raised r ↦ (fail lib thread (codes "panic in mesh_server_new: " ++ r), 0)
    | returned cfg ↦ create_server lib thread (host.create cfg)
  ]

  -- The object of a handle, with its server; a handle without one is invalid.
  unfoldable pub with_server : Library V → ℕ → ℕ → ℕ → (ℕ → V → Library V × ℕ) → Library V × ℕ
  unfolding lookup_handle invalid_handle
  with_server lib thread handle refusal f = elim (lookup_handle lib handle) [
    | none ↦ (invalid_handle lib thread handle, refusal)
    | some object ↦ (elim (lookup object lib.servers) [
      | none ↦ (invalid_handle lib thread handle, refusal)
      | some v ↦ f object v
    ])
  ]

  unfoldable pub started : Library V → ℕ → Ran (Unit {0}) → Library V × ℕ
  started lib thread (returned u) = (lib, 0)
  started lib thread (failed e) = (fail lib thread (codes "start failed: " ++ e), 1)
  started lib thread (raised r) = (fail lib thread (codes "panic in mesh_server_start: " ++ r), 1)

  unfoldable pub mesh_server_start : Library V → ℕ → ℕ → Library V × ℕ
  unfolding with_server started
  mesh_server_start lib thread handle =
      with_server lib thread handle 1
        λ object v. let (v', result) = host.start v in started (store lib object v') thread result

  unfoldable pub stopped : Library V → ℕ → Ran (Unit {0}) → Library V × ℕ
  stopped lib thread (raised r) = (fail lib thread (codes "panic in mesh_server_stop: " ++ r), 1)
  stopped lib thread _ = (lib, 0)

  unfoldable pub mesh_server_stop : Library V → ℕ → ℕ → Library V × ℕ
  unfolding with_server stopped
  mesh_server_stop lib thread handle =
      with_server lib thread handle 1
        λ object v. let (v', result) = host.stop v in stopped (store lib object v') thread result

  -- A panic of `Stop` is swallowed.
  unfoldable pub mesh_server_free : Library V → ℕ → Library V
  mesh_server_free lib handle =
      let lib' = record lib { handles = delete handle lib.handles } in
      elim (lookup handle lib.handles) [
        | none ↦ lib'
        | some object ↦ (elim (lookup object lib.servers) [
          | none ↦ lib'
          | some v ↦ store lib' object (host.stop v).0
        ])
      ]

  -- A result as a string handle, or 0 with an error.
  unfoldable pub give_string : Library V → ℕ → Str → Str → Ran Str → Library V × ℕ
  give_string lib thread name what (returned text) =
      let (strings, id) = register_c_string malloc lib.strings text in
      (record lib { strings = strings }, id)
  give_string lib thread name what (failed e) = (fail lib thread (what ++ e), 0)
  give_string lib thread name what (raised r) =
      (fail lib thread (codes "panic in " ++ name ++ codes ": " ++ r), 0)

  unfoldable pub invoked : Library V → ℕ → Ran InvokeResponse → Library V × ℕ
  unfolding give_string
  invoked lib thread (returned resp) =
      give_string lib thread (codes "mesh_invoke") (codes "marshal response: ")
        (host.marshal_response resp)
  invoked lib thread (failed e) = (fail lib thread (codes "invoke failed: " ++ e), 0)
  invoked lib thread (raised r) = (fail lib thread (codes "panic in mesh_invoke: " ++ r), 0)

  unfoldable pub mesh_invoke : Library V → ℕ → ℕ → Str → Str → Str → ℕ → Library V × ℕ
  unfolding with_server invoked
  mesh_invoke lib thread handle peer method payload timeout_ms =
      with_server lib thread handle 0 λ object v.
        let (v', result) = host.gateway_invoke v (record {
          peer_id = peer;
          method = method;
          payload = payload;
          correlation_id = [];
          timeout_ms = timeout_ms;
        }) in
        invoked (store lib object v') thread result

  -- One entry of `mesh_list_nodes`; none is the fault of a nil handshake.
  pub node_of : SessionState → Option NodeJson
  node_of s = elim s.handshake [
    | none ↦ none
    | some h ↦ some (record {
      node_id = s.peer_id;
      version = h.version;
      methods = Advertised.methods s;
      connected_at = host.format_time s.connected_at;
      last_heartbeat = host.format_time s.last_heartbeat;
    })
  ]

  pub nodes_of : List SessionState → Option (List NodeJson)
  unfolding node_of
  nodes_of [] = some []
  nodes_of (s ∷ rest) =
      let others = nodes_of rest in
      elim (node_of s) [
        | none ↦ none
        | some n ↦ (elim others [ none ↦ none | some ns ↦ some (n ∷ ns) ])
      ]

  pub marshalled : Option (List NodeJson) → Ran Str
  marshalled none =
      raised (codes "runtime error: invalid memory address or nil pointer dereference")
  marshalled (some nodes) = host.marshal_nodes nodes

  unfoldable pub mesh_list_nodes : Library V → ℕ → ℕ → Library V × ℕ
  unfolding with_server nodes_of marshalled give_string
  mesh_list_nodes lib thread handle = with_server lib thread handle 0 λ object v.
      give_string lib thread (codes "mesh_list_nodes") (codes "marshal nodes: ")
        (marshalled (nodes_of (host.registry_list v)))
