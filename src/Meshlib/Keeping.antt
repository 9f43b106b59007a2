-- ===== src/Meshlib/Keeping.antt =====
-- The calls that leave the table of server handles as it is.
use grpc_mesh_server.Prelude.{ℕ, ◌≡◌, refl, ◌∙◌, Option, none, some, Str, codes, nat_eq}
use grpc_mesh_server.Map.{Map, lookup}
use grpc_mesh_server.Reverse.{InvokeResponse}
use grpc_mesh_server.Meshlib.{
  Ran, returned, failed, raised, Host, Library, invalid_handle, with_server, started, stopped,
  give_string, invoked,
}

-- The handles stay as they are.
abbrev pub Keeps : {V : Type 0} → Library V → Library V → Type 0
Keeps lib lib' = (lib'.handles ≡ lib.handles) × (lib'.next_id ≡ lib.next_id)

module _ {C V : Type 0} (host : Host C V) (malloc : Map ℕ Str → ℕ) where
  pub with_server-Keeps :
      (lib : Library V) (thread h refusal : ℕ) (f : ℕ → V → Library V × ℕ)
      → ((object : ℕ) (v : V) → Keeps lib (f object v).0)
      → Keeps lib (with_server host malloc lib thread h refusal f).0
  unfolding with_server invalid_handle
  with_server-Keeps lib thread h refusal f k = go (lookup h lib.handles)
    where
      refuse : Library V × ℕ
      refuse = (invalid_handle host malloc lib thread h, refusal)

      served :
          (object : ℕ) (x : Option V)
          → Keeps lib (elim x as (λ o. Library V × ℕ) [ none ↦ refuse | some v ↦ f object v ]).0
      served object none = (refl, refl)
      served object (some v) = k object v

      go :
          (x : Option ℕ)
          → Keeps lib
              (elim x as (λ o. Library V × ℕ) [
                | none ↦ refuse
                | some object ↦ (elim (lookup object lib.servers) [
                  | none ↦ refuse
                  | some v ↦ f object v
                ])
              ]).0
      go none = (refl, refl)
      go (some object) = served object (lookup object lib.servers)

  pub give-Keeps :
      (lib : Library V) (thread : ℕ) (name what : Str) (r : Ran Str)
      → Keeps lib (give_string host malloc lib thread name what r).0
  unfolding give_string
  give-Keeps lib thread name what (returned t) = (refl, refl)
  give-Keeps lib thread name what (failed e) = (refl, refl)
  give-Keeps lib thread name what (raised e) = (refl, refl)

  pub started-Keeps :
      (lib lib' : Library V) (thread : ℕ) (r : Ran (Unit {0}))
      → Keeps lib lib'
      → Keeps lib (started host malloc lib' thread r).0
  unfolding started
  started-Keeps lib lib' thread (returned t) k = k
  started-Keeps lib lib' thread (failed e) k = k
  started-Keeps lib lib' thread (raised e) k = k

  pub stopped-Keeps :
      (lib lib' : Library V) (thread : ℕ) (r : Ran (Unit {0}))
      → Keeps lib lib'
      → Keeps lib (stopped host malloc lib' thread r).0
  unfolding stopped
  stopped-Keeps lib lib' thread (returned t) k = k
  stopped-Keeps lib lib' thread (failed e) k = k
  stopped-Keeps lib lib' thread (raised e) k = k

  pub invoked-Keeps :
      (lib lib' : Library V) (thread : ℕ) (r : Ran InvokeResponse)
      → Keeps lib lib'
      → Keeps lib (invoked host malloc lib' thread r).0
  unfolding invoked
  invoked-Keeps lib lib' thread (returned t) k =
      let (a, b) =
        give-Keeps lib' thread (codes "mesh_invoke") (codes "marshal response: ")
          (host.marshal_response t) in
      (a ∙ k.0, b ∙ k.1)
  invoked-Keeps lib lib' thread (failed e) k = k
  invoked-Keeps lib lib' thread (raised e) k = k
