-- ===== src/Meshlib/Handles.antt =====
-- The server handles over a series of calls.
use grpc_mesh_server.Prelude.{
  ℕ, ◌+◌, ◌%◌, ◌^◌, ◌<◌, ◌≤◌, ◌≡◌, refl, sym, ◌∙◌, ap, inl, inr, List, [], ◌∷◌, ◌++◌, none, arith,
  Str, codes, ==_iff, nat_eq, Option-cases, length,
}
use mathlib.Core.Path.{subst}
use grpc_mesh_server.Map.{Map, lookup, delete, lookup-insert, lookup-delete, lookup-delete_self}
use grpc_mesh_server.Meshlib.{
  Ran, returned, failed, raised, Host, Library, create_server, with_server, mesh_server_new,
  mesh_server_start, mesh_server_stop, mesh_server_free, mesh_invoke, mesh_list_nodes, marshalled,
  nodes_of,
}
use grpc_mesh_server.Meshlib.Store.{set_err}
use grpc_mesh_server.Meshlib.Refusing.{IsRefused, dead_call, invalid-IsRefused}
use grpc_mesh_server.Meshlib.Keeping.{
  Keeps, with_server-Keeps, give-Keeps, started-Keeps, stopped-Keeps, invoked-Keeps,
}

-- The calls that take or make a handle; the first number is the thread.
pub data Call : Type 0 where
  creates : ℕ → Str → Call
  starts stops : ℕ → ℕ → Call
  frees : ℕ → Call
  invokes : ℕ → ℕ → Str → Str → Str → ℕ → Call
  lists : ℕ → ℕ → Call

module _ {C V : Type 0} (host : Host C V) (malloc : Map ℕ Str → ℕ) where
  -- A call, with what it returns.
  unfoldable pub perform : Library V → Call → Library V × ℕ
  perform lib (creates thread config) = mesh_server_new host malloc lib thread config
  perform lib (starts thread h) = mesh_server_start host malloc lib thread h
  perform lib (stops thread h) = mesh_server_stop host malloc lib thread h
  perform lib (frees h) = (mesh_server_free host malloc lib h, 0)
  perform lib (invokes thread h peer method payload timeout_ms) =
      mesh_invoke host malloc lib thread h peer method payload timeout_ms
  perform lib (lists thread h) = mesh_list_nodes host malloc lib thread h

  unfoldable pub run : Library V → List Call → Library V
  run lib [] = lib
  run lib (call ∷ calls) = run (perform lib call).0 calls

  -- A number that is no handle, and is not issued any more.
  pub record IsDead (h : ℕ) (lib : Library V) : Type 0 where
    pub gone : lookup h lib.handles ≡ none
    pub past : h ≤ lib.next_id

  kept-IsDead : (h : ℕ) (lib lib' : Library V) → Keeps lib lib' → IsDead h lib → IsDead h lib'
  kept-IsDead h lib lib' k d = record {
    gone = ap (lookup h) k.0 ∙ d.gone;
    past = ground (arith, k.1, d.past);
  }

  -- A call leaves the number dead, and counts at most one handle up.
  abbrev After : ℕ → Library V → Library V → Type 0
  After h lib lib' = IsDead h lib' × (lib'.next_id ≤ lib.next_id + 1)

  kept-After : (h : ℕ) (lib lib' : Library V) → Keeps lib lib' → IsDead h lib → After h lib lib'
  kept-After h lib lib' k d = (kept-IsDead h lib lib' k d, ground (arith, k.1))

  created-After :
      (h : ℕ) (lib : Library V) (thread : ℕ) (r : Ran V)
      → IsDead h lib
      → lib.next_id + 1 < 2 ^ 64
      → After h lib (create_server host malloc lib thread r).0
  unfolding create_server
  created-After h lib thread (returned v) d lt = (
    record {
      gone = ground (
        arith,
        lookup-insert ((lib.next_id + 1) % 2 ^ 64) h lib.next_server lib.handles,
        d.gone,
        d.past,
        lt,
        ==_iff ((lib.next_id + 1) % 2 ^ 64) h,
      );
      past = omega (arith, d.past, lt);
    },
    omega (arith, lt),
  )
  created-After h lib thread (failed e) d lt = kept-After h lib _ (refl, refl) d
  created-After h lib thread (raised e) d lt = kept-After h lib _ (refl, refl) d

  new-After :
      (h : ℕ) (lib : Library V) (thread : ℕ) (config : Str)
      → IsDead h lib
      → lib.next_id + 1 < 2 ^ 64
      → After h lib (mesh_server_new host malloc lib thread config).0
  unfolding mesh_server_new
  new-After h lib thread config d lt = go (host.load_bytes config)
    where
      quiet : Str → Library V × ℕ
      quiet message = (record lib { strings = set_err malloc lib.strings thread message }, 0)

      go :
          (r : Ran C)
          → After h lib
              (elim r as (λ x. Library V × ℕ) [
                | failed e ↦ quiet (codes "invalid config: " ++ e)
                | raised x ↦ quiet (codes "panic in mesh_server_new: " ++ x)
                | returned cfg ↦ create_server host malloc lib thread (host.create cfg)
              ]).0
      go (failed e) = kept-After h lib _ (refl, refl) d
      go (raised e) = kept-After h lib _ (refl, refl) d
      go (returned cfg) = created-After h lib thread (host.create cfg) d lt

  freed_lem :
      (lib : Library V) (g : ℕ)
      → ((mesh_server_free host malloc lib g).handles ≡ delete g lib.handles)
        × ((mesh_server_free host malloc lib g).next_id ≡ lib.next_id)
  unfolding mesh_server_free
  freed_lem lib g = elim (Option-cases (lookup g lib.handles)) [
    | inl n ↦ (ground (arith, n), ground (arith, n))
    | inr (o, q) ↦ elim (Option-cases (lookup o lib.servers)) [
      | inl n ↦ (ground (arith, n, q), ground (arith, n, q))
      | inr (v, r) ↦ (ground (arith, q, r), ground (arith, q, r))
    ]
  ]

  freed-After :
      (h g : ℕ) (lib : Library V) → IsDead h lib → After h lib (mesh_server_free host malloc lib g)
  freed-After h g lib d =
      let (e, n) = freed_lem lib g in
      (
        record {
          gone = ground (arith, e, lookup-delete g h lib.handles, d.gone);
          past = ground (arith, n, d.past);
        },
        ground (arith, n),
      )

  perform-After :
      (h : ℕ) (lib : Library V) (call : Call)
      → IsDead h lib
      → lib.next_id + 1 < 2 ^ 64
      → After h lib (perform lib call).0
  unfolding perform mesh_server_start mesh_server_stop mesh_invoke mesh_list_nodes
  perform-After h lib (creates thread config) d lt = new-After h lib thread config d lt
  perform-After h lib (frees g) d lt = freed-After h g lib d
  perform-After h lib (starts thread g) d lt =
      kept-After h lib _
        (with_server-Keeps host malloc lib thread g 1 _
          (λ object v. started-Keeps host malloc lib _ thread (host.start v).1 (refl, refl)))
        d
  perform-After h lib (stops thread g) d lt =
      kept-After h lib _
        (with_server-Keeps host malloc lib thread g 1 _
          (λ object v. stopped-Keeps host malloc lib _ thread (host.stop v).1 (refl, refl)))
        d
  perform-After h lib (invokes thread g peer method payload ms) d lt =
      kept-After h lib _
        (with_server-Keeps host malloc lib thread g 0 _
          (λ object v. invoked-Keeps host malloc lib _ thread _ (refl, refl)))
        d
  perform-After h lib (lists thread g) d lt =
      kept-After h lib _
        (with_server-Keeps host malloc lib thread g 0 _ (λ object v.
          give-Keeps host malloc lib thread (codes "mesh_list_nodes") (codes "marshal nodes: ")
            (marshalled host malloc (nodes_of host malloc (host.registry_list v)))))
        d

  run-IsDead :
      (h : ℕ) (lib : Library V) (calls : List Call)
      → IsDead h lib
      → lib.next_id + length calls < 2 ^ 64
      → IsDead h (run lib calls)
  unfolding run
  run-IsDead h lib [] d lt = d
  run-IsDead h lib (call ∷ calls) d lt =
      let (e, n) = perform-After h lib call d (omega (arith, lt)) in
      run-IsDead h (perform lib call).0 calls e (omega (arith, lt, n))

  -- A number up to the last handle that was issued, once it is freed, is never a valid handle again
  -- as long as the last handle that was issued and the number of later calls add up to less than
  -- 2 ^ 64: whatever calls come after it, start and stop with it return 1, invoke and list return 0, and none of them changes a
  -- server, a table, a string handle or another thread's error.
  pub freed_stays_invalid :
      (lib : Library V) (h : ℕ) (calls : List Call) (thread : ℕ)
      → h ≤ lib.next_id
      → lib.next_id + length calls < 2 ^ 64
      → let after = run (mesh_server_free host malloc lib h) calls in
        IsRefused after thread 1 (perform after (starts thread h))
        × IsRefused after thread 1 (perform after (stops thread h))
        × ((peer method payload : Str) (ms : ℕ)
            → IsRefused after thread 0 (perform after (invokes thread h peer method payload ms)))
        × IsRefused after thread 0 (perform after (lists thread h))
  unfolding perform mesh_server_start mesh_server_stop mesh_invoke mesh_list_nodes
  freed_stays_invalid lib h calls thread le lt =
      let (e, n) = freed_lem lib h in
      let first : IsDead h (mesh_server_free host malloc lib h) = record {
        gone = ground (arith, e, lookup-delete_self h lib.handles);
        past = ground (arith, n, le);
      } in
      let after = run (mesh_server_free host malloc lib h) calls in
      let g =
        (run-IsDead h (mesh_server_free host malloc lib h) calls first
          (ground (arith, n, lt))).gone in
      let refused : (rc : ℕ) (f : ℕ → V → Library V × ℕ)
          → IsRefused after thread rc (with_server host malloc after thread h rc f) =
        λ rc f.
          subst (IsRefused after thread rc) (sym (dead_call host malloc after thread h rc f g))
            (invalid-IsRefused host malloc after thread h rc) in
      (refused 1 _, refused 1 _, λ peer method payload ms. refused 0 _, refused 0 _)
