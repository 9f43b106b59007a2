-- ===== src/Meshlib/Refusing.antt =====
-- What a call with a number that is no handle changes.
use grpc_mesh_server.Prelude.{
  ℕ, ◌≡◌, refl, ◌≢◌, ◌∙◌, ap, ◌++◌, Option, none, some, arith, Str, codes, nat_eq,
}
use grpc_mesh_server.Map.{Map, lookup, insert, lookup-insert_ne}
use grpc_mesh_server.Meshlib.{Host, Library, lookup_handle, invalid_handle, with_server, decimal}
use grpc_mesh_server.Meshlib.Store.{Strings, set_err, c_string, free_old, free}

-- A call refused on `thread` with `rc`: every table, server and string handle is as before, and so
-- are the errors of the other threads.
pub record IsRefused {V : Type 0} (lib : Library V) (thread rc : ℕ) (r : Library V × ℕ)
    : Type 0 where
  pub code : r.1 ≡ rc
  pub next_id : r.0.next_id ≡ lib.next_id
  pub handles : r.0.handles ≡ lib.handles
  pub servers : r.0.servers ≡ lib.servers
  pub next_server : r.0.next_server ≡ lib.next_server
  pub live : r.0.strings.live_strs ≡ lib.strings.live_strs
  pub next_str_id : r.0.strings.next_str_id ≡ lib.strings.next_str_id
  pub others :
      (other : ℕ)
      → thread ≢ other
      → lookup other r.0.strings.errors ≡ lookup other lib.strings.errors

module _ {C V : Type 0} (host : Host C V) (malloc : Map ℕ Str → ℕ) where
  pub dead_call :
      (lib : Library V) (thread h rc : ℕ) (f : ℕ → V → Library V × ℕ)
      → lookup h lib.handles ≡ none
      → with_server host malloc lib thread h rc f ≡ (invalid_handle host malloc lib thread h, rc)
  unfolding with_server lookup_handle
  dead_call lib thread h rc f g = ground (arith, g)

  freed_keeps :
      (st : Strings) (o : Option ℕ)
      → ((free_old st o).live_strs ≡ st.live_strs)
        × ((free_old st o).next_str_id ≡ st.next_str_id)
        × ((free_old st o).errors ≡ st.errors)
  unfolding free_old free
  freed_keeps st none = (refl, refl, refl)
  freed_keeps st (some a) = (ground arith, ground arith, ground arith)

  pub invalid-IsRefused :
      (lib : Library V) (thread h rc : ℕ)
      → IsRefused lib thread rc (invalid_handle host malloc lib thread h, rc)
  unfolding invalid_handle set_err c_string
  invalid-IsRefused lib thread h rc =
      let a = malloc lib.strings.heap in
      let text = codes "invalid handle: " ++ decimal h in
      let st : Strings = record lib.strings { heap = insert a text lib.strings.heap } in
      let (l, n, e) = freed_keeps st (lookup thread st.errors) in
      record {
        code = refl;
        next_id = refl;
        handles = refl;
        servers = refl;
        next_server = refl;
        live = l;
        next_str_id = n;
        others = λ other ne.
            lookup-insert_ne thread other a (free_old st (lookup thread st.errors)).errors ne
            ∙ ap (lookup other) e;
      }
