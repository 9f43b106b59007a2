-- ===== src/Meshlib/Store.antt =====
-- cmd/meshlib/main.go: string handles, and the error of each thread.
use grpc_mesh_server.Prelude.{
  ℕ, ◌+◌, ◌%◌, ◌^◌, Bool, true, false, [], Option, none, some, Str, nat_eq,
}
use grpc_mesh_server.Map.{Map, lookup, insert, delete}

-- `heap` holds the C strings that are allocated; `faulted` tells that an address was freed that was
-- not. `errors` maps a thread to its `mesh_err_str`, if that is not NULL.
pub record Strings : Type 0 where
  pub heap : Map ℕ Str
  pub faulted : Bool
  pub next_str_id : ℕ
  pub live_strs : Map ℕ ℕ
  pub errors : Map ℕ ℕ

unfoldable pub no_strings : Strings
no_strings = record { heap = []; faulted = false; next_str_id = 0; live_strs = []; errors = [] }

unfoldable pub free : Strings → ℕ → Strings
free st a = elim (lookup a st.heap) [
  | none ↦ record st { faulted = true }
  | some s ↦ record st { heap = delete a st.heap }
]

-- The earlier error of a thread, if there is one.
unfoldable pub free_old : Strings → Option ℕ → Strings
unfolding free
free_old st none = st
free_old st (some old) = free st old

-- `mesh_str_data`: the borrowed pointer, or NULL.
unfoldable pub str_data : Strings → ℕ → Option ℕ
str_data st id = lookup id st.live_strs

-- `mesh_str_release`.
unfoldable pub str_release : Strings → ℕ → Strings
unfolding free
str_release st id = elim (lookup id st.live_strs) [
  | none ↦ record st { live_strs = delete id st.live_strs }
  | some cs ↦ free (record st { live_strs = delete id st.live_strs }) cs
]

-- `mesh_last_error`: the pointer, or none for the constant empty string.
unfoldable pub last_error : Strings → ℕ → Option ℕ
last_error st thread = lookup thread st.errors

-- `malloc` gives the address of a new C string, by the strings that are allocated.
module _ (malloc : Map ℕ Str → ℕ) where
  -- `C.CString`.
  unfoldable pub c_string : Strings → Str → Strings × ℕ
  c_string st s = let a = malloc st.heap in (record st { heap = insert a s st.heap }, a)

  unfoldable pub register_c_string : Strings → Str → Strings × ℕ
  unfolding c_string
  register_c_string st s =
      let (st', cs) = c_string st s in
      let id = (st.next_str_id + 1) % 2 ^ 64 in
      (record st' { next_str_id = id; live_strs = insert id cs st'.live_strs }, id)

  -- `setErr`, with `mesh_set_err`.
  unfoldable pub set_err : Strings → ℕ → Str → Strings
  unfolding c_string free_old
  set_err st thread s =
      let (st', cs) = c_string st s in
      let freed = free_old st' (lookup thread st'.errors) in
      record freed { errors = insert thread cs freed.errors }
