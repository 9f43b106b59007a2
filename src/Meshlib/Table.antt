-- ===== src/Meshlib/Table.antt =====
-- What string handles and errors promise to a caller, without addresses.
use grpc_mesh_server.Prelude.{
  ℕ, ◌+◌, List, [], ◌∷◌, Option, none, some, Str, ◌==◌, if◌then◌else◌, nat_eq,
}
use grpc_mesh_server.Map.{Map, lookup}
use grpc_mesh_server.Meshlib.Store.{
  Strings, register_c_string, str_data, str_release, set_err, last_error,
}

-- A text for each handle that is live, a number that no handle exceeds, and the last error of each
-- thread.
pub record Table : Type 0 where
  pub issued : ℕ
  pub content : ℕ → Option Str
  pub message : ℕ → Option Str

abbrev pub empty : Table
empty = record { issued = 0; content = λ id. none; message = λ thread. none }

-- What a caller can do, and what it sees of it; pointers are read when they are returned.
pub data Op : Type 0 where
  registers : Str → Op
  releases reads : ℕ → Op
  fails : ℕ → Str → Op
  asks : ℕ → Op

pub data Seen : Type 0 where
  handle : ℕ → Seen
  text : Option Str → Seen
  nothing : Seen

-- The specification: a new handle is the next number, a release forgets one handle and no other, and
-- a thread reads its own last error.
abbrev pub step : Table → Op → Table × Seen
step t (registers s) = (
  record t {
    issued = t.issued + 1;
    content = λ id. if t.issued + 1 == id then some s else t.content id;
  },
  handle (t.issued + 1),
)
step t (releases id) = (record t { content = λ j. if id == j then none else t.content j }, nothing)
step t (reads id) = (t, text (t.content id))
step t (fails thread s) =
    (record t { message = λ j. if thread == j then some s else t.message j }, nothing)
step t (asks thread) = (t, text (t.message thread))

abbrev pub run : Table → List Op → List Seen
run t [] = []
run t (op ∷ ops) = (step t op).1 ∷ run (step t op).0 ops

-- The C string at a pointer, if it is allocated.
unfoldable pub at_pointer : Strings → Option ℕ → Option Str
at_pointer st none = none
at_pointer st (some a) = lookup a st.heap

-- The same operations on the library's variables.
module _ (malloc : Map ℕ Str → ℕ) where
  unfoldable pub perform : Strings → Op → Strings × Seen
  perform st (registers s) = let (st', id) = register_c_string malloc st s in (st', handle id)
  perform st (releases id) = (str_release st id, nothing)
  perform st (reads id) = (st, text (at_pointer st (str_data st id)))
  perform st (fails thread s) = (set_err malloc st thread s, nothing)
  perform st (asks thread) = (st, text (at_pointer st (last_error st thread)))

  unfoldable pub run_strings : Strings → List Op → Strings × List Seen
  unfolding perform
  run_strings st [] = (st, [])
  run_strings st (op ∷ ops) =
      let (st', seen) = perform st op in
      let (st'', others) = run_strings st' ops in (st'', seen ∷ others)
