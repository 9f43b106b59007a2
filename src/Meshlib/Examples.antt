-- ===== src/Meshlib/Examples.antt =====
-- Strings are put behind the highest address in use, so that an address is used again.
use grpc_mesh_server.Prelude.{
  ℕ, ◌+◌, ◌<◌, ◌≡◌, refl, true, false, List, [], ◌∷◌, none, arith, Str, codes, ltb, if◌then◌else◌,
  nat_eq, ==_iff,
}
use grpc_mesh_server.Map.{Map, lookup}
use grpc_mesh_server.Meshlib.{
  Host, Library, returned, new_library, mesh_server_free, mesh_server_new, add_handle,
  create_server,
}
use grpc_mesh_server.Meshlib.Store.{no_strings}
use grpc_mesh_server.Meshlib.Table.{
  Op, registers, releases, reads, fails, asks, empty, run, run_strings,
}
use grpc_mesh_server.Meshlib.Holding.{IsAllocator}
use grpc_mesh_server.Meshlib.Refining.{strings_refine}
use grpc_mesh_server.Meshlib.Refusing.{IsRefused}
use grpc_mesh_server.Meshlib.Handles as Handles
use grpc_mesh_server.Meshlib.Handles.{
  Call, creates, starts, stops, invokes, lists, frees, freed_stays_invalid,
}

highest : Map ℕ Str → ℕ
highest [] = 0
highest ((a, s) ∷ rest) = let top = highest rest in if ltb top a then a else top

malloc : Map ℕ Str → ℕ
unfolding highest
malloc heap = highest heap + 1

above_highest : (heap : Map ℕ Str) (a : ℕ) → highest heap < a → lookup a heap ≡ none
unfolding highest lookup
above_highest [] a lt = refl
above_highest ((b, s) ∷ rest) a lt =
    ground (arith, above_highest rest a (ground (arith, lt)), ==_iff b a, lt)

malloc-IsAllocator : IsAllocator malloc
unfolding malloc
malloc-IsAllocator heap = above_highest heap (highest heap + 1) (omega arith)

-- The second string takes the address of the first, which is then released once more.
abbrev ops : List Op
ops =
    registers (codes "a")
    ∷ reads 1
    ∷ releases 1
    ∷ registers (codes "b")
    ∷ releases 1
    ∷ reads 2
    ∷ fails 0 (codes "x")
    ∷ fails 0 (codes "y")
    ∷ asks 0
    ∷ []

strings_refine_example :
    ((run_strings malloc no_strings ops).1 ≡ run empty ops)
    × ((run_strings malloc no_strings ops).0.faulted ≡ false)
strings_refine_example = strings_refine malloc malloc-IsAllocator ops (omega arith)

-- A server is the number of the calls that it has seen.
abbrev host : Host Str ℕ
host = record {
  load_bytes = λ text. returned text;
  create = λ config. returned 0;
  start = λ n. (n + 1, returned tt);
  stop = λ n. (n + 1, returned tt);
  gateway_invoke = λ n req. (
    n + 1,
    returned (record {
      peer_id = [];
      method = [];
      result = [];
      success = true;
      error = none;
      correlation_id = [];
      elapsed_ms = 0;
    }),
  );
  registry_list = λ n. [];
  marshal_response = λ resp. returned [];
  marshal_nodes = λ nodes. returned [];
  format_time = λ t. [];
}

one : Library ℕ
one = (mesh_server_new host malloc new_library 0 []).0

abbrev calls : List Call
calls = creates 0 [] ∷ starts 0 1 ∷ starts 0 2 ∷ frees 1 ∷ []

freed_stays_invalid_example :
    let after = Handles.run host malloc (mesh_server_free host malloc one 1) calls in
    IsRefused after 3 1 (Handles.perform host malloc after (starts 3 1))
    × IsRefused after 3 1 (Handles.perform host malloc after (stops 3 1))
    × ((peer method payload : Str) (ms : ℕ)
        → IsRefused after 3 0
            (Handles.perform host malloc after (invokes 3 1 peer method payload ms)))
    × IsRefused after 3 0 (Handles.perform host malloc after (lists 3 1))
unfolding one mesh_server_new create_server add_handle new_library
freed_stays_invalid_example =
    freed_stays_invalid host malloc one 1 calls 3 (omega arith) (omega arith)
