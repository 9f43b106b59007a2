-- ===== src/Registry/Methods/Examples.antt =====
-- A registry in which one peer updates its methods and another leaves.
use grpc_mesh_server.Prelude.{◌≡◌, refl, List, [], ◌∷◌, Str, codes, str_eq}
use grpc_mesh_server.Map.{lookup, insert}
use grpc_mesh_server.Strings.{contains, has_suffix, trim_suffix}
use grpc_mesh_server.Registry.Methods.{
  MethodDescriptor, new_method_registry, find_peers_with_method, includes, get_method, find_methods,
  get_catalog, update_methods, add_all, add_to_index, cleared, remove_all, remove_from_index,
  match_pattern,
}
use grpc_mesh_server.Registry.Methods.Index.{Change, update, leave, run, is_some, find_peers_exact}

abbrev method : Str → MethodDescriptor
method n = record { name = n; rest = 0 }

abbrev changes : List Change
changes =
    update (codes "a") (method (codes "x") ∷ method (codes "y") ∷ []) 5
    ∷ update (codes "b") (method (codes "x") ∷ []) 6
    ∷ update (codes "a") (method (codes "x") ∷ []) 7
    ∷ []

x_peers :
    find_peers_with_method (run changes new_method_registry) (codes "x")
    ≡ codes "b" ∷ codes "a" ∷ []
unfolding find_peers_with_method lookup run update_methods add_all add_to_index cleared insert
    str_eq remove_all remove_from_index new_method_registry
x_peers = refl

y_peers : find_peers_with_method (run changes new_method_registry) (codes "y") ≡ []
unfolding find_peers_with_method lookup run update_methods add_all add_to_index cleared insert
    str_eq remove_all remove_from_index new_method_registry
y_peers = refl

x_found :
    find_methods (run changes new_method_registry) (codes "x*")
    ≡ get_catalog (run changes new_method_registry)
unfolding get_catalog find_methods run update_methods insert match_pattern str_eq contains
    has_suffix trim_suffix new_method_registry
x_found = refl

find_peers_exact_example :
    includes
      (codes "b")
      (find_peers_with_method (run (leave (codes "b") ∷ changes) new_method_registry) (codes "x"))
    ≡ is_some
        (get_method (run (leave (codes "b") ∷ changes) new_method_registry) (codes "b") (codes "x"))
find_peers_exact_example = find_peers_exact (leave (codes "b") ∷ changes) (codes "b") (codes "x")
