-- ===== src/Control/Auth/Examples.antt =====
-- Policies with two nodes, and with shared tokens.
use grpc_mesh_server.Prelude.{
  ◌≡◌, refl, ◌↔◌, true, false, [], ◌∷◌, some, Str, codes, is_empty, str_eq, str_eq_instance,
}
use grpc_mesh_server.Map.{Map, lookup, has, insert}
use grpc_mesh_server.Control.Auth.{
  AuthPolicy, granted, refused, node_not_authorized, new_auth_policy, authorize_node,
  identity_bound,
}
use grpc_mesh_server.Control.Auth.Identity.{configured_nodes}

abbrev nodes : Map Str Str
nodes = (codes "a", codes "t1") ∷ (codes "b", codes "t2") ∷ []

abbrev policy : AuthPolicy
policy = new_auth_policy true (codes "shared" ∷ []) nodes

not_the_others :
    authorize_node policy (codes "a") (codes "t2") ≡ refused (node_not_authorized (codes "a"))
unfolding authorize_node new_auth_policy insert lookup str_eq
not_the_others = refl

configured_nodes_example : (authorize_node policy (codes "b") (codes "t2") ≡ granted) ↔ (
    (is_empty (codes "b") ≡ false)
    × (is_empty (codes "t2") ≡ false)
    × (lookup (codes "b") nodes ≡ some (codes "t2")))
unfolding identity_bound new_auth_policy insert has lookup str_eq
configured_nodes_example =
    configured_nodes (codes "shared" ∷ []) nodes (codes "b") (codes "t2") (refl, (refl, tt)) refl
