-- ===== src/Control/Auth/Identity.antt =====
-- Who gets in: tokens bound to nodes, shared tokens, and the configuration behind them.
use grpc_mesh_server.Prelude.{
  ◌≡◌, refl, ◌↔◌, inl, inr, Bool, true, false, not, ◌&&◌, ◌||◌, List, [], ◌∷◌, Option, none, some,
  arith, if◌then◌else◌, any, Str, is_empty, str_eq, str_eq_iff, str_eq_instance, Option-cases,
}
use grpc_mesh_server.Map.{Map, lookup, insert, lookup-insert, has, IsMap}
use grpc_mesh_server.Control.Auth.{
  AuthPolicy, granted, new_auth_policy, no_entries, allowed, bound_to, authorize, authorize_node,
  identity_bound, add_tokens, bind_nodes,
}

bound_to_iff :
    (m : Map Str Str) (node token : Str)
    → (bound_to m node token ≡ true) ↔ (lookup node m ≡ some token)
unfolding bound_to
bound_to_iff m node token = elim (Option-cases (lookup node m)) [
  | inl e ↦ ground arith
  | inr (bound, e) ↦ ground (arith, str_eq_iff bound token)
]

-- With identities bound, a node is granted exactly if the token is not empty and is the one stored
-- for this node.
pub bound_grant :
    (p : AuthPolicy) (node token : Str)
    → identity_bound p ≡ true
    → (authorize_node p node token ≡ granted)
      ↔ ((is_empty token ≡ false) × (lookup node p.node_tokens ≡ some token))
unfolding identity_bound authorize_node
bound_grant p node token h = ground (arith, bound_to_iff p.node_tokens node token)

any_of_lookup :
    (m : Map Str Str) (node token : Str)
    → lookup node m ≡ some token
    → any (λ entry. str_eq (entry.1) token) m ≡ true
unfolding lookup
any_of_lookup [] node token h = cc
any_of_lookup ((j, t) ∷ m) node token h =
    ground (arith, any_of_lookup m node token, str_eq_iff t token)

-- `AuthorizeNode` is at least as strict as the deprecated `Authorize`: a token that is granted for
-- some node is granted without one.
pub node_grant_stricter :
    (p : AuthPolicy) (node token : Str)
    → authorize_node p node token ≡ granted
    → authorize p token ≡ granted
unfolding authorize authorize_node
node_grant_stricter p node token h =
    ground (arith, bound_to_iff p.node_tokens node token, any_of_lookup p.node_tokens node token)

abbrev bound_value : Str → Option Str → Option Str → Option Str
bound_value node none old = old
bound_value node (some t) old = if is_empty node || is_empty t then old else some t

lookup-bind_nodes :
    (k : Str) (acc m : Map Str Str)
    → IsMap m
    → lookup k (bind_nodes acc m) ≡ bound_value k (lookup k m) (lookup k acc)
unfolding bind_nodes lookup has
lookup-bind_nodes k acc [] h = refl
lookup-bind_nodes k acc ((j, t) ∷ m) h =
    let acc' = if is_empty j || is_empty t then acc else insert j t acc in
    ground (arith, lookup-bind_nodes k acc' m h.1, lookup-insert j k t acc, str_eq_iff j k)

allowed-add_tokens :
    (acc : Map Str Bool) (tokens : List Str) (t : Str)
    → allowed (add_tokens acc tokens) t
      ≡ (allowed acc t || (not (is_empty t) && any (λ u. str_eq u t) tokens))
unfolding add_tokens allowed
allowed-add_tokens acc [] t = ground arith
allowed-add_tokens acc (u ∷ tokens) t =
    let acc' = if is_empty u then acc else insert u true acc in
    ground (arith, allowed-add_tokens acc' tokens t, lookup-insert u t true acc, str_eq_iff u t)

-- A policy built with `enabled` and one token or more that binds a node grants a handshake exactly
-- if the configuration, read as a map, gives this very token to this node and neither is empty; the
-- shared tokens play no part.
pub configured_nodes :
    (tokens : List Str) (nodes : Map Str Str) (node token : Str)
    → IsMap nodes
    → identity_bound (new_auth_policy true tokens nodes) ≡ true
    → (authorize_node (new_auth_policy true tokens nodes) node token ≡ granted)
      ↔ ((is_empty node ≡ false) × (is_empty token ≡ false) × (lookup node nodes ≡ some token))
configured_nodes tokens nodes node token m h =
    let p = new_auth_policy true tokens nodes in
    let stored : lookup node p.node_tokens ≡ bound_value node (lookup node nodes) none =
      unfold new_auth_policy lookup in lookup-bind_nodes node [] nodes m in
    elim (Option-cases (lookup node nodes)) [
      | inl e ↦ ground (arith, bound_grant p node token h, stored)
      | inr (t, e) ↦ ground (arith, bound_grant p node token h, stored)
    ]

-- Without node tokens an enabled policy grants any node exactly the nonempty tokens of the list.
pub configured_shared :
    (tokens : List Str) (node token : Str)
    → no_entries (new_auth_policy true tokens []).allowed_tokens ≡ false
    → (authorize_node (new_auth_policy true tokens []) node token ≡ granted)
      ↔ ((is_empty token ≡ false) × (any (λ u. str_eq u token) tokens ≡ true))
unfolding new_auth_policy authorize_node bind_nodes allowed lookup
configured_shared tokens node token h =
    let a : allowed (add_tokens [] tokens) token
        ≡ (not (is_empty token) && any (λ u. str_eq u token) tokens) =
      allowed-add_tokens [] tokens token in
    ground (arith, a)
