-- ===== src/Control/Auth.antt =====
-- pkg/control/auth.go.
pub mod Identity
mod Examples
use grpc_mesh_server.Prelude.{
  Bool, true, false, not, ◌&&◌, ◌||◌, List, [], ◌∷◌, Option, none, some, if◌then◌else◌, any, Str,
  is_empty, str_eq, str_eq_instance,
}
use grpc_mesh_server.Map.{Map, lookup, insert, has}

pub data AuthError : Type 0 where
  no_tokens_configured token_required invalid_token : AuthError
  node_not_authorized : Str → AuthError

-- `error`: nil, or why not.
pub data Verdict : Type 0 where
  granted : Verdict
  refused : AuthError → Verdict

pub record AuthPolicy : Type 0 where
  pub enabled : Bool
  pub allowed_tokens : Map Str Bool
  pub node_tokens : Map Str Str

add_tokens : Map Str Bool → List Str → Map Str Bool
add_tokens m [] = m
add_tokens m (token ∷ tokens) =
    add_tokens (if is_empty token then m else insert token true m) tokens

bind_nodes : Map Str Str → Map Str Str → Map Str Str
bind_nodes m [] = m
bind_nodes m ((node, token) ∷ rest) =
    bind_nodes (if is_empty node || is_empty token then m else insert node token m) rest

unfoldable pub new_auth_policy : Bool → List Str → Map Str Str → AuthPolicy
unfolding add_tokens bind_nodes
new_auth_policy enabled tokens node_tokens = record {
  enabled = enabled;
  allowed_tokens = add_tokens [] tokens;
  node_tokens = bind_nodes [] node_tokens;
}

-- `len(m) == 0`.
abbrev pub no_entries : {V : Type 0} → Map Str V → Bool
no_entries [] = true
no_entries (entry ∷ m) = false

-- `p.allowedTokens[token]`, with the zero value for a missing key.
allowed : Map Str Bool → Str → Bool
unfolding lookup
allowed m token = elim (lookup token m) [ none ↦ false | some b ↦ b ]

unfoldable pub authorize : AuthPolicy → Str → Verdict
unfolding allowed
authorize p token =
    if not p.enabled
    then granted
    else if no_entries p.allowed_tokens && no_entries p.node_tokens
    then refused no_tokens_configured
    else if is_empty token
    then refused token_required
    else if allowed p.allowed_tokens token
    then granted
    else if any (λ entry. str_eq (entry.1) token) p.node_tokens
    then granted
    else refused invalid_token

-- The lookup `bound, known := p.nodeTokens[nodeID]` and its test.
bound_to : Map Str Str → Str → Str → Bool
unfolding lookup
bound_to m node token = elim (lookup node m) [ none ↦ false | some bound ↦ str_eq bound token ]

unfoldable pub authorize_node : AuthPolicy → Str → Str → Verdict
unfolding allowed bound_to
authorize_node p node token =
    if not p.enabled
    then granted
    else if is_empty token
    then refused token_required
    else if not (no_entries p.node_tokens)
    then (if bound_to p.node_tokens node token then granted else refused (node_not_authorized node))
    else if no_entries p.allowed_tokens
    then refused no_tokens_configured
    else if allowed p.allowed_tokens token
    then granted
    else refused invalid_token

unfoldable pub identity_bound : AuthPolicy → Bool
identity_bound p = p.enabled && not (no_entries p.node_tokens)
