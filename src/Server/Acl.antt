-- ===== src/Server/Acl.antt =====
-- pkg/server/acl.go. The interface `ACLPolicy` is a data type with a constructor for each of its
-- implementations.
pub mod Patterns
pub mod Priorities
mod Examples
use grpc_mesh_server.Prelude.{
  Bool, true, false, not, ◌&&◌, List, [], ◌∷◌, Option, none, some, if◌then◌else◌, Str, codes,
  str_eq, ℤ, pos, negsuc, ltb_ℤ,
}
use grpc_mesh_server.Strings.{has_prefix, has_suffix, contains, trim, trim_prefix, trim_suffix}

pub data Action : Type 0 where
  deny allow : Action

pub record AclRule : Type 0 where
  pub peer_pattern : Str
  pub method_pattern : Str
  pub action : Action
  pub priority : ℤ

abbrev pub star : Str
star = 42 ∷ []

unfoldable pub match_pattern : Str → Str → Bool
match_pattern value pattern' =
    if str_eq pattern' star
    then true
    else if not (contains pattern' star)
    then str_eq value pattern'
    else if has_prefix pattern' star && has_suffix pattern' star
    then contains value (trim 42 pattern')
    else if has_prefix pattern' star
    then has_suffix value (trim_prefix pattern' star)
    else if has_suffix pattern' star
    then has_prefix value (trim_suffix pattern' star)
    else false

pub matches : Str → Str → AclRule → Bool
matches peer method rule =
    match_pattern peer rule.peer_pattern && match_pattern method rule.method_pattern

-- The loop of `Match`, over `bestMatch` and `bestPriority`.
best_match : Str → Str → Option AclRule → ℤ → List AclRule → Option AclRule
best_match peer method best priority [] = best
best_match peer method best priority (rule ∷ rules) =
    let better = matches peer method rule && ltb_ℤ priority rule.priority in
    best_match peer method (if better then some rule else best)
      (if better then rule.priority else priority) rules

pub data AclPolicy : Type 0 where
  static_acl : List AclRule → AclPolicy
  permissive_acl restrictive_acl : AclPolicy

pub new_static_acl : List AclRule → AclPolicy
new_static_acl rules = static_acl rules

-- `UpdateRules`, a method of `StaticACL` alone.
pub update_rules : AclPolicy → List AclRule → AclPolicy
update_rules (static_acl old) rules = static_acl rules
update_rules p rules = p

abbrev any_rule : Action → AclRule
any_rule a = record { peer_pattern = star; method_pattern = star; action = a; priority = pos 0 }

unfoldable pub match_rule : AclPolicy → Str → Str → Option AclRule
unfolding best_match
match_rule (static_acl rules) peer method = best_match peer method none (negsuc 0) rules
match_rule permissive_acl peer method = some (any_rule allow)
match_rule restrictive_acl peer method = some (any_rule deny)

is_allow : Action → Bool
is_allow deny = false
is_allow allow = true

unfoldable pub check : AclPolicy → Str → Str → Bool
unfolding match_rule is_allow
check (static_acl rules) peer method = elim (match_rule (static_acl rules) peer method) [
  | none ↦ false
  | some rule ↦ is_allow rule.action
]
check permissive_acl peer method = true
check restrictive_acl peer method = false
