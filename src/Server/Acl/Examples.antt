-- ===== src/Server/Acl/Examples.antt =====
-- Patterns and policies at concrete texts.
use grpc_mesh_server.Prelude.{
  ◌≡◌, refl, ◌↔◌, ◌⊎◌, true, false, List, [], ◌∷◌, none, some, codes, str_eq, pos, negsuc,
}
use grpc_mesh_server.Strings.{has_prefix, has_suffix, contains, trim_prefix, trim_suffix}
use grpc_mesh_server.Server.Acl.{
  allow, deny, AclRule, static_acl, star, match_pattern, matches, match_rule, check,
}
use grpc_mesh_server.Server.Acl.Patterns.{prefix, written, Denotes, match_glob}
use grpc_mesh_server.Server.Acl.Priorities.{Under, IsBest, match_rule-IsBest}

abbrev rules : List AclRule
rules =
    record { peer_pattern = star; method_pattern = star; action = deny; priority = negsuc 0 }
    ∷ record {
      peer_pattern = codes "node-*";
      method_pattern = star;
      action = allow;
      priority = pos 1;
    }
    ∷ record {
      peer_pattern = star;
      method_pattern = codes "*.Admin";
      action = deny;
      priority = pos 5;
    }
    ∷ []

allowed : check (static_acl rules) (codes "node-1") (codes "calc.Add") ≡ true
unfolding check matches match_pattern has_prefix has_suffix contains trim_prefix trim_suffix str_eq
allowed = refl

denied : check (static_acl rules) (codes "node-1") (codes "calc.Admin") ≡ false
unfolding check matches match_pattern has_prefix has_suffix contains trim_prefix trim_suffix str_eq
denied = refl

inner_star : match_pattern (codes "ab") (codes "a*b") ≡ false
unfolding match_pattern has_prefix has_suffix contains str_eq
inner_star = refl

match_glob_example :
    (match_pattern (codes "node-1") (written (prefix 110 (codes "ode-"))) ≡ true)
    ↔ Denotes (prefix 110 (codes "ode-")) (codes "node-1")
match_glob_example = match_glob (codes "node-1") (prefix 110 (codes "ode-")) refl

match_rule-IsBest_example :
    ((match_rule (static_acl rules) (codes "x") (codes "m") ≡ none)
      × Under (codes "x") (codes "m") (pos 0) rules)
    ⊎ ((rule : AclRule) × (match_rule (static_acl rules) (codes "x") (codes "m") ≡ some rule)
        × IsBest (codes "x") (codes "m") rules rule)
match_rule-IsBest_example = match_rule-IsBest (codes "x") (codes "m") rules
