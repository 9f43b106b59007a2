-- ===== src/Server/Acl/Priorities.antt =====
-- Which rule decides.
use grpc_mesh_server.Prelude.{
  ◌≡◌, refl, ap, ◌⊎◌, inl, inr, true, false, ◌&&◌, List, [], ◌∷◌, ◌++◌, Option, none, some, arith,
  Str, ℤ, pos, negsuc, ltb_ℤ, ◌<ℤ◌, ◌≤ℤ◌, All, Bool-cases,
}
use grpc_mesh_server.Server.Acl.{allow, AclRule, static_acl, matches, best_match, match_rule, check}

-- The rules that match stay below a priority, strictly or not.
abbrev pub Under : Str → Str → ℤ → List AclRule → Type 0
Under peer method p = All λ q. matches peer method q ≡ true → q.priority <ℤ p

abbrev pub UpTo : Str → Str → ℤ → List AclRule → Type 0
UpTo peer method p = All λ q. matches peer method q ≡ true → q.priority ≤ℤ p

-- `rule` is the first of the rules of the highest priority among those that match, and this
-- priority is not negative.
pub record IsBest (peer method : Str) (rules : List AclRule) (rule : AclRule) : Type 0 where
  pub before : List AclRule
  pub after : List AclRule
  pub place : rules ≡ before ++ rule ∷ after
  pub fits : matches peer method rule ≡ true
  pub nonnegative : pos 0 ≤ℤ rule.priority
  pub first : Under peer method rule.priority before
  pub highest : UpTo peer method rule.priority after

module _ (peer method : Str) where
  -- What the loop returns, when it starts with the rule `best` of priority `p` from before.
  abbrev Outcome : Option AclRule → ℤ → List AclRule → Option AclRule → Type 0
  Outcome best p rules result =
      ((result ≡ best) × UpTo peer method p rules)
      ⊎ ((before : List AclRule) × (rule : AclRule) × (after : List AclRule) × (result ≡ some rule)
          × (rules ≡ before ++ rule ∷ after)
          × (matches peer method rule ≡ true)
          × (p <ℤ rule.priority)
          × Under peer method rule.priority before
          × UpTo peer method rule.priority after)

  -- One round, from what the rest of the loop returns.
  taken :
      (best : Option AclRule) (p : ℤ) (rule : AclRule) (rules : List AclRule)
      (result : Option AclRule)
      → (matches peer method rule && ltb_ℤ p rule.priority) ≡ true
      → Outcome (some rule) rule.priority rules result
      → Outcome best p (rule ∷ rules) result
  taken best p rule rules result t (inl (e, up)) =
      inr ([], rule, rules, e, refl, ground arith, ground arith, tt, up)
  taken best p rule rules result t (inr (b, r, a, e, place, f, lt, un, up)) =
      inr (rule ∷ b, r, a, e, ap (◌∷◌ rule) place, f, ground arith, ((λ m. lt), un), up)

  skipped :
      (best : Option AclRule) (p : ℤ) (rule : AclRule) (rules : List AclRule)
      (result : Option AclRule)
      → (matches peer method rule && ltb_ℤ p rule.priority) ≡ false
      → Outcome best p rules result
      → Outcome best p (rule ∷ rules) result
  skipped best p rule rules result t (inl (e, up)) = inl (e, ((λ m. ground arith), up))
  skipped best p rule rules result t (inr (b, r, a, e, place, f, lt, un, up)) =
      inr (rule ∷ b, r, a, e, ap (◌∷◌ rule) place, f, lt, ((λ m. ground arith), un), up)

  best_match-Outcome :
      (best : Option AclRule) (p : ℤ) (rules : List AclRule)
      → Outcome best p rules (best_match peer method best p rules)
  unfolding best_match
  best_match-Outcome best p [] = inl (refl, tt)
  best_match-Outcome best p (rule ∷ rules) =
      elim (Bool-cases (matches peer method rule && ltb_ℤ p rule.priority)) [
        | inl t ↦
            rw t (taken best p rule rules _ t (best_match-Outcome (some rule) rule.priority rules))
        | inr t ↦ rw t (skipped best p rule rules _ t (best_match-Outcome best p rules))
      ]

  -- A static policy decides by the first rule of the highest priority among those that match with a
  -- priority that is not negative; if no rule returns, every rule that matches has a negative one.
  pub match_rule-IsBest :
      (rules : List AclRule)
      → ((match_rule (static_acl rules) peer method ≡ none) × Under peer method (pos 0) rules)
        ⊎ ((rule : AclRule) × (match_rule (static_acl rules) peer method ≡ some rule)
            × IsBest peer method rules rule)
  unfolding match_rule
  match_rule-IsBest rules = elim (best_match-Outcome none (negsuc 0) rules) [
    | inl (e, up) ↦ inl (e, below_zero rules up)
    | inr (b, r, a, e, place, f, lt, un, up) ↦ inr (
      r,
      e,
      record {
        before = b;
        after = a;
        place = place;
        fits = f;
        nonnegative = omega arith;
        first = un;
        highest = up;
      },
    )
  ]
    where
      below_zero :
          (rules : List AclRule)
          → UpTo peer method (negsuc 0) rules
          → Under peer method (pos 0) rules
      below_zero [] up = tt
      below_zero (rule ∷ rules) up = ((λ m. omega (arith, up.0 m)), below_zero rules up.1)

  -- Access is denied by default: a static policy allows a call only by a rule of its list that
  -- matches, is an allowing one, and has a priority that is not negative.
  pub check_allows :
      (rules : List AclRule)
      → check (static_acl rules) peer method ≡ true
      → (rule : AclRule) × (match_rule (static_acl rules) peer method ≡ some rule)
        × (rule.action ≡ allow)
        × IsBest peer method rules rule
  unfolding check
  check_allows rules c = elim (match_rule-IsBest rules) [
    | inl (e, un) ↦ absurd (ground arith)
    | inr (rule, e, best) ↦ (rule, e, allowing rule e, best)
  ]
    where
      allowing :
          (rule : AclRule)
          → match_rule (static_acl rules) peer method ≡ some rule
          → rule.action ≡ allow
      allowing rule e = ground arith
