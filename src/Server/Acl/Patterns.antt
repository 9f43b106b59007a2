-- ===== src/Server/Acl/Patterns.antt =====
-- What each form of pattern matches.
use mathlib.Core.List.{reverse-append, append_assoc}
use grpc_mesh_server.Prelude.{
  ℕ, ◌≡◌, sym, ◌∙◌, ◌↔◌, ◌≢◌, true, false, [], ◌∷◌, ◌++◌, arith, ◌==◌, Str, str_eq_iff,
}
use grpc_mesh_server.Strings.{has_prefix, has_suffix, contains}
use grpc_mesh_server.Strings.Search.{
  has_prefix-split, has_prefix-append, has_suffix-split, has_suffix-append, contains-split,
  contains-append, occurs, contains_byte, occurs-append, trim_wrapped, trim_prefix_lem,
  trim_suffix_lem,
}
use grpc_mesh_server.Server.Acl.{match_pattern, star}

-- A pattern without a star matches itself alone.
match_literal : (value p : Str) → occurs 42 p ≡ false → (match_pattern value p ≡ true) ↔ (value ≡ p)
unfolding match_pattern
match_literal value p h = ground (arith, contains_byte 42 p, str_eq_iff p star, str_eq_iff value p)

starts_star : (c : ℕ) (q : Str) → has_prefix (c ∷ q) star ≡ (c == 42)
unfolding has_prefix
starts_star c q = ground arith

ends_star : (c : ℕ) (q : Str) → has_suffix (q ++ c ∷ []) star ≡ (c == 42)
unfolding has_suffix has_prefix
ends_star c q = rw (reverse-append q (c ∷ [])) (ground arith)

has_star : (p q : Str) → contains (p ++ 42 ∷ q) star ≡ true
has_star p q = rw (contains_byte 42 (p ++ 42 ∷ q)) (ground (arith, occurs-append 42 p (42 ∷ q)))

append-ne-nil : (q : Str) (c : ℕ) → q ++ c ∷ [] ≢ []
append-ne-nil [] c = ground arith
append-ne-nil (b ∷ q) c = ground arith

-- `prefix*`, where the prefix does not begin with a star, matches the texts that begin with it.
match_prefix :
    (value : Str) (c : ℕ) (q : Str)
    → (c == 42) ≡ false
    → (match_pattern value (c ∷ q ++ star) ≡ true) ↔ ((rest : Str) × (value ≡ c ∷ q ++ rest))
unfolding match_pattern
match_prefix value c q h =
    let p = c ∷ q in
    let same : match_pattern value (p ++ star) ≡ has_prefix value p = ground (
      arith,
      str_eq_iff (p ++ star) star,
      has_star p [],
      starts_star c (q ++ star),
      ends_star 42 p,
      trim_suffix_lem p star,
    ) in
    (
      (λ m. has_prefix-split value p (sym same ∙ m)),
      (λ e. same ∙ rw (e.1) (has_prefix-append p e.0)),
    )

-- `*suffix`, where the suffix does not end with a star, matches the texts that end with it.
match_suffix :
    (value q : Str) (c : ℕ)
    → (c == 42) ≡ false
    → (match_pattern value (42 ∷ (q ++ c ∷ [])) ≡ true)
      ↔ ((first : Str) × (value ≡ first ++ (q ++ c ∷ [])))
unfolding match_pattern
match_suffix value q c h =
    let s = q ++ c ∷ [] in
    let same : match_pattern value (42 ∷ s) ≡ has_suffix value s = ground (
      arith,
      str_eq_iff (42 ∷ s) star,
      has_star [] s,
      starts_star 42 s,
      ends_star c (42 ∷ q),
      trim_prefix_lem star s,
      append-ne-nil q c,
    ) in
    (
      (λ m. has_suffix-split value s (sym same ∙ m)),
      (λ e. same ∙ rw (e.1) (has_suffix-append e.0 s)),
    )

-- `*middle*`, where there is no star in the middle, matches the texts that contain it.
match_middle :
    (value middle : Str)
    → occurs 42 middle ≡ false
    → (match_pattern value (42 ∷ (middle ++ star)) ≡ true)
      ↔ ((first : Str) × (last : Str) × (value ≡ first ++ (middle ++ last)))
unfolding match_pattern
match_middle value middle h =
    let same : match_pattern value (42 ∷ (middle ++ star)) ≡ contains value middle = ground (
      arith,
      str_eq_iff (42 ∷ (middle ++ star)) star,
      has_star [] (middle ++ star),
      starts_star 42 (middle ++ star),
      ends_star 42 (42 ∷ middle),
      trim_wrapped 42 middle h,
      append-ne-nil middle 42,
    ) in
    (
      (λ m. contains-split value middle (sym same ∙ m)),
      (λ e. same ∙ rw (e.2) (contains-append e.0 middle e.1)),
    )

-- A pattern with a star inside that neither begins nor ends with one matches nothing.
match_inner :
    (value : Str) (c : ℕ) (q r : Str) (d : ℕ)
    → (c == 42) ≡ false
    → (d == 42) ≡ false
    → match_pattern value (c ∷ q ++ (42 ∷ (r ++ d ∷ []))) ≡ false
unfolding match_pattern
match_inner value c q r d h k =
    let p = c ∷ q ++ (42 ∷ (r ++ d ∷ [])) in
    ground (
      arith,
      str_eq_iff p star,
      has_star (c ∷ q) (r ++ d ∷ []),
      starts_star c (q ++ (42 ∷ (r ++ d ∷ []))),
      ends_star d (c ∷ q ++ 42 ∷ r),
      append_assoc (c ∷ q) (42 ∷ r) (d ∷ []),
    )

-- The forms that a pattern can take: a text without a star; `prefix*`; `*suffix`; `*middle*`; and a
-- text with a star inside and none at its ends.
pub data Glob : Type 0 where
  literal : Str → Glob
  prefix : ℕ → Str → Glob
  suffix : Str → ℕ → Glob
  middle : Str → Glob
  inner : ℕ → Str → Str → ℕ → Glob

abbrev pub written : Glob → Str
written (literal p) = p
written (prefix c q) = c ∷ q ++ star
written (suffix q c) = 42 ∷ (q ++ c ∷ [])
written (middle p) = 42 ∷ (p ++ star)
written (inner c q r d) = c ∷ q ++ (42 ∷ (r ++ d ∷ []))

-- Where the stars are, and are not.
abbrev pub IsGlob : Glob → Type 0
IsGlob (literal p) = occurs 42 p ≡ false
IsGlob (prefix c q) = (c == 42) ≡ false
IsGlob (suffix q c) = (c == 42) ≡ false
IsGlob (middle p) = occurs 42 p ≡ false
IsGlob (inner c q r d) = ((c == 42) ≡ false) × ((d == 42) ≡ false)

abbrev pub Denotes : Glob → Str → Type 0
Denotes (literal p) value = value ≡ p
Denotes (prefix c q) value = (rest : Str) × (value ≡ c ∷ q ++ rest)
Denotes (suffix q c) value = (first : Str) × (value ≡ first ++ (q ++ c ∷ []))
Denotes (middle p) value = (first : Str) × (last : Str) × (value ≡ first ++ (p ++ last))
Denotes (inner c q r d) value = ⊥

-- A pattern of each form matches exactly the texts of this form: the text itself, those that begin
-- with the prefix, end with the suffix, contain the middle; and none for a star inside.
pub match_glob :
    (value : Str) (g : Glob) → IsGlob g → (match_pattern value (written g) ≡ true) ↔ Denotes g value
match_glob value (literal p) h = match_literal value p h
match_glob value (prefix c q) h = match_prefix value c q h
match_glob value (suffix q c) h = match_suffix value q c h
match_glob value (middle p) h = match_middle value p h
match_glob value (inner c q r d) h =
    ((λ m. let n = match_inner value c q r d h.0 h.1 in cc), (λ e. absurd e))
