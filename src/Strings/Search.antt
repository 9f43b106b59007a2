-- ===== src/Strings/Search.antt =====
-- What the searching functions of package strings decide, by the way a text is put together.
use mathlib.Core.List.{reverse, reverse-append, reverse-reverse, reverse-cons}
use grpc_mesh_server.Prelude.{
  ℕ, ◌≡◌, refl, sym, ap, ◌∙◌, Bool, true, false, ◌||◌, [], ◌∷◌, ◌++◌, arith, ◌==◌, length-append,
  take, take_append, drop_append, any, Str, Bool-cases, inl, inr,
}
use grpc_mesh_server.Strings.{
  has_prefix, has_suffix, contains, trim, trim_left, trim_prefix, trim_suffix,
}

pub has_prefix-split : (s p : Str) → has_prefix s p ≡ true → (rest : Str) × (s ≡ p ++ rest)
unfolding has_prefix
has_prefix-split s [] h = (s, refl)
has_prefix-split [] (c ∷ p) h = cc
has_prefix-split (b ∷ s) (c ∷ p) h =
    let (rest, e) = has_prefix-split s p (ground arith) in (rest, ground (arith, e))

pub has_prefix-append : (p rest : Str) → has_prefix (p ++ rest) p ≡ true
unfolding has_prefix
has_prefix-append [] rest = refl
has_prefix-append (c ∷ p) rest = ground (arith, has_prefix-append p rest)

pub has_suffix-split : (s p : Str) → has_suffix s p ≡ true → (first : Str) × (s ≡ first ++ p)
unfolding has_suffix
has_suffix-split s p h =
    let (rest, e) = has_prefix-split (reverse s) (reverse p) h in
    (
      reverse rest,
      sym (reverse-reverse s)
          ∙ ap reverse e
          ∙ reverse-append (reverse p) rest
          ∙ ap (◌++◌ (reverse rest)) (reverse-reverse p),
    )

pub has_suffix-append : (first p : Str) → has_suffix (first ++ p) p ≡ true
unfolding has_suffix
has_suffix-append first p =
    rw (reverse-append first p) (has_prefix-append (reverse p) (reverse first))

pub contains-split : (s p : Str) → contains s p ≡ true → (a : Str) × (b : Str) × (s ≡ a ++ (p ++ b))
unfolding contains
contains-split [] [] h = ([], [], refl)
contains-split [] (c ∷ p) h = cc
contains-split (x ∷ s) p h = elim (Bool-cases (has_prefix (x ∷ s) p)) [
  | inl t ↦ (let (rest, e) = has_prefix-split (x ∷ s) p t in ([], rest, e))
  | inr f ↦ (let (a, b, e) = contains-split s p (ground arith) in (x ∷ a, b, ap (◌∷◌ x) e))
]

pub contains-append : (a p b : Str) → contains (a ++ (p ++ b)) p ≡ true
unfolding contains
contains-append [] [] [] = refl
contains-append [] [] (x ∷ b) = ground (arith, has_prefix-append [] (x ∷ b))
contains-append [] (c ∷ p) b = ground (arith, has_prefix-append (c ∷ p) b)
contains-append (x ∷ a) p b = ground (arith, contains-append a p b)

-- The byte `c` occurs.
abbrev pub occurs : ℕ → Str → Bool
occurs c = any λ b. b == c

pub contains_byte : (c : ℕ) (s : Str) → contains s (c ∷ []) ≡ occurs c s
unfolding contains has_prefix
contains_byte c [] = refl
contains_byte c (b ∷ s) = ground (arith, contains_byte c s)

pub occurs-append : (c : ℕ) (s t : Str) → occurs c (s ++ t) ≡ (occurs c s || occurs c t)
occurs-append c [] t = refl
occurs-append c (b ∷ s) t = ground (arith, occurs-append c s t)

pub occurs-reverse : (c : ℕ) (s : Str) → occurs c (reverse s) ≡ occurs c s
occurs-reverse c [] = refl
occurs-reverse c (b ∷ s) =
    rw (reverse-cons b s) (ground (arith, occurs-append c (reverse s) (b ∷ []), occurs-reverse c s))

trim_left_free : (c : ℕ) (s : Str) → occurs c s ≡ false → trim_left c s ≡ s
unfolding trim_left
trim_left_free c [] h = refl
trim_left_free c (b ∷ s) h = ground arith

trim_right_free :
    (c : ℕ) (t : Str) → occurs c t ≡ false → reverse (trim_left c (reverse (t ++ c ∷ []))) ≡ t
unfolding trim_left
trim_right_free c t h =
    rw (reverse-append t (c ∷ []))
      (ground (arith, trim_left_free c (reverse t), occurs-reverse c t, reverse-reverse t))

trim_left_stays : (c b : ℕ) (s : Str) → (b == c) ≡ false → trim_left c (b ∷ s) ≡ b ∷ s
unfolding trim_left
trim_left_stays c b s h = ground arith

trim_left_before :
    (c : ℕ) (s : Str)
    → occurs c s ≡ false
    → reverse (trim_left c (reverse (trim_left c (s ++ c ∷ [])))) ≡ s
trim_left_before c [] h = unfold trim_left in ground arith
trim_left_before c (b ∷ s) h =
    rw (trim_left_stays c b (s ++ c ∷ []) (ground arith)) (trim_right_free c (b ∷ s) h)

-- A text without the byte `c`, between two of them, is what `trim` leaves.
pub trim_wrapped : (c : ℕ) (s : Str) → occurs c s ≡ false → trim c (c ∷ (s ++ c ∷ [])) ≡ s
unfolding trim trim_left
trim_wrapped c s h = ground (arith, trim_left_before c s h)

pub trim_prefix_lem : (p s : Str) → trim_prefix (p ++ s) p ≡ s
unfolding trim_prefix
trim_prefix_lem p s = rw (has_prefix-append p s) (drop_append p s)

pub trim_suffix_lem : (s p : Str) → trim_suffix (s ++ p) p ≡ s
unfolding trim_suffix
trim_suffix_lem s p =
    rw (has_suffix-append s p)
      (ap (λ n. take n (s ++ p)) (omega (arith, length-append s p)) ∙ take_append s p)
