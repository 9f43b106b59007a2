-- ===== src/Strings/Spaces.antt =====
-- What TrimSpace and Split of package strings make of texts that are put together.
use mathlib.Core.List.{
  reverse, reverse-append, reverse-reverse, reverse-cons, append-nil, append_assoc,
}
use grpc_mesh_server.Prelude.{
  ℕ, ◌≡◌, refl, sym, ap, ◌∙◌, Bool, true, false, [], ◌∷◌, ◌++◌, arith, Str, not,
}
use grpc_mesh_server.Strings.{is_space, drop_space, trim_space, split_from}
use grpc_mesh_server.Strings.Search.{occurs}

unfoldable pub IsBlank : Str → Type 0
IsBlank [] = Unit
IsBlank (b ∷ s) = (is_space b ≡ true) × IsBlank s

-- Not empty, and no space in front.
abbrev pub begins : Str → Bool
begins [] = false
begins (b ∷ s) = not (is_space b)

-- A word is not empty, and neither begins nor ends with a space.
unfoldable pub IsWord : Str → Type 0
IsWord s = (begins s ≡ true) × (begins (reverse s) ≡ true)

drop_space-blank : (a s : Str) → IsBlank a → drop_space (a ++ s) ≡ drop_space s
unfolding drop_space IsBlank
drop_space-blank [] s h = refl
drop_space-blank (b ∷ a) s h = ground (arith, drop_space-blank a s h.1)

drop_space-begins : (s b : Str) → begins s ≡ true → drop_space (s ++ b) ≡ s ++ b
unfolding drop_space
drop_space-begins [] b h = absurd (ground arith)
drop_space-begins (x ∷ s) b h = ground arith

IsBlank-append : (s t : Str) → IsBlank s → IsBlank t → IsBlank (s ++ t)
unfolding IsBlank
IsBlank-append [] t h k = k
IsBlank-append (b ∷ s) t h k = (h.0, IsBlank-append s t h.1 k)

IsBlank-reverse : (s : Str) → IsBlank s → IsBlank (reverse s)
unfolding IsBlank
IsBlank-reverse [] h = tt
IsBlank-reverse (b ∷ s) h =
    rw (reverse-cons b s) (IsBlank-append (reverse s) (b ∷ []) (IsBlank-reverse s h.1) (h.0, tt))

-- `TrimSpace` takes the blanks around a word.
pub trim_space-word :
    (a s b : Str) → IsBlank a → IsWord s → IsBlank b → trim_space (a ++ (s ++ b)) ≡ s
unfolding trim_space IsWord
trim_space-word a s b p w q = rw (drop_space-blank a (s ++ b) p) (
    rw (drop_space-begins s b w.0) (
      rw (reverse-append s b) (
        rw (drop_space-blank (reverse b) (reverse s) (IsBlank-reverse b q)) (
          ap (λ t. reverse (drop_space t)) (sym (append-nil (reverse s)))
          ∙ ap reverse (drop_space-begins (reverse s) [] w.1 ∙ append-nil (reverse s))
          ∙ reverse-reverse s))))

reverse-shift : (part s : Str) (b : ℕ) → reverse (b ∷ part) ++ s ≡ reverse part ++ (b ∷ s)
reverse-shift part s b = rw (reverse-cons b part) (append_assoc (reverse part) (b ∷ []) s)

pub split-append :
    (c : ℕ) (part s rest : Str)
    → occurs c s ≡ false
    → split_from c part (s ++ c ∷ rest) ≡ (reverse part ++ s) ∷ split_from c [] rest
unfolding split_from
split-append c part [] rest h = ground (arith, append-nil (reverse part))
split-append c part (b ∷ s) rest h =
    ground (arith, split-append c (b ∷ part) s rest, reverse-shift part s b)

pub split-free :
    (c : ℕ) (part s : Str) → occurs c s ≡ false → split_from c part s ≡ (reverse part ++ s) ∷ []
unfolding split_from
split-free c part [] h = ground (arith, append-nil (reverse part))
split-free c part (b ∷ s) h = ground (arith, split-free c (b ∷ part) s, reverse-shift part s b)
