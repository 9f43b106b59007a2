-- ===== src/Strings.antt =====
-- The functions of Go's package strings that the program calls, over byte strings.
pub mod Search
pub mod Spaces
use mathlib.Core.List.{reverse}
use grpc_mesh_server.Prelude.{
  ℕ, ◌-◌, Bool, true, false, ◌&&◌, ◌||◌, List, [], ◌∷◌, ◌++◌, if◌then◌else◌, ◌==◌, length, take,
  drop, Str, is_empty, ltb,
}

unfoldable pub has_prefix : Str → Str → Bool
has_prefix s [] = true
has_prefix [] (c ∷ prefix) = false
has_prefix (b ∷ s) (c ∷ prefix) = (b == c) && has_prefix s prefix

unfoldable pub has_suffix : Str → Str → Bool
unfolding has_prefix
has_suffix s suffix = has_prefix (reverse s) (reverse suffix)

unfoldable pub contains : Str → Str → Bool
unfolding has_prefix
contains [] sub = is_empty sub
contains (b ∷ s) sub = has_prefix (b ∷ s) sub || contains s sub

trim_left : ℕ → Str → Str
trim_left c [] = []
trim_left c (b ∷ s) = let rest = trim_left c s in if b == c then rest else b ∷ s

-- `strings.Trim(s, cutset)` for a cutset of one byte.
unfoldable pub trim : ℕ → Str → Str
unfolding trim_left
trim c s = reverse (trim_left c (reverse (trim_left c s)))

unfoldable pub trim_prefix : Str → Str → Str
unfolding has_prefix
trim_prefix s prefix = if has_prefix s prefix then drop (length prefix) s else s

unfoldable pub trim_suffix : Str → Str → Str
unfolding has_suffix
trim_suffix s suffix = if has_suffix s suffix then take (length s - length suffix) s else s

-- `strings.Split` at one byte.
unfoldable pub split_from : ℕ → Str → Str → List Str
split_from c part [] = reverse part ∷ []
split_from c part (b ∷ s) =
    let here = reverse part ∷ split_from c [] s in
    let on = split_from c (b ∷ part) s in if b == c then here else on

unfoldable pub split : ℕ → Str → List Str
unfolding split_from
split c s = split_from c [] s

-- The ASCII white space: tab, newline, vertical tab, form feed, carriage return, space.
abbrev pub is_space : ℕ → Bool
is_space b = (ltb 8 b && ltb b 14) || b == 32

unfoldable pub drop_space : Str → Str
drop_space [] = []
drop_space (b ∷ s) = let rest = drop_space s in if is_space b then rest else b ∷ s

-- `strings.TrimSpace` on ASCII text.
unfoldable pub trim_space : Str → Str
unfolding drop_space
trim_space s = reverse (drop_space (reverse (drop_space s)))
