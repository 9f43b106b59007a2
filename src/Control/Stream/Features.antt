-- ===== src/Control/Stream/Features.antt =====
-- `normalizeFeatures` and `toSet` as sets.
use grpc_mesh_server.Prelude.{
  ◌≡◌, Bool, true, false, not, ◌&&◌, ◌||◌, List, [], ◌∷◌, arith, any, Str, str_eq, str_eq_iff,
  str_eq_instance, if◌then◌else◌,
}
use grpc_mesh_server.Map.{Map, has, insert, lookup, lookup-insert}
use grpc_mesh_server.Control.Stream.{normalize_features, normalize_from, to_set, set_from}

abbrev pub contains : Str → List Str → Bool
contains f = any (λ g. str_eq g f)

-- No entry occurs again later.
abbrev pub IsDistinct : List Str → Type 0
IsDistinct [] = Unit
IsDistinct (f ∷ fs) = (contains f fs ≡ false) × IsDistinct fs

has-insert :
    (f g : Str) (b : Bool) (seen : Map Str Bool)
    → has g (insert f b seen) ≡ (str_eq f g || has g seen)
unfolding has
has-insert f g b seen = ground (arith, lookup-insert f g b seen)

contains-normalize_from :
    (g : Str) (seen : Map Str Bool) (fs : List Str)
    → contains g (normalize_from seen fs) ≡ (not (has g seen) && contains g fs)
unfolding normalize_from
contains-normalize_from g seen [] = ground arith
contains-normalize_from g seen (f ∷ fs) =
    let seen' = if has f seen then seen else insert f true seen in
    ground (arith, contains-normalize_from g seen' fs, has-insert f g true seen, str_eq_iff f g)

normalize_from-IsDistinct :
    (seen : Map Str Bool) (fs : List Str) → IsDistinct (normalize_from seen fs)
unfolding normalize_from
normalize_from-IsDistinct seen [] = tt
normalize_from-IsDistinct seen (f ∷ fs) =
    let seen' = if has f seen then seen else insert f true seen in
    ground (
      arith,
      normalize_from-IsDistinct seen' fs,
      contains-normalize_from f seen' fs,
      has-insert f f true seen,
      str_eq_iff f f,
    )

-- The normal form of a feature list has no feature twice and contains the same features.
pub normalize_features_set :
    (fs : List Str)
    → IsDistinct (normalize_features fs)
      × ((f : Str) → contains f (normalize_features fs) ≡ contains f fs)
unfolding normalize_features has lookup
normalize_features_set fs =
    (normalize_from-IsDistinct [] fs, λ f. ground (arith, contains-normalize_from f [] fs))

has-set_from :
    (f : Str) (acc : Map Str Bool) (items : List Str)
    → has f (set_from acc items) ≡ (has f acc || contains f items)
unfolding set_from
has-set_from f acc [] = ground arith
has-set_from f acc (item ∷ items) =
    ground (arith, has-set_from f (insert item true acc) items, has-insert item f true acc)

-- The set of a list holds exactly its items.
pub to_set_members : (f : Str) (items : List Str) → has f (to_set items) ≡ contains f items
unfolding to_set has lookup
to_set_members f items = ground (arith, has-set_from f [] items)
