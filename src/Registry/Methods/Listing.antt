-- ===== src/Registry/Methods/Listing.antt =====
-- pkg/registry/method_registry.go: the lists of the reverse index under addToIndex and removeFromIndex.
use grpc_mesh_server.Prelude.{
  ◌≡◌, refl, ◌≢◌, false, not, ◌&&◌, ◌||◌, List, [], ◌∷◌, ◌++◌, Option, none, some, arith,
  if◌then◌else◌, Str, str_eq, str_eq_iff, str_eq_instance,
}
use grpc_mesh_server.Map.{Map, lookup, insert, lookup-insert, lookup-delete}
use grpc_mesh_server.Registry.Methods.{peers_of, includes, add_to_index, without, remove_from_index}

unfoldable pub IsDistinct : List Str → Type 0
IsDistinct [] = Unit
IsDistinct (p ∷ peers) = (includes p peers ≡ false) × IsDistinct peers

includes-append :
    (q p : Str) (peers : List Str) → includes q (peers ++ p ∷ []) ≡ includes q peers || str_eq p q
unfolding includes
includes-append q p [] = ground arith
includes-append q p (x ∷ peers) = ground (arith, includes-append q p peers)

append-IsDistinct :
    (p : Str) (peers : List Str)
    → IsDistinct peers
    → includes p peers ≡ false
    → IsDistinct (peers ++ p ∷ [])
unfolding includes IsDistinct
append-IsDistinct p [] d h = ground arith
append-IsDistinct p (x ∷ peers) d h = ground (
  arith,
  append-IsDistinct p peers d.1,
  includes-append x p peers,
  str_eq_iff x p,
  str_eq_iff p x,
)

includes-without :
    (q p : Str) (peers : List Str)
    → IsDistinct peers
    → includes q (without p peers) ≡ includes q peers && not (str_eq p q)
unfolding includes IsDistinct without
includes-without q p [] d = ground arith
includes-without q p (x ∷ peers) d =
    ground (arith, includes-without q p peers d.1, str_eq_iff x p, str_eq_iff x q, str_eq_iff p q)

without-IsDistinct : (p : Str) (peers : List Str) → IsDistinct peers → IsDistinct (without p peers)
unfolding includes IsDistinct without
without-IsDistinct p [] d = tt
without-IsDistinct p (x ∷ peers) d =
    ground (arith, without-IsDistinct p peers d.1, includes-without x p peers d.1)

-- Every list of the index is non-empty and has no peer twice.
unfoldable pub IsIndex : Map Str (List Str) → Type 0
IsIndex index = (m : Str) → (lookup m index ≢ some []) × IsDistinct (peers_of index m)

add_to_index-peers :
    (index : Map Str (List Str)) (m p n : Str)
    → peers_of (add_to_index index m p) n ≡ (
        if str_eq m n && not (includes p (peers_of index m))
        then peers_of index m ++ p ∷ []
        else peers_of index n)
unfolding peers_of add_to_index
add_to_index-peers index m p n =
    ground (arith, lookup-insert m n (peers_of index m ++ p ∷ []) index, str_eq_iff m n)

pub add_to_index-serves :
    (index : Map Str (List Str)) (m p n q : Str)
    → includes q (peers_of (add_to_index index m p) n)
      ≡ includes q (peers_of index n) || (str_eq m n && str_eq p q)
add_to_index-serves index m p n q = ground (
  arith,
  add_to_index-peers index m p n,
  includes-append q p (peers_of index m),
  str_eq_iff m n,
  str_eq_iff p q,
)

append-ne : (peers : List Str) (p : Str) → (peers ++ p ∷ []) ≢ []
append-ne [] p = ground arith
append-ne (x ∷ peers) p = ground arith

pub add_to_index-IsIndex :
    (index : Map Str (List Str)) (m p : Str) → IsIndex index → IsIndex (add_to_index index m p)
unfolding add_to_index peers_of IsIndex
add_to_index-IsIndex index m p h n = ground (
  arith,
  h n,
  h m,
  lookup-insert m n (peers_of index m ++ p ∷ []) index,
  str_eq_iff m n,
  append-IsDistinct p (peers_of index m),
  append-ne (peers_of index m) p,
)

without-absent : (p : Str) (peers : List Str) → includes p peers ≡ false → without p peers ≡ peers
unfolding includes without
without-absent p [] h = refl
without-absent p (x ∷ peers) h = ground (arith, without-absent p peers)

unless_nil : List Str → Option (List Str)
unless_nil [] = none
unless_nil (p ∷ peers) = some (p ∷ peers)

peers_of-lookup :
    (index : Map Str (List Str)) (n : Str)
    → lookup n index ≢ some []
    → lookup n index ≡ unless_nil (peers_of index n)
unfolding peers_of unless_nil
peers_of-lookup index n h = ground (arith, h)

remove_from_index-lookup :
    (index : Map Str (List Str)) (m p n : Str)
    → lookup m index ≢ some []
    → lookup n (remove_from_index index m p)
      ≡ (if str_eq m n then unless_nil (without p (peers_of index m)) else lookup n index)
unfolding peers_of remove_from_index unless_nil
remove_from_index-lookup index m p n h = ground (
  arith,
  lookup-insert m n (without p (peers_of index m)) index,
  lookup-delete m n index,
  lookup-insert m m (without p (peers_of index m)) index,
  lookup-delete m n (insert m (without p (peers_of index m)) index),
  without-absent p (peers_of index m),
  peers_of-lookup index m h,
  str_eq_iff m n,
)

remove_from_index-peers :
    (index : Map Str (List Str)) (m p n : Str)
    → lookup m index ≢ some []
    → peers_of (remove_from_index index m p) n
      ≡ (if str_eq m n then without p (peers_of index m) else peers_of index n)
unfolding peers_of unless_nil
remove_from_index-peers index m p n h = ground (arith, remove_from_index-lookup index m p n h)

pub remove_from_index-serves :
    (index : Map Str (List Str)) (m p n q : Str)
    → IsIndex index
    → includes q (peers_of (remove_from_index index m p) n)
      ≡ includes q (peers_of index n) && not (str_eq m n && str_eq p q)
unfolding IsIndex
remove_from_index-serves index m p n q h = ground (
  arith,
  remove_from_index-peers index m p n (h m).0,
  includes-without q p (peers_of index m) (h m).1,
  str_eq_iff m n,
  str_eq_iff p q,
)

unless_nil-ne : (peers : List Str) → unless_nil peers ≢ some []
unfolding unless_nil
unless_nil-ne [] = ground arith
unless_nil-ne (p ∷ peers) = ground arith

pub remove_from_index-IsIndex :
    (index : Map Str (List Str)) (m p : Str) → IsIndex index → IsIndex (remove_from_index index m p)
unfolding IsIndex
remove_from_index-IsIndex index m p h n = ground (
  arith,
  h n,
  h m,
  remove_from_index-lookup index m p n (h m).0,
  remove_from_index-peers index m p n (h m).0,
  unless_nil-ne (without p (peers_of index m)),
  without-IsDistinct p (peers_of index m),
)
