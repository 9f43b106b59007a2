-- ===== src/Registry/Methods.antt =====
-- pkg/registry/method_registry.go. A `*rpc.MethodDescriptor` is a name with a number for its other
-- fields. Maps that the code copies are the same values here.
pub mod Listing
pub mod Catalogs
pub mod Index
mod Examples
use grpc_mesh_server.Prelude.{
  ℕ, ◌+◌, Bool, true, false, not, ◌/◌, ◌&&◌, List, [], ◌∷◌, ◌++◌, Option, none, some, ltb, length,
  any, keep, if◌then◌else◌, Str, str_eq, str_eq_instance, map,
}
use grpc_mesh_server.Map.{Map, lookup, insert, delete}
use grpc_mesh_server.Strings.{has_prefix, has_suffix, contains, trim, trim_prefix, trim_suffix}

pub record MethodDescriptor : Type 0 where
  pub name : Str
  pub rest : ℕ

pub record PeerMethodCatalog : Type 0 where
  pub peer_id : Str
  pub methods : List MethodDescriptor
  pub version : ℕ
  pub updated_at : ℕ

pub record MethodRegistry : Type 0 where
  pub peer_methods : Map Str PeerMethodCatalog
  pub method_peers : Map Str (List Str)

unfoldable pub new_method_registry : MethodRegistry
new_method_registry = record { peer_methods = []; method_peers = [] }

-- `mr.methodPeers[methodName]`, with the zero value for a missing key.
unfoldable pub peers_of : Map Str (List Str) → Str → List Str
peers_of index method = elim (lookup method index) [ none ↦ [] | some peers ↦ peers ]

-- The loop that looks a peer up in a list of peers.
unfoldable pub includes : Str → List Str → Bool
includes peer [] = false
includes peer (p ∷ peers) = let rest = includes peer peers in if str_eq p peer then true else rest

unfoldable pub add_to_index : Map Str (List Str) → Str → Str → Map Str (List Str)
unfolding peers_of includes
add_to_index index method peer =
    let peers = peers_of index method in
    if includes peer peers then index else insert method (peers ++ peer ∷ []) index

-- The loop of `removeFromIndex`: the list without the first occurrence of the peer.
unfoldable pub without : Str → List Str → List Str
without peer [] = []
without peer (p ∷ peers) =
    let rest = without peer peers in if str_eq p peer then peers else p ∷ rest

abbrev pub is_nil : {A : Type 0} → List A → Bool
is_nil [] = true
is_nil (x ∷ xs) = false

unfoldable pub remove_from_index : Map Str (List Str) → Str → Str → Map Str (List Str)
unfolding peers_of includes without
remove_from_index index method peer =
    let peers = peers_of index method in
    let index' = if includes peer peers then insert method (without peer peers) index else index in
    if is_nil (peers_of index' method) then delete method index' else index'

unfoldable pub add_all : Map Str (List Str) → List MethodDescriptor → Str → Map Str (List Str)
add_all index [] peer = index
add_all index (m ∷ methods) peer = add_all (add_to_index index m.name peer) methods peer

unfoldable pub remove_all : Map Str (List Str) → List MethodDescriptor → Str → Map Str (List Str)
remove_all index [] peer = index
remove_all index (m ∷ methods) peer = remove_all (remove_from_index index m.name peer) methods peer

-- The first statement of `UpdateMethods`: the index without the peer's old methods.
unfoldable pub cleared : MethodRegistry → Str → Map Str (List Str)
cleared mr peer = elim (lookup peer mr.peer_methods) [
  | none ↦ mr.method_peers
  | some old ↦ remove_all mr.method_peers old.methods peer
]

-- `now` is the time, in nanoseconds; the version is its Unix time in seconds.
unfoldable pub update_methods :
    MethodRegistry → Str → List MethodDescriptor → ℕ → MethodRegistry × ℕ
update_methods mr peer methods now =
    let version = now / 1_000_000_000 in
    let catalog : PeerMethodCatalog = record {
      peer_id = peer;
      methods = methods;
      version = version;
      updated_at = now;
    } in
    (
      record {
        peer_methods = insert peer catalog mr.peer_methods;
        method_peers = add_all (cleared mr peer) methods peer;
      },
      version,
    )

unfoldable pub get_peer_methods : MethodRegistry → Str → Option (List MethodDescriptor)
get_peer_methods mr peer = elim (lookup peer mr.peer_methods) [
  | none ↦ none
  | some catalog ↦ some catalog.methods
]

unfoldable pub find_method : List MethodDescriptor → Str → Option MethodDescriptor
find_method [] name = none
find_method (m ∷ methods) name = if str_eq m.name name then some m else find_method methods name

unfoldable pub get_method : MethodRegistry → Str → Str → Option MethodDescriptor
unfolding get_peer_methods find_method
get_method mr peer name = elim (get_peer_methods mr peer) [
  | none ↦ none
  | some methods ↦ find_method methods name
]

-- nil and an empty result are one.
unfoldable pub find_peers_with_method : MethodRegistry → Str → List Str
unfolding peers_of
find_peers_with_method mr name = peers_of mr.method_peers name

abbrev pub star : Str
star = 42 ∷ []

-- The package's own copy of the function.
unfoldable pub match_pattern : Str → Str → Bool
match_pattern name pattern' =
    if str_eq pattern' star
    then true
    else if not (contains pattern' star)
    then str_eq name pattern'
    else if has_prefix pattern' star && has_suffix pattern' star
    then contains name (trim 42 pattern')
    else if has_prefix pattern' star
    then has_suffix name (trim_prefix pattern' star)
    else if has_suffix pattern' star
    then has_prefix name (trim_suffix pattern' star)
    else false

unfoldable pub find_in : Str → Map Str PeerMethodCatalog → Map Str (List MethodDescriptor)
find_in pattern' [] = []
find_in pattern' ((peer, catalog) ∷ rest) =
    let matched = keep (λ m. match_pattern m.name pattern') catalog.methods in
    let others = find_in pattern' rest in
    if is_nil matched then others else (peer, matched) ∷ others

unfoldable pub find_methods : MethodRegistry → Str → Map Str (List MethodDescriptor)
unfolding find_in
find_methods mr pattern' = find_in pattern' mr.peer_methods

unfoldable pub get_catalog : MethodRegistry → Map Str (List MethodDescriptor)
get_catalog mr = map (λ entry. (entry.0, entry.1.methods)) mr.peer_methods

unfoldable pub remove_peer : MethodRegistry → Str → MethodRegistry
remove_peer mr peer = elim (lookup peer mr.peer_methods) [
  | none ↦ mr
  | some catalog ↦ record {
    peer_methods = delete peer mr.peer_methods;
    method_peers = remove_all mr.method_peers catalog.methods peer;
  }
]

-- The average, a float64 quotient of the two totals, is left out.
pub record MethodRegistryStats : Type 0 where
  pub total_peers : ℕ
  pub total_methods : ℕ
  pub last_update : ℕ

stats_from : Map Str PeerMethodCatalog → MethodRegistryStats → MethodRegistryStats
stats_from [] st = st
stats_from ((peer, catalog) ∷ rest) st = stats_from rest (record st {
  total_methods = st.total_methods + length catalog.methods;
  last_update =
      if ltb st.last_update catalog.updated_at then catalog.updated_at else st.last_update;
})

pub stats : MethodRegistry → MethodRegistryStats
unfolding stats_from
stats mr =
    stats_from mr.peer_methods
      (record { total_peers = length mr.peer_methods; total_methods = 0; last_update = 0 })
