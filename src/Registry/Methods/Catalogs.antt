-- ===== src/Registry/Methods/Catalogs.antt =====
-- pkg/registry/method_registry.go: what the index lists against the catalogs.
use grpc_mesh_server.Prelude.{
  ◌≡◌, refl, Bool, true, false, not, ◌&&◌, ◌||◌, List, [], ◌∷◌, Option, none, some, arith,
  if◌then◌else◌, Str, str_eq, str_eq_iff, str_eq_instance,
}
use grpc_mesh_server.Map.{Map, lookup, insert, delete, lookup-insert, lookup-delete}
use grpc_mesh_server.Registry.Methods.{
  MethodDescriptor, PeerMethodCatalog, MethodRegistry, peers_of, includes, add_to_index,
  remove_from_index, add_all, remove_all, cleared, find_peers_with_method,
}
use grpc_mesh_server.Registry.Methods.Listing.{
  IsIndex, add_to_index-serves, add_to_index-IsIndex, remove_from_index-serves,
  remove_from_index-IsIndex,
}

unfoldable pub names : List MethodDescriptor → Str → Bool
names [] n = false
names (m ∷ methods) n = let rest = names methods n in if str_eq m.name n then true else rest

pub add_all-serves :
    (index : Map Str (List Str)) (methods : List MethodDescriptor) (p n q : Str)
    → includes q (peers_of (add_all index methods p) n)
      ≡ includes q (peers_of index n) || (names methods n && str_eq p q)
unfolding add_all names
add_all-serves index [] p n q = ground arith
add_all-serves index (m ∷ methods) p n q = ground (
  arith,
  add_all-serves (add_to_index index m.name p) methods p n q,
  add_to_index-serves index m.name p n q,
)

pub add_all-IsIndex :
    (index : Map Str (List Str)) (methods : List MethodDescriptor) (p : Str)
    → IsIndex index
    → IsIndex (add_all index methods p)
unfolding add_all
add_all-IsIndex index [] p h = h
add_all-IsIndex index (m ∷ methods) p h =
    add_all-IsIndex (add_to_index index m.name p) methods p (add_to_index-IsIndex index m.name p h)

remove_all-IsIndex :
    (index : Map Str (List Str)) (methods : List MethodDescriptor) (p : Str)
    → IsIndex index
    → IsIndex (remove_all index methods p)
unfolding remove_all
remove_all-IsIndex index [] p h = h
remove_all-IsIndex index (m ∷ methods) p h =
    remove_all-IsIndex (remove_from_index index m.name p) methods p
      (remove_from_index-IsIndex index m.name p h)

remove_all-serves :
    (index : Map Str (List Str)) (methods : List MethodDescriptor) (p n q : Str)
    → IsIndex index
    → includes q (peers_of (remove_all index methods p) n)
      ≡ includes q (peers_of index n) && not (names methods n && str_eq p q)
unfolding remove_all names
remove_all-serves index [] p n q h = ground arith
remove_all-serves index (m ∷ methods) p n q h = ground (
  arith,
  remove_all-serves (remove_from_index index m.name p) methods p n q
      (remove_from_index-IsIndex index m.name p h),
  remove_from_index-serves index m.name p n q h,
)

-- Whether the peer's catalog lists a method of that name.
unfoldable pub offers : Map Str PeerMethodCatalog → Str → Str → Bool
offers catalogs peer name = elim (lookup peer catalogs) [
  | none ↦ false
  | some c ↦ names c.methods name
]

-- The index is what the catalogs give.
unfoldable pub IsConsistent : MethodRegistry → Type 0
IsConsistent mr =
    IsIndex mr.method_peers
    × ((peer name : Str)
        → includes peer (find_peers_with_method mr name) ≡ offers mr.peer_methods peer name)

pub cleared-IsIndex :
    (mr : MethodRegistry) (peer : Str) → IsIndex mr.method_peers → IsIndex (cleared mr peer)
unfolding cleared
cleared-IsIndex mr peer h = go (lookup peer mr.peer_methods) refl
  where
    go :
        (o : Option PeerMethodCatalog)
        → lookup peer mr.peer_methods ≡ o
        → IsIndex (elim o [
          | none ↦ mr.method_peers
          | some old ↦ remove_all mr.method_peers old.methods peer
        ])
    go none e = h
    go (some old) e = remove_all-IsIndex mr.method_peers old.methods peer h

cleared-serves :
    (mr : MethodRegistry) (peer q n : Str)
    → IsIndex mr.method_peers
    → includes q (peers_of (cleared mr peer) n)
      ≡ includes q (peers_of mr.method_peers n)
        && not (offers mr.peer_methods peer n && str_eq peer q)
unfolding cleared offers
cleared-serves mr peer q n h = go (lookup peer mr.peer_methods) refl
  where
    go :
        (o : Option PeerMethodCatalog)
        → lookup peer mr.peer_methods ≡ o
        → includes q (
            peers_of
              (elim o [
                | none ↦ mr.method_peers
                | some old ↦ remove_all mr.method_peers old.methods peer
              ])
              n)
          ≡ includes q (peers_of mr.method_peers n)
            && not ((elim o [ none ↦ false | some c ↦ names c.methods n ]) && str_eq peer q)
    go none e = ground arith
    go (some old) e = remove_all-serves mr.method_peers old.methods peer n q h

pub offers-insert :
    (catalogs : Map Str PeerMethodCatalog) (peer q n : Str) (c : PeerMethodCatalog)
    → offers (insert peer c catalogs) q n
      ≡ (if str_eq peer q then names c.methods n else offers catalogs q n)
unfolding offers
offers-insert catalogs peer q n c = ground (arith, lookup-insert peer q c catalogs)

pub offers-delete :
    (catalogs : Map Str PeerMethodCatalog) (peer q n : Str)
    → offers (delete peer catalogs) q n ≡ (if str_eq peer q then false else offers catalogs q n)
unfolding offers
offers-delete catalogs peer q n = ground (arith, lookup-delete peer q catalogs)

-- What the index without the peer's methods lists, for a consistent registry.
pub cleared-offers :
    (mr : MethodRegistry) (peer q n : Str)
    → IsConsistent mr
    → includes q (peers_of (cleared mr peer) n)
      ≡ (if str_eq peer q then false else offers mr.peer_methods q n)
unfolding IsConsistent find_peers_with_method
cleared-offers mr peer q n h =
    ground (arith, cleared-serves mr peer q n h.0, h.1 q n, str_eq_iff peer q)
