-- ===== src/Registry/Methods/Index.antt =====
-- pkg/registry/method_registry.go: the reverse index against the catalogs it is built from.
use grpc_mesh_server.Prelude.{
  ℕ, ◌≡◌, refl, sym, ap, ◌∙◌, ◌/◌, Bool, true, false, List, [], ◌∷◌, Option, none, some, arith,
  if◌then◌else◌, Str, str_eq, str_eq_instance,
}
use mathlib.Core.Path.{subst}
use grpc_mesh_server.Map.{lookup, delete, delete_absent}
use grpc_mesh_server.Registry.Methods.{
  MethodDescriptor, PeerMethodCatalog, MethodRegistry, new_method_registry, peers_of, includes,
  add_all, remove_all, cleared, update_methods, find_peers_with_method, remove_peer, find_method,
  get_method, get_peer_methods,
}
use grpc_mesh_server.Registry.Methods.Listing.{IsDistinct, IsIndex}
use grpc_mesh_server.Registry.Methods.Catalogs.{
  names, add_all-serves, add_all-IsIndex, offers, IsConsistent, cleared-IsIndex, offers-insert,
  offers-delete, cleared-offers,
}

update_methods-IsConsistent :
    (mr : MethodRegistry) (peer : Str) (methods : List MethodDescriptor) (now : ℕ)
    → IsConsistent mr
    → IsConsistent (update_methods mr peer methods now).0
unfolding IsConsistent update_methods find_peers_with_method
update_methods-IsConsistent mr peer methods now h = (
  add_all-IsIndex (cleared mr peer) methods peer (cleared-IsIndex mr peer h.0),
  λ q n.
      let c : PeerMethodCatalog = record {
        peer_id = peer;
        methods = methods;
        version = now / 1_000_000_000;
        updated_at = now;
      } in
      listed q n ∙ sym (offers-insert mr.peer_methods peer q n c),
)
  where
    listed :
        (q n : Str)
        → includes q (peers_of (add_all (cleared mr peer) methods peer) n)
          ≡ (if str_eq peer q then names methods n else offers mr.peer_methods q n)
    listed q n =
        ground
          (arith, add_all-serves (cleared mr peer) methods peer n q, cleared-offers mr peer q n h)

remove_peer-cleared :
    (mr : MethodRegistry) (peer : Str)
    → remove_peer mr peer
      ≡ record { peer_methods = delete peer mr.peer_methods; method_peers = cleared mr peer }
unfolding remove_peer cleared
remove_peer-cleared mr peer = go (lookup peer mr.peer_methods) refl
  where
    go :
        (o : Option PeerMethodCatalog)
        → lookup peer mr.peer_methods ≡ o
        → ◌≡◌ {A = MethodRegistry}
            (elim o [
              | none ↦ mr
              | some catalog ↦ record {
                peer_methods = delete peer mr.peer_methods;
                method_peers = remove_all mr.method_peers catalog.methods peer;
              }
            ])
            (record {
              peer_methods = delete peer mr.peer_methods;
              method_peers = elim o [
                | none ↦ mr.method_peers
                | some old ↦ remove_all mr.method_peers old.methods peer
              ];
            })
    go none e =
        ap (λ cs. record { peer_methods = cs; method_peers = mr.method_peers })
          (sym (delete_absent peer mr.peer_methods e))
    go (some c) e = refl

remove_peer-IsConsistent :
    (mr : MethodRegistry) (peer : Str) → IsConsistent mr → IsConsistent (remove_peer mr peer)
unfolding IsConsistent find_peers_with_method
remove_peer-IsConsistent mr peer h = subst IsConsistent (sym (remove_peer-cleared mr peer)) (
  cleared-IsIndex mr peer h.0,
  λ q n. cleared-offers mr peer q n h ∙ sym (offers-delete mr.peer_methods peer q n),
)

-- The two operations that change the registry.
pub data Change : Type 0 where
  update : Str → List MethodDescriptor → ℕ → Change
  leave : Str → Change

unfoldable pub run : List Change → MethodRegistry → MethodRegistry
run [] mr = mr
run (update peer methods now ∷ changes) mr = run changes (update_methods mr peer methods now).0
run (leave peer ∷ changes) mr = run changes (remove_peer mr peer)

run-IsConsistent :
    (changes : List Change) (mr : MethodRegistry) → IsConsistent mr → IsConsistent (run changes mr)
unfolding run
run-IsConsistent [] mr h = h
run-IsConsistent (update peer methods now ∷ changes) mr h =
    run-IsConsistent changes (update_methods mr peer methods now).0
      (update_methods-IsConsistent mr peer methods now h)
run-IsConsistent (leave peer ∷ changes) mr h =
    run-IsConsistent changes (remove_peer mr peer) (remove_peer-IsConsistent mr peer h)

new-IsConsistent : IsConsistent new_method_registry
unfolding IsConsistent IsIndex IsDistinct offers find_peers_with_method peers_of includes lookup
    new_method_registry
new-IsConsistent = (λ m. ground arith, λ q n. refl)

-- After any updates and removals from the empty registry, a peer is in the result of
-- `FindPeersWithMethod` for a name exactly when the peer's catalog lists a method of that name, no
-- list of the index is empty, and none has a peer twice.
pub run-new-IsConsistent : (changes : List Change) → IsConsistent (run changes new_method_registry)
run-new-IsConsistent changes = run-IsConsistent changes new_method_registry new-IsConsistent

pub is_some : {A : Type 0} → Option A → Bool
is_some none = false
is_some (some x) = true

find_method-names :
    (methods : List MethodDescriptor) (name : Str)
    → is_some (find_method methods name) ≡ names methods name
unfolding find_method names is_some
find_method-names [] name = refl
find_method-names (m ∷ methods) name = ground (arith, find_method-names methods name)

pub get_method-offers :
    (mr : MethodRegistry) (peer name : Str)
    → is_some (get_method mr peer name) ≡ offers mr.peer_methods peer name
unfolding get_method get_peer_methods offers is_some
get_method-offers mr peer name = go (lookup peer mr.peer_methods)
  where
    found : Option PeerMethodCatalog → Option (List MethodDescriptor)
    found o = elim o [ none ↦ none | some catalog ↦ some catalog.methods ]

    go :
        (o : Option PeerMethodCatalog)
        → is_some (elim (found o) [ none ↦ none | some methods ↦ find_method methods name ])
          ≡ (elim o [ none ↦ false | some c ↦ names c.methods name ])
    go none = refl
    go (some c) = find_method-names c.methods name

-- After any updates and removals from the empty registry, `FindPeersWithMethod` lists a peer
-- exactly when `GetMethod` finds a method for that peer and name.
pub find_peers_exact :
    (changes : List Change) (peer name : Str)
    → let mr = run changes new_method_registry in
      includes peer (find_peers_with_method mr name) ≡ is_some (get_method mr peer name)
unfolding IsConsistent
find_peers_exact changes peer name =
    let mr = run changes new_method_registry in
    (run-new-IsConsistent changes).1 peer name ∙ sym (get_method-offers mr peer name)
