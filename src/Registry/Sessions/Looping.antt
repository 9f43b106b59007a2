-- ===== src/Registry/Sessions/Looping.antt =====
-- The cleanup loop over a good registry.
use grpc_mesh_server.Prelude.{ℕ, ◌≡◌, refl, List, [], ◌∷◌, arith}
use grpc_mesh_server.Registry.Sessions.{SessionManager, Signal, ticks, cancels, done, cleanup_loop}
use grpc_mesh_server.Registry.Sessions.Closing.{IsGood}
use grpc_mesh_server.Registry.Sessions.Pruning.{cleanup_lem}

-- However often it ticks, the loop does not panic, and it leaves the registry good.
pub loop-Good :
    (sm : SessionManager) (max_age : ℕ) (signals : List Signal)
    → IsGood sm
    → (sm' : SessionManager) × (cleanup_loop sm max_age signals ≡ done sm' tt) × IsGood sm'
unfolding cleanup_loop
loop-Good sm max_age [] g = (sm, refl, g)
loop-Good sm max_age (cancels ∷ signals) g = (sm, refl, g)
loop-Good sm max_age (ticks now ∷ signals) g =
    let (sm1, n, q, r) = cleanup_lem max_age now sm g in
    let (sm2, e, h) = loop-Good sm1 max_age signals r.good in (sm2, ground (arith, q, e), h)
