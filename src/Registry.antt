-- ===== src/Registry.antt =====
-- pkg/registry: the sessions of the connected nodes, and the methods they offer.
pub mod Sessions
pub mod Methods
pub mod Extended
