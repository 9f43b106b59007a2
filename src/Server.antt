-- ===== src/Server.antt =====
-- pkg/server: access control, rate limits, the invoke proxy and the server itself.
pub mod Acl
pub mod RateLimit
pub mod Invoke
pub mod Lifecycle
