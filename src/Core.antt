-- ===== src/Core.antt =====
-- packages/hexastack_core: the ports' in-memory adapters and the domain utilities.
pub mod CircuitBreaker
pub mod RateLimit
pub mod Cache
pub mod Lock
pub mod LeaderElection
pub mod UnitOfWork
pub mod Registry
pub mod Pointers
pub mod CacheBreaker
pub mod Identity
