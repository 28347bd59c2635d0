-- ===== src/Cqrs.antt =====
-- packages/hexastack_cqrs: the buses, the middleware and the execution pipeline.
pub mod Buses
pub mod Middleware
pub mod Pipeline
pub mod Caching
