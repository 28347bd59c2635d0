-- ===== src/Events.antt =====
-- packages/hexastack_events: background tasks, the outbox and partitioned streams, in memory.
pub mod Tasks
pub mod Streams
pub mod Outbox
pub mod Relay
