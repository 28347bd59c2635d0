-- ===== src/Flow.antt =====
-- packages/hexastack_flow: workflows over the command and query buses.
pub mod Runner
