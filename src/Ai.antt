-- ===== src/Ai.antt =====
-- packages/hexastack_ai: keeping a conversation within a budget of tokens.
pub mod Tokens
