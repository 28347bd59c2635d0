-- ===== src/Auth.antt =====
-- packages/hexastack_auth: users, ephemeral tokens, the life cycle of accounts, and signed webhooks.
pub mod Passwords
pub mod Users
pub mod Lifecycle
pub mod Webhooks
