-- ===== src/Ledger.antt =====
-- The financial ledger, examples/financial-ledger/src/financial_ledger.
pub mod Account
pub mod Journal
pub mod Repository
pub mod Handlers
pub mod Recording
pub mod Totals
pub mod Postings
pub mod Transfers
pub mod Conservation
pub mod Invariant
pub mod Concurrency
pub mod Freezing
mod Tests
