-- ===== src/Tests.antt =====
-- Runs of the model, at which the theorems are applied.
pub mod Sample
pub mod Values
pub mod Tokens
pub mod Batches
pub mod Accounts
pub mod Redeeming
pub mod Workflows
pub mod Views
pub mod Backing
