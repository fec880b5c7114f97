-- ===== src/Domain.antt =====
-- The domain model (contract/src/domain/): balances, batches, receipts, the STAKE token value, the
-- locks and the accounts.
pub mod NearBalance
pub mod StakeBalance
pub mod StakeTokenValue
pub mod Batch
pub mod Receipt
pub mod Lock
pub mod Account
pub mod Balances
