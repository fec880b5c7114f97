-- ===== src/Contract.antt =====
-- The contract (contract/src/lib.rs and contract/src/contract/): its state, the monad of its
-- methods, and one module for each of its parts.
pub mod State
pub mod Monad
pub mod StakingPool
pub mod Accounts
pub mod Claims
pub mod TokenValue
pub mod Financials
pub mod Deposits
pub mod Redeeming
pub mod Withdrawals
pub mod StakedBatch
pub mod Staking
pub mod Refresh
pub mod Unstaking
pub mod FungibleToken
pub mod Operator
pub mod Owner
pub mod Backing
pub mod Views
pub mod Reports
pub mod Creation
