-- ===== src/Domain/Lock.antt =====
-- contract/src/domain/lock.rs: the locks of the staking and the redeeming workflow.
use oysterpack_near_stake_to.Prelude.{ℕ, Option}

pub data RedeemLock : Type 0 where
  unstaking pending_withdrawal : RedeemLock

pub data StakeLock : Type 0 where
  staking : StakeLock
  staked : Option ℕ → ℕ → ℕ → StakeLock
  refreshing_stake_token_value : StakeLock
