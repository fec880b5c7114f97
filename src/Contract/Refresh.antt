-- ===== src/Contract/Refresh.antt =====
-- Refreshing the STAKE token value from the staking pool: `refresh_stake_token_value` and its
-- callback in contract/src/contract/staking_service.rs.
use oysterpack_near_stake_to.Prelude.{not, Option, none, some, [], ◌∷◌}
use oysterpack_near_stake_to.Near.Error.{
  blocked_by_batch_running, blocked_by_stake_token_value_refresh,
}
use oysterpack_near_stake_to.Near.Env.{Env}
use oysterpack_near_stake_to.Domain.StakeTokenValue.{StakeTokenValue}
use oysterpack_near_stake_to.Domain.Lock.{StakeLock, staking, staked, refreshing_stake_token_value}
use oysterpack_near_stake_to.Contract.State.{StakingPoolAccount, pool_calls, is_unstaking}
use oysterpack_near_stake_to.Contract.Monad.{
  M, pure, panic, ◌>>=◌, ◌>>◌, lift, assert, self, modify, schedule,
}
use oysterpack_near_stake_to.Contract.StakingPool
use oysterpack_near_stake_to.Contract.TokenValue.{staked_near_balance, update_stake_token_value}
use oysterpack_near_stake_to.Contract.Operator.{clear_stake_lock}
use oysterpack_near_stake_to.Contract.StakedBatch.{set_stake_batch_lock}

-- `refresh_stake_token_value`
unfoldable pub refresh_by_lock : Option StakeLock → M (Unit {0})
refresh_by_lock none = do
  c ← self
  assert (not (is_unstaking c)) blocked_by_batch_running
  modify (set_stake_batch_lock (some refreshing_stake_token_value))
  schedule (
      pool_calls c.staking_pool_id (StakingPool.ping c ∷ StakingPool.get_account c ∷ [])
        (StakingPool.invoke_refresh_stake_token_value c ∷ []))
refresh_by_lock (some refreshing_stake_token_value) = panic blocked_by_stake_token_value_refresh
refresh_by_lock (some staking) = panic blocked_by_batch_running
refresh_by_lock (some (staked near_liquidity staked_balance unstaked_balance)) =
    panic blocked_by_batch_running

unfoldable pub refresh_stake_token_value : M (Unit {0})
refresh_stake_token_value = do c ← self; refresh_by_lock c.stake_batch_lock

unfoldable pub on_refresh_stake_token_value : Env → StakingPoolAccount → M StakeTokenValue
on_refresh_stake_token_value env account = do
  c ← self
  balance ← lift (staked_near_balance c account.staked_balance account.unstaked_balance)
  update_stake_token_value env balance
  clear_stake_lock env
  d ← self
  pure d.stake_token_value
