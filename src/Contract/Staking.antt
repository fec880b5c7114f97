-- ===== src/Contract/Staking.antt =====
-- Running the stake batch: `stake` and `run_stake_batch` of
-- contract/src/contract/staking_service.rs, and contract/src/contract/staking_workflow_callbacks.rs.
pub mod Locks
pub mod Exclusion
pub mod Overlap
use oysterpack_near_stake_to.Prelude.{
  ℕ, Bool, true, false, ◌&&◌, Option, none, some, [], ◌∷◌, leb, ltb, if◌then◌else◌,
}
use oysterpack_near_stake_to.Near.Error.{
  stake_batch_should_exist, blocked_by_batch_running, blocked_by_stake_token_value_refresh,
}
use oysterpack_near_stake_to.Near.Word.{add_u128, sub_u128}
use oysterpack_near_stake_to.Near.Env.{Env}
use oysterpack_near_stake_to.Domain.Batch.{StakeBatch}
use oysterpack_near_stake_to.Domain.Lock.{StakeLock, staking, staked, refreshing_stake_token_value}
use oysterpack_near_stake_to.Contract.State.{
  StakingPoolAccount, PromiseOrValue, promise, value, pool_calls, self_call,
}
use oysterpack_near_stake_to.Contract.Monad.{
  M, pure, panic, ◌>>=◌, ◌>>◌, lift, assert, expect, self, modify, schedule,
}
use oysterpack_near_stake_to.Contract.StakingPool
use oysterpack_near_stake_to.Contract.Financials.{distribute_earnings}
use oysterpack_near_stake_to.Contract.TokenValue.{is_liquidity_needed, set_near_liquidity_pool}
use oysterpack_near_stake_to.Contract.Deposits.{can_run_batch, deposit}
use oysterpack_near_stake_to.Contract.StakedBatch.{set_stake_batch_lock, process_staked_batch}

-- The promise of `run_stake_batch`: all liquidity is staked with the batch, unless a pending
-- withdrawal needs it.
unfoldable pub start_staking : StakeBatch → M (Unit {0})
start_staking batch = do
  c ← self
  needed ← lift (is_liquidity_needed c)
  if needed
      then schedule (
          pool_calls c.staking_pool_id (StakingPool.get_account c ∷ [])
            (StakingPool.invoke_on_run_stake_batch c ∷ StakingPool.invoke_clear_stake_lock c ∷ []))
      else (do
        stake_amount ← lift (add_u128 batch.balance.amount c.near_liquidity_pool)
        modify (set_near_liquidity_pool 0)
        schedule (
            pool_calls c.staking_pool_id
              (StakingPool.deposit_and_stake c stake_amount ∷ StakingPool.get_account c ∷ [])
              (StakingPool.invoke_on_deposit_and_stake c none
                ∷ StakingPool.invoke_clear_stake_lock c
                ∷ [])))

unfoldable pub run_stake_batch : Env → M (Unit {0})
run_stake_batch env = do
  c ← self
  assert (can_run_batch c) blocked_by_batch_running
  batch ← expect c.stake_batch stake_batch_should_exist
  modify (set_stake_batch_lock (some staking))
  distribute_earnings env
  start_staking batch

-- `stake`, by the state of the stake lock
unfoldable pub stake_by_lock : Env → Option StakeLock → M (PromiseOrValue ℕ)
stake_by_lock env none = do run_stake_batch env; pure promise
stake_by_lock env (some staking) = panic blocked_by_batch_running
stake_by_lock env (some (staked near_liquidity staked_balance unstaked_balance)) = do
  c ← self
  batch ← expect c.stake_batch stake_batch_should_exist
  process_staked_batch env
  pure (value batch.batch_id)
stake_by_lock env (some refreshing_stake_token_value) = panic blocked_by_stake_token_value_refresh

unfoldable pub stake : Env → M (PromiseOrValue ℕ)
stake env = do c ← self; stake_by_lock env c.stake_batch_lock

unfoldable pub deposit_and_stake : Env → M (PromiseOrValue ℕ)
deposit_and_stake env = do
  batch_id ← deposit env
  c ← self
  if can_run_batch c then stake env else pure (value batch_id)

-- The part of the unstaked NEAR that the batch can restake becomes liquidity.
unfoldable pub add_liquidity_then_deposit_and_stake : ℕ → StakeBatch → M (Unit {0})
add_liquidity_then_deposit_and_stake unstaked_balance batch = do
  c ← self
  let amount = batch.balance.amount
  let near_liquidity = if leb amount unstaked_balance then amount else unstaked_balance
  deposit_amount ← lift (sub_u128 amount near_liquidity)
  if ltb 0 deposit_amount
      then schedule (
          pool_calls c.staking_pool_id
            (StakingPool.deposit c deposit_amount
              ∷ StakingPool.stake c amount
              ∷ StakingPool.get_account c
              ∷ [])
            (StakingPool.invoke_on_deposit_and_stake c (some near_liquidity) ∷ []))
      else schedule (
          pool_calls c.staking_pool_id (StakingPool.stake c amount ∷ StakingPool.get_account c ∷ [])
            (StakingPool.invoke_on_deposit_and_stake c (some near_liquidity) ∷ []))

unfoldable pub stake_with_liquidity : Bool → StakeBatch → M ℕ
stake_with_liquidity true batch = do
  c ← self
  modify (set_near_liquidity_pool 0)
  lift (add_u128 batch.balance.amount c.near_liquidity_pool)
stake_with_liquidity false batch = pure batch.balance.amount

unfoldable pub on_run_stake_batch : StakingPoolAccount → M (Unit {0})
on_run_stake_batch account = do
  c ← self
  batch ← expect c.stake_batch stake_batch_should_exist
  needed ← lift (is_liquidity_needed c)
  if ltb 0 account.unstaked_balance && needed
      then add_liquidity_then_deposit_and_stake account.unstaked_balance batch
      else (do
        stake_amount ← stake_with_liquidity needed batch
        schedule (
            pool_calls c.staking_pool_id
              (StakingPool.deposit_and_stake c stake_amount ∷ StakingPool.get_account c ∷ [])
              (StakingPool.invoke_on_deposit_and_stake c none ∷ [])))

unfoldable pub on_deposit_and_stake : Env → Option ℕ → StakingPoolAccount → M (Unit {0})
on_deposit_and_stake env near_liquidity account = do
  modify (
      set_stake_batch_lock
        (some (staked near_liquidity account.staked_balance account.unstaked_balance)))
  c ← self
  callback ← lift (StakingPool.invoke_process_stake_batch c env)
  schedule (self_call callback)
