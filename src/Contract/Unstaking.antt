-- ===== src/Contract/Unstaking.antt =====
-- Running the redeem batch: `unstake` of contract/src/contract/staking_service.rs, and
-- contract/src/contract/redeeming_workflow_callbacks.rs.
pub mod Workflow
use oysterpack_near_stake_to.Prelude.{
  ℕ, Bool, true, false, Option, none, some, [], ◌∷◌, ltb, if◌then◌else◌, is_some,
}
use oysterpack_near_stake_to.Prelude.Dict
use oysterpack_near_stake_to.Near.Error.{
  blocked_by_batch_running, no_redeem_stake_batch_to_run, illegal_redeem_lock_state,
  redeem_stake_batch_should_exist, get_account_failure, unstake_failure, withdraw_all_failure,
  stake_batch_should_exist, redeem_stake_batch_receipt_should_exist,
  unstaked_funds_not_available_for_withdrawal,
}
use oysterpack_near_stake_to.Near.Env.{Env, PromiseResult}
use oysterpack_near_stake_to.Domain.NearBalance
use oysterpack_near_stake_to.Domain.NearBalance.{TimestampedNearBalance}
use oysterpack_near_stake_to.Domain.StakeBalance
use oysterpack_near_stake_to.Domain.StakeBalance.{TimestampedStakeBalance}
use oysterpack_near_stake_to.Domain.StakeTokenValue.{stake_to_near}
use oysterpack_near_stake_to.Domain.Receipt.{
  RedeemStakeBatchReceipt, create_receipt, stake_near_value,
  unstaked_funds_available_for_withdrawal,
}
use oysterpack_near_stake_to.Domain.Lock.{RedeemLock, unstaking, pending_withdrawal}
use oysterpack_near_stake_to.Contract.State.{
  Contract, StakingPoolAccount, PromiseOrValue, promise, value, pool_calls, is_unstaking,
  pop_redeem_stake_batch,
}
use oysterpack_near_stake_to.Contract.Monad.{
  M, pure, panic, ◌>>=◌, ◌>>◌, lift, assert, expect, self, modify, schedule,
}
use oysterpack_near_stake_to.Contract.StakingPool
use oysterpack_near_stake_to.Contract.TokenValue.{staked_near_balance, update_stake_token_value}
use oysterpack_near_stake_to.Contract.Deposits.{can_run_batch}
use oysterpack_near_stake_to.Contract.Redeeming.{redeem, redeem_all}

-- `promise_result_succeeded`
abbrev pub promise_result_succeeded : Env → Bool
promise_result_succeeded env = elim env.promise_result [
  | PromiseResult.successful _ ↦ true
  | _ ↦ false
]

abbrev pub set_redeem_lock : Option RedeemLock → Contract → Contract
set_redeem_lock lock c = record c { redeem_stake_batch_lock = lock }

unfoldable pub unstake_by_lock : Option RedeemLock → M (Unit {0})
unstake_by_lock none = do
  c ← self
  assert (is_some c.redeem_stake_batch) no_redeem_stake_batch_to_run
  modify (set_redeem_lock (some unstaking))
  schedule (
      pool_calls c.staking_pool_id (StakingPool.get_account c ∷ []) (
        StakingPool.invoke_on_run_redeem_stake_batch c
        ∷ StakingPool.invoke_clear_redeem_lock c
        ∷ []))
unstake_by_lock (some pending_withdrawal) = do
  c ← self
  schedule (
      pool_calls c.staking_pool_id (StakingPool.get_account c ∷ [])
        (StakingPool.invoke_on_redeeming_stake_pending_withdrawal c ∷ []))
unstake_by_lock (some unstaking) = panic blocked_by_batch_running

unfoldable pub unstake : M (Unit {0})
unfolding unstake_by_lock
unstake = do
  c ← self
  assert (can_run_batch c) blocked_by_batch_running
  unstake_by_lock c.redeem_stake_batch_lock

unfoldable pub can_unstake_by_lock : Env → Option RedeemLock → M Bool
can_unstake_by_lock env none = do c ← self; pure (is_some c.redeem_stake_batch)
can_unstake_by_lock env (some pending_withdrawal) = do
  c ← self
  batch ← expect c.redeem_stake_batch redeem_stake_batch_should_exist
  receipt ←
      expect (Dict.get batch.batch_id c.redeem_stake_batch_receipts)
        redeem_stake_batch_receipt_should_exist
  lift (unstaked_funds_available_for_withdrawal env receipt)
can_unstake_by_lock env (some unstaking) = pure false

unfoldable pub can_unstake : Env → M Bool
can_unstake env = do
  c ← self
  if can_run_batch c then can_unstake_by_lock env c.redeem_stake_batch_lock else pure false

unfoldable pub redeem_and_unstake : Env → ℕ → M (PromiseOrValue ℕ)
redeem_and_unstake env amount = do
  batch_id ← redeem env amount
  ready ← can_unstake env
  if ready then (do unstake; pure promise) else pure (value batch_id)

unfoldable pub redeem_all_and_unstake : Env → M (PromiseOrValue (Option ℕ))
redeem_all_and_unstake env = do
  redeemed ← redeem_all env
  elim redeemed [
    | none ↦ pure (value none)
    | some batch_id ↦ do
      ready ← can_unstake env
      if ready then (do unstake; pure promise) else pure (value (some batch_id))
  ]

unfoldable pub on_run_redeem_stake_batch : Env → StakingPoolAccount → M (Unit {0})
on_run_redeem_stake_batch env account = do
  c ← self
  assert (is_unstaking c) illegal_redeem_lock_state
  batch ← expect c.redeem_stake_batch redeem_stake_batch_should_exist
  assert (promise_result_succeeded env) get_account_failure
  balance ← lift (staked_near_balance c account.staked_balance account.unstaked_balance)
  update_stake_token_value env balance
  d ← self
  unstake_amount ← lift (stake_to_near d.stake_token_value batch.balance.amount)
  schedule (
      pool_calls d.staking_pool_id
        ((if ltb account.staked_balance unstake_amount
            then StakingPool.unstake_all d
            else StakingPool.unstake d unstake_amount)
          ∷ [])
        (StakingPool.invoke_on_unstake d ∷ []))

abbrev store_redeem_receipt :
    ℕ → RedeemStakeBatchReceipt → TimestampedStakeBalance → Contract → Contract
store_redeem_receipt id receipt total_stake c = record c {
  redeem_stake_batch_receipts = Dict.insert id receipt c.redeem_stake_batch_receipts;
  total_stake = total_stake;
}

-- The batch's STAKE leaves the supply.
unfoldable pub create_redeem_stake_batch_receipt : Env → M (Unit {0})
create_redeem_stake_batch_receipt env = do
  c ← self
  batch ← expect c.redeem_stake_batch stake_batch_should_exist
  let receipt = create_receipt batch c.stake_token_value
  total_stake ← lift (StakeBalance.debit env c.total_stake receipt.redeemed_stake)
  modify (store_redeem_receipt batch.batch_id receipt total_stake)

unfoldable pub on_unstake : Env → M (Unit {0})
unfolding create_redeem_stake_batch_receipt
on_unstake env = do
  assert (promise_result_succeeded env) unstake_failure
  create_redeem_stake_batch_receipt env
  modify (set_redeem_lock (some pending_withdrawal))

abbrev finish_withdrawal : TimestampedNearBalance → Contract → Contract
finish_withdrawal total_near c =
    pop_redeem_stake_batch (record c { total_near = total_near; redeem_stake_batch_lock = none })

-- The withdrawn NEAR becomes NEAR that accounts can withdraw, and the redeem workflow ends.
unfoldable pub finalize_redeem_batch : Env → M ℕ
finalize_redeem_batch env = do
  c ← self
  batch ← expect c.redeem_stake_batch redeem_stake_batch_should_exist
  receipt ←
      expect (Dict.get batch.batch_id c.redeem_stake_batch_receipts)
        redeem_stake_batch_receipt_should_exist
  near_value ← lift (stake_near_value receipt)
  total_near ← lift (NearBalance.credit env c.total_near near_value)
  modify (finish_withdrawal total_near)
  pure batch.batch_id

unfoldable pub on_redeeming_stake_pending_withdrawal :
    Env → StakingPoolAccount → M (PromiseOrValue ℕ)
on_redeeming_stake_pending_withdrawal env account = do
  assert (promise_result_succeeded env) get_account_failure
  if ltb 0 account.unstaked_balance
      then (do
        assert account.can_withdraw unstaked_funds_not_available_for_withdrawal
        c ← self
        schedule (
            pool_calls c.staking_pool_id (StakingPool.withdraw_all c ∷ [])
              (StakingPool.invoke_on_redeeming_stake_post_withdrawal c ∷ []))
        pure promise)
      else (do batch_id ← finalize_redeem_batch env; pure (value batch_id))

unfoldable pub on_redeeming_stake_post_withdrawal : Env → M ℕ
on_redeeming_stake_post_withdrawal env = do
  assert (promise_result_succeeded env) withdraw_all_failure
  finalize_redeem_batch env
