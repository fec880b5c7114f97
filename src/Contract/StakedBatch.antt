-- ===== src/Contract/StakedBatch.antt =====
-- Processing a batch whose funds are staked: `process_staked_batch` and what it calls in
-- contract/src/contract/staking_workflow_callbacks.rs.
pub mod Minting
pub mod Processing
use oysterpack_near_stake_to.Prelude.{ℕ, Option, none, some, leb, ltb, if◌then◌else◌}
use oysterpack_near_stake_to.Prelude.Dict
use oysterpack_near_stake_to.Near.Error.{stake_batch_should_exist, illegal_stake_lock_state}
use oysterpack_near_stake_to.Near.Word.{add_u128, sub_u128}
use oysterpack_near_stake_to.Near.Env.{Env}
use oysterpack_near_stake_to.Domain.NearBalance
use oysterpack_near_stake_to.Domain.NearBalance.{TimestampedNearBalance}
use oysterpack_near_stake_to.Domain.StakeBalance
use oysterpack_near_stake_to.Domain.StakeBalance.{TimestampedStakeBalance}
use oysterpack_near_stake_to.Domain.StakeTokenValue.{near_to_stake}
use oysterpack_near_stake_to.Domain.Batch.{StakeBatch}
use oysterpack_near_stake_to.Domain.Receipt.{StakeBatchReceipt, stake_near_value}
use oysterpack_near_stake_to.Domain.Lock.{StakeLock, staking, staked, refreshing_stake_token_value}
use oysterpack_near_stake_to.Contract.State.{Contract, pop_stake_batch, pop_redeem_stake_batch}
use oysterpack_near_stake_to.Contract.Monad.{
  M, pure, panic, ◌>>=◌, ◌>>◌, lift, expect, self, modify,
}
use oysterpack_near_stake_to.Contract.TokenValue.{
  get_pending_withdrawal, staked_near_balance, update_stake_token_value, set_near_liquidity_pool,
}
use oysterpack_near_stake_to.Contract.Deposits.{set_stake_batch}

abbrev pub set_stake_batch_lock : Option StakeLock → Contract → Contract
set_stake_batch_lock lock c = record c { stake_batch_lock = lock }

abbrev set_total_stake : TimestampedStakeBalance → Contract → Contract
set_total_stake b c = record c { total_stake = b }

-- STAKE for the batch at the value known so far.
unfoldable pub mint_stake : Env → StakeBatch → M ℕ
mint_stake env batch = do
  c ← self
  stake_amount ← lift (near_to_stake c.stake_token_value batch.balance.amount)
  total ← lift (StakeBalance.credit env c.total_stake stake_amount)
  modify (set_total_stake total)
  pure stake_amount

-- The STAKE minted at the old value is replaced by what the batch is worth at the new one.
unfoldable pub align_stake : Env → ℕ → ℕ → M (Unit {0})
align_stake env minted batch_stake_value = do
  c ← self
  without ← lift (StakeBalance.debit env c.total_stake minted)
  total ← lift (StakeBalance.credit env without batch_stake_value)
  modify (set_total_stake total)

unfoldable pub mint_stake_and_update_stake_token_value : Env → ℕ → ℕ → StakeBatch → M (Unit {0})
mint_stake_and_update_stake_token_value env staked_balance unstaked_balance batch = do
  c ← self
  balance ← lift (staked_near_balance c staked_balance unstaked_balance)
  minted ← mint_stake env batch
  update_stake_token_value env balance
  d ← self
  batch_stake_value ← lift (near_to_stake d.stake_token_value batch.balance.amount)
  align_stake env minted batch_stake_value
  update_stake_token_value env balance

-- `create_stake_batch_receipt`
abbrev pub stake_receipt : StakeBatch → Contract → StakeBatchReceipt
stake_receipt batch c = record {
  staked_near = batch.balance.amount;
  stake_token_value = c.stake_token_value;
}

abbrev pub create_stake_batch_receipt : StakeBatch → Contract → Contract
create_stake_batch_receipt batch c = record c {
  stake_batch_receipts = Dict.insert batch.batch_id (stake_receipt batch c) c.stake_batch_receipts;
}

-- The liquidity becomes NEAR that accounts can withdraw, and the redeem workflow ends.
abbrev settle_pending_withdrawal : ℕ → TimestampedNearBalance → Contract → Contract
settle_pending_withdrawal pool total_near c = pop_redeem_stake_batch (record c {
  near_liquidity_pool = pool;
  total_near = total_near;
  redeem_stake_batch_lock = none;
})

unfoldable pub clear_pending_withdrawal : Env → M (Unit {0})
clear_pending_withdrawal env = do
  c ← self
  elim (get_pending_withdrawal c) [
    | none ↦ pure tt
    | some receipt ↦ do
      near_value ← lift (stake_near_value receipt)
      if leb near_value c.near_liquidity_pool
          then (do
            pool ← lift (sub_u128 c.near_liquidity_pool near_value)
            total_near ← lift (NearBalance.credit env c.total_near near_value)
            modify (settle_pending_withdrawal pool total_near))
          else pure tt
  ]

unfoldable pub add_near_liquidity : Env → Option ℕ → M (Unit {0})
add_near_liquidity env none = pure tt
add_near_liquidity env (some near_liquidity) =
    if ltb 0 near_liquidity
    then (do
      c ← self
      pool ← lift (add_u128 c.near_liquidity_pool near_liquidity)
      modify (set_near_liquidity_pool pool)
      clear_pending_withdrawal env)
    else pure tt

unfoldable pub finish_staked_batch : Env → StakeBatch → Option ℕ → ℕ → ℕ → M (Unit {0})
finish_staked_batch env batch near_liquidity staked_balance unstaked_balance = do
  add_near_liquidity env near_liquidity
  mint_stake_and_update_stake_token_value env staked_balance unstaked_balance batch
  modify (create_stake_batch_receipt batch)
  modify pop_stake_batch
  modify (set_stake_batch_lock none)

unfoldable pub process_by_lock : Env → StakeBatch → Option StakeLock → M (Unit {0})
process_by_lock env batch (some (staked near_liquidity staked_balance unstaked_balance)) =
    finish_staked_batch env batch near_liquidity staked_balance unstaked_balance
process_by_lock env batch (some staking) = panic illegal_stake_lock_state
process_by_lock env batch (some refreshing_stake_token_value) = panic illegal_stake_lock_state
process_by_lock env batch none = panic illegal_stake_lock_state

unfoldable pub process_staked_batch : Env → M (Unit {0})
process_staked_batch env = do
  c ← self
  batch ← expect c.stake_batch stake_batch_should_exist
  modify (set_stake_batch none)
  process_by_lock env batch c.stake_batch_lock
