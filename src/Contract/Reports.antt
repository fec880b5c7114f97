-- ===== src/Contract/Reports.antt =====
-- The views that report the contract's fields: contract/src/contract/operator.rs and the views of
-- contract/src/contract/staking_service.rs, account_management.rs and contract_owner.rs.
use oysterpack_near_stake_to.Prelude.{ℕ, Option, none, some}
use oysterpack_near_stake_to.Prelude.Dict
use oysterpack_near_stake_to.Near.Error.{Result, ok, ◌>>=◌}
use oysterpack_near_stake_to.Near.Word.{sub_u64}
use oysterpack_near_stake_to.Near.Env.{Env}
use oysterpack_near_stake_to.Config.{ConfigUpdate, report}
use oysterpack_near_stake_to.Interface
use oysterpack_near_stake_to.Interface.{
  report_stake_token_value, report_stake_batch_receipt, report_redeem_stake_batch_receipt,
}
use oysterpack_near_stake_to.Domain.NearBalance.{TimestampedNearBalance}
use oysterpack_near_stake_to.Domain.StakeBalance.{TimestampedStakeBalance}
use oysterpack_near_stake_to.Domain.StakeTokenValue.{BlockTimeHeight, from_env, stake_to_near}
use oysterpack_near_stake_to.Domain.Batch.{StakeBatch}
use oysterpack_near_stake_to.Domain.Lock.{StakeLock, RedeemLock}
use oysterpack_near_stake_to.Contract.State.{Contract}
use oysterpack_near_stake_to.Contract.TokenValue.{get_pending_withdrawal}
use oysterpack_near_stake_to.Contract.Financials.{ContractBalances, balances}
use oysterpack_near_stake_to.Contract.Views.{report_optional_batch}

abbrev pub staking_pool_id : Contract → ℕ
staking_pool_id c = c.staking_pool_id

abbrev pub owner_id : Contract → ℕ
owner_id c = c.owner_id

abbrev pub operator_id : Contract → ℕ
operator_id c = c.operator_id

abbrev pub total_registered_accounts : Contract → ℕ
total_registered_accounts c = c.accounts_len

-- `config`
abbrev pub reported_config : Contract → ConfigUpdate
reported_config c = report c.config

unfoldable pub stake_batch_receipt : ℕ → Contract → Result (Option Interface.StakeBatchReceipt)
stake_batch_receipt id c = elim (Dict.get id c.stake_batch_receipts) [
  | none ↦ ok none
  | some receipt ↦ do reported ← report_stake_batch_receipt receipt; ok (some reported)
]

unfoldable pub pending_withdrawal : Contract → Result (Option Interface.RedeemStakeBatchReceipt)
pending_withdrawal c = elim (get_pending_withdrawal c) [
  | none ↦ ok none
  | some receipt ↦ do reported ← report_redeem_stake_batch_receipt receipt; ok (some reported)
]

-- `min_required_near_deposit`
unfoldable pub min_required_deposit_to_stake : Contract → Result ℕ
min_required_deposit_to_stake c = stake_to_near c.stake_token_value 1000

-- `stake_token_value`
unfoldable pub reported_stake_token_value : Contract → Result Interface.StakeTokenValue
reported_stake_token_value c = report_stake_token_value c.stake_token_value

pub record ContractState : Type 0 where
  pub block : BlockTimeHeight
  pub config_change_block_height : ℕ
  pub staking_pool_id : ℕ
  pub registered_accounts_count : ℕ
  pub total_unstaked_near : TimestampedNearBalance
  pub total_stake_supply : TimestampedStakeBalance
  pub stake_token_value : Interface.StakeTokenValue
  pub batch_id_sequence : ℕ
  pub stake_batch : Option StakeBatch
  pub next_stake_batch : Option StakeBatch
  pub redeem_stake_batch : Option Interface.RedeemStakeBatch
  pub next_redeem_stake_batch : Option Interface.RedeemStakeBatch
  pub stake_batch_lock : Option StakeLock
  pub redeem_stake_batch_lock : Option RedeemLock
  pub balances : ContractBalances
  pub initial_storage_usage : ℕ
  pub storage_usage_growth : ℕ

unfoldable pub contract_state : Env → Contract → Result ContractState
contract_state env c = do
  value ← reported_stake_token_value c
  current ← report_optional_batch c c.redeem_stake_batch
  next ← report_optional_batch c c.next_redeem_stake_batch
  reported_balances ← balances env c
  growth ← sub_u64 env.storage_usage c.contract_initial_storage_usage
  ok (record {
    block = from_env env;
    config_change_block_height = c.config_change_block_height;
    staking_pool_id = c.staking_pool_id;
    registered_accounts_count = total_registered_accounts c;
    total_unstaked_near = c.total_near;
    total_stake_supply = c.total_stake;
    stake_token_value = value;
    batch_id_sequence = c.batch_id_sequence;
    stake_batch = c.stake_batch;
    next_stake_batch = c.next_stake_batch;
    redeem_stake_batch = current;
    next_redeem_stake_batch = next;
    stake_batch_lock = c.stake_batch_lock;
    redeem_stake_batch_lock = c.redeem_stake_batch_lock;
    balances = reported_balances;
    initial_storage_usage = c.contract_initial_storage_usage;
    storage_usage_growth = growth;
  })
