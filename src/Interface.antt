-- ===== src/Interface.antt =====
-- contract/src/interface/model/: what the views report of a receipt, a batch and an account. Where a
-- type there has the fields of the domain's type, with its numbers as strings, the domain's type
-- stands for both.
use oysterpack_near_stake_to.Prelude.{ℕ, Option, none, some}
use oysterpack_near_stake_to.Near.Error.{Result, ok, ◌>>=◌}
use oysterpack_near_stake_to.Near.Word.{yocto}
use oysterpack_near_stake_to.Domain.NearBalance.{TimestampedNearBalance}
use oysterpack_near_stake_to.Domain.StakeBalance.{TimestampedStakeBalance}
use oysterpack_near_stake_to.Domain.StakeTokenValue as Value
use oysterpack_near_stake_to.Domain.StakeTokenValue.{BlockTimeHeight, near_to_stake, stake_to_near}
use oysterpack_near_stake_to.Domain.Batch
use oysterpack_near_stake_to.Domain.Batch.{StakeBatch}
use oysterpack_near_stake_to.Domain.Receipt
use oysterpack_near_stake_to.Domain.Receipt.{stake_near_value}

pub record StakeTokenValue : Type 0 where
  pub block_time_height : BlockTimeHeight
  pub total_staked_near_balance : ℕ
  pub total_stake_supply : ℕ
  -- of one STAKE token
  pub value : ℕ

unfoldable pub report_stake_token_value : Value.StakeTokenValue → Result StakeTokenValue
report_stake_token_value v = do
  value ← stake_to_near v yocto
  ok (record {
    block_time_height = v.block_time_height;
    total_staked_near_balance = v.total_staked_near_balance;
    total_stake_supply = v.total_stake_supply;
    value = value;
  })

-- Back to the domain's type.
abbrev pub read_stake_token_value : StakeTokenValue → Value.StakeTokenValue
read_stake_token_value v = record {
  block_time_height = v.block_time_height;
  total_staked_near_balance = v.total_staked_near_balance;
  total_stake_supply = v.total_stake_supply;
}

pub record StakeBatchReceipt : Type 0 where
  pub staked_near : ℕ
  pub stake_minted : ℕ
  pub stake_token_value : StakeTokenValue

unfoldable pub report_stake_batch_receipt : Receipt.StakeBatchReceipt → Result StakeBatchReceipt
unfolding report_stake_token_value
report_stake_batch_receipt r = do
  value ← report_stake_token_value r.stake_token_value
  minted ← near_to_stake r.stake_token_value r.staked_near
  ok (record { staked_near = r.staked_near; stake_minted = minted; stake_token_value = value })

pub record RedeemStakeBatchReceipt : Type 0 where
  pub redeemed_stake : ℕ
  pub stake_token_value : StakeTokenValue
  pub redeemed_stake_value : ℕ

unfoldable pub report_redeem_stake_batch_receipt :
    Receipt.RedeemStakeBatchReceipt → Result RedeemStakeBatchReceipt
unfolding report_stake_token_value
report_redeem_stake_batch_receipt r = do
  value ← report_stake_token_value r.stake_token_value
  near ← stake_near_value r
  ok (record {
    redeemed_stake = r.redeemed_stake;
    stake_token_value = value;
    redeemed_stake_value = near;
  })

pub record RedeemStakeBatch : Type 0 where
  pub id : ℕ
  pub balance : TimestampedStakeBalance
  -- present while the pool holds the unstaked NEAR
  pub receipt : Option RedeemStakeBatchReceipt
  pub redeemed_stake_value : Option ℕ

-- `RedeemStakeBatch::from`: the value is that of the batch's STAKE, not of the receipt's.
unfoldable pub report_redeem_stake_batch :
    Batch.RedeemStakeBatch → Option RedeemStakeBatchReceipt → Result RedeemStakeBatch
report_redeem_stake_batch b none =
    ok
      (record { id = b.batch_id; balance = b.balance; receipt = none; redeemed_stake_value = none })
report_redeem_stake_batch b (some r) = do
  near ← stake_to_near (read_stake_token_value r.stake_token_value) b.balance.amount
  ok (record {
    id = b.batch_id;
    balance = b.balance;
    receipt = some r;
    redeemed_stake_value = some near;
  })

pub record StakeAccount : Type 0 where
  pub storage_escrow : TimestampedNearBalance
  pub near : Option TimestampedNearBalance
  pub stake : Option TimestampedStakeBalance
  pub stake_batch : Option StakeBatch
  pub next_stake_batch : Option StakeBatch
  pub redeem_stake_batch : Option RedeemStakeBatch
  pub next_redeem_stake_batch : Option RedeemStakeBatch
  pub contract_near_liquidity : Option ℕ
