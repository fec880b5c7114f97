-- ===== src/Domain/Receipt.antt =====
-- contract/src/domain/: stake_batch_receipt.rs and redeem_stake_batch_receipt.rs. A receipt of a
-- processed batch counts down what its accounts have yet to claim.
use oysterpack_near_stake_to.Prelude.{ℕ, Bool, leb, ◌==◌}
use oysterpack_near_stake_to.Near.Error.{Result, ok, ◌>>=◌}
use oysterpack_near_stake_to.Near.Word.{sub_u128, add_u64}
use oysterpack_near_stake_to.Near.Env.{Env}
use oysterpack_near_stake_to.Domain.StakeTokenValue.{StakeTokenValue, stake_to_near}
use oysterpack_near_stake_to.Domain.Batch.{RedeemStakeBatch}

pub record StakeBatchReceipt : Type 0 where
  pub staked_near : ℕ
  pub stake_token_value : StakeTokenValue

unfoldable pub stake_tokens_issued : StakeBatchReceipt → ℕ → Result StakeBatchReceipt
stake_tokens_issued r staked_near = do
  rest ← sub_u128 r.staked_near staked_near
  ok (record r { staked_near = rest })

abbrev pub all_stake_claimed : StakeBatchReceipt → Bool
all_stake_claimed r = r.staked_near == 0

pub record RedeemStakeBatchReceipt : Type 0 where
  pub redeemed_stake : ℕ
  pub stake_token_value : StakeTokenValue

-- `RedeemStakeBatch::create_receipt`
abbrev pub create_receipt : RedeemStakeBatch → StakeTokenValue → RedeemStakeBatchReceipt
create_receipt b value = record { redeemed_stake = b.balance.amount; stake_token_value = value }

unfoldable pub stake_tokens_redeemed : RedeemStakeBatchReceipt → ℕ → Result RedeemStakeBatchReceipt
stake_tokens_redeemed r redeemed_stake = do
  rest ← sub_u128 r.redeemed_stake redeemed_stake
  ok (record r { redeemed_stake = rest })

abbrev pub all_near_claimed : RedeemStakeBatchReceipt → Bool
all_near_claimed r = r.redeemed_stake == 0

-- `RedeemStakeBatchReceipt::stake_near_value`
abbrev pub stake_near_value : RedeemStakeBatchReceipt → Result ℕ
stake_near_value r = stake_to_near r.stake_token_value r.redeemed_stake

-- `UNSTAKED_NEAR_FUNDS_NUM_EPOCHS_TO_UNLOCK`
abbrev pub num_epochs_to_unlock : ℕ
num_epochs_to_unlock = 4

unfoldable pub unstaked_near_withdrawal_availability : RedeemStakeBatchReceipt → Result ℕ
unstaked_near_withdrawal_availability r =
    add_u64 r.stake_token_value.block_time_height.epoch_height num_epochs_to_unlock

unfoldable pub unstaked_funds_available_for_withdrawal : Env → RedeemStakeBatchReceipt → Result Bool
unfolding unstaked_near_withdrawal_availability
unstaked_funds_available_for_withdrawal env r = do
  epoch ← unstaked_near_withdrawal_availability r
  ok (leb epoch env.epoch_height)
