-- ===== src/Domain/Batch.antt =====
-- contract/src/domain/: batch_id.rs, stake_batch.rs and redeem_stake_batch.rs. A batch gathers NEAR
-- to stake or STAKE to redeem under a batch ID.
use oysterpack_near_stake_to.Prelude.{ℕ}
use oysterpack_near_stake_to.Near.Error.{Result, ok, ◌>>=◌}
use oysterpack_near_stake_to.Near.Env.{Env}
use oysterpack_near_stake_to.Domain.NearBalance
use oysterpack_near_stake_to.Domain.NearBalance.{TimestampedNearBalance}
use oysterpack_near_stake_to.Domain.StakeBalance
use oysterpack_near_stake_to.Domain.StakeBalance.{TimestampedStakeBalance}

pub record StakeBatch : Type 0 where
  pub batch_id : ℕ
  pub balance : TimestampedNearBalance

pub record RedeemStakeBatch : Type 0 where
  pub batch_id : ℕ
  pub balance : TimestampedStakeBalance

-- `BatchId::new_stake_batch`
abbrev pub new_stake_batch : Env → ℕ → StakeBatch
new_stake_batch env id = record { batch_id = id; balance = NearBalance.new env 0 }

-- `BatchId::new_redeem_stake_batch`
abbrev pub new_redeem_stake_batch : Env → ℕ → RedeemStakeBatch
new_redeem_stake_batch env id = record { batch_id = id; balance = StakeBalance.new env 0 }

-- `StakeBatch::add` and `StakeBatch::remove`
unfoldable pub add_near : Env → StakeBatch → ℕ → Result StakeBatch
unfolding NearBalance.credit
add_near env b amount = do
  balance ← NearBalance.credit env b.balance amount
  ok (record b { balance = balance })

unfoldable pub remove_near : Env → StakeBatch → ℕ → Result StakeBatch
unfolding NearBalance.debit
remove_near env b amount = do
  balance ← NearBalance.debit env b.balance amount
  ok (record b { balance = balance })

-- `RedeemStakeBatch::add` and `RedeemStakeBatch::remove`
unfoldable pub add_stake : Env → RedeemStakeBatch → ℕ → Result RedeemStakeBatch
unfolding StakeBalance.credit
add_stake env b amount = do
  balance ← StakeBalance.credit env b.balance amount
  ok (record b { balance = balance })

unfoldable pub remove_stake : Env → RedeemStakeBatch → ℕ → Result RedeemStakeBatch
unfolding StakeBalance.debit
remove_stake env b amount = do
  balance ← StakeBalance.debit env b.balance amount
  ok (record b { balance = balance })
