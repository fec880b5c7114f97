-- ===== src/Domain/NearBalance.antt =====
-- contract/src/domain/timestamped_near_balance.rs: an amount of NEAR with the block in which it
-- changed last.
use oysterpack_near_stake_to.Prelude.{ℕ, leb, ◌==◌, if◌then◌else◌}
use oysterpack_near_stake_to.Near.Error.{Result, ok, ◌>>=◌, ◌>>◌, assert, balance_too_low}
use oysterpack_near_stake_to.Near.Word.{add_u128, sub_u128}
use oysterpack_near_stake_to.Near.Env.{Env}

pub record TimestampedNearBalance : Type 0 where
  pub amount : ℕ
  pub block_height : ℕ
  pub block_timestamp : ℕ
  pub epoch_height : ℕ

abbrev pub new : Env → ℕ → TimestampedNearBalance
new env balance = record {
  amount = balance;
  block_height = env.block_index;
  block_timestamp = env.block_timestamp;
  epoch_height = env.epoch_height;
}

abbrev pub update_timestamp : Env → TimestampedNearBalance → TimestampedNearBalance
update_timestamp env b = record b {
  block_height = env.block_index;
  block_timestamp = env.block_timestamp;
  epoch_height = env.epoch_height;
}

unfoldable pub credit : Env → TimestampedNearBalance → ℕ → Result TimestampedNearBalance
unfolding add_u128
credit env b amount =
    if amount == 0
    then ok b
    else (do sum ← add_u128 b.amount amount; ok (update_timestamp env (record b { amount = sum })))

unfoldable pub debit : Env → TimestampedNearBalance → ℕ → Result TimestampedNearBalance
unfolding sub_u128
debit env b amount = if amount == 0 then ok b else (do
  assert (leb amount b.amount) balance_too_low
  rest ← sub_u128 b.amount amount
  ok (update_timestamp env (record b { amount = rest })))
