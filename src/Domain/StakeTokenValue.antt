-- ===== src/Domain/StakeTokenValue.antt =====
-- contract/src/domain/stake_token_value.rs: the STAKE token value at a block, and the conversions
-- between NEAR and STAKE.
pub mod Rounding
use oysterpack_near_stake_to.Prelude.{ℕ, ◌+◌, ◌*◌, ◌/◌, ◌%◌, leb, ltb, ◌==◌, ◌||◌, if◌then◌else◌}
use oysterpack_near_stake_to.Near.Error.{
  Result, ok, ◌>>=◌, ◌>>◌, assert, staked_balance_below_stake_supply,
}
use oysterpack_near_stake_to.Near.Word.{as_u128, div_u256, add_u128}
use oysterpack_near_stake_to.Near.Env.{Env}

pub record BlockTimeHeight : Type 0 where
  pub block_height : ℕ
  pub block_timestamp : ℕ
  pub epoch_height : ℕ

abbrev pub from_env : Env → BlockTimeHeight
from_env env = record {
  block_height = env.block_index;
  block_timestamp = env.block_timestamp;
  epoch_height = env.epoch_height;
}

pub record StakeTokenValue : Type 0 where
  pub block_time_height : BlockTimeHeight
  pub total_staked_near_balance : ℕ
  pub total_stake_supply : ℕ

-- `StakeTokenValue::default()`
abbrev pub default : StakeTokenValue
default = record {
  block_time_height = record { block_height = 0; block_timestamp = 0; epoch_height = 0 };
  total_staked_near_balance = 0;
  total_stake_supply = 0;
}

unfoldable pub new : BlockTimeHeight → ℕ → ℕ → Result StakeTokenValue
new height staked supply = do
  assert (leb supply staked) staked_balance_below_stake_supply
  ok (record {
    block_time_height = height;
    total_staked_near_balance = staked;
    total_stake_supply = supply;
  })

unfoldable pub near_to_stake : StakeTokenValue → ℕ → Result ℕ
near_to_stake v near =
    if v.total_staked_near_balance == 0
    then ok near
    else as_u128 (near * v.total_stake_supply / v.total_staked_near_balance)

-- The quotient rounded up, as `stake_to_near` computes it.
unfoldable pub round_up : ℕ → ℕ → Result ℕ
round_up product near_value =
    if product == 0 then as_u128 near_value else (do n ← as_u128 near_value; add_u128 n 1)

unfoldable pub stake_to_near : StakeTokenValue → ℕ → Result ℕ
unfolding round_up
stake_to_near v stake =
    if v.total_staked_near_balance == 0 || ltb v.total_staked_near_balance v.total_stake_supply
    then ok stake
    else (do
      let product = stake * v.total_staked_near_balance
      near_value ← div_u256 product v.total_stake_supply
      round_up (product % v.total_stake_supply) near_value)
