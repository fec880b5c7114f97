-- ===== src/Tests/Values.antt =====
-- The value of STAKE, and changes of the configuration.
use oysterpack_near_stake_to.Prelude.{
  ℕ, ◌+◌, ◌-◌, ◌*◌, ◌≡◌, ◌≤◌, ◌<◌, inl, refl, arith, none, some, true,
}
use oysterpack_near_stake_to.Near.Error.{ok, err, gas_out_of_range}
use oysterpack_near_stake_to.Near.Word.{add_u128, sub_u128, as_u128, div_u256, yocto}
use oysterpack_near_stake_to.Config
use oysterpack_near_stake_to.Config.{Config, ConfigUpdate}
use oysterpack_near_stake_to.Config.Gas.{
  GasConfig, GasConfigUpdate, default_gas_config, report_gas_config, tgas, assert_gas_range,
  merge_gas, merge_callbacks, merge_staking_pool, merge_optional_callbacks,
  merge_optional_staking_pool, assert_adds_up, validate_gas_config, merge_gas_config,
}
use oysterpack_near_stake_to.Config.Merging.{
  AddsUp, SameUnreachable, merge_gas_config-AddsUp, merge-SameUnreachable,
}
use oysterpack_near_stake_to.Domain.StakeTokenValue
use oysterpack_near_stake_to.Domain.StakeTokenValue.{
  StakeTokenValue, near_to_stake, stake_to_near, round_up,
}
use oysterpack_near_stake_to.Domain.StakeTokenValue.Rounding.{
  IsBacked, near_to_stake_floor, stake_to_near_ceil, near_to_stake-stake_to_near, stake_and_redeem,
}
use oysterpack_near_stake_to.Contract.State.{Contract}
use oysterpack_near_stake_to.Contract.TokenValue.{update_stake_token_value, compensate}
use oysterpack_near_stake_to.Contract.TokenValue.Worth.{update-worth_le}
use oysterpack_near_stake_to.Contract.TokenValue.Compensation.{
  compensated_again, update-update_credits_again,
}
use oysterpack_near_stake_to.Tests.Sample.{env, env_with, contract, state_after}

-- Three STAKE are worth seven NEAR.
abbrev uneven : StakeTokenValue
uneven = record {
  block_time_height = record { block_height = 1; block_timestamp = 100; epoch_height = 1 };
  total_staked_near_balance = 7000000000000000000000000;
  total_stake_supply = 3000000000000000000000000;
}

uneven-IsBacked : IsBacked uneven
uneven-IsBacked = record { positive = omega arith; backed = omega arith }

near_runs : near_to_stake uneven 10 ≡ ok 4
unfolding near_to_stake as_u128
near_runs = refl

stake_runs : stake_to_near uneven 4 ≡ ok 10
unfolding stake_to_near round_up as_u128 div_u256 add_u128
stake_runs = refl

near_to_stake_floor_example :
    (4 * uneven.total_staked_near_balance ≤ 10 * uneven.total_stake_supply)
    × (10 * uneven.total_stake_supply < (4 + 1) * uneven.total_staked_near_balance)
near_to_stake_floor_example = near_to_stake_floor uneven uneven-IsBacked 10 near_runs

stake_to_near_ceil_example :
    (4 * uneven.total_staked_near_balance ≤ 10 * uneven.total_stake_supply)
    × (10 * uneven.total_stake_supply
        < 4 * uneven.total_staked_near_balance + uneven.total_stake_supply)
stake_to_near_ceil_example = stake_to_near_ceil uneven uneven-IsBacked 4 stake_runs

near_to_stake-stake_to_near_example : near_to_stake uneven 10 ≡ ok 4
near_to_stake-stake_to_near_example =
    near_to_stake-stake_to_near uneven uneven-IsBacked 4 (omega arith) stake_runs

stake_and_redeem_example :
    (stake : ℕ) × (paid : ℕ) × (near_to_stake uneven 11 ≡ ok stake)
    × (stake_to_near uneven stake ≡ ok paid)
    × (paid ≤ 11)
stake_and_redeem_example = stake_and_redeem uneven uneven-IsBacked 11 (omega arith)

-- The pool reports 3.9 NEAR for two STAKE that were worth 4.
abbrev slashed : ℕ
slashed = 3900000000000000000000000

abbrev updated : Contract
updated = state_after (update_stake_token_value env slashed contract) contract

update_runs : update_stake_token_value env slashed contract ≡ ok (tt, updated)
unfolding update_stake_token_value compensate stake_to_near round_up StakeTokenValue.new add_u128
    sub_u128 as_u128 div_u256
update_runs = refl

two_is_worth : stake_to_near contract.stake_token_value yocto ≡ ok 2000000000000000000000000
unfolding stake_to_near round_up as_u128 div_u256 add_u128
two_is_worth = refl

update-worth_le_example :
    (new : ℕ) × (stake_to_near updated.stake_token_value yocto ≡ ok new)
    × (2000000000000000000000000 ≤ new)
    × (updated.stake_token_value.total_stake_supply ≡ contract.total_stake.amount)
    × IsBacked updated.stake_token_value
update-worth_le_example =
    update-worth_le env slashed contract updated 2000000000000000000000000 (omega arith)
      (omega arith) two_is_worth update_runs

-- What the first update added to the liquidity pool.
pool_after : updated.near_liquidity_pool ≡ 100000000000000000000020
unfolding update_stake_token_value compensate stake_to_near round_up StakeTokenValue.new add_u128
    sub_u128 as_u128 div_u256
pool_after = refl

update-update_credits_again_example :
    update_stake_token_value (env_with 0) slashed updated
    ≡ ok (
      tt,
      compensated_again
          (env_with 0)
          (updated.near_liquidity_pool - contract.near_liquidity_pool)
          updated,
    )
update-update_credits_again_example =
    update-update_credits_again env (env_with 0) slashed contract updated (omega arith) update_runs
      (omega (arith, pool_after)) (omega (arith, pool_after))

-- The operator gives the withdrawal from the pool 40 TGas.
abbrev new_gas : GasConfigUpdate
new_gas = record {
  staking_pool = some (record {
    deposit_and_stake = none;
    deposit = none;
    stake = none;
    unstake = none;
    withdraw = some (tgas * 40);
    get_account = none;
    ping = some (tgas * 20);
  });
  callbacks = none;
  function_call_promise = none;
  function_call_promise_data_dependency = none;
}

abbrev changed_gas : GasConfig
changed_gas = record default_gas_config {
  staking_pool = record (default_gas_config.staking_pool) { withdraw = tgas * 40 };
}

merge_runs : merge_gas_config default_gas_config new_gas true ≡ ok changed_gas
unfolding merge_gas_config merge_optional_callbacks merge_optional_staking_pool merge_staking_pool
    merge_gas assert_gas_range validate_gas_config assert_adds_up
merge_runs = refl

merge_gas_config-AddsUp_example : AddsUp changed_gas
merge_gas_config-AddsUp_example =
    merge_gas_config-AddsUp default_gas_config changed_gas new_gas merge_runs

-- The default, as it is reported, is refused by its own validation.
default_refused :
    merge_gas_config default_gas_config (report_gas_config default_gas_config) true
    ≡ err gas_out_of_range
unfolding merge_gas_config merge_optional_callbacks merge_optional_staking_pool merge_callbacks
    merge_staking_pool merge_gas assert_gas_range
default_refused = refl

-- The same change names another share for the owner too.
abbrev change : ConfigUpdate
change = record {
  storage_cost_per_byte = some 5;
  gas_config = some new_gas;
  contract_owner_earnings_percentage = some 10;
}

abbrev changed : Config
changed = record Config.default { storage_cost_per_byte = 5; gas_config = changed_gas }

change_runs : Config.merge Config.default change ≡ ok changed
unfolding Config.merge Config.merge_storage_cost Config.merge_optional_gas_config merge_gas_config
    merge_optional_callbacks merge_optional_staking_pool merge_staking_pool merge_gas
    assert_gas_range validate_gas_config assert_adds_up
change_runs = refl

merge-SameUnreachable_example :
    (changed.contract_owner_earnings_percentage ≡ Config.default.contract_owner_earnings_percentage)
    × SameUnreachable Config.default.gas_config changed.gas_config
merge-SameUnreachable_example =
    merge-SameUnreachable Config.default changed change (inl change_runs)
