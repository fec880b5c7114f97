-- ===== src/Config/Gas.antt =====
-- The gas that contract/src/config.rs allots to calls of the staking pool and to callbacks, and
-- the validation of changes to it. `update` records have the fields of the interface model.
use oysterpack_near_stake_to.Prelude.{ℕ, ◌*◌, Bool, true, false, Option, none, some, ◌&&◌, leb}
use oysterpack_near_stake_to.Near.Error.{
  Result, ok, ◌>>=◌, ◌>>◌, assert, gas_out_of_range, gas_config_does_not_add_up,
}
use oysterpack_near_stake_to.Near.Word.{add_u64}

-- 1 teraGas
abbrev pub tgas : ℕ
tgas = 1000000000000

pub record StakingPoolGasConfig : Type 0 where
  pub deposit_and_stake : ℕ
  pub deposit : ℕ
  pub stake : ℕ
  pub unstake : ℕ
  pub withdraw : ℕ
  pub get_account : ℕ
  pub ping : ℕ

pub record CallBacksGasConfig : Type 0 where
  pub on_run_stake_batch : ℕ
  pub on_deposit_and_stake : ℕ
  pub on_unstake : ℕ
  pub unlock : ℕ
  pub on_run_redeem_stake_batch : ℕ
  pub on_redeeming_stake_pending_withdrawal : ℕ
  pub on_redeeming_stake_post_withdrawal : ℕ
  pub resolve_transfer_gas : ℕ
  pub on_refresh_stake_token_value : ℕ

pub record GasConfig : Type 0 where
  pub staking_pool : StakingPoolGasConfig
  pub callbacks : CallBacksGasConfig
  pub function_call_promise : ℕ
  pub function_call_promise_data_dependency : ℕ

pub record StakingPoolGasConfigUpdate : Type 0 where
  pub deposit_and_stake : Option ℕ
  pub deposit : Option ℕ
  pub stake : Option ℕ
  pub unstake : Option ℕ
  pub withdraw : Option ℕ
  pub get_account : Option ℕ
  pub ping : Option ℕ

pub record CallBacksGasConfigUpdate : Type 0 where
  pub on_run_stake_batch : Option ℕ
  pub on_deposit_and_stake : Option ℕ
  pub on_unstake : Option ℕ
  pub unlock : Option ℕ
  pub on_run_redeem_stake_batch : Option ℕ
  pub on_redeeming_stake_pending_withdrawal : Option ℕ
  pub on_redeeming_stake_post_withdrawal : Option ℕ
  pub resolve_transfer_gas : Option ℕ
  pub refresh_stake_token_value : Option ℕ

pub record GasConfigUpdate : Type 0 where
  pub staking_pool : Option StakingPoolGasConfigUpdate
  pub callbacks : Option CallBacksGasConfigUpdate
  pub function_call_promise : Option ℕ
  pub function_call_promise_data_dependency : Option ℕ

-- `StakingPoolGasConfig::default()`
abbrev pub default_staking_pool : StakingPoolGasConfig
default_staking_pool = record {
  deposit_and_stake = tgas * 45;
  deposit = tgas * 45;
  stake = tgas * 45;
  unstake = tgas * 45;
  withdraw = tgas * 45;
  get_account = tgas * 5;
  ping = tgas * 45;
}

-- `CallBacksGasConfig::default()`
abbrev pub default_callbacks : CallBacksGasConfig
default_callbacks = record {
  on_run_stake_batch = tgas * 135;
  on_deposit_and_stake = tgas * 15;
  on_unstake = tgas * 5;
  unlock = tgas * 4;
  on_run_redeem_stake_batch = tgas * 85;
  on_redeeming_stake_pending_withdrawal = tgas * 85;
  on_redeeming_stake_post_withdrawal = tgas * 5;
  resolve_transfer_gas = tgas * 10;
  on_refresh_stake_token_value = tgas * 15;
}

-- `GasConfig::default()`
abbrev pub default_gas_config : GasConfig
default_gas_config = record {
  staking_pool = default_staking_pool;
  callbacks = default_callbacks;
  function_call_promise = tgas * 5;
  function_call_promise_data_dependency = tgas * 10;
}

unfoldable pub assert_gas_range : ℕ → ℕ → ℕ → Result (Unit {0})
assert_gas_range gas lo hi = assert (leb (tgas * lo) gas && leb gas (tgas * hi)) gas_out_of_range

-- One `if let Some(gas)` block of a `merge`: the new value, checked on demand.
unfoldable pub merge_gas : Bool → ℕ → ℕ → Option ℕ → ℕ → Result ℕ
unfolding assert_gas_range
merge_gas validate lo hi none old = ok old
merge_gas true lo hi (some gas) old = do assert_gas_range gas lo hi; ok gas
merge_gas false lo hi (some gas) old = ok gas

-- A value that is taken over unchecked.
abbrev pub or_old : Option ℕ → ℕ → ℕ
or_old none old = old
or_old (some gas) old = gas

-- `StakingPoolGasConfig::merge`, which takes no `ping`
unfoldable pub merge_staking_pool :
    StakingPoolGasConfig → StakingPoolGasConfigUpdate → Bool → Result StakingPoolGasConfig
merge_staking_pool c update validate = do
  get_account ← merge_gas validate 5 10 update.get_account c.get_account
  deposit_and_stake ← merge_gas validate 40 75 update.deposit_and_stake c.deposit_and_stake
  deposit ← merge_gas validate 5 20 update.deposit c.deposit
  stake ← merge_gas validate 40 75 update.stake c.stake
  unstake ← merge_gas validate 40 75 update.unstake c.unstake
  withdraw ← merge_gas validate 40 75 update.withdraw c.withdraw
  ok (record c {
    get_account = get_account;
    deposit_and_stake = deposit_and_stake;
    deposit = deposit;
    stake = stake;
    unstake = unstake;
    withdraw = withdraw;
  })

-- `CallBacksGasConfig::merge`, which takes no gas for refreshing the STAKE token value
unfoldable pub merge_callbacks :
    CallBacksGasConfig → CallBacksGasConfigUpdate → Bool → Result CallBacksGasConfig
merge_callbacks c update validate = do
  run_stake ← merge_gas validate 70 150 update.on_run_stake_batch c.on_run_stake_batch
  deposit ← merge_gas validate 5 10 update.on_deposit_and_stake c.on_deposit_and_stake
  on_unstake ← merge_gas validate 5 10 update.on_unstake c.on_unstake
  unlock ← merge_gas validate 5 10 update.unlock c.unlock
  run_redeem ←
      merge_gas validate 70 100 update.on_run_redeem_stake_batch c.on_run_redeem_stake_batch
  pending ←
      merge_gas validate 70 100 update.on_redeeming_stake_pending_withdrawal
        c.on_redeeming_stake_pending_withdrawal
  post ←
      merge_gas validate 5 10 update.on_redeeming_stake_post_withdrawal
        c.on_redeeming_stake_post_withdrawal
  resolve ← merge_gas validate 5 20 update.resolve_transfer_gas c.resolve_transfer_gas
  ok (record c {
    on_run_stake_batch = run_stake;
    on_deposit_and_stake = deposit;
    on_unstake = on_unstake;
    unlock = unlock;
    on_run_redeem_stake_batch = run_redeem;
    on_redeeming_stake_pending_withdrawal = pending;
    on_redeeming_stake_post_withdrawal = post;
    resolve_transfer_gas = resolve;
  })

unfoldable pub merge_optional_callbacks :
    CallBacksGasConfig → Option CallBacksGasConfigUpdate → Bool → Result CallBacksGasConfig
merge_optional_callbacks c none validate = ok c
merge_optional_callbacks c (some update) validate = merge_callbacks c update validate

unfoldable pub merge_optional_staking_pool :
    StakingPoolGasConfig → Option StakingPoolGasConfigUpdate → Bool → Result StakingPoolGasConfig
merge_optional_staking_pool c none validate = ok c
merge_optional_staking_pool c (some update) validate = merge_staking_pool c update validate

-- One of the three sums that a validated configuration must respect: `whole` covers the call, its
-- callback and 5 TGas.
unfoldable pub assert_adds_up : ℕ → ℕ → ℕ → Result (Unit {0})
unfolding add_u64
assert_adds_up whole call callback = do
  both ← add_u64 call callback
  needed ← add_u64 both (tgas * 5)
  assert (leb needed whole) gas_config_does_not_add_up

unfoldable pub validate_gas_config : GasConfig → Bool → Result (Unit {0})
validate_gas_config c false = ok tt
validate_gas_config c true = do
  assert_adds_up c.callbacks.on_run_stake_batch c.staking_pool.deposit_and_stake
      c.callbacks.on_deposit_and_stake
  assert_adds_up c.callbacks.on_run_redeem_stake_batch c.staking_pool.unstake c.callbacks.on_unstake
  assert_adds_up c.callbacks.on_redeeming_stake_pending_withdrawal c.staking_pool.withdraw
      c.callbacks.on_redeeming_stake_post_withdrawal

-- `GasConfig::merge`
unfoldable pub merge_gas_config : GasConfig → GasConfigUpdate → Bool → Result GasConfig
merge_gas_config c update validate = do
  callbacks ← merge_optional_callbacks c.callbacks update.callbacks validate
  staking_pool ← merge_optional_staking_pool c.staking_pool update.staking_pool validate
  let merged = record c {
    callbacks = callbacks;
    staking_pool = staking_pool;
    function_call_promise = or_old update.function_call_promise c.function_call_promise;
    function_call_promise_data_dependency =
        or_old update.function_call_promise_data_dependency c.function_call_promise_data_dependency;
  }
  validate_gas_config merged validate
  ok merged

-- The configuration as the view `config()` reports it, in the form in which changes are made: the
-- `From` instances of the interface model.
abbrev pub report_staking_pool : StakingPoolGasConfig → StakingPoolGasConfigUpdate
report_staking_pool c = record {
  deposit_and_stake = some c.deposit_and_stake;
  deposit = some c.deposit;
  stake = some c.stake;
  unstake = some c.unstake;
  withdraw = some c.withdraw;
  get_account = some c.get_account;
  ping = some c.ping;
}

abbrev pub report_callbacks : CallBacksGasConfig → CallBacksGasConfigUpdate
report_callbacks c = record {
  on_run_stake_batch = some c.on_run_stake_batch;
  on_deposit_and_stake = some c.on_deposit_and_stake;
  on_unstake = some c.on_unstake;
  unlock = some c.unlock;
  on_run_redeem_stake_batch = some c.on_run_redeem_stake_batch;
  on_redeeming_stake_pending_withdrawal = some c.on_redeeming_stake_pending_withdrawal;
  on_redeeming_stake_post_withdrawal = some c.on_redeeming_stake_post_withdrawal;
  resolve_transfer_gas = some c.resolve_transfer_gas;
  refresh_stake_token_value = some c.on_refresh_stake_token_value;
}

abbrev pub report_gas_config : GasConfig → GasConfigUpdate
report_gas_config c = record {
  staking_pool = some (report_staking_pool c.staking_pool);
  callbacks = some (report_callbacks c.callbacks);
  function_call_promise = some c.function_call_promise;
  function_call_promise_data_dependency = some c.function_call_promise_data_dependency;
}
