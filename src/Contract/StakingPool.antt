-- ===== src/Contract/StakingPool.antt =====
-- contract/src/contract/staking_pool.rs: the batched calls of the staking pool, and the callbacks
-- that the workflows chain to them (the `invoke_…` functions of contract/src/contract/).
use oysterpack_near_stake_to.Prelude.{ℕ, Option}
use oysterpack_near_stake_to.Near.Error
use oysterpack_near_stake_to.Near.Error.{Result, ok}
use oysterpack_near_stake_to.Near.Word.{sub_u128}
use oysterpack_near_stake_to.Near.Env.{Env}
use oysterpack_near_stake_to.Config.Gas.{tgas}
use oysterpack_near_stake_to.Contract.State.{
  Contract, PoolMethod, FunctionCall, Callback, CallbackMethod,
}

module _ (c : Contract) where
  abbrev pub ping : FunctionCall
  ping = record {
    method = PoolMethod.ping;
    deposit = 0;
    gas = c.config.gas_config.staking_pool.ping;
  }

  abbrev pub get_account : FunctionCall
  get_account = record {
    method = PoolMethod.get_account;
    deposit = 0;
    gas = c.config.gas_config.staking_pool.get_account;
  }

  -- `deposit_then_stake` is this call, then `stake`.
  abbrev pub deposit : ℕ → FunctionCall
  deposit deposit_amount = record {
    method = PoolMethod.deposit;
    deposit = deposit_amount;
    gas = c.config.gas_config.staking_pool.deposit;
  }

  abbrev pub stake : ℕ → FunctionCall
  stake amount = record {
    method = PoolMethod.stake amount;
    deposit = 0;
    gas = c.config.gas_config.staking_pool.stake;
  }

  abbrev pub deposit_and_stake : ℕ → FunctionCall
  deposit_and_stake amount = record {
    method = PoolMethod.deposit_and_stake;
    deposit = amount;
    gas = c.config.gas_config.staking_pool.deposit_and_stake;
  }

  abbrev pub withdraw_all : FunctionCall
  withdraw_all = record {
    method = PoolMethod.withdraw_all;
    deposit = 0;
    gas = c.config.gas_config.staking_pool.withdraw;
  }

  abbrev pub unstake : ℕ → FunctionCall
  unstake amount = record {
    method = PoolMethod.unstake amount;
    deposit = 0;
    gas = c.config.gas_config.staking_pool.unstake;
  }

  abbrev pub unstake_all : FunctionCall
  unstake_all = record {
    method = PoolMethod.unstake_all;
    deposit = 0;
    gas = c.config.gas_config.staking_pool.unstake;
  }

  abbrev pub invoke_on_run_stake_batch : Callback
  invoke_on_run_stake_batch = record {
    method = CallbackMethod.on_run_stake_batch;
    gas = c.config.gas_config.callbacks.on_run_stake_batch;
  }

  abbrev pub invoke_clear_stake_lock : Callback
  invoke_clear_stake_lock = record {
    method = CallbackMethod.clear_stake_lock;
    gas = c.config.gas_config.callbacks.unlock;
  }

  abbrev pub invoke_on_deposit_and_stake : Option ℕ → Callback
  invoke_on_deposit_and_stake near_liquidity = record {
    method = CallbackMethod.on_deposit_and_stake near_liquidity;
    gas = c.config.gas_config.callbacks.on_deposit_and_stake;
  }

  -- The remaining gas is passed on: prepaid less used, less one promise, less 1 TGas.
  unfoldable pub invoke_process_stake_batch : Env → Result Callback
  unfolding sub_u128
  invoke_process_stake_batch env = Error.◌>>=◌ (sub_u128 env.prepaid_gas env.used_gas) λ unused.
      Error.◌>>=◌ (sub_u128 unused c.config.gas_config.function_call_promise) λ rest.
        Error.◌>>=◌ (sub_u128 rest tgas)
          λ gas. ok (record { method = CallbackMethod.process_staked_batch; gas = gas })

  abbrev pub invoke_on_run_redeem_stake_batch : Callback
  invoke_on_run_redeem_stake_batch = record {
    method = CallbackMethod.on_run_redeem_stake_batch;
    gas = c.config.gas_config.callbacks.on_run_redeem_stake_batch;
  }

  abbrev pub invoke_clear_redeem_lock : Callback
  invoke_clear_redeem_lock = record {
    method = CallbackMethod.clear_redeem_lock;
    gas = c.config.gas_config.callbacks.unlock;
  }

  abbrev pub invoke_on_redeeming_stake_pending_withdrawal : Callback
  invoke_on_redeeming_stake_pending_withdrawal = record {
    method = CallbackMethod.on_redeeming_stake_pending_withdrawal;
    gas = c.config.gas_config.callbacks.on_redeeming_stake_pending_withdrawal;
  }

  abbrev pub invoke_on_redeeming_stake_post_withdrawal : Callback
  invoke_on_redeeming_stake_post_withdrawal = record {
    method = CallbackMethod.on_redeeming_stake_post_withdrawal;
    gas = c.config.gas_config.callbacks.on_redeeming_stake_post_withdrawal;
  }

  abbrev pub invoke_on_unstake : Callback
  invoke_on_unstake = record {
    method = CallbackMethod.on_unstake;
    gas = c.config.gas_config.callbacks.on_unstake;
  }

  abbrev pub invoke_refresh_stake_token_value : Callback
  invoke_refresh_stake_token_value = record {
    method = CallbackMethod.on_refresh_stake_token_value;
    gas = c.config.gas_config.callbacks.on_refresh_stake_token_value;
  }
