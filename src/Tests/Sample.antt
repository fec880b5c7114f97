-- ===== src/Tests/Sample.antt =====
-- A contract with two registered accounts, a stake batch, and a redeem batch with a receipt.
use oysterpack_near_stake_to.Prelude.{ℕ, none, some, [], ◌∷◌}
use oysterpack_near_stake_to.Near.Error.{Result, ok, err}
use oysterpack_near_stake_to.Near.Env.{Env, successful}
use oysterpack_near_stake_to.Config
use oysterpack_near_stake_to.Domain.NearBalance.{TimestampedNearBalance}
use oysterpack_near_stake_to.Domain.StakeBalance.{TimestampedStakeBalance}
use oysterpack_near_stake_to.Domain.StakeTokenValue.{StakeTokenValue}
use oysterpack_near_stake_to.Domain.Account.{Account, RegisteredAccount}
use oysterpack_near_stake_to.Contract.State.{Contract}

-- A call by account 1 with `deposit` attached; the hash is the identity.
abbrev pub env_with : ℕ → Env
env_with deposit = record {
  predecessor_account_id = 1;
  current_account_id = 0;
  attached_deposit = deposit;
  account_balance = 5000000000000000000000000;
  block_index = 10;
  block_timestamp = 1000;
  epoch_height = 3;
  storage_usage = 1000;
  prepaid_gas = 300000000000000;
  used_gas = 1000;
  promise_result = successful [];
  sha256 = λ n. n;
  token_amount_from_slice = λ bytes. some 3;
}

abbrev pub env : Env
env = env_with 1

abbrev pub near_balance : ℕ → TimestampedNearBalance
near_balance n = record { amount = n; block_height = 1; block_timestamp = 100; epoch_height = 1 }

abbrev pub stake_balance : ℕ → TimestampedStakeBalance
stake_balance n = record { amount = n; block_height = 1; block_timestamp = 100; epoch_height = 1 }

abbrev pub account_with : ℕ → Account
account_with stake = record {
  storage_escrow = near_balance 8;
  near = some (near_balance 7);
  stake = some (stake_balance stake);
  stake_batch = none;
  next_stake_batch = none;
  redeem_stake_batch = none;
  next_redeem_stake_batch = none;
}

abbrev pub registered_one : RegisteredAccount
registered_one = record { account = account_with 10; id = 1 }

-- One STAKE is worth two NEAR.
abbrev pub two_near : StakeTokenValue
two_near = record {
  block_time_height = record { block_height = 1; block_timestamp = 100; epoch_height = 1 };
  total_staked_near_balance = 4000000000000000000000000;
  total_stake_supply = 2000000000000000000000000;
}

abbrev pub contract : Contract
contract = record {
  owner_id = 1;
  contract_owner_balance = 3000000000000000000000000;
  contract_initial_storage_usage = 10;
  collected_earnings = 40;
  operator_id = 1;
  config = Config.default;
  config_change_block_height = 0;
  account_storage_usage = 100;
  total_account_storage_escrow = 16;
  accounts = (1, account_with 10) ∷ (2, account_with 0) ∷ [];
  accounts_len = 2;
  total_near = near_balance 5;
  total_stake = stake_balance 2000000000000000000000000;
  near_liquidity_pool = 20;
  stake_token_value = two_near;
  batch_id_sequence = 6;
  stake_batch = some (record { batch_id = 5; balance = near_balance 1000 });
  next_stake_batch = none;
  redeem_stake_batch = some (record { batch_id = 6; balance = stake_balance 20 });
  next_redeem_stake_batch = none;
  stake_batch_receipts = [];
  redeem_stake_batch_receipts =
      (6, record { redeemed_stake = 20; stake_token_value = two_near }) ∷ [];
  staking_pool_id = 50;
  stake_batch_lock = none;
  redeem_stake_batch_lock = none;
  promises = [];
}

-- The state in which a call ends; a panic leaves the given one.
abbrev pub state_after : {A : Type 0} → Result (A × Contract) → Contract → Contract
state_after (ok r) c = r.1
state_after (err e) c = c
