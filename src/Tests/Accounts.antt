-- ===== src/Tests/Accounts.antt =====
-- Registering, and what the owner and the operator do.
use oysterpack_near_stake_to.Prelude.{
  ℕ, ◌+◌, ◌-◌, ◌*◌, ◌/◌, ◌≡◌, ◌≤◌, refl, arith, none, some, false, [], ◌∷◌, ◌++◌,
}
use oysterpack_near_stake_to.Prelude.Dict
use oysterpack_near_stake_to.Near.Error.{ok, err}
use oysterpack_near_stake_to.Near.Env.{Env}
use oysterpack_near_stake_to.Near.Word.{add_u128, sub_u128, mul_u128}
use oysterpack_near_stake_to.Domain.Account.{Account, has_funds}
use oysterpack_near_stake_to.Contract.State.{Contract, transfer}
use oysterpack_near_stake_to.Contract.Accounts.{
  register_account, unregister_account, account_storage_fee, save_account, delete_account,
}
use oysterpack_near_stake_to.Contract.Accounts.Registration.{
  predecessor_key, storage_fee, with_account, register_account-eq, unregister_account-eq,
  unregister-register,
}
use oysterpack_near_stake_to.Contract.Financials.{
  ContractBalances, total_contract_storage_usage_cost, total_available_balance,
  customer_batched_stake_deposits, total_user_accounts_balance, contract_earnings, total_earnings,
  contract_owner_share, contract_owner_earnings, user_accounts_earnings,
  contract_owner_storage_usage_cost, owner_available_balance, balances, distribute_earnings,
  deposit_earnings,
}
use oysterpack_near_stake_to.Contract.Financials.Sharing.{
  distribute_earnings-splits, deposit_earnings-whole_balance,
}
use oysterpack_near_stake_to.Contract.Operator.{assert_predecessor_is_owner}
use oysterpack_near_stake_to.Contract.Owner.{withdraw_owner_balance}
use oysterpack_near_stake_to.Config.{report}
use oysterpack_near_stake_to.Contract.Owner.Access.{Refused, stranger-Refused}
use oysterpack_near_stake_to.Contract.Owner.Withdrawing.{paid_out, withdraw_owner_balance-repeats}
use oysterpack_near_stake_to.Tests.Sample.{env, env_with, contract, state_after}

-- Account 3 registers with one NEAR, of which 0.99 are sent back.
abbrev newcomer : Env
newcomer = record (env_with 1000000000000000000000000) { predecessor_account_id = 3 }

abbrev registered : Contract
registered = state_after (register_account newcomer contract) contract

register_runs : register_account newcomer contract ≡ ok (tt, registered)
unfolding register_account account_storage_fee save_account Dict.get Dict.insert add_u128 sub_u128
    mul_u128
register_runs = refl

register_account-eq_example :
    (Dict.get (predecessor_key newcomer) contract.accounts ≡ none)
    × (storage_fee contract ≤ newcomer.attached_deposit)
    × (registered ≡ with_account newcomer contract)
register_account-eq_example = register_account-eq newcomer contract registered register_runs

abbrev later : Env
later = record (env_with 0) { predecessor_account_id = 3; block_index = 20 }

unregister-register_example :
    unregister_account later registered
    ≡ ok (
      tt,
      record registered {
        accounts = Dict.remove (predecessor_key newcomer) registered.accounts;
        accounts_len = contract.accounts_len;
        total_account_storage_escrow = contract.total_account_storage_escrow;
        promises =
            registered.promises
            ++ transfer newcomer.predecessor_account_id (storage_fee contract) ∷ [];
      },
    )
unregister-register_example =
    unregister-register newcomer later contract registered register_runs refl refl

abbrev unregistered : Contract
unregistered = state_after (unregister_account later registered) registered

unregister_runs : unregister_account later registered ≡ ok (tt, unregistered)
unfolding unregister_account delete_account has_funds register_account account_storage_fee
    save_account Dict.get Dict.insert Dict.remove add_u128 sub_u128 mul_u128
unregister_runs = refl

unregister_account-eq_example :
    (a : Account) × (Dict.get (predecessor_key later) registered.accounts ≡ some a)
    × (has_funds a ≡ false)
    × (a.storage_escrow.amount ≤ registered.total_account_storage_escrow)
    × (unregistered ≡ record registered {
      accounts = Dict.remove (predecessor_key later) registered.accounts;
      accounts_len = registered.accounts_len - 1;
      total_account_storage_escrow =
          registered.total_account_storage_escrow - a.storage_escrow.amount;
      promises =
          registered.promises ++ transfer later.predecessor_account_id a.storage_escrow.amount ∷ [];
    })
unregister_account-eq_example = unregister_account-eq later registered unregistered unregister_runs

abbrev distributed : Contract
distributed = state_after (distribute_earnings env contract) contract

-- The earnings of the sample: the gas rewards, and the 40 that are collected.
abbrev earnings : ℕ
earnings = 1999999999999999999998959

earnings_are : total_earnings env contract ≡ ok earnings
unfolding total_earnings contract_earnings total_user_accounts_balance
    customer_batched_stake_deposits add_u128
earnings_are = refl

distribute_runs : distribute_earnings env contract ≡ ok (tt, distributed)
unfolding distribute_earnings contract_owner_earnings user_accounts_earnings contract_owner_share
    total_earnings contract_earnings total_user_accounts_balance customer_batched_stake_deposits
    add_u128 sub_u128 mul_u128
distribute_runs = refl

distribute_earnings-splits_example :
    (distributed.contract_owner_balance + distributed.near_liquidity_pool
      ≡ contract.contract_owner_balance + contract.near_liquidity_pool + earnings)
    × (distributed.contract_owner_balance
        ≡ contract.contract_owner_balance
          + earnings / 100 * contract.config.contract_owner_earnings_percentage)
    × (distributed.collected_earnings ≡ 0)
distribute_earnings-splits_example =
    distribute_earnings-splits env contract distributed earnings earnings_are (omega arith)
      (omega arith) distribute_runs

abbrev collected : Contract
collected = state_after (deposit_earnings env contract) contract

deposit_runs : deposit_earnings env contract ≡ ok (5000000000000000000000040, collected)
unfolding deposit_earnings add_u128
deposit_runs = refl

deposit_earnings-whole_balance_example :
    (collected.collected_earnings ≡ contract.collected_earnings + env.account_balance)
    × (5000000000000000000000040 ≡ collected.collected_earnings)
    × (collected ≡ record contract { collected_earnings = collected.collected_earnings })
deposit_earnings-whole_balance_example =
    deposit_earnings-whole_balance env contract collected 5000000000000000000000040 deposit_runs

-- The owner, account 1, takes one NEAR of the two that are not set aside for operation, twice.
abbrev withdrawn : Contract
withdrawn = state_after (withdraw_owner_balance env 1000000000000000000000000 contract) contract

withdraw_runs : withdraw_owner_balance env 1000000000000000000000000 contract ≡ ok (tt, withdrawn)
unfolding withdraw_owner_balance assert_predecessor_is_owner balances
    total_contract_storage_usage_cost total_available_balance customer_batched_stake_deposits
    total_user_accounts_balance contract_earnings total_earnings contract_owner_share
    contract_owner_earnings user_accounts_earnings contract_owner_storage_usage_cost
    owner_available_balance add_u128 sub_u128 mul_u128
withdraw_runs = refl

abbrev reported : ContractBalances
reported = elim (balances env withdrawn) [
  | ok b ↦ b
  | err _ ↦ record {
    total_contract_balance = 0;
    total_contract_storage_usage_cost = 0;
    total_available_balance = 0;
    total_user_accounts_balance = 0;
    customer_batched_stake_deposits = 0;
    total_available_unstaked_near = 0;
    near_liquidity_pool = 0;
    total_account_storage_escrow = 0;
    contract_owner_storage_usage_cost = 0;
    contract_owner_available_balance = 0;
    contract_owner_balance = 0;
    contract_earnings = 0;
    contract_owner_earnings = 0;
    user_accounts_earnings = 0;
    collected_earnings = 0;
    contract_required_operational_balance = 0;
  }
]

reported_runs : balances env withdrawn ≡ ok reported
unfolding withdraw_owner_balance assert_predecessor_is_owner balances
    total_contract_storage_usage_cost total_available_balance customer_batched_stake_deposits
    total_user_accounts_balance contract_earnings total_earnings contract_owner_share
    contract_owner_earnings user_accounts_earnings contract_owner_storage_usage_cost
    owner_available_balance add_u128 sub_u128 mul_u128
reported_runs = refl

withdraw_owner_balance-repeats_example :
    withdraw_owner_balance env 1000000000000000000000000 withdrawn
    ≡ ok (tt, paid_out 1000000000000000000000000 withdrawn)
withdraw_owner_balance-repeats_example =
    withdraw_owner_balance-repeats env env 1000000000000000000000000 contract withdrawn reported
      withdraw_runs refl reported_runs

-- Account 9 is neither the owner nor the operator.
abbrev stranger : Env
stranger = record (env_with 0) { predecessor_account_id = 9 }

stranger-Refused_example : Refused stranger 9 100 (report contract.config) contract
stranger-Refused_example =
    stranger-Refused stranger 9 100 (report contract.config) contract (omega arith) (omega arith)
      (omega arith)
