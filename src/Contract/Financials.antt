-- ===== src/Contract/Financials.antt =====
-- contract/src/contract/financials.rs: the contract's balances, and how its earnings are shared.
pub mod Sharing
use oysterpack_near_stake_to.Prelude.{ℕ, ◌/◌, ltb, if◌then◌else◌}
use oysterpack_near_stake_to.Near.Error
use oysterpack_near_stake_to.Near.Error.{Result, ok}
use oysterpack_near_stake_to.Near.Word.{
  add_u128, sub_u128, mul_u128, saturating_sub, saturating_add, yocto,
}
use oysterpack_near_stake_to.Near.Env.{Env}
use oysterpack_near_stake_to.Domain.Account.{stake_batch_amount}
use oysterpack_near_stake_to.Contract.State.{Contract}
use oysterpack_near_stake_to.Contract.Monad.{M, pure, ◌>>=◌, ◌>>◌, lift, self, modify}

-- `CONTRACT_MIN_OPERATIONAL_BALANCE`
abbrev pub contract_min_operational_balance : ℕ
contract_min_operational_balance = yocto

unfoldable pub total_contract_storage_usage_cost : Env → Contract → Result ℕ
unfolding mul_u128
total_contract_storage_usage_cost env c = mul_u128 env.storage_usage c.config.storage_cost_per_byte

unfoldable pub total_available_balance : Env → Contract → Result ℕ
unfolding total_contract_storage_usage_cost sub_u128
total_available_balance env c =
    Error.◌>>=◌ (total_contract_storage_usage_cost env c) λ cost. sub_u128 env.account_balance cost

unfoldable pub customer_batched_stake_deposits : Contract → Result ℕ
unfolding add_u128
customer_batched_stake_deposits c =
    add_u128 (stake_batch_amount c.stake_batch) (stake_batch_amount c.next_stake_batch)

unfoldable pub total_user_accounts_balance : Contract → Result ℕ
unfolding customer_batched_stake_deposits add_u128
total_user_accounts_balance c = Error.◌>>=◌ (customer_batched_stake_deposits c) λ deposits.
    Error.◌>>=◌ (add_u128 deposits c.total_near.amount) λ with_near.
      Error.◌>>=◌ (add_u128 with_near c.near_liquidity_pool)
        λ with_pool. add_u128 with_pool c.total_account_storage_escrow

-- The gas rewards that the contract has accumulated.
unfoldable pub contract_earnings : Env → Contract → Result ℕ
contract_earnings env c = Error.◌>>=◌ (total_user_accounts_balance c) λ users. ok (
    saturating_sub
      (saturating_sub (saturating_sub env.account_balance c.contract_owner_balance) users)
      c.collected_earnings)

unfoldable pub total_earnings : Env → Contract → Result ℕ
unfolding contract_earnings add_u128
total_earnings env c =
    Error.◌>>=◌ (contract_earnings env c) λ earned. add_u128 earned c.collected_earnings

unfoldable pub contract_owner_share : Contract → ℕ → Result ℕ
unfolding mul_u128
contract_owner_share c amount = mul_u128 (amount / 100) c.config.contract_owner_earnings_percentage

unfoldable pub contract_owner_earnings : Env → Contract → Result ℕ
contract_owner_earnings env c =
    Error.◌>>=◌ (total_earnings env c) λ total. contract_owner_share c total

unfoldable pub user_accounts_earnings : Env → Contract → Result ℕ
unfolding sub_u128
user_accounts_earnings env c =
    Error.◌>>=◌ (total_earnings env c)
      λ total. Error.◌>>=◌ (contract_owner_earnings env c) λ owner. sub_u128 total owner

unfoldable pub contract_owner_storage_usage_cost : Contract → Result ℕ
unfolding mul_u128
contract_owner_storage_usage_cost c =
    mul_u128 c.contract_initial_storage_usage c.config.storage_cost_per_byte

unfoldable pub owner_available_balance : Contract → Result ℕ
unfolding contract_owner_storage_usage_cost sub_u128
owner_available_balance c = Error.◌>>=◌ (contract_owner_storage_usage_cost c) λ cost.
    Error.◌>>=◌ (sub_u128 c.contract_owner_balance cost) λ balance.
      if ltb contract_min_operational_balance balance
      then sub_u128 balance contract_min_operational_balance
      else ok 0

-- `interface::ContractBalances`, less its block.
pub record ContractBalances : Type 0 where
  pub total_contract_balance : ℕ
  pub total_contract_storage_usage_cost : ℕ
  pub total_available_balance : ℕ
  pub total_user_accounts_balance : ℕ
  pub customer_batched_stake_deposits : ℕ
  pub total_available_unstaked_near : ℕ
  pub near_liquidity_pool : ℕ
  pub total_account_storage_escrow : ℕ
  pub contract_owner_storage_usage_cost : ℕ
  pub contract_owner_available_balance : ℕ
  pub contract_owner_balance : ℕ
  pub contract_earnings : ℕ
  pub contract_owner_earnings : ℕ
  pub user_accounts_earnings : ℕ
  pub collected_earnings : ℕ
  pub contract_required_operational_balance : ℕ

unfoldable pub balances : Env → Contract → Result ContractBalances
balances env c = Error.◌>>=◌ (total_contract_storage_usage_cost env c) λ storage.
    Error.◌>>=◌ (total_available_balance env c) λ available.
      Error.◌>>=◌ (total_user_accounts_balance c) λ users.
        Error.◌>>=◌ (customer_batched_stake_deposits c) λ batched.
          Error.◌>>=◌ (contract_owner_storage_usage_cost c) λ owner_storage.
            Error.◌>>=◌ (owner_available_balance c) λ owner_available.
              Error.◌>>=◌ (contract_earnings env c) λ earned.
                Error.◌>>=◌ (contract_owner_earnings env c) λ owner_earned.
                  Error.◌>>=◌ (user_accounts_earnings env c) λ users_earned. ok (record {
                    total_contract_balance = env.account_balance;
                    total_contract_storage_usage_cost = storage;
                    total_available_balance = available;
                    total_user_accounts_balance = users;
                    customer_batched_stake_deposits = batched;
                    total_available_unstaked_near = c.total_near.amount;
                    near_liquidity_pool = c.near_liquidity_pool;
                    total_account_storage_escrow = c.total_account_storage_escrow;
                    contract_owner_storage_usage_cost = owner_storage;
                    contract_owner_available_balance = owner_available;
                    contract_owner_balance = c.contract_owner_balance;
                    contract_earnings = earned;
                    contract_owner_earnings = owner_earned;
                    user_accounts_earnings = users_earned;
                    collected_earnings = c.collected_earnings;
                    contract_required_operational_balance = contract_min_operational_balance;
                  })

abbrev set_earnings : ℕ → ℕ → Contract → Contract
set_earnings owner users c = record c {
  contract_owner_balance = saturating_add c.contract_owner_balance owner;
  near_liquidity_pool = saturating_add c.near_liquidity_pool users;
  collected_earnings = 0;
}

unfoldable pub distribute_earnings : Env → M (Unit {0})
distribute_earnings env = do
  c ← self
  owner ← lift (contract_owner_earnings env c)
  users ← lift (user_accounts_earnings env c)
  modify (set_earnings owner users)

abbrev set_collected_earnings : ℕ → Contract → Contract
set_collected_earnings n c = record c { collected_earnings = n }

-- Adds the contract's whole balance, `env::account_balance()`.
unfoldable pub deposit_earnings : Env → M ℕ
unfolding add_u128
deposit_earnings env = do
  c ← self
  earnings ← lift (add_u128 c.collected_earnings env.account_balance)
  modify (set_collected_earnings earnings)
  pure earnings
