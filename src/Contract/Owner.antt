-- ===== src/Contract/Owner.antt =====
-- contract/src/contract/contract_owner.rs: what the contract's owner may do.
pub mod Withdrawing
pub mod Access
use oysterpack_near_stake_to.Prelude.{ℕ, leb, ltb}
use oysterpack_near_stake_to.Near.Error.{
  transfer_to_non_registered_account, owner_balance_is_zero, insufficient_funds_for_owner_staking,
  insufficient_funds_for_owner_withdrawal,
}
use oysterpack_near_stake_to.Near.Env.{Env}
use oysterpack_near_stake_to.Contract.State.{Contract, transfer}
use oysterpack_near_stake_to.Contract.Monad.{
  M, pure, ◌>>=◌, ◌>>◌, lift, assert, self, modify, schedule,
}
use oysterpack_near_stake_to.Contract.Accounts.{
  account_registered, registered_account, save_registered_account,
}
use oysterpack_near_stake_to.Contract.Financials.{balances}
use oysterpack_near_stake_to.Contract.Deposits.{deposit_near_for_account_to_stake}
use oysterpack_near_stake_to.Contract.Operator.{assert_predecessor_is_owner}

abbrev set_owner : ℕ → Contract → Contract
set_owner id c = record c { owner_id = id; operator_id = id }

abbrev set_operator : ℕ → Contract → Contract
set_operator id c = record c { operator_id = id }

-- The new owner is the operator too.
unfoldable pub transfer_ownership : Env → ℕ → M (Unit {0})
unfolding assert_predecessor_is_owner
transfer_ownership env new_owner = do
  assert_predecessor_is_owner env
  c ← self
  assert (account_registered env new_owner c) transfer_to_non_registered_account
  modify (set_owner new_owner)

unfoldable pub set_operator_id : Env → ℕ → M (Unit {0})
unfolding assert_predecessor_is_owner
set_operator_id env account_id = do
  assert_predecessor_is_owner env
  c ← self
  assert (account_registered env account_id c) transfer_to_non_registered_account
  modify (set_operator account_id)

unfoldable pub stake_all_owner_balance : Env → M ℕ
stake_all_owner_balance env = do
  assert_predecessor_is_owner env
  c ← self
  r ← registered_account env c.owner_id
  b ← lift (balances env c)
  let available = b.contract_owner_available_balance
  assert (ltb 0 available) owner_balance_is_zero
  (filled, _) ← deposit_near_for_account_to_stake env r available
  save_registered_account filled
  pure available

unfoldable pub stake_owner_balance : Env → ℕ → M (Unit {0})
stake_owner_balance env amount = do
  assert_predecessor_is_owner env
  c ← self
  r ← registered_account env c.owner_id
  b ← lift (balances env c)
  let available = b.contract_owner_available_balance
  assert (leb amount available) insufficient_funds_for_owner_staking
  (filled, _) ← deposit_near_for_account_to_stake env r amount
  save_registered_account filled

unfoldable pub withdraw_all_owner_balance : Env → M ℕ
withdraw_all_owner_balance env = do
  assert_predecessor_is_owner env
  c ← self
  b ← lift (balances env c)
  let available = b.contract_owner_available_balance
  schedule (transfer c.owner_id available)
  pure available

unfoldable pub withdraw_owner_balance : Env → ℕ → M (Unit {0})
withdraw_owner_balance env amount = do
  assert_predecessor_is_owner env
  c ← self
  b ← lift (balances env c)
  let available = b.contract_owner_available_balance
  assert (leb amount available) insufficient_funds_for_owner_withdrawal
  schedule (transfer c.owner_id amount)
