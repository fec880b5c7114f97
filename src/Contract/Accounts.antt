-- ===== src/Contract/Accounts.antt =====
-- contract/src/contract/account_management.rs: registering accounts against a storage deposit, and
-- loading and saving them.
pub mod Saving
pub mod Registration
use oysterpack_near_stake_to.Prelude.{
  ℕ, Bool, true, false, not, Option, none, some, leb, ltb, if◌then◌else◌, is_some,
}
use oysterpack_near_stake_to.Prelude.Dict
use oysterpack_near_stake_to.Near.Error.{
  insufficient_storage_fee, account_already_registered, account_not_registered,
  unregister_requires_zero_balances,
}
use oysterpack_near_stake_to.Near.Word.{add_u128, sub_u128, mul_u128}
use oysterpack_near_stake_to.Near.Env.{Env}
use oysterpack_near_stake_to.Domain.Account
use oysterpack_near_stake_to.Domain.Account.{Account, RegisteredAccount, has_funds}
use oysterpack_near_stake_to.Contract.State.{Contract, transfer}
use oysterpack_near_stake_to.Contract.Monad.{
  M, pure, ◌>>=◌, ◌>>◌, lift, assert, expect, self, modify, schedule,
}

-- `account_storage_fee`
unfoldable pub account_storage_fee : M ℕ
unfolding mul_u128
account_storage_fee = do
  c ← self
  lift (mul_u128 c.config.storage_cost_per_byte c.account_storage_usage)

-- `account_registered`
abbrev pub account_registered : Env → ℕ → Contract → Bool
account_registered env account_id c = is_some (Dict.get (env.sha256 account_id) c.accounts)

-- `lookup_registered_account`
abbrev pub lookup_registered_account : Env → ℕ → Contract → Option RegisteredAccount
lookup_registered_account env account_id c = elim (Dict.get (env.sha256 account_id) c.accounts) [
  | none ↦ none
  | some a ↦ some (record { account = a; id = env.sha256 account_id })
]

unfoldable pub registered_account : Env → ℕ → M RegisteredAccount
registered_account env account_id = do
  c ← self
  expect (lookup_registered_account env account_id c) account_not_registered

unfoldable pub predecessor_registered_account : Env → M RegisteredAccount
unfolding registered_account
predecessor_registered_account env = registered_account env env.predecessor_account_id

abbrev pub store_account : ℕ → Account → Contract → Contract
store_account id a c = record c { accounts = Dict.insert id a c.accounts }

abbrev set_accounts_len : ℕ → Contract → Contract
set_accounts_len n c = record c { accounts_len = n }

-- Whether the account is new.
unfoldable pub save_account : ℕ → Account → M Bool
unfolding add_u128
save_account id a = do
  c ← self
  modify (store_account id a)
  elim (Dict.get id c.accounts) [
    | none ↦ do n ← lift (add_u128 c.accounts_len 1); modify (set_accounts_len n); pure true
    | some _ ↦ pure false
  ]

unfoldable pub save_registered_account : RegisteredAccount → M (Unit {0})
unfolding save_account
save_registered_account a = do _ ← save_account a.id a.account; pure tt

abbrev drop_account : ℕ → ℕ → Contract → Contract
drop_account id n c = record c { accounts = Dict.remove id c.accounts; accounts_len = n }

unfoldable pub delete_account : ℕ → M (Option Account)
unfolding sub_u128
delete_account id = do
  c ← self
  elim (Dict.get id c.accounts) [
    | none ↦ pure none
    | some a ↦ do n ← lift (sub_u128 c.accounts_len 1); modify (drop_account id n); pure (some a)
  ]

abbrev set_escrow : ℕ → Contract → Contract
set_escrow n c = record c { total_account_storage_escrow = n }

-- The storage fee is escrowed, and what was paid beyond it is sent back.
unfoldable pub register_account : Env → M (Unit {0})
unfolding account_storage_fee save_account
register_account env = do
  fee ← account_storage_fee
  assert (leb fee env.attached_deposit) insufficient_storage_fee
  c ← self
  escrow ← lift (add_u128 c.total_account_storage_escrow fee)
  modify (set_escrow escrow)
  is_new ← save_account (env.sha256 env.predecessor_account_id) (Account.new env fee)
  assert is_new account_already_registered
  refund ← lift (sub_u128 env.attached_deposit fee)
  if ltb 0 refund then schedule (transfer env.predecessor_account_id refund) else pure tt

unfoldable pub unregister_account : Env → M (Unit {0})
unfolding delete_account
unregister_account env = do
  deleted ← delete_account (env.sha256 env.predecessor_account_id)
  a ← expect deleted account_not_registered
  assert (not (has_funds a)) unregister_requires_zero_balances
  c ← self
  escrow ← lift (sub_u128 c.total_account_storage_escrow a.storage_escrow.amount)
  modify (set_escrow escrow)
  schedule (transfer env.predecessor_account_id a.storage_escrow.amount)
