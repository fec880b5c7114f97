-- ===== src/Contract/Deposits.antt =====
-- Deposits into the stake batch and withdrawals from it (contract/src/contract/staking_service.rs).
pub mod Filling
pub mod Filing
pub mod Accounting
pub mod Course
pub mod Misfiling
pub mod LockedMisfiling
pub mod Taking
pub mod Withdrawing
use oysterpack_near_stake_to.Prelude.{
  ℕ, Bool, not, ◌&&◌, Option, none, some, leb, ltb, ◌==◌, if◌then◌else◌,
}
use oysterpack_near_stake_to.Near.Error.{
  deposit_required_for_stake, min_required_near_deposit, next_stake_batch_should_exist,
  stake_batch_should_exist_for_account, blocked_by_batch_running,
  no_funds_in_stake_batch_to_withdraw,
}
use oysterpack_near_stake_to.Near.Word.{add_u128}
use oysterpack_near_stake_to.Near.Env.{Env}
use oysterpack_near_stake_to.Domain.StakeTokenValue.{stake_to_near}
use oysterpack_near_stake_to.Domain.Batch.{StakeBatch, new_stake_batch, add_near, remove_near}
use oysterpack_near_stake_to.Domain.Account.{Account, RegisteredAccount, stake_batch_by_id}
use oysterpack_near_stake_to.Contract.State.{Contract, stake_batch_locked, is_unstaking, transfer}
use oysterpack_near_stake_to.Contract.Monad.{
  M, pure, panic, ◌>>=◌, ◌>>◌, lift, assert, expect, self, modify, schedule,
}
use oysterpack_near_stake_to.Contract.Accounts.{
  predecessor_registered_account, save_registered_account,
}
use oysterpack_near_stake_to.Contract.Claims.{claim_receipt_funds}

abbrev pub can_run_batch : Contract → Bool
can_run_batch c = not (stake_batch_locked c) && not (is_unstaking c)

abbrev set_batch_id_sequence : ℕ → Contract → Contract
set_batch_id_sequence n c = record c { batch_id_sequence = n }

-- `new_stake_batch`, where the contract has no batch yet.
unfoldable pub existing_or_new_stake_batch : Env → Option StakeBatch → M StakeBatch
unfolding add_u128
existing_or_new_stake_batch env (some batch) = pure batch
existing_or_new_stake_batch env none = do
  c ← self
  id ← lift (add_u128 c.batch_id_sequence 1)
  modify (set_batch_id_sequence id)
  pure (new_stake_batch env id)

abbrev pub account_batch : Env → StakeBatch → Option StakeBatch → StakeBatch
account_batch env contract_batch none = new_stake_batch env contract_batch.batch_id
account_batch env contract_batch (some batch) = batch

abbrev pub set_stake_batch : Option StakeBatch → Contract → Contract
set_stake_batch o c = record c { stake_batch = o }

abbrev pub set_next_stake_batch : Option StakeBatch → Contract → Contract
set_next_stake_batch o c = record c { next_stake_batch = o }

-- Into the current batch.
unfoldable pub deposit_current : Env → RegisteredAccount → ℕ → M (RegisteredAccount × ℕ)
deposit_current env r amount = do
  c ← self
  contract_batch ← existing_or_new_stake_batch env c.stake_batch
  filled ← lift (add_near env contract_batch amount)
  modify (set_stake_batch (some filled))
  batch ← lift (add_near env (account_batch env filled r.account.stake_batch) amount)
  pure (
    record { account = record (r.account) { stake_batch = some batch }; id = r.id },
    batch.batch_id,
  )

-- Into the next batch, while the contract runs the current one.
unfoldable pub deposit_next : Env → RegisteredAccount → ℕ → M (RegisteredAccount × ℕ)
deposit_next env r amount = do
  c ← self
  contract_batch ← existing_or_new_stake_batch env c.next_stake_batch
  filled ← lift (add_near env contract_batch amount)
  modify (set_next_stake_batch (some filled))
  batch ← lift (add_near env (account_batch env filled r.account.next_stake_batch) amount)
  pure (
    record { account = record (r.account) { next_stake_batch = some batch }; id = r.id },
    batch.batch_id,
  )

unfoldable pub deposit_near_for_account_to_stake :
    Env → RegisteredAccount → ℕ → M (RegisteredAccount × ℕ)
deposit_near_for_account_to_stake env r amount = do
  assert (ltb 0 amount) deposit_required_for_stake
  claimed ← claim_receipt_funds env r
  c ← self
  if stake_batch_locked c
      then deposit_next env claimed amount
      else deposit_current env claimed amount

-- Enough NEAR for 1000 yoctoSTAKE.
unfoldable pub check_stake_batch_min_required_near_balance : StakeBatch → M (Unit {0})
check_stake_batch_min_required_near_balance batch = do
  c ← self
  required ← lift (stake_to_near c.stake_token_value 1000)
  assert (leb required batch.balance.amount) min_required_near_deposit

unfoldable pub check_min_required_near_deposit : Account → ℕ → M (Unit {0})
check_min_required_near_deposit a batch_id = elim (stake_batch_by_id a batch_id) [
  | none ↦ pure tt
  | some batch ↦ check_stake_batch_min_required_near_balance batch
]

unfoldable pub deposit : Env → M ℕ
deposit env = do
  r ← predecessor_registered_account env
  (filled, batch_id) ← deposit_near_for_account_to_stake env r env.attached_deposit
  check_min_required_near_deposit filled.account batch_id
  save_registered_account filled
  pure batch_id

abbrev pub some_unless_zero : StakeBatch → Option StakeBatch
some_unless_zero b = if b.balance.amount == 0 then none else some b

-- Takes `amount` out of the account's and the contract's next batch, and pays it out.
unfoldable pub withdraw_from_next : Env → RegisteredAccount → StakeBatch → ℕ → M (Unit {0})
withdraw_from_next env r batch amount = do
  c ← self
  contract_batch ← expect c.next_stake_batch next_stake_batch_should_exist
  contract_rest ← lift (remove_near env contract_batch amount)
  modify (set_next_stake_batch (some_unless_zero contract_rest))
  rest ← lift (remove_near env batch amount)
  (if rest.balance.amount == 0 then pure tt else check_stake_batch_min_required_near_balance rest)
  save_registered_account (record {
    account = record (r.account) { next_stake_batch = some_unless_zero rest };
    id = r.id;
  })
  schedule (transfer env.predecessor_account_id amount)

-- The same for the current batch, which must not be running; its minimum is not checked.
unfoldable pub withdraw_from_current : Env → RegisteredAccount → StakeBatch → ℕ → M (Unit {0})
withdraw_from_current env r batch amount = do
  c ← self
  assert (can_run_batch c) blocked_by_batch_running
  contract_batch ← expect c.stake_batch stake_batch_should_exist_for_account
  contract_rest ← lift (remove_near env contract_batch amount)
  modify (set_stake_batch (some_unless_zero contract_rest))
  rest ← lift (remove_near env batch amount)
  save_registered_account
      (record { account = record (r.account) { stake_batch = some_unless_zero rest }; id = r.id })
  schedule (transfer env.predecessor_account_id amount)

-- The next batch is served first.
unfoldable pub withdraw_by_batch :
    Env → RegisteredAccount → ℕ → Option StakeBatch → Option StakeBatch → M (Unit {0})
withdraw_by_batch env r amount (some next) current = withdraw_from_next env r next amount
withdraw_by_batch env r amount none (some batch) = withdraw_from_current env r batch amount
withdraw_by_batch env r amount none none = panic no_funds_in_stake_batch_to_withdraw

unfoldable pub withdraw_from_stake_batch : Env → ℕ → M (Unit {0})
withdraw_from_stake_batch env amount = do
  r ← predecessor_registered_account env
  claimed ← claim_receipt_funds env r
  withdraw_by_batch env claimed amount claimed.account.next_stake_batch claimed.account.stake_batch

unfoldable pub withdraw_all_from_next : Env → RegisteredAccount → StakeBatch → M ℕ
withdraw_all_from_next env r batch = do
  let amount = batch.balance.amount
  c ← self
  contract_batch ← expect c.next_stake_batch next_stake_batch_should_exist
  contract_rest ← lift (remove_near env contract_batch amount)
  modify (set_next_stake_batch (some_unless_zero contract_rest))
  save_registered_account
      (record { account = record (r.account) { next_stake_batch = none }; id = r.id })
  schedule (transfer env.predecessor_account_id amount)
  pure amount

unfoldable pub withdraw_all_from_current : Env → RegisteredAccount → StakeBatch → M ℕ
withdraw_all_from_current env r batch = do
  c ← self
  assert (can_run_batch c) blocked_by_batch_running
  let amount = batch.balance.amount
  contract_batch ← expect c.stake_batch next_stake_batch_should_exist
  contract_rest ← lift (remove_near env contract_batch amount)
  modify (set_stake_batch (some_unless_zero contract_rest))
  save_registered_account
      (record { account = record (r.account) { stake_batch = none }; id = r.id })
  schedule (transfer env.predecessor_account_id amount)
  pure amount

unfoldable pub withdraw_all_by_batch :
    Env → RegisteredAccount → Option StakeBatch → Option StakeBatch → M ℕ
withdraw_all_by_batch env r (some next) current = withdraw_all_from_next env r next
withdraw_all_by_batch env r none (some batch) = withdraw_all_from_current env r batch
withdraw_all_by_batch env r none none = pure 0

unfoldable pub withdraw_all_from_stake_batch : Env → M ℕ
withdraw_all_from_stake_batch env = do
  r ← predecessor_registered_account env
  claimed ← claim_receipt_funds env r
  withdraw_all_by_batch env claimed claimed.account.next_stake_batch claimed.account.stake_batch
