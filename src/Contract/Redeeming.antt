-- ===== src/Contract/Redeeming.antt =====
-- Moving STAKE into the redeem batch and back (contract/src/contract/staking_service.rs).
pub mod Batches
pub mod Filling
pub mod Removing
use oysterpack_near_stake_to.Prelude.{ℕ, Option, none, some, leb, ltb, if◌then◌else◌, is_some}
use oysterpack_near_stake_to.Near.Error.{
  zero_redeem_amount, insufficient_stake_for_redeem_request, account_has_zero_stake,
  batch_balance_insufficient, redeem_stake_batch_should_exist_for_account,
  next_redeem_stake_batch_should_exist,
}
use oysterpack_near_stake_to.Near.Word.{add_u128}
use oysterpack_near_stake_to.Near.Env.{Env}
use oysterpack_near_stake_to.Domain.StakeBalance
use oysterpack_near_stake_to.Domain.StakeBalance.{TimestampedStakeBalance}
use oysterpack_near_stake_to.Domain.Batch.{
  RedeemStakeBatch, new_redeem_stake_batch, add_stake, remove_stake,
}
use oysterpack_near_stake_to.Domain.Account.{
  Account, RegisteredAccount, can_redeem, apply_stake_credit,
}
use oysterpack_near_stake_to.Contract.State.{Contract}
use oysterpack_near_stake_to.Contract.Monad.{
  M, pure, ◌>>=◌, ◌>>◌, lift, assert, expect, self, modify,
}
use oysterpack_near_stake_to.Contract.Accounts.{
  predecessor_registered_account, save_registered_account,
}
use oysterpack_near_stake_to.Contract.Claims.{claim_receipt_funds, none_if_zero}

abbrev set_batch_id_sequence : ℕ → Contract → Contract
set_batch_id_sequence n c = record c { batch_id_sequence = n }

-- `new_redeem_stake_batch`, where the contract has no batch yet.
unfoldable pub existing_or_new_redeem_batch : Env → Option RedeemStakeBatch → M RedeemStakeBatch
unfolding add_u128
existing_or_new_redeem_batch env (some batch) = pure batch
existing_or_new_redeem_batch env none = do
  c ← self
  id ← lift (add_u128 c.batch_id_sequence 1)
  modify (set_batch_id_sequence id)
  pure (new_redeem_stake_batch env id)

abbrev pub account_batch : Env → RedeemStakeBatch → Option RedeemStakeBatch → RedeemStakeBatch
account_batch env contract_batch none = new_redeem_stake_batch env contract_batch.batch_id
account_batch env contract_batch (some batch) = batch

abbrev pub set_redeem_stake_batch : Option RedeemStakeBatch → Contract → Contract
set_redeem_stake_batch o c = record c { redeem_stake_batch = o }

abbrev pub set_next_redeem_stake_batch : Option RedeemStakeBatch → Contract → Contract
set_next_redeem_stake_batch o c = record c { next_redeem_stake_batch = o }

unfoldable pub redeem_into_current : Env → Account → ℕ → M (Account × ℕ)
redeem_into_current env a amount = do
  c ← self
  contract_batch ← existing_or_new_redeem_batch env c.redeem_stake_batch
  filled ← lift (add_stake env contract_batch amount)
  modify (set_redeem_stake_batch (some filled))
  batch ← lift (add_stake env (account_batch env filled a.redeem_stake_batch) amount)
  pure (record a { redeem_stake_batch = some batch }, batch.batch_id)

unfoldable pub redeem_into_next : Env → Account → ℕ → M (Account × ℕ)
redeem_into_next env a amount = do
  c ← self
  contract_batch ← existing_or_new_redeem_batch env c.next_redeem_stake_batch
  filled ← lift (add_stake env contract_batch amount)
  modify (set_next_redeem_stake_batch (some filled))
  batch ← lift (add_stake env (account_batch env filled a.next_redeem_stake_batch) amount)
  pure (record a { next_redeem_stake_batch = some batch }, batch.batch_id)

abbrev pub stake_unless_zero : TimestampedStakeBalance → Option TimestampedStakeBalance
stake_unless_zero b = if ltb 0 b.amount then some b else none

unfoldable pub redeem_stake_for_account : Env → RegisteredAccount → ℕ → M (RegisteredAccount × ℕ)
redeem_stake_for_account env r amount = do
  assert (ltb 0 amount) zero_redeem_amount
  claimed ← claim_receipt_funds env r
  assert (can_redeem claimed.account amount) insufficient_stake_for_redeem_request
  stake ← expect claimed.account.stake account_has_zero_stake
  rest ← lift (StakeBalance.debit env stake amount)
  let debited = record (claimed.account) { stake = stake_unless_zero rest }
  c ← self
  (redeemed, id) ←
      if is_some c.redeem_stake_batch_lock
      then redeem_into_next env debited amount
      else redeem_into_current env debited amount
  pure (record { account = redeemed; id = claimed.id }, id)

unfoldable pub redeem : Env → ℕ → M ℕ
redeem env amount = do
  r ← predecessor_registered_account env
  (redeemed, id) ← redeem_stake_for_account env r amount
  save_registered_account redeemed
  pure id

unfoldable pub redeem_all : Env → M (Option ℕ)
redeem_all env = do
  r ← predecessor_registered_account env
  claimed ← claim_receipt_funds env r
  elim claimed.account.stake [
    | none ↦ pure none
    | some stake ↦ do
      (redeemed, id) ← redeem_stake_for_account env claimed stake.amount
      save_registered_account redeemed
      pure (some id)
  ]

-- Takes `amount` out of the current batch of the contract and of the account, whose batch is
-- given, and returns it to the account's STAKE balance.
unfoldable pub remove_from_current : Env → RegisteredAccount → RedeemStakeBatch → ℕ → M (Unit {0})
remove_from_current env r batch amount = do
  c ← self
  contract_batch ← expect c.redeem_stake_batch redeem_stake_batch_should_exist_for_account
  contract_rest ← lift (remove_stake env contract_batch amount)
  modify (set_redeem_stake_batch (none_if_zero contract_rest))
  credited ← lift (apply_stake_credit env r.account amount)
  rest ← lift (remove_stake env batch amount)
  save_registered_account
      (record { account = record credited { redeem_stake_batch = none_if_zero rest }; id = r.id })

unfoldable pub remove_from_next : Env → RegisteredAccount → RedeemStakeBatch → ℕ → M (Unit {0})
remove_from_next env r batch amount = do
  c ← self
  contract_batch ← expect c.next_redeem_stake_batch next_redeem_stake_batch_should_exist
  contract_rest ← lift (remove_stake env contract_batch amount)
  modify (set_next_redeem_stake_batch (none_if_zero contract_rest))
  credited ← lift (apply_stake_credit env r.account amount)
  rest ← lift (remove_stake env batch amount)
  save_registered_account (record {
    account = record credited { next_redeem_stake_batch = none_if_zero rest };
    id = r.id;
  })

unfoldable pub remove_optional :
    (RedeemStakeBatch → ℕ → M (Unit {0})) → Option RedeemStakeBatch → ℕ → M (Unit {0})
remove_optional take none amount = pure tt
remove_optional take (some batch) amount = do
  assert (leb amount batch.balance.amount) batch_balance_insufficient
  take batch amount

-- From the current batch, or from the next one while the redeem workflow is locked.
unfoldable pub remove_from_redeem_stake_batch : Env → ℕ → M (Unit {0})
remove_from_redeem_stake_batch env amount = do
  r ← predecessor_registered_account env
  claimed ← claim_receipt_funds env r
  c ← self
  if is_some c.redeem_stake_batch_lock
      then remove_optional (remove_from_next env claimed) claimed.account.next_redeem_stake_batch
          amount
      else remove_optional (remove_from_current env claimed) claimed.account.redeem_stake_batch
          amount

-- Removing all clears the account's batch outright; the amount taken out is returned.
unfoldable pub remove_all_optional :
    (RedeemStakeBatch → ℕ → M (Unit {0})) → Option RedeemStakeBatch → M ℕ
remove_all_optional take none = pure 0
remove_all_optional take (some batch) = do
  take batch batch.balance.amount
  pure batch.balance.amount

unfoldable pub remove_all_from_current :
    Env → RegisteredAccount → RedeemStakeBatch → ℕ → M (Unit {0})
remove_all_from_current env r batch amount = do
  c ← self
  contract_batch ← expect c.redeem_stake_batch redeem_stake_batch_should_exist_for_account
  contract_rest ← lift (remove_stake env contract_batch amount)
  modify (set_redeem_stake_batch (none_if_zero contract_rest))
  credited ← lift (apply_stake_credit env r.account amount)
  save_registered_account
      (record { account = record credited { redeem_stake_batch = none }; id = r.id })

unfoldable pub remove_all_from_next : Env → RegisteredAccount → RedeemStakeBatch → ℕ → M (Unit {0})
remove_all_from_next env r batch amount = do
  c ← self
  contract_batch ← expect c.next_redeem_stake_batch next_redeem_stake_batch_should_exist
  contract_rest ← lift (remove_stake env contract_batch amount)
  modify (set_next_redeem_stake_batch (none_if_zero contract_rest))
  credited ← lift (apply_stake_credit env r.account amount)
  save_registered_account
      (record { account = record credited { next_redeem_stake_batch = none }; id = r.id })

unfoldable pub remove_all_from_redeem_stake_batch : Env → M ℕ
remove_all_from_redeem_stake_batch env = do
  r ← predecessor_registered_account env
  claimed ← claim_receipt_funds env r
  c ← self
  if is_some c.redeem_stake_batch_lock
      then remove_all_optional (remove_all_from_next env claimed)
          claimed.account.next_redeem_stake_batch
      else remove_all_optional (remove_all_from_current env claimed)
          claimed.account.redeem_stake_batch
