-- ===== src/Tests/Backing.antt =====
-- Deposits, and what the contract holds for them.
use oysterpack_near_stake_to.Prelude.{inr, ◌+◌, ◌≡◌, refl, none, some, [], ◌∷◌, arith}
use oysterpack_near_stake_to.Prelude.Dict
use oysterpack_near_stake_to.Near.Error.{ok}
use oysterpack_near_stake_to.Near.Word.{add_u128, sub_u128, as_u128, div_u256}
use oysterpack_near_stake_to.Near.Env.{Env}
use oysterpack_near_stake_to.Domain.NearBalance
use oysterpack_near_stake_to.Domain.Batch.{StakeBatch, add_near, remove_near}
use oysterpack_near_stake_to.Domain.StakeTokenValue.{stake_to_near, round_up}
use oysterpack_near_stake_to.Domain.Receipt.{StakeBatchReceipt}
use oysterpack_near_stake_to.Domain.Lock.{staking}
use oysterpack_near_stake_to.Domain.Account.{Account, RegisteredAccount, stake_batch_by_id}
use oysterpack_near_stake_to.Contract.State.{Contract}
use oysterpack_near_stake_to.Contract.Accounts.{
  registered_account, predecessor_registered_account, save_registered_account, save_account,
}
use oysterpack_near_stake_to.Contract.Claims.{
  claim_receipt_funds, claim_stake_batch_receipts, claim_stake_batch,
  claim_redeem_stake_batch_receipts, claim_by_lock, claim_while_unlocked,
  claim_optional_redeem_batch,
}
use oysterpack_near_stake_to.Contract.Claims.Accounting.{due, held}
use oysterpack_near_stake_to.Contract.Claims.Refusal.{claim_receipt_funds-refused}
use oysterpack_near_stake_to.Contract.Deposits.{
  deposit, deposit_near_for_account_to_stake, deposit_current, deposit_next,
  existing_or_new_stake_batch, check_min_required_near_deposit,
  check_stake_batch_min_required_near_balance, withdraw_from_stake_batch, withdraw_by_batch,
  withdraw_from_current,
}
use oysterpack_near_stake_to.Contract.Deposits.Accounting.{Deposited, deposit-Deposited}
use oysterpack_near_stake_to.Contract.Deposits.Withdrawing.{
  Withdrawn, withdraw_from_stake_batch-Withdrawn,
}
use oysterpack_near_stake_to.Contract.Deposits.Misfiling.{deposit-misfiled}
use oysterpack_near_stake_to.Contract.Deposits.LockedMisfiling.{deposit-misfiled_while_locked}
use oysterpack_near_stake_to.Contract.Backing.{
  IsBacked, no_call, one_more, deposits, Calls-IsBacked,
}
use oysterpack_near_stake_to.Tests.Sample.{
  env, env_with, contract, account_with, near_balance, two_near, state_after,
}

-- No account has anything in a batch.
abbrev unbatched : Contract
unbatched = record contract { stake_batch = none }

abbrev depositing : Env
depositing = env_with 5000

abbrev five_thousand : StakeBatch
five_thousand = record {
  batch_id = 7;
  balance = record { amount = 5000; block_height = 10; block_timestamp = 1000; epoch_height = 3 };
}

abbrev filled : Contract
filled = record unbatched {
  batch_id_sequence = 7;
  stake_batch = some five_thousand;
  accounts =
      (1, record (account_with 10) { stake_batch = some five_thousand }) ∷ (2, account_with 0) ∷ [];
}

fill_runs : deposit depositing unbatched ≡ ok (7, filled)
unfolding deposit predecessor_registered_account registered_account
    deposit_near_for_account_to_stake deposit_current existing_or_new_stake_batch add_near
    check_min_required_near_deposit check_stake_batch_min_required_near_balance stake_batch_by_id
    stake_to_near round_up save_registered_account save_account claim_receipt_funds
    claim_stake_batch_receipts claim_stake_batch claim_redeem_stake_batch_receipts claim_by_lock
    claim_while_unlocked claim_optional_redeem_batch NearBalance.credit Dict.get Dict.insert
    add_u128 as_u128 div_u256
fill_runs = refl

deposit-Deposited_example : Deposited depositing 7 unbatched filled
deposit-Deposited_example = deposit-Deposited depositing 7 unbatched filled fill_runs

unbatched-IsBacked : IsBacked unbatched
unfolding Dict.total Dict.get
unbatched-IsBacked k = refl

Calls-IsBacked_example : IsBacked filled
Calls-IsBacked_example =
    Calls-IsBacked {c = unbatched} unbatched-IsBacked
      (one_more no_call (deposits depositing 7 five_thousand fill_runs refl refl))

abbrev withdrawn : Contract
withdrawn = state_after (withdraw_from_stake_batch env 1000 filled) filled

withdraw_runs : withdraw_from_stake_batch env 1000 filled ≡ ok (tt, withdrawn)
unfolding withdraw_from_stake_batch withdraw_by_batch withdraw_from_current remove_near
    predecessor_registered_account registered_account save_registered_account save_account
    claim_receipt_funds claim_stake_batch_receipts claim_stake_batch
    claim_redeem_stake_batch_receipts claim_by_lock claim_while_unlocked claim_optional_redeem_batch
    NearBalance.debit Dict.get Dict.insert sub_u128
withdraw_runs = refl

withdraw_from_stake_batch-Withdrawn_example : Withdrawn env 1000 filled withdrawn
withdraw_from_stake_batch-Withdrawn_example =
    withdraw_from_stake_batch-Withdrawn env 1000 filled withdrawn withdraw_runs

-- Account 1 deposited 300 into batch 6 while batch 5 was running, and has not claimed since. Now batch 6
-- is running.
abbrev sixth : StakeBatch
sixth = record { batch_id = 6; balance = near_balance 300 }

abbrev waiting : Account
waiting = record (account_with 10) { next_stake_batch = some sixth }

abbrev running : Contract
running = record contract {
  accounts = (1, waiting) ∷ (2, account_with 0) ∷ [];
  stake_batch = some sixth;
  stake_batch_lock = some staking;
}

abbrev misfiled : Contract
misfiled = state_after (deposit depositing running) running

misfile_runs : deposit depositing running ≡ ok (6, misfiled)
unfolding deposit predecessor_registered_account registered_account
    deposit_near_for_account_to_stake deposit_next existing_or_new_stake_batch add_near
    check_min_required_near_deposit check_stake_batch_min_required_near_balance stake_batch_by_id
    stake_to_near round_up save_registered_account save_account claim_receipt_funds
    claim_stake_batch_receipts claim_stake_batch claim_redeem_stake_batch_receipts claim_by_lock
    claim_while_unlocked claim_optional_redeem_batch NearBalance.credit Dict.get Dict.insert
    add_u128 as_u128 div_u256
misfile_runs = refl

waiting_known : Dict.get 1 running.accounts ≡ some waiting
unfolding Dict.get
waiting_known = refl

unprocessed : Dict.get 6 running.stake_batch_receipts ≡ none
unfolding Dict.get
unprocessed = refl

deposit-misfiled_while_locked_example :
    (6 ≡ sixth.batch_id)
    × (due 6 misfiled + held 6 running ≡ due 6 running + held 6 misfiled + 5000)
deposit-misfiled_while_locked_example =
    deposit-misfiled_while_locked depositing 6 waiting staking sixth running misfiled waiting_known
      refl refl unprocessed refl (omega arith) misfile_runs

-- The same account after the lock was released, with batch 5 the current one of the contract.
abbrev released : Contract
released = record contract { accounts = (1, waiting) ∷ (2, account_with 0) ∷ [] }

abbrev fifth : StakeBatch
fifth = record { batch_id = 5; balance = near_balance 1000 }

abbrev misfiled_later : Contract
misfiled_later = state_after (deposit depositing released) released

misfile_later_runs : deposit depositing released ≡ ok (6, misfiled_later)
unfolding deposit predecessor_registered_account registered_account
    deposit_near_for_account_to_stake deposit_current existing_or_new_stake_batch add_near
    check_min_required_near_deposit check_stake_batch_min_required_near_balance stake_batch_by_id
    stake_to_near round_up save_registered_account save_account claim_receipt_funds
    claim_stake_batch_receipts claim_stake_batch claim_redeem_stake_batch_receipts claim_by_lock
    claim_while_unlocked claim_optional_redeem_batch NearBalance.credit Dict.get Dict.insert
    add_u128 as_u128 div_u256
misfile_later_runs = refl

waiting_known_later : Dict.get 1 released.accounts ≡ some waiting
unfolding Dict.get
waiting_known_later = refl

unprocessed_later : Dict.get 6 released.stake_batch_receipts ≡ none
unfolding Dict.get
unprocessed_later = refl

deposit-misfiled_example :
    (6 ≡ sixth.batch_id)
    × (due 6 misfiled_later + held 6 released ≡ due 6 released + held 6 misfiled_later + 5000)
deposit-misfiled_example =
    deposit-misfiled depositing 6 waiting sixth fifth released misfiled_later waiting_known_later
      refl refl refl unprocessed_later refl (omega arith) misfile_later_runs

-- The batch of 300 has a receipt of 200 only.
abbrev short : StakeBatchReceipt
short = record { staked_near = 200; stake_token_value = two_near }

abbrev with_short : Contract
with_short = record contract { stake_batch_receipts = (6, short) ∷ [] }

abbrev waiting_account : RegisteredAccount
waiting_account = record { account = waiting; id = 1 }

short_found : Dict.get 6 with_short.stake_batch_receipts ≡ some short
unfolding Dict.get
short_found = refl

claim_receipt_funds-refused_example :
    ¬ (claim_receipt_funds env waiting_account with_short ≡ ok (waiting_account, with_short))
claim_receipt_funds-refused_example =
    claim_receipt_funds-refused env waiting_account waiting_account sixth short with_short
      with_short (inr (refl, refl)) short_found (omega arith)
