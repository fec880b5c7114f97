-- ===== src/Tests/Redeeming.antt =====
-- Redeeming STAKE.
use oysterpack_near_stake_to.Prelude.{◌≡◌, refl, some}
use oysterpack_near_stake_to.Prelude.Dict
use oysterpack_near_stake_to.Near.Error.{ok}
use oysterpack_near_stake_to.Near.Word.{add_u128, sub_u128}
use oysterpack_near_stake_to.Domain.StakeBalance
use oysterpack_near_stake_to.Domain.Batch.{add_stake}
use oysterpack_near_stake_to.Domain.Lock.{pending_withdrawal}
use oysterpack_near_stake_to.Domain.Account.{Account, RegisteredAccount, can_redeem}
use oysterpack_near_stake_to.Contract.State.{Contract}
use oysterpack_near_stake_to.Contract.Claims.{
  claim_receipt_funds, claim_stake_batch_receipts, claim_stake_batch,
  claim_redeem_stake_batch_receipts, claim_by_lock, claim_while_pending, claim_batch_while_pending,
}
use oysterpack_near_stake_to.Contract.Redeeming.{
  existing_or_new_redeem_batch, redeem_into_next, redeem_stake_for_account,
  remove_from_redeem_stake_batch,
}
use oysterpack_near_stake_to.Contract.Redeeming.Filling.{
  Redeemed, redeem_stake_for_account-Redeemed,
}
use oysterpack_near_stake_to.Tests.Sample.{env, contract, registered_one, account_with, state_after}

-- The withdrawal of the current batch is pending, so STAKE goes into the next one.
abbrev pending : Contract
pending = record contract { redeem_stake_batch_lock = some pending_withdrawal }

abbrev after : Contract
after = state_after (redeem_stake_for_account env registered_one 4 pending) pending

abbrev redeemer : RegisteredAccount
redeemer = record {
  account = record (account_with 10) {
    stake =
        some (record { amount = 6; block_height = 10; block_timestamp = 1000; epoch_height = 3 });
    next_redeem_stake_batch = some (record {
      batch_id = 7;
      balance = record { amount = 4; block_height = 10; block_timestamp = 1000; epoch_height = 3 };
    });
  };
  id = 1;
}

redeem_runs : redeem_stake_for_account env registered_one 4 pending ≡ ok ((redeemer, 7), after)
unfolding redeem_stake_for_account redeem_into_next existing_or_new_redeem_batch can_redeem
    claim_receipt_funds claim_stake_batch_receipts claim_stake_batch
    claim_redeem_stake_batch_receipts claim_by_lock claim_while_pending claim_batch_while_pending
    add_stake StakeBalance.credit StakeBalance.debit add_u128 sub_u128
redeem_runs = refl

redeem_stake_for_account-Redeemed_example : Redeemed env registered_one 4 redeemer pending after
redeem_stake_for_account-Redeemed_example =
    redeem_stake_for_account-Redeemed env registered_one redeemer 4 7 pending after redeem_runs

-- Then it takes 3 of the 4 out again.
abbrev redeemed : Contract
redeemed = record after { accounts = Dict.insert 1 redeemer.account contract.accounts }

abbrev removed : Contract
removed = state_after (remove_from_redeem_stake_batch env 3 redeemed) redeemed
