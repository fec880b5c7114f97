-- ===== src/Tests/Batches.antt =====
-- Deposits, the two workflows, claims and payouts.
use oysterpack_near_stake_to.Prelude.{◌≡◌, ◌<◌, ◌+◌, refl, some, [], ◌∷◌, if◌then◌else◌}
use oysterpack_near_stake_to.Prelude.Dict
use oysterpack_near_stake_to.Near.Error.{ok}
use oysterpack_near_stake_to.Near.Word.{add_u128, sub_u128, as_u128, div_u256}
use oysterpack_near_stake_to.Domain.NearBalance
use oysterpack_near_stake_to.Domain.StakeBalance
use oysterpack_near_stake_to.Domain.Batch.{add_near}
use oysterpack_near_stake_to.Domain.StakeTokenValue
use oysterpack_near_stake_to.Domain.StakeTokenValue.{near_to_stake, stake_to_near, round_up}
use oysterpack_near_stake_to.Domain.Receipt.{stake_tokens_issued}
use oysterpack_near_stake_to.Domain.Lock.{staked}
use oysterpack_near_stake_to.Domain.Account.{
  RegisteredAccount, apply_near_debit, apply_stake_credit,
}
use oysterpack_near_stake_to.Contract.State.{Contract, stake_batch_locked}
use oysterpack_near_stake_to.Contract.Accounts.{save_registered_account, save_account}
use oysterpack_near_stake_to.Contract.TokenValue.{
  staked_near_balance, update_stake_token_value, compensate,
}
use oysterpack_near_stake_to.Contract.Claims.{
  claim_receipt_funds, claim_stake_batch_receipts, claim_stake_batch, claim_stake_tokens_for_batch,
  claim_redeem_stake_batch_receipts, claim_by_lock, claim_while_unlocked,
  claim_optional_redeem_batch,
}
use oysterpack_near_stake_to.Contract.Claims.Frame.{Claimed, claim_receipt_funds-Claimed}
use oysterpack_near_stake_to.Contract.Withdrawals.{
  transfer_near_funds, draw_liquidity, debit_total_near,
}
use oysterpack_near_stake_to.Contract.Withdrawals.Payout.{
  PaidOut, transfer_near_funds-PaidOut, near_at_hand,
}
use oysterpack_near_stake_to.Contract.Deposits.{
  deposit_near_for_account_to_stake, deposit_current, existing_or_new_stake_batch,
}
use oysterpack_near_stake_to.Contract.Deposits.Filling.{
  Filled, deposit_near_for_account_to_stake-Filled,
}
use oysterpack_near_stake_to.Contract.StakedBatch.{
  process_staked_batch, process_by_lock, finish_staked_batch, add_near_liquidity,
  clear_pending_withdrawal, mint_stake_and_update_stake_token_value, mint_stake, align_stake,
}
use oysterpack_near_stake_to.Contract.StakedBatch.Processing.{
  Processed, process_staked_batch-Processed, Liquid, add_near_liquidity-at_hand,
}
use oysterpack_near_stake_to.Contract.Unstaking.{
  on_unstake, create_redeem_stake_batch_receipt, finalize_redeem_batch,
}
use oysterpack_near_stake_to.Contract.Unstaking.Workflow.{
  Unstaked, on_unstake-Unstaked, Finalized, finalize_redeem_batch-Finalized,
}
use oysterpack_near_stake_to.Tests.Sample.{
  env, contract, registered_one, account_with, near_balance, two_near, state_after,
}

-- The pool holds the batch's 1000 and 30 of liquidity besides.
abbrev with_staked : Contract
with_staked = record contract {
  stake_batch_lock = some (staked (some 30) 4000000000000000000001000 0);
}

abbrev processed : Contract
processed = state_after (process_staked_batch env with_staked) with_staked

process_runs : process_staked_batch env with_staked ≡ ok (tt, processed)
unfolding process_staked_batch process_by_lock finish_staked_batch add_near_liquidity
    clear_pending_withdrawal mint_stake_and_update_stake_token_value mint_stake align_stake
    staked_near_balance update_stake_token_value compensate near_to_stake stake_to_near round_up
    StakeTokenValue.new Dict.get Dict.insert StakeBalance.debit StakeBalance.credit
    NearBalance.credit add_u128 sub_u128 as_u128 div_u256
process_runs = refl

process_staked_batch-Processed_example : Processed env with_staked processed
process_staked_batch-Processed_example =
    process_staked_batch-Processed env with_staked processed process_runs

abbrev with_liquidity : Contract
with_liquidity = state_after (add_near_liquidity env (some 30) contract) contract

liquidity_runs : add_near_liquidity env (some 30) contract ≡ ok (tt, with_liquidity)
unfolding add_near_liquidity clear_pending_withdrawal stake_to_near round_up Dict.get
    NearBalance.credit add_u128 sub_u128 as_u128 div_u256
liquidity_runs = refl

add_near_liquidity-at_hand_example :
    (near_at_hand with_liquidity ≡ near_at_hand contract + 30) × Liquid contract with_liquidity
add_near_liquidity-at_hand_example =
    add_near_liquidity-at_hand env 30 contract with_liquidity liquidity_runs

abbrev unstaked : Contract
unstaked = state_after (on_unstake env contract) contract

unstake_runs : on_unstake env contract ≡ ok (tt, unstaked)
unfolding on_unstake create_redeem_stake_batch_receipt StakeBalance.debit sub_u128 Dict.insert
unstake_runs = refl

on_unstake-Unstaked_example : Unstaked contract unstaked
on_unstake-Unstaked_example = on_unstake-Unstaked env contract unstaked unstake_runs

abbrev finalized : Contract
finalized = state_after (finalize_redeem_batch env unstaked) unstaked

finalize_runs : finalize_redeem_batch env unstaked ≡ ok (6, finalized)
unfolding finalize_redeem_batch on_unstake create_redeem_stake_batch_receipt StakeBalance.debit
    sub_u128 add_u128 Dict.insert Dict.get stake_to_near round_up NearBalance.credit as_u128
    div_u256
finalize_runs = refl

finalize_redeem_batch-Finalized_example : Finalized 6 unstaked finalized
finalize_redeem_batch-Finalized_example =
    finalize_redeem_batch-Finalized env unstaked finalized 6 finalize_runs

-- Account 1 has its 300 of batch 4 to claim, of which the receipt is filed.
abbrev pub claimant : RegisteredAccount
claimant = record {
  account = record (account_with 10) {
    stake_batch = some (record { batch_id = 4; balance = near_balance 300 });
  };
  id = 1;
}

abbrev pub with_claim : Contract
with_claim = record contract {
  accounts = Dict.insert 1 claimant.account contract.accounts;
  stake_batch_receipts = (4, record { staked_near = 300; stake_token_value = two_near }) ∷ [];
}

abbrev pub claimed_state : Contract
claimed_state = state_after (claim_receipt_funds env claimant with_claim) with_claim

abbrev pub claimed_account : RegisteredAccount
claimed_account = record {
  account = record (account_with 10) {
    stake =
        some (record { amount = 160; block_height = 10; block_timestamp = 1000; epoch_height = 3 });
  };
  id = 1;
}

pub claim_runs : claim_receipt_funds env claimant with_claim ≡ ok (claimed_account, claimed_state)
unfolding claim_receipt_funds claim_stake_batch_receipts claim_stake_batch
    claim_stake_tokens_for_batch claim_redeem_stake_batch_receipts claim_by_lock
    claim_while_unlocked claim_optional_redeem_batch near_to_stake apply_stake_credit
    stake_tokens_issued save_registered_account save_account Dict.get Dict.insert Dict.remove
    StakeBalance.credit add_u128 sub_u128 as_u128
claim_runs = refl

pub claimant_known : Dict.get 1 with_claim.accounts ≡ some claimant.account
unfolding Dict.get Dict.insert
claimant_known = refl

claim_receipt_funds-Claimed_example : Claimed claimant claimed_account with_claim claimed_state
claim_receipt_funds-Claimed_example =
    claim_receipt_funds-Claimed env claimant claimed_account with_claim claimed_state claimant_known
      claim_runs

-- A payout of 7, of which 2 come out of the liquidity pool.
abbrev paid_out : Contract
paid_out = state_after (transfer_near_funds env registered_one 7 2 contract) contract

payout_runs : transfer_near_funds env registered_one 7 2 contract ≡ ok (tt, paid_out)
unfolding transfer_near_funds draw_liquidity debit_total_near claim_receipt_funds
    claim_stake_batch_receipts claim_stake_batch claim_redeem_stake_batch_receipts claim_by_lock
    claim_while_unlocked claim_optional_redeem_batch apply_near_debit NearBalance.debit
    NearBalance.credit save_registered_account save_account Dict.get Dict.insert add_u128 sub_u128
payout_runs = refl

one_known : Dict.get 1 contract.accounts ≡ some (account_with 10)
unfolding Dict.get
one_known = refl

transfer_near_funds-PaidOut_example : PaidOut env registered_one 7 2 contract paid_out
transfer_near_funds-PaidOut_example =
    transfer_near_funds-PaidOut env registered_one 7 2 contract paid_out one_known payout_runs

abbrev deposited : Contract
deposited = state_after (deposit_near_for_account_to_stake env registered_one 500 contract) contract

abbrev depositor : RegisteredAccount
depositor = record {
  account = record (account_with 10) {
    stake_batch = some (record {
      batch_id = 5;
      balance = record {
        amount = 500;
        block_height = 10;
        block_timestamp = 1000;
        epoch_height = 3;
      };
    });
  };
  id = 1;
}

deposit_runs :
    deposit_near_for_account_to_stake env registered_one 500 contract
    ≡ ok ((depositor, 5), deposited)
unfolding deposit_near_for_account_to_stake deposit_current existing_or_new_stake_batch add_near
    claim_receipt_funds claim_stake_batch_receipts claim_stake_batch
    claim_redeem_stake_batch_receipts claim_by_lock claim_while_unlocked claim_optional_redeem_batch
    NearBalance.credit Dict.get add_u128
deposit_runs = refl

deposit_near_for_account_to_stake-Filled_example :
    (claimed : RegisteredAccount) × (between : Contract) × (claim_receipt_funds env registered_one
        contract
      ≡ ok (claimed, between))
    × (0 < 500)
    × Filled 500 claimed depositor between deposited
    × ((if stake_batch_locked between then deposited.stake_batch else deposited.next_stake_batch)
        ≡ (if stake_batch_locked between then between.stake_batch else between.next_stake_batch))
    × ((if stake_batch_locked between
          then depositor.account.stake_batch
          else depositor.account.next_stake_batch)
        ≡ (if stake_batch_locked between
            then claimed.account.stake_batch
            else claimed.account.next_stake_batch))
deposit_near_for_account_to_stake-Filled_example =
    deposit_near_for_account_to_stake-Filled env registered_one depositor 500 5 contract deposited
      deposit_runs
