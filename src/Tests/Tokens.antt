-- ===== src/Tests/Tokens.antt =====
-- Transfers of STAKE.
use oysterpack_near_stake_to.Prelude.{ℕ, ◌≡◌, ◌≤◌, refl, some, arith}
use oysterpack_near_stake_to.Prelude.Dict
use oysterpack_near_stake_to.Near.Error.{ok}
use oysterpack_near_stake_to.Near.Word.{add_u128, sub_u128, as_u128}
use oysterpack_near_stake_to.Domain.StakeTokenValue.{near_to_stake}
use oysterpack_near_stake_to.Domain.Receipt.{stake_tokens_issued}
use oysterpack_near_stake_to.Domain.NearBalance
use oysterpack_near_stake_to.Domain.StakeBalance
use oysterpack_near_stake_to.Domain.Account.{
  apply_stake_debit, apply_stake_credit, apply_near_credit,
}
use oysterpack_near_stake_to.Contract.State.{Contract}
use oysterpack_near_stake_to.Contract.Accounts.{
  registered_account, predecessor_registered_account, save_registered_account, save_account,
}
use oysterpack_near_stake_to.Contract.Claims.{
  claim_receipt_funds, claim_stake_batch_receipts, claim_stake_batch, claim_stake_tokens_for_batch,
  claim_redeem_stake_batch_receipts, claim_by_lock, claim_while_unlocked,
  claim_optional_redeem_batch,
}
use oysterpack_near_stake_to.Contract.Claims.Gain.{owed}
use oysterpack_near_stake_to.Contract.Withdrawals.{claim_receipts}
use oysterpack_near_stake_to.Contract.FungibleToken.{
  ft_transfer, move_stake, ft_resolve_transfer_call, transfer_call_receiver_unused_amount,
  reported_unused_amount, refund_from, refund_sender,
}
use oysterpack_near_stake_to.Contract.FungibleToken.Transfer.{
  Moves, Mints, ft_transfer-Moves, ft_transfer-Mints,
}
use oysterpack_near_stake_to.Contract.FungibleToken.Success.{ft_transfer-succeeds}
use oysterpack_near_stake_to.Contract.FungibleToken.Ledger.{
  ledger, TokenCalls, no_call, and_call, transfers, claims, requests, ServesAll,
  TokenCalls-ServesAll,
}
use oysterpack_near_stake_to.Contract.FungibleToken.Refund.{
  Refunded, ft_resolve_transfer_call-Refunded,
}
use oysterpack_near_stake_to.Tests.Batches.{with_claim}
use oysterpack_near_stake_to.Tests.Sample.{
  env, contract, registered_one, account_with, stake_balance, state_after,
}

-- Account 1 sends 4 of its 10 yoctoSTAKE to account 2.
abbrev transferred : Contract
transferred = state_after (ft_transfer env 2 4 contract) contract

transfer_runs : ft_transfer env 2 4 contract ≡ ok (tt, transferred)
unfolding ft_transfer move_stake predecessor_registered_account registered_account
    claim_receipt_funds claim_stake_batch_receipts claim_stake_batch
    claim_redeem_stake_batch_receipts claim_by_lock claim_while_unlocked claim_optional_redeem_batch
    apply_stake_debit apply_stake_credit apply_near_credit save_registered_account save_account
    Dict.get Dict.insert StakeBalance.debit StakeBalance.credit NearBalance.credit add_u128 sub_u128
transfer_runs = refl

ft_transfer-Moves_example : Moves env 2 4 contract transferred
ft_transfer-Moves_example =
    ft_transfer-Moves env 2 4 contract transferred (omega arith) transfer_runs

-- Account 1, with 10 yoctoSTAKE and 150 that it is owed for its batch, claims them, and then sends 155
-- to account 2.
abbrev collected : Contract
collected = state_after (claim_receipts env with_claim) with_claim

collect_runs : claim_receipts env with_claim ≡ ok (tt, collected)
unfolding claim_receipts predecessor_registered_account registered_account claim_receipt_funds
    claim_stake_batch_receipts claim_stake_batch claim_stake_tokens_for_batch
    claim_redeem_stake_batch_receipts claim_by_lock claim_while_unlocked claim_optional_redeem_batch
    near_to_stake apply_stake_credit stake_tokens_issued save_registered_account save_account
    Dict.get Dict.insert Dict.remove StakeBalance.credit add_u128 sub_u128 as_u128
collect_runs = refl

abbrev sent : Contract
sent = state_after (ft_transfer env 2 155 collected) collected

send_runs : ft_transfer env 2 155 collected ≡ ok (tt, sent)
unfolding claim_receipts ft_transfer move_stake predecessor_registered_account registered_account
    claim_receipt_funds claim_stake_batch_receipts claim_stake_batch claim_stake_tokens_for_batch
    claim_redeem_stake_batch_receipts claim_by_lock claim_while_unlocked claim_optional_redeem_batch
    near_to_stake apply_stake_debit apply_stake_credit apply_near_credit stake_tokens_issued
    save_registered_account save_account Dict.get Dict.insert Dict.remove StakeBalance.debit
    StakeBalance.credit NearBalance.credit add_u128 sub_u128 as_u128
send_runs = refl

claim_and_send : TokenCalls with_claim sent
claim_and_send =
    and_call (and_call no_call (claims env collect_runs))
      (transfers env 2 155 (omega arith) send_runs)

TokenCalls-ServesAll_example : ServesAll (ledger with_claim) (requests claim_and_send) (ledger sent)
TokenCalls-ServesAll_example = TokenCalls-ServesAll claim_and_send

-- The first request is for the 150.
is_owed : owed 1 with_claim ≡ 150
unfolding Dict.get Dict.insert near_to_stake as_u128
is_owed = refl

claims_nothing : claim_receipt_funds env registered_one contract ≡ ok (registered_one, contract)
unfolding claim_receipt_funds claim_stake_batch_receipts claim_stake_batch
    claim_redeem_stake_batch_receipts claim_by_lock claim_while_unlocked claim_optional_redeem_batch
    Dict.get
claims_nothing = refl

sender_known : Dict.get 1 contract.accounts ≡ some (account_with 10)
unfolding Dict.get
sender_known = refl

receiver_known : Dict.get 2 contract.accounts ≡ some (account_with 0)
unfolding Dict.get
receiver_known = refl

ft_transfer-succeeds_example : (d : Contract) × (ft_transfer env 2 4 contract ≡ ok (tt, d))
ft_transfer-succeeds_example =
    ft_transfer-succeeds env 2 4 (account_with 10) (account_with 0) registered_one
      (stake_balance 10) contract contract refl (omega arith) sender_known claims_nothing refl
      (omega arith) receiver_known (omega arith) (omega arith)

-- Account 1 sends 4 to itself.
abbrev sent_to_self : Contract
sent_to_self = state_after (ft_transfer env 1 4 contract) contract

self_transfer_runs : ft_transfer env 1 4 contract ≡ ok (tt, sent_to_self)
unfolding ft_transfer move_stake predecessor_registered_account registered_account
    claim_receipt_funds claim_stake_batch_receipts claim_stake_batch
    claim_redeem_stake_batch_receipts claim_by_lock claim_while_unlocked claim_optional_redeem_batch
    apply_stake_debit apply_stake_credit apply_near_credit save_registered_account save_account
    Dict.get Dict.insert StakeBalance.debit StakeBalance.credit NearBalance.credit add_u128 sub_u128
self_transfer_runs = refl

ft_transfer-Mints_example : Mints env 4 contract sent_to_self
ft_transfer-Mints_example = ft_transfer-Mints env 1 4 contract sent_to_self refl self_transfer_runs

-- Account 1 received 5 from account 2, and its contract used 2 of them.
abbrev resolved : Contract
resolved = state_after (ft_resolve_transfer_call env 2 1 5 contract) contract

resolve_runs : ft_resolve_transfer_call env 2 1 5 contract ≡ ok (3, resolved)
unfolding ft_resolve_transfer_call transfer_call_receiver_unused_amount reported_unused_amount
    refund_from refund_sender apply_stake_debit apply_stake_credit save_registered_account
    save_account Dict.get Dict.insert StakeBalance.debit StakeBalance.credit add_u128 sub_u128
resolve_runs = refl

ft_resolve_transfer_call-Refunded_example :
    (unused : ℕ) × (transfer_call_receiver_unused_amount env 5 ≡ ok unused)
    × (unused ≤ 5)
    × Refunded 2 1 unused 3 contract resolved
ft_resolve_transfer_call-Refunded_example =
    ft_resolve_transfer_call-Refunded env 2 1 5 3 contract resolved resolve_runs
