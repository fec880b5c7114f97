-- ===== src/Tests/Views.antt =====
-- Views, and the constructor.
use oysterpack_near_stake_to.Prelude.{ℕ, ◌+◌, ◌≡◌, refl, false, arith}
use oysterpack_near_stake_to.Prelude.Dict
use oysterpack_near_stake_to.Prelude.Dict.{Dict, total}
use oysterpack_near_stake_to.Near.Error.{ok}
use oysterpack_near_stake_to.Near.Word.{add_u128, as_u128}
use oysterpack_near_stake_to.Domain.StakeBalance
use oysterpack_near_stake_to.Domain.StakeTokenValue.{near_to_stake}
use oysterpack_near_stake_to.Domain.Receipt.{StakeBatchReceipt, RedeemStakeBatchReceipt}
use oysterpack_near_stake_to.Domain.Account.{Account, apply_stake_credit, stake_amount}
use oysterpack_near_stake_to.Contract.State.{Contract}
use oysterpack_near_stake_to.Contract.Claims.{shift_stake_batch, shift_redeem_batch}
use oysterpack_near_stake_to.Contract.Views.{
  apply_receipt_funds_for_view, view_stake_batches, view_stake_batch, view_by_lock,
  view_redeem_batches, view_redeem_batch, ft_balance_of,
}
use oysterpack_near_stake_to.Contract.Views.Agreement.{IsApart, claim_receipt_funds-viewed}
use oysterpack_near_stake_to.Contract.Views.Balance.{ft_balance_of-claimed}
use oysterpack_near_stake_to.Contract.Creation
use oysterpack_near_stake_to.Contract.Creation.{
  fresh_contract, allocate_account_template_to_measure_storage_usage, storage_used, new-total,
}
use oysterpack_near_stake_to.Tests.Sample.{env}
use oysterpack_near_stake_to.Tests.Batches.{
  claimant, with_claim, claimed_state, claimed_account, claim_runs, claimant_known,
}

claimant-IsApart : IsApart claimant.account
claimant-IsApart = record {
  stake_apart = λ x y hx hy. absurd (ground (arith, hy));
  redeem_apart = λ x y hx hy. absurd (ground (arith, hy));
}

claim_receipt_funds-viewed_example :
    (v : Account) × (apply_receipt_funds_for_view env with_claim claimant.account ≡ ok v)
    × (claimed_account.account ≡ shift_redeem_batch with_claim (shift_stake_batch with_claim v))
claim_receipt_funds-viewed_example =
    claim_receipt_funds-viewed env claimant claimed_account with_claim claimed_state refl
      claimant-IsApart claim_runs

balance_shows : ft_balance_of env 1 with_claim ≡ ok 160
unfolding ft_balance_of apply_receipt_funds_for_view view_stake_batches view_stake_batch
    view_by_lock view_redeem_batches view_redeem_batch near_to_stake apply_stake_credit
    StakeBalance.credit Dict.get Dict.insert add_u128 as_u128
balance_shows = refl

ft_balance_of-claimed_example : stake_amount claimed_account.account.stake ≡ 160
ft_balance_of-claimed_example =
    ft_balance_of-claimed env 1 160 claimant.account claimed_account with_claim claimed_state
      claimant_known claimant-IsApart balance_shows claim_runs

-- A host that counts 100 bytes, and 200 for each entry of a collection.
abbrev storage : Dict Account → Dict StakeBatchReceipt → Dict RedeemStakeBatchReceipt → ℕ
storage a s r = 100 + total (λ _. 200) a + total (λ _. 200) s + total (λ _. 200) r

abbrev len : Contract → ℕ
len c = 600

abbrev empty : Contract
empty = fresh_contract env 50 2 3

abbrev measured : Contract
measured = allocate_account_template_to_measure_storage_usage env empty

new-total_example :
    (account_storage : ℕ) × (account_storage + storage_used false storage len empty
      ≡ storage_used false storage len measured)
    × (Creation.new false storage len env 50 2 3
        ≡ ok (record empty {
          contract_initial_storage_usage = storage_used false storage len empty + len empty + 45;
          account_storage_usage = account_storage;
        }))
unfolding Dict.total Dict.insert
new-total_example =
    new-total false storage len env 50 2 3 empty measured refl refl refl (omega arith) (omega arith)
      (omega arith) (omega arith)
