-- ===== src/Contract/Redeeming/Filling.antt =====
-- What redeeming moves into the batches (`redeem_stake_for_account` in
-- contract/src/contract/staking_service.rs).
use oysterpack_near_stake_to.Prelude.{
  ℕ, ◌+◌, ◌≡◌, ◌<◌, true, some, arith, ltb, if◌then◌else◌, is_some, ap, sym, ◌∙◌, subst,
}
use oysterpack_near_stake_to.Near.Error.{
  ok, ok-injective, zero_redeem_amount, insufficient_stake_for_redeem_request,
  account_has_zero_stake,
}
use oysterpack_near_stake_to.Near.Env.{Env}
use oysterpack_near_stake_to.Domain.StakeBalance
use oysterpack_near_stake_to.Domain.StakeBalance.{TimestampedStakeBalance}
use oysterpack_near_stake_to.Domain.Balances.{stake_debit-amount}
use oysterpack_near_stake_to.Domain.Account.{Account, RegisteredAccount, can_redeem, stake_amount}
use oysterpack_near_stake_to.Contract.State.{Contract}
use oysterpack_near_stake_to.Contract.Monad.{>>=-eq-ok, lift-eq-ok, assert-eq-ok, expect-eq-ok}
use oysterpack_near_stake_to.Contract.Claims.{claim_receipt_funds}
use oysterpack_near_stake_to.Contract.Redeeming.{
  stake_unless_zero, redeem_into_current, redeem_into_next, redeem_stake_for_account,
}
use oysterpack_near_stake_to.Contract.Redeeming.Batches.{
  redeeming, account_redeeming, Filled, by_lock-Filled,
}

-- What a redemption leaves behind, from the state `between` on, in which the account's receipts are
-- claimed.
pub record Redeemed (env : Env) (r : RegisteredAccount) (amount : ℕ) (b : RegisteredAccount)
    (c d : Contract) : Type 0 where
  pub claimed : RegisteredAccount
  pub between : Contract
  pub claims : claim_receipt_funds env r c ≡ ok (claimed, between)
  pub positive : 0 < amount
  pub taken : stake_amount b.account.stake + amount ≡ stake_amount claimed.account.stake
  pub account : account_redeeming b.account ≡ account_redeeming claimed.account + amount
  pub contract : redeeming d ≡ redeeming between + amount
  pub other_batch :
      (if is_some between.redeem_stake_batch_lock
        then d.redeem_stake_batch
        else d.next_redeem_stake_batch)
      ≡ (if is_some between.redeem_stake_batch_lock
          then between.redeem_stake_batch
          else between.next_redeem_stake_batch)
  pub other_account_batch :
      ((if is_some between.redeem_stake_batch_lock
          then b.account.redeem_stake_batch
          else b.account.next_redeem_stake_batch)
        ≡ (if is_some between.redeem_stake_batch_lock
            then claimed.account.redeem_stake_batch
            else claimed.account.next_redeem_stake_batch))
  pub near_kept : b.account.near ≡ claimed.account.near
  pub supply : d.total_stake ≡ between.total_stake
  pub accounts : d.accounts ≡ between.accounts

zero_lt : (n : ℕ) → ltb 0 n ≡ true → 0 < n
zero_lt n h = ground arith

unless_zero-amount : (b : TimestampedStakeBalance) → stake_amount (stake_unless_zero b) ≡ b.amount
unless_zero-amount b = ground arith

moved-Redeemed :
    (env : Env) (r claimed b : RegisteredAccount) (amount : ℕ)
    (stake rest : TimestampedStakeBalance) (c e d : Contract)
    → claimed.account.stake ≡ some stake
    → rest.amount + amount ≡ stake.amount
    → claim_receipt_funds env r c ≡ ok (claimed, e)
    → 0 < amount
    → Filled amount (record (claimed.account) { stake = stake_unless_zero rest }) b.account e d
    → (if is_some e.redeem_stake_batch_lock
        then d.redeem_stake_batch
        else d.next_redeem_stake_batch)
      ≡ (if is_some e.redeem_stake_batch_lock
          then e.redeem_stake_batch
          else e.next_redeem_stake_batch)
    → ((if is_some e.redeem_stake_batch_lock
          then b.account.redeem_stake_batch
          else b.account.next_redeem_stake_batch)
        ≡ (if is_some e.redeem_stake_batch_lock
            then claimed.account.redeem_stake_batch
            else claimed.account.next_redeem_stake_batch))
    → Redeemed env r amount b c d
moved-Redeemed env r claimed b amount stake rest c e d has less claims positive x kept own =
    let had : stake_amount claimed.account.stake ≡ stake.amount = ap stake_amount has in
    let now : stake_amount b.account.stake ≡ stake_amount (stake_unless_zero rest) =
      ap (λ (t : Account). stake_amount t.stake) x.account_rest in
    record {
      claimed = claimed;
      between = e;
      claims = claims;
      positive = positive;
      taken = omega (arith, now, unless_zero-amount rest, less, had);
      account = x.account;
      contract = x.contract;
      other_batch = kept;
      other_account_batch = own;
      near_kept = ap (λ (t : Account). t.near) x.account_rest;
      supply = ap (λ (t : Contract). t.total_stake) x.rest;
      accounts = ap (λ (t : Contract). t.accounts) x.rest;
    }

-- A redemption that succeeds first claims the account's receipts. It then takes the amount, which is
-- not zero, off the account's STAKE, and adds it to the two redeem batches of the account together,
-- and to the two of the contract. While the redeem workflow is locked the current redeem batch of
-- both is left as it was, so that the amount goes into their next ones; else their next ones are
-- left, and it goes into the current ones. The account's NEAR, the supply of STAKE and the stored
-- accounts stay.
pub redeem_stake_for_account-Redeemed :
    (env : Env) (r b : RegisteredAccount) (amount id : ℕ) (c d : Contract)
    → redeem_stake_for_account env r amount c ≡ ok ((b, id), d)
    → Redeemed env r amount b c d
unfolding redeem_stake_for_account
redeem_stake_for_account-Redeemed env r b amount id c d h =
    let (positive, k1) = assert-eq-ok (ltb 0 amount) zero_redeem_amount _ c h in
    let ((claimed, e), e1, k2) = >>=-eq-ok (claim_receipt_funds env r) _ c k1 in
    let (_, k3) =
      assert-eq-ok (can_redeem claimed.account amount) insufficient_stake_for_redeem_request _ e
        k2 in
    let (stake, has, k4) = expect-eq-ok claimed.account.stake account_has_zero_stake _ e k3 in
    let (rest, e5, k5) = lift-eq-ok (StakeBalance.debit env stake amount) _ e k4 in
    let less = stake_debit-amount env stake rest amount e5 in
    let debited = record (claimed.account) { stake = stake_unless_zero rest } in
    let (((moved, moved_id), f), e6, k6) =
      >>=-eq-ok
        (if is_some e.redeem_stake_batch_lock
          then redeem_into_next env debited amount
          else redeem_into_current env debited amount)
        _ e k5 in
    let (x, kept, own) = by_lock-Filled env debited moved amount moved_id e f e6 in
    let done = ok-injective k6 in
    let same_account = ap (λ (t : (RegisteredAccount × ℕ) × Contract). t.0.0.account) (sym done) in
    let same = ap (λ (t : (RegisteredAccount × ℕ) × Contract). t.1) (sym done) in
    moved-Redeemed env r claimed b amount stake rest c e d has less e1 (zero_lt amount positive)
      (subst (λ t. Filled amount debited t e d) (sym same_account)
        (subst (λ (t : Contract). Filled amount debited moved e t) (sym same) x))
      (ap
          (λ (t : Contract).
            if is_some e.redeem_stake_batch_lock
            then t.redeem_stake_batch
            else t.next_redeem_stake_batch)
          same
        ∙ kept)
      (ap
          (λ (t : Account).
            if is_some e.redeem_stake_batch_lock
            then t.redeem_stake_batch
            else t.next_redeem_stake_batch)
          same_account
        ∙ own)
