-- ===== src/Contract/Deposits/Course.antt =====
-- The course of a deposit (`deposit` in contract/src/contract/staking_service.rs): the account is loaded,
-- claimed, and the amount filed.
use oysterpack_near_stake_to.Prelude.{ℕ, ◌≡◌, ap, ◌∙◌, some, arith, ltb, if◌then◌else◌}
use oysterpack_near_stake_to.Prelude.Dict
use oysterpack_near_stake_to.Near.Error.{ok, deposit_required_for_stake}
use oysterpack_near_stake_to.Near.Env.{Env}
use oysterpack_near_stake_to.Domain.Account.{Account, RegisteredAccount}
use oysterpack_near_stake_to.Contract.State.{Contract, stake_batch_locked}
use oysterpack_near_stake_to.Contract.Monad.{>>=-eq-ok, assert-eq-ok}
use oysterpack_near_stake_to.Contract.Accounts.{
  predecessor_registered_account, save_registered_account, save_account,
}
use oysterpack_near_stake_to.Contract.Accounts.Saving.{registered, registered_account-eq-ok}
use oysterpack_near_stake_to.Contract.Claims.{claim_receipt_funds}
use oysterpack_near_stake_to.Contract.Claims.Frame.{claim_receipt_funds-Claimed}
use oysterpack_near_stake_to.Contract.Deposits.{
  deposit_current, deposit_next, deposit_near_for_account_to_stake, check_min_required_near_deposit,
  deposit,
}
use oysterpack_near_stake_to.Contract.Deposits.Filing.{check_min-same}

save-batches :
    (b : RegisteredAccount) (c d : Contract)
    → save_registered_account b c ≡ ok (tt, d)
    → (d.stake_batch ≡ c.stake_batch) × (d.next_stake_batch ≡ c.next_stake_batch)
unfolding save_registered_account save_account
save-batches b c d h = ground arith

-- The call of a deposit that files the amount, after the claim.
pub record Course (env : Env) (id : ℕ) (c d : Contract) : Type 0 where
  pub account : Account
  pub claimed : RegisteredAccount
  pub between : Contract
  pub filed : RegisteredAccount
  pub after : Contract
  pub known : Dict.get (env.sha256 env.predecessor_account_id) c.accounts ≡ some account
  pub claims :
      claim_receipt_funds env (registered env env.predecessor_account_id account) c
      ≡ ok (claimed, between)
  pub files :
      (if stake_batch_locked between
          then deposit_next env claimed env.attached_deposit
          else deposit_current env claimed env.attached_deposit)
        between
      ≡ ok ((filed, id), after)
  pub same_current : d.stake_batch ≡ after.stake_batch
  pub same_next : d.next_stake_batch ≡ after.next_stake_batch
  pub same_lock : between.stake_batch_lock ≡ c.stake_batch_lock
  pub kept_current : between.stake_batch ≡ c.stake_batch
  pub kept_next : between.next_stake_batch ≡ c.next_stake_batch
  pub kept_sequence : between.batch_id_sequence ≡ c.batch_id_sequence

pub deposit-Course :
    (env : Env) (id : ℕ) (c d : Contract) → deposit env c ≡ ok (id, d) → Course env id c d
unfolding deposit predecessor_registered_account deposit_near_for_account_to_stake
deposit-Course env id c d h =
    let amount = env.attached_deposit in
    let (a, found, h0) = registered_account-eq-ok env env.predecessor_account_id _ c h in
    let r = registered env env.predecessor_account_id a in
    let (((b, j), l), e1, h1) = >>=-eq-ok (deposit_near_for_account_to_stake env r amount) _ c h0 in
    let ((_, m), e2, h2) = >>=-eq-ok (check_min_required_near_deposit b.account j) _ l h1 in
    let ((_, n), e3, h3) = >>=-eq-ok (save_registered_account b) _ m h2 in
    let (_, k1) = assert-eq-ok (ltb 0 amount) deposit_required_for_stake _ c e1 in
    let ((e, x), e4, k2) = >>=-eq-ok (claim_receipt_funds env r) _ c k1 in
    let within = (claim_receipt_funds-Claimed env r e c x found e4).within in
    let unchecked = check_min-same b.account j l m e2 in
    let saved = save-batches b m n e3 in
    let same : j ≡ id = ground (arith, h3) in
    record {
      account = a;
      claimed = e;
      between = x;
      filed = b;
      after = l;
      known = found;
      claims = e4;
      files = k2 ∙ ap (λ (t : ℕ). ok ((b, t), l)) same;
      same_current = ground (arith, h3, unchecked, saved);
      same_next = ground (arith, h3, unchecked, saved);
      same_lock = ground (arith, within);
      kept_current = ground (arith, within);
      kept_next = ground (arith, within);
      kept_sequence = ground (arith, within);
    }
