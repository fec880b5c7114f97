-- ===== src/Contract/Deposits/Misfiling.antt =====
-- Deposits by an account that has a next batch after the stake lock is released without processing a
-- batch (contract/src/contract/staking_service.rs: `on_refresh_stake_token_value`, and `clear_stake_lock`
-- in operator.rs).
use oysterpack_near_stake_to.Prelude.{
  ℕ, ◌+◌, ◌≡◌, ◌≢◌, sym, ap, ◌∙◌, Bool, false, none, some, arith,
}
use oysterpack_near_stake_to.Prelude.Dict
use oysterpack_near_stake_to.Near.Error.{ok}
use oysterpack_near_stake_to.Near.Env.{Env}
use oysterpack_near_stake_to.Domain.Batch.{StakeBatch, add_near}
use oysterpack_near_stake_to.Domain.Account.{Account, RegisteredAccount}
use oysterpack_near_stake_to.Contract.State.{Contract, stake_batch_locked}
use oysterpack_near_stake_to.Contract.Monad.{>>=-eq-ok}
use oysterpack_near_stake_to.Contract.Accounts.{save_registered_account}
use oysterpack_near_stake_to.Contract.Accounts.Saving.{registered}
use oysterpack_near_stake_to.Contract.Claims.{
  claim_receipt_funds, claim_stake_batch_receipts, claim_stake_batch, claim_by_lock,
  claim_redeem_stake_batch_receipts,
}
use oysterpack_near_stake_to.Contract.Claims.Redeemed.{claim_by_lock-RedeemOnly}
use oysterpack_near_stake_to.Contract.Claims.Accounting.{due, held}
use oysterpack_near_stake_to.Contract.Views.Agreement.{end-account}
use oysterpack_near_stake_to.Contract.Deposits.{
  existing_or_new_stake_batch, deposit_current, deposit,
}
use oysterpack_near_stake_to.Contract.Deposits.Course.{deposit-Course}
use oysterpack_near_stake_to.Contract.Deposits.Filing.{at}
use oysterpack_near_stake_to.Contract.Deposits.Accounting.{deposit-Deposited}

-- With no receipt, a next batch moves up.
moves_up :
    (env : Env) (a x : Account) (flag : Bool) (y : StakeBatch) (c e : Contract)
    → c.stake_batch_lock ≡ none
    → a.stake_batch ≡ none
    → a.next_stake_batch ≡ some y
    → Dict.get y.batch_id c.stake_batch_receipts ≡ none
    → claim_stake_batch_receipts env a c ≡ ok ((x, flag), e)
    → x.stake_batch ≡ some y
unfolding claim_stake_batch_receipts claim_stake_batch
moves_up env a x flag y c e lock current next absent h =
    ground (arith, lock, current, next, absent, h)

claimed_moves_up :
    (env : Env) (r b : RegisteredAccount) (y : StakeBatch) (c d : Contract)
    → c.stake_batch_lock ≡ none
    → r.account.stake_batch ≡ none
    → r.account.next_stake_batch ≡ some y
    → Dict.get y.batch_id c.stake_batch_receipts ≡ none
    → claim_receipt_funds env r c ≡ ok (b, d)
    → b.account.stake_batch ≡ some y
unfolding claim_receipt_funds claim_redeem_stake_batch_receipts
claimed_moves_up env r b y c d lock current next absent h =
    let (((a1, f), e), e1, k1) = >>=-eq-ok (claim_stake_batch_receipts env r.account) _ c h in
    let (((a2, g), l), e2, h2) =
      >>=-eq-ok (claim_by_lock env a1 e.redeem_stake_batch_lock) _ e k1 in
    ap (λ (t : RegisteredAccount). t.account.stake_batch)
      (end-account _ (save_registered_account (record r { account = a2 }))
        (record r { account = a2 }) b l d h2)
    ∙ ap (λ (t : Account). t.stake_batch)
        (claim_by_lock-RedeemOnly env a1 a2 g e l e.redeem_stake_batch_lock e2).0
    ∙ moves_up env r.account a1 f y c e lock current next absent e1

-- Where the amount goes if both have a current batch.
deposit_current-ids :
    (env : Env) (r b : RegisteredAccount) (amount id : ℕ) (y z f : StakeBatch) (c d : Contract)
    → r.account.stake_batch ≡ some y
    → c.stake_batch ≡ some z
    → deposit_current env r amount c ≡ ok ((b, id), d)
    → d.stake_batch ≡ some f
    → (id ≡ y.batch_id) × (f.batch_id ≡ z.batch_id)
unfolding deposit_current existing_or_new_stake_batch add_near
deposit_current-ids env r b amount id y z f c d mine theirs h into =
    ground (arith, mine, theirs, h, into)

-- The batch in which a deposit of such an account ends, and the one of the contract.
deposit_ids :
    (env : Env) (id : ℕ) (a : Account) (y z f : StakeBatch) (c d : Contract)
    → Dict.get (env.sha256 env.predecessor_account_id) c.accounts ≡ some a
    → c.stake_batch_lock ≡ none
    → a.stake_batch ≡ none
    → a.next_stake_batch ≡ some y
    → Dict.get y.batch_id c.stake_batch_receipts ≡ none
    → c.stake_batch ≡ some z
    → deposit env c ≡ ok (id, d)
    → d.stake_batch ≡ some f
    → (id ≡ y.batch_id) × (f.batch_id ≡ z.batch_id)
deposit_ids env id a y z f c d known lock current next absent theirs h into =
    let x = deposit-Course env id c d h in
    let same : x.account ≡ a = ground (arith, known, x.known) in
    let mine =
      claimed_moves_up env (registered env env.predecessor_account_id x.account) x.claimed y c
        x.between lock (ap (λ (t : Account). t.stake_batch) same ∙ current)
        (ap (λ (t : Account). t.next_stake_batch) same ∙ next) absent x.claims in
    let free : stake_batch_locked x.between ≡ false = ground (arith, lock, x.same_lock) in
    deposit_current-ids env x.claimed x.filed env.attached_deposit id y z f x.between x.after mine
      (x.kept_current ∙ theirs) (rw free at (x.files)) (sym x.same_current ∙ into)

-- After the stake lock was released without processing a batch (as `on_refresh_stake_token_value` and
-- `clear_stake_lock` release it), an account can have a next batch alone, while the contract has a
-- current batch of another ID. With no receipt for the account's batch, a deposit that succeeds then
-- files the amount under the ID of the account's batch, for which the contract holds nothing more.
pub deposit-misfiled :
    (env : Env) (id : ℕ) (a : Account) (y z : StakeBatch) (c d : Contract)
    → Dict.get (env.sha256 env.predecessor_account_id) c.accounts ≡ some a
    → c.stake_batch_lock ≡ none
    → a.stake_batch ≡ none
    → a.next_stake_batch ≡ some y
    → Dict.get y.batch_id c.stake_batch_receipts ≡ none
    → c.stake_batch ≡ some z
    → z.batch_id ≢ y.batch_id
    → deposit env c ≡ ok (id, d)
    → (id ≡ y.batch_id)
      × (due y.batch_id d + held y.batch_id c
          ≡ due y.batch_id c + held y.batch_id d + env.attached_deposit)
deposit-misfiled env id a y z c d known lock current next absent theirs apart h =
    let x = deposit-Deposited env id c d h in
    let into : d.stake_batch ≡ some x.filled = ground (arith, lock, x.is_filled) in
    let (same, other) =
      deposit_ids env id a y z x.filled c d known lock current next absent theirs h into in
    let here : at id y.batch_id env.attached_deposit ≡ env.attached_deposit =
      ground (arith, same) in
    let there : at x.filled.batch_id y.batch_id env.attached_deposit ≡ 0 =
      ground (arith, other, apart) in
    (same, omega (arith, x.same_sum y.batch_id, here, there))
