-- ===== src/Contract/Deposits/LockedMisfiling.antt =====
-- Deposits while a stake batch runs by an account that has that batch as its next one
-- (contract/src/contract/staking_service.rs).
use oysterpack_near_stake_to.Prelude.{
  ℕ, ◌+◌, ◌≡◌, sym, ap, ◌∙◌, subst, Bool, true, ◌≤◌, Option, none, some, arith,
}
use oysterpack_near_stake_to.Prelude.Dict
use oysterpack_near_stake_to.Near.Error.{ok}
use oysterpack_near_stake_to.Near.Word.{add_u128}
use oysterpack_near_stake_to.Near.Env.{Env}
use oysterpack_near_stake_to.Domain.Batch.{StakeBatch, add_near}
use oysterpack_near_stake_to.Domain.Lock.{StakeLock}
use oysterpack_near_stake_to.Domain.Account.{Account, RegisteredAccount}
use oysterpack_near_stake_to.Contract.State.{Contract, stake_batch_locked}
use oysterpack_near_stake_to.Contract.Monad.{>>=-eq-ok}
use oysterpack_near_stake_to.Contract.Accounts.{save_registered_account}
use oysterpack_near_stake_to.Contract.Accounts.Saving.{registered}
use oysterpack_near_stake_to.Contract.Claims.{
  claim_receipt_funds, claim_stake_batch_receipts, claim_stake_batch, claim_by_lock,
  claim_redeem_stake_batch_receipts, clear_stake_batch, clear_next_stake_batch,
}
use oysterpack_near_stake_to.Contract.Claims.Redeemed.{claim_by_lock-RedeemOnly}
use oysterpack_near_stake_to.Contract.Claims.Accounting.{due, held}
use oysterpack_near_stake_to.Contract.Views.Steps.{
  claim_stake_batch-kept, claim_stake_batch-viewed, view_stake_batch-kept,
}
use oysterpack_near_stake_to.Contract.Views.Agreement.{end-account}
use oysterpack_near_stake_to.Contract.Deposits.{existing_or_new_stake_batch, deposit_next, deposit}
use oysterpack_near_stake_to.Contract.Deposits.Course.{deposit-Course}
use oysterpack_near_stake_to.Contract.Claims.Accounting.{
  BatchClaim, idle, paid, claim_stake_batch-BatchClaim,
}
use oysterpack_near_stake_to.Contract.Deposits.Filing.{at}
use oysterpack_near_stake_to.Contract.Deposits.Accounting.{deposit-Deposited}

-- A claim leaves no receipt where there was none.
pub claim-absent :
    {env : Env} {clear : Account → Account} {a b : Account} {o : Option StakeBatch} {flag : Bool}
    {c d : Contract} (id : ℕ)
    → BatchClaim env clear a b o flag c d
    → Dict.get id c.stake_batch_receipts ≡ none
    → Dict.get id d.stake_batch_receipts ≡ none
claim-absent id (idle _ same _) absent = ground (arith, same, absent)
claim-absent {c} id (paid batch r q e stake _ found _ _ _ kept _) absent = ground (
  arith,
  kept,
  found,
  absent,
  Dict.get-insert id batch.batch_id q c.stake_batch_receipts,
  Dict.get-remove id batch.batch_id c.stake_batch_receipts,
)

-- A batch with no receipt is not claimed.
claim-unclaimed :
    {env : Env} {clear : Account → Account} {a b : Account} {flag : Bool} {c d : Contract}
    (y : StakeBatch)
    → BatchClaim env clear a b (some y) flag c d
    → Dict.get y.batch_id c.stake_batch_receipts ≡ none
    → (b ≡ a) × (d ≡ c)
claim-unclaimed y (idle same kept _) absent = (same, kept)
claim-unclaimed y (paid batch r q e stake is_batch found _ _ _ _ _) absent =
    absurd (ground (arith, is_batch, found, absent))

-- While the stake batch is locked, a next batch with no receipt stays where it is.
stays :
    (env : Env) (a x : Account) (flag : Bool) (lock : StakeLock) (y : StakeBatch) (c e : Contract)
    → c.stake_batch_lock ≡ some lock
    → a.next_stake_batch ≡ some y
    → Dict.get y.batch_id c.stake_batch_receipts ≡ none
    → claim_stake_batch_receipts env a c ≡ ok ((x, flag), e)
    → x.next_stake_batch ≡ some y
unfolding claim_stake_batch_receipts
stays env a x flag lock y c e locked next absent h =
    let (((a1, f), d), e1, m1) =
      >>=-eq-ok (claim_stake_batch env clear_stake_batch a a.stake_batch) _ c h in
    let (((a2, g), l), e2, m2) =
      >>=-eq-ok (claim_stake_batch env clear_next_stake_batch a1 a1.next_stake_batch) _ d m1 in
    let first = claim_stake_batch-BatchClaim env clear_stake_batch a a1 a.stake_batch f c d e1 in
    let kept = claim_stake_batch-kept env clear_stake_batch a a1 a.stake_batch f c d e1 in
    let mine : a1.next_stake_batch ≡ some y = view_next env a a1 a.stake_batch f c d e1 ∙ next in
    let second = claim_stake_batch-BatchClaim env clear_next_stake_batch a1 a2 (some y) g d l (
      subst
        (λ (o : Option StakeBatch).
          claim_stake_batch env clear_next_stake_batch a1 o d ≡ ok ((a2, g), l))
        mine e2) in
    let (same, same_contract) = claim-unclaimed y second (claim-absent y.batch_id first absent) in
    ground (arith, m2, same, same_contract, kept, locked, mine)
  where
    view_next :
        (env : Env) (a b : Account) (o : Option StakeBatch) (flag : Bool) (c d : Contract)
        → claim_stake_batch env clear_stake_batch a o c ≡ ok ((b, flag), d)
        → b.next_stake_batch ≡ a.next_stake_batch
    view_next env a b o flag c d h =
        ap (λ (t : Account). t.next_stake_batch)
          (view_stake_batch-kept env c a b o
            (claim_stake_batch-viewed env clear_stake_batch a b o flag c d h))

pub claimed_stays :
    (env : Env) (r b : RegisteredAccount) (lock : StakeLock) (y : StakeBatch) (c d : Contract)
    → c.stake_batch_lock ≡ some lock
    → r.account.next_stake_batch ≡ some y
    → Dict.get y.batch_id c.stake_batch_receipts ≡ none
    → claim_receipt_funds env r c ≡ ok (b, d)
    → b.account.next_stake_batch ≡ some y
unfolding claim_receipt_funds claim_redeem_stake_batch_receipts
claimed_stays env r b lock y c d locked next absent h =
    let (((a1, f), e), e1, k1) = >>=-eq-ok (claim_stake_batch_receipts env r.account) _ c h in
    let (((a2, g), l), e2, h2) =
      >>=-eq-ok (claim_by_lock env a1 e.redeem_stake_batch_lock) _ e k1 in
    ap (λ (t : RegisteredAccount). t.account.next_stake_batch)
      (end-account _ (save_registered_account (record r { account = a2 }))
        (record r { account = a2 }) b l d h2)
    ∙ ap (λ (t : Account). t.next_stake_batch)
        (claim_by_lock-RedeemOnly env a1 a2 g e l e.redeem_stake_batch_lock e2).0
    ∙ stays env r.account a1 f lock y c e locked next absent e1

-- Where the amount goes if the account has a next batch and the contract has none.
deposit_next-ids :
    (env : Env) (r b : RegisteredAccount) (amount id : ℕ) (y f : StakeBatch) (c d : Contract)
    → r.account.next_stake_batch ≡ some y
    → c.next_stake_batch ≡ none
    → deposit_next env r amount c ≡ ok ((b, id), d)
    → d.next_stake_batch ≡ some f
    → (id ≡ y.batch_id) × (f.batch_id ≡ c.batch_id_sequence + 1)
unfolding deposit_next existing_or_new_stake_batch add_near add_u128
deposit_next-ids env r b amount id y f c d mine theirs h into =
    ground (arith, mine, theirs, h, into)

-- An account that has not claimed since its next batch became the current one of the contract still
-- has it as its next one. If that batch is locked and not yet processed, and the contract has no next
-- batch, a deposit that succeeds files the amount under the ID of the account's batch, while the
-- contract opens a batch with a new ID: for the account's batch it holds nothing more.
pub deposit-misfiled_while_locked :
    (env : Env) (id : ℕ) (a : Account) (lock : StakeLock) (y : StakeBatch) (c d : Contract)
    → Dict.get (env.sha256 env.predecessor_account_id) c.accounts ≡ some a
    → c.stake_batch_lock ≡ some lock
    → a.next_stake_batch ≡ some y
    → Dict.get y.batch_id c.stake_batch_receipts ≡ none
    → c.next_stake_batch ≡ none
    → y.batch_id ≤ c.batch_id_sequence
    → deposit env c ≡ ok (id, d)
    → (id ≡ y.batch_id)
      × (due y.batch_id d + held y.batch_id c
          ≡ due y.batch_id c + held y.batch_id d + env.attached_deposit)
deposit-misfiled_while_locked env id a lock y c d known locked next absent theirs issued h =
    let s = deposit-Deposited env id c d h in
    let x = deposit-Course env id c d h in
    let into : d.next_stake_batch ≡ some s.filled = ground (arith, locked, s.is_filled) in
    let same_account : x.account ≡ a = ground (arith, known, x.known) in
    let mine =
      claimed_stays env (registered env env.predecessor_account_id x.account) x.claimed lock y c
        x.between locked (ap (λ (t : Account). t.next_stake_batch) same_account ∙ next) absent
        x.claims in
    let running : stake_batch_locked x.between ≡ true = ground (arith, locked, x.same_lock) in
    let (same, other) =
      deposit_next-ids env x.claimed x.filed env.attached_deposit id y s.filled x.between x.after
        mine (x.kept_next ∙ theirs) (rw running at (x.files)) (sym x.same_next ∙ into) in
    let here : at id y.batch_id env.attached_deposit ≡ env.attached_deposit =
      ground (arith, same) in
    let there : at s.filled.batch_id y.batch_id env.attached_deposit ≡ 0 =
      ground (arith, other, issued, x.kept_sequence) in
    (same, omega (arith, s.same_sum y.batch_id, here, there))
