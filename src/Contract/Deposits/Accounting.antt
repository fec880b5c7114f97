-- ===== src/Contract/Deposits/Accounting.antt =====
-- Accounting for deposits (`deposit` in contract/src/contract/staking_service.rs): under which batch ID
-- the account and the contract file the amount.
use oysterpack_near_stake_to.Prelude.{ℕ, ◌+◌, ◌≡◌, ap, ◌∙◌, some, arith, if◌then◌else◌}
use oysterpack_near_stake_to.Prelude.Dict
use oysterpack_near_stake_to.Prelude.Dict.{total, total-insert}
use oysterpack_near_stake_to.Near.Error.{ok}
use oysterpack_near_stake_to.Near.Env.{Env}
use oysterpack_near_stake_to.Domain.Batch.{StakeBatch}
use oysterpack_near_stake_to.Domain.Account.{Account, RegisteredAccount}
use oysterpack_near_stake_to.Contract.State.{Contract, stake_batch_locked}
use oysterpack_near_stake_to.Contract.Monad.{>>=-eq-ok}
use oysterpack_near_stake_to.Contract.Accounts.{
  predecessor_registered_account, save_registered_account, store_account,
}
use oysterpack_near_stake_to.Contract.Accounts.Saving.{
  registered, registered_account-eq-ok, save_existing,
}
use oysterpack_near_stake_to.Contract.Claims.{claim_receipt_funds}
use oysterpack_near_stake_to.Contract.Claims.Frame.{Claimed, claim_receipt_funds-Claimed}
use oysterpack_near_stake_to.Contract.Claims.Settling.{Settled, claim_receipt_funds-Settled}
use oysterpack_near_stake_to.Contract.Claims.Accounting.{batched, due, held, held_by_receipt}
use oysterpack_near_stake_to.Contract.Deposits.{
  deposit_near_for_account_to_stake, check_min_required_near_deposit, deposit,
}
use oysterpack_near_stake_to.Contract.Deposits.Filing.{
  at, in_contract, Filed, check_min-same, deposit_near-Filed,
}

-- The sums around a claim: the receipts and the accounts go down together.
pub Settled-sum :
    (r b : RegisteredAccount) (c d : Contract) (k : ℕ)
    → Dict.get r.id c.accounts ≡ some r.account
    → Claimed r b c d
    → Settled r b c d
    → due k d + held k c ≡ due k c + held k d
Settled-sum r b c d k known x s = ground (
  arith,
  total-insert (batched k) r.id s.stored r.account c.accounts known,
  s.is_stored,
  s.stored_batched k,
  s.same_sum k,
  x.within,
)

-- Claiming the receipts of an account leaves, for every batch ID, the difference between what the
-- accounts have in that batch and what the contract holds for it.
pub claim_receipt_funds-due :
    (env : Env) (r b : RegisteredAccount) (c d : Contract) (k : ℕ)
    → Dict.get r.id c.accounts ≡ some r.account
    → claim_receipt_funds env r c ≡ ok (b, d)
    → due k d + held k c ≡ due k c + held k d
claim_receipt_funds-due env r b c d k known h =
    Settled-sum r b c d k known (claim_receipt_funds-Claimed env r b c d known h)
      (claim_receipt_funds-Settled env r b c d known h)

-- What a deposit does, from the state `between` on, in which the caller's receipts are claimed: to the
-- caller's account, which is written as `stored`, to the contract's batch `filled`, and to the sums.
pub record Deposited (env : Env) (id : ℕ) (c d : Contract) : Type 0 where
  pub caller : Account
  pub claimed : RegisteredAccount
  pub between : Contract
  pub stored : Account
  pub filled : StakeBatch
  pub is_caller : Dict.get (env.sha256 env.predecessor_account_id) c.accounts ≡ some caller
  pub claims :
      claim_receipt_funds env (registered env env.predecessor_account_id caller) c
      ≡ ok (claimed, between)
  pub account_has :
      (k : ℕ) → batched k stored ≡ batched k claimed.account + at id k env.attached_deposit
  pub account_rest : stored ≡ record (claimed.account) {
    stake_batch = stored.stake_batch;
    next_stake_batch = stored.next_stake_batch;
  }
  pub is_written :
      d.accounts ≡ Dict.insert (env.sha256 env.predecessor_account_id) stored c.accounts
  pub is_filled : (if stake_batch_locked c then d.next_stake_batch else d.stake_batch) ≡ some filled
  pub contract_has :
      (k : ℕ) → in_contract k d ≡ in_contract k c + at filled.batch_id k env.attached_deposit
  pub same_sum :
      (k : ℕ)
      → due k d + held k c + at filled.batch_id k env.attached_deposit
        ≡ due k c + held k d + at id k env.attached_deposit

deposited :
    (r b w : RegisteredAccount) (amount id : ℕ) (c e l d : Contract) (k : ℕ)
    → Dict.get r.id c.accounts ≡ some r.account
    → Claimed r b c e
    → Settled r b c e
    → (x : Filed amount id b w e l) → d ≡ store_account r.id w.account l
    → (due k d + held k c + at (x.filled.batch_id) k amount ≡ due k c + held k d + at id k amount)
      × (in_contract k d ≡ in_contract k c + at (x.filled.batch_id) k amount)
      × (d.accounts ≡ Dict.insert r.id w.account c.accounts)
deposited r b w amount id c e l d k known x y z end =
    let written : d.accounts ≡ Dict.insert r.id w.account c.accounts = ground (
      arith,
      end,
      z.same_accounts,
      y.is_stored,
      Dict.insert-insert r.id w.account y.stored c.accounts,
    ) in
    let accounts : due k d + batched k r.account ≡ due k c + batched k w.account =
      ap (λ t. total (batched k) t + batched k r.account) written
      ∙ total-insert (batched k) r.id w.account r.account c.accounts known in
    let receipt : held_by_receipt k d ≡ held_by_receipt k e =
      ground (arith, end, z.same_receipts) in
    let batches : in_contract k d ≡ in_contract k c + at (z.filled.batch_id) k amount =
      ground (arith, end, z.by_contract k, x.within) in
    (omega (arith, accounts, receipt, batches, z.by_account k, y.same_sum k), batches, written)

-- A deposit that succeeds claims the caller's receipts, and then adds the attached amount to the
-- caller's stake batches under the ID that it returns, and to none under another ID. It stores that
-- account, of which nothing else changes, and no other account. The contract's own stake batches grow by the
-- amount under the ID of one of them: the next one if a stake batch is locked, and else the current
-- one. For every batch ID, the difference between what the accounts have in that batch and what the
-- contract holds for it changes by the amount filed under the one and the other ID.
pub deposit-Deposited :
    (env : Env) (id : ℕ) (c d : Contract) → deposit env c ≡ ok (id, d) → Deposited env id c d
unfolding deposit predecessor_registered_account
deposit-Deposited env id c d h =
    let amount = env.attached_deposit in
    let (a, known, h0) = registered_account-eq-ok env env.predecessor_account_id _ c h in
    let r = registered env env.predecessor_account_id a in
    let (((b, j), l), e1, h1) = >>=-eq-ok (deposit_near_for_account_to_stake env r amount) _ c h0 in
    let ((_, m), e2, h2) = >>=-eq-ok (check_min_required_near_deposit b.account j) _ l h1 in
    let ((_, n), e3, h3) = >>=-eq-ok (save_registered_account b) _ m h2 in
    let (e, f, e4, x, into) = deposit_near-Filed env r b amount j c l e1 in
    let claimed = claim_receipt_funds-Claimed env r e c f known e4 in
    let settled = claim_receipt_funds-Settled env r e c f known e4 in
    let unchecked : m ≡ l = check_min-same b.account j l m e2 in
    let same_id : b.id ≡ r.id = x.same_id ∙ settled.same_id in
    let stored : Dict.get b.id m.accounts ≡ some settled.stored = ground (
      arith,
      unchecked,
      x.same_accounts,
      settled.is_stored,
      same_id,
      Dict.get-insert b.id r.id settled.stored c.accounts,
    ) in
    let saved = save_existing b m settled.stored stored in
    let end : d ≡ store_account r.id b.account l =
      ground (arith, e3, saved, h3, unchecked, same_id) in
    let same : j ≡ id = ground (arith, h3) in
    let sums = λ (k : ℕ). deposited r e b amount j c f l d k known claimed settled x end in
    record {
      caller = a;
      claimed = e;
      between = f;
      stored = b.account;
      filled = x.filled;
      is_caller = known;
      claims = e4;
      account_has = λ k. x.by_account k ∙ ap (λ n. batched k e.account + at n k amount) same;
      account_rest = x.account_rest;
      is_written = (sums 0).2;
      is_filled = ground (arith, into, end, claimed.within);
      contract_has = λ k. (sums k).1;
      same_sum = λ k. (sums k).0 ∙ ap (λ n. due k c + held k d + at n k amount) same;
    }
