-- ===== src/Contract/Deposits/Filing.antt =====
-- Under which batch ID the account and the contract file a deposit
-- (contract/src/contract/staking_service.rs).
use oysterpack_near_stake_to.Prelude.{
  ℕ, ◌+◌, ◌≡◌, refl, Bool-cases, inl, inr, Option, none, some, ◌==◌, ltb, arith, if◌then◌else◌,
}
use oysterpack_near_stake_to.Near.Error.{ok, deposit_required_for_stake}
use oysterpack_near_stake_to.Near.Word.{add_u128}
use oysterpack_near_stake_to.Near.Env.{Env}
use oysterpack_near_stake_to.Domain.NearBalance
use oysterpack_near_stake_to.Domain.Batch.{StakeBatch, add_near}
use oysterpack_near_stake_to.Domain.Account.{Account, RegisteredAccount}
use oysterpack_near_stake_to.Contract.State.{Contract, stake_batch_locked}
use oysterpack_near_stake_to.Contract.Monad.{>>=-eq-ok, lift-eq-ok, assert-eq-ok}
use oysterpack_near_stake_to.Contract.Claims.{claim_receipt_funds}
use oysterpack_near_stake_to.Contract.Claims.Accounting.{in_batch, batched}
use oysterpack_near_stake_to.Contract.Deposits.{
  account_batch, set_stake_batch, set_next_stake_batch, existing_or_new_stake_batch,
  deposit_current, deposit_next, deposit_near_for_account_to_stake, check_min_required_near_deposit,
  check_stake_batch_min_required_near_balance,
}

-- The amount, for the batch of one ID.
abbrev pub at : ℕ → ℕ → ℕ → ℕ
at id k amount = if id == k then amount else 0

abbrev pub in_contract : ℕ → Contract → ℕ
in_contract k c = in_batch k c.stake_batch + in_batch k c.next_stake_batch

-- The amount is in the account's batch with the ID `id`, and in the contract's batch `filled`.
pub record Filed (amount id : ℕ) (r b : RegisteredAccount) (c d : Contract) : Type 0 where
  pub filled : StakeBatch
  pub same_id : b.id ≡ r.id
  pub by_contract : (k : ℕ) → in_contract k d ≡ in_contract k c + at filled.batch_id k amount
  pub by_account : (k : ℕ) → batched k b.account ≡ batched k r.account + at id k amount
  pub account_rest : b.account ≡ record (r.account) {
    stake_batch = b.account.stake_batch;
    next_stake_batch = b.account.next_stake_batch;
  }
  pub same_accounts : d.accounts ≡ c.accounts
  pub same_receipts : d.stake_batch_receipts ≡ c.stake_batch_receipts
  pub same_lock : d.stake_batch_lock ≡ c.stake_batch_lock

add_near-in_batch :
    (env : Env) (a b : StakeBatch) (amount k : ℕ)
    → add_near env a amount ≡ ok b
    → (in_batch k (some b) ≡ in_batch k (some a) + at b.batch_id k amount)
      × (b.batch_id ≡ a.batch_id)
unfolding add_near NearBalance.credit add_u128
add_near-in_batch env a b amount k h = ground arith

-- The batch that is there, or a new one, which is empty.
existing_or_new-in_batch :
    (env : Env) (o : Option StakeBatch) (c d : Contract) (b : StakeBatch) (k : ℕ)
    → existing_or_new_stake_batch env o c ≡ ok (b, d)
    → (in_batch k (some b) ≡ in_batch k o)
      × (d ≡ record c { batch_id_sequence = d.batch_id_sequence })
unfolding existing_or_new_stake_batch add_u128
existing_or_new-in_batch env none c d b k h = ground arith
existing_or_new-in_batch env (some batch) c d b k h = ground arith

account_batch-in_batch :
    (env : Env) (b : StakeBatch) (o : Option StakeBatch) (k : ℕ)
    → in_batch k (some (account_batch env b o)) ≡ in_batch k o
account_batch-in_batch env b none k = ground arith
account_batch-in_batch env b (some x) k = refl

module _ (env : Env) (r b : RegisteredAccount) (amount id : ℕ) (c d : Contract) where
  deposit_current-Filed :
      deposit_current env r amount c ≡ ok ((b, id), d)
      → (x : Filed amount id r b c d) × (d.stake_batch ≡ some (x.filled))
  unfolding deposit_current
  deposit_current-Filed h =
      let ((batch, e), e1, k1) = >>=-eq-ok (existing_or_new_stake_batch env c.stake_batch) _ c h in
      let (filled, e2, k2) = lift-eq-ok (add_near env batch amount) _ e k1 in
      let own = account_batch env filled r.account.stake_batch in
      let (mine, e3, k3) =
        lift-eq-ok (add_near env own amount) _ (set_stake_batch (some filled) e) k2 in
      let same = (existing_or_new-in_batch env c.stake_batch c e batch 0 e1).1 in
      (
        record {
          filled = filled;
          same_id = ground (arith, k3);
          by_contract = λ k. ground (
            arith,
            k3,
            existing_or_new-in_batch env c.stake_batch c e batch k e1,
            add_near-in_batch env batch filled amount k e2,
          );
          by_account = λ k. ground (
            arith,
            k3,
            add_near-in_batch env own mine amount k e3,
            account_batch-in_batch env filled r.account.stake_batch k,
          );
          account_rest = ground (arith, k3);
          same_accounts = ground (arith, k3, same);
          same_receipts = ground (arith, k3, same);
          same_lock = ground (arith, k3, same);
        },
        ground (arith, k3),
      )

  deposit_next-Filed :
      deposit_next env r amount c ≡ ok ((b, id), d)
      → (x : Filed amount id r b c d) × (d.next_stake_batch ≡ some (x.filled))
  unfolding deposit_next
  deposit_next-Filed h =
      let ((batch, e), e1, k1) =
        >>=-eq-ok (existing_or_new_stake_batch env c.next_stake_batch) _ c h in
      let (filled, e2, k2) = lift-eq-ok (add_near env batch amount) _ e k1 in
      let own = account_batch env filled r.account.next_stake_batch in
      let (mine, e3, k3) =
        lift-eq-ok (add_near env own amount) _ (set_next_stake_batch (some filled) e) k2 in
      let same = (existing_or_new-in_batch env c.next_stake_batch c e batch 0 e1).1 in
      (
        record {
          filled = filled;
          same_id = ground (arith, k3);
          by_contract = λ k. ground (
            arith,
            k3,
            existing_or_new-in_batch env c.next_stake_batch c e batch k e1,
            add_near-in_batch env batch filled amount k e2,
          );
          by_account = λ k. ground (
            arith,
            k3,
            add_near-in_batch env own mine amount k e3,
            account_batch-in_batch env filled r.account.next_stake_batch k,
          );
          account_rest = ground (arith, k3);
          same_accounts = ground (arith, k3, same);
          same_receipts = ground (arith, k3, same);
          same_lock = ground (arith, k3, same);
        },
        ground (arith, k3),
      )

-- The check of the minimum leaves the contract.
pub check_min-same :
    (a : Account) (batch_id : ℕ) (c d : Contract)
    → check_min_required_near_deposit a batch_id c ≡ ok (tt, d)
    → d ≡ c
unfolding check_min_required_near_deposit check_stake_batch_min_required_near_balance
check_min-same a batch_id c d h = ground arith

-- Where a deposit goes, by the stake lock.
pub deposit_near-Filed :
    (env : Env) (r b : RegisteredAccount) (amount id : ℕ) (c d : Contract)
    → deposit_near_for_account_to_stake env r amount c ≡ ok ((b, id), d)
    → (e : RegisteredAccount) × (l : Contract) × (claim_receipt_funds env r c ≡ ok (e, l))
      × (x : Filed amount id e b l d) × ((if stake_batch_locked l
            then d.next_stake_batch
            else d.stake_batch)
          ≡ some (x.filled))
unfolding deposit_near_for_account_to_stake
deposit_near-Filed env r b amount id c d h =
    let (_, k1) = assert-eq-ok (ltb 0 amount) deposit_required_for_stake _ c h in
    let ((e, l), e1, k2) = >>=-eq-ok (claim_receipt_funds env r) _ c k1 in
    elim (Bool-cases (stake_batch_locked l)) [
      | inl locked ↦
          let k3 : deposit_next env e amount l ≡ ok ((b, id), d) = rw locked at k2 in
          let (x, into) = deposit_next-Filed env e b amount id l d k3 in
          (e, l, e1, x, rw locked into)
      | inr free ↦
          let k3 : deposit_current env e amount l ≡ ok ((b, id), d) = rw free at k2 in
          let (x, into) = deposit_current-Filed env e b amount id l d k3 in
          (e, l, e1, x, rw free into)
    ]
