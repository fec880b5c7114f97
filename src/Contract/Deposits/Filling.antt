-- ===== src/Contract/Deposits/Filling.antt =====
-- What a deposit adds to the batches (`deposit_near_for_account_to_stake` in
-- contract/src/contract/staking_service.rs).
use oysterpack_near_stake_to.Prelude.{
  ℕ, ◌+◌, ◌≡◌, ◌<◌, Bool-cases, inl, inr, Option, none, some, arith, refl, ltb, if◌then◌else◌,
}
use oysterpack_near_stake_to.Near.Error.{ok, deposit_required_for_stake}
use oysterpack_near_stake_to.Near.Word.{add_u128}
use oysterpack_near_stake_to.Near.Env.{Env}
use oysterpack_near_stake_to.Domain.NearBalance
use oysterpack_near_stake_to.Domain.NearBalance.{TimestampedNearBalance}
use oysterpack_near_stake_to.Domain.Batch.{StakeBatch, add_near}
use oysterpack_near_stake_to.Domain.Account.{Account, RegisteredAccount, stake_batch_amount}
use oysterpack_near_stake_to.Contract.State.{Contract, stake_batch_locked}
use oysterpack_near_stake_to.Contract.Monad.{>>=-eq-ok, lift-eq-ok, assert-eq-ok}
use oysterpack_near_stake_to.Contract.Claims.{claim_receipt_funds}
use oysterpack_near_stake_to.Contract.Deposits.{
  account_batch, set_stake_batch, set_next_stake_batch, existing_or_new_stake_batch,
  deposit_current, deposit_next, deposit_near_for_account_to_stake,
}

-- The NEAR in the two batches together, which the next run and the one after it stake.
abbrev batched : Contract → ℕ
batched c = stake_batch_amount c.stake_batch + stake_batch_amount c.next_stake_batch

abbrev account_batched : Account → ℕ
account_batched a = stake_batch_amount a.stake_batch + stake_batch_amount a.next_stake_batch

-- What a deposit of `amount` does to the account and to the contract.
pub record Filled (amount : ℕ) (r b : RegisteredAccount) (c d : Contract) : Type 0 where
  pub same_id : b.id ≡ r.id
  pub contract : batched d ≡ batched c + amount
  pub account : account_batched b.account ≡ account_batched r.account + amount
  pub account_rest : b.account ≡ record (r.account) {
    stake_batch = b.account.stake_batch;
    next_stake_batch = b.account.next_stake_batch;
  }
  pub rest : d ≡ record c {
    stake_batch = d.stake_batch;
    next_stake_batch = d.next_stake_batch;
    batch_id_sequence = d.batch_id_sequence;
  }

pub add_near-amount :
    (env : Env) (a b : StakeBatch) (amount : ℕ)
    → add_near env a amount ≡ ok b
    → b.balance.amount ≡ a.balance.amount + amount
unfolding add_near NearBalance.credit add_u128
add_near-amount env a b amount h = ground arith

pub existing_or_new-eq :
    (env : Env) (o : Option StakeBatch) (c d : Contract) (b : StakeBatch)
    → existing_or_new_stake_batch env o c ≡ ok (b, d)
    → (b.balance.amount ≡ stake_batch_amount o)
      × (d ≡ record c { batch_id_sequence = d.batch_id_sequence })
unfolding existing_or_new_stake_batch add_u128
existing_or_new-eq env none c d b h = ground arith
existing_or_new-eq env (some batch) c d b h = ground arith

account_batch-amount :
    (env : Env) (b : StakeBatch) (o : Option StakeBatch)
    → (account_batch env b o).balance.amount ≡ stake_batch_amount o
account_batch-amount env b none = refl
account_batch-amount env b (some x) = refl

module _ (env : Env) (r b : RegisteredAccount) (amount id : ℕ) (c d : Contract) where
  pub deposit_current-Filled :
      deposit_current env r amount c ≡ ok ((b, id), d)
      → Filled amount r b c d
        × (d.next_stake_batch ≡ c.next_stake_batch)
        × (b.account.next_stake_batch ≡ r.account.next_stake_batch)
  unfolding deposit_current
  deposit_current-Filled h =
      let ((batch, e), e1, k1) = >>=-eq-ok (existing_or_new_stake_batch env c.stake_batch) _ c h in
      let (filled, e2, k2) = lift-eq-ok (add_near env batch amount) _ e k1 in
      let own = account_batch env filled r.account.stake_batch in
      let (mine, e3, k3) =
        lift-eq-ok (add_near env own amount) _ (set_stake_batch (some filled) e) k2 in
      let (found, same) = existing_or_new-eq env c.stake_batch c e batch e1 in
      let more = add_near-amount env batch filled amount e2 in
      let own_more = add_near-amount env own mine amount e3 in
      let before = account_batch-amount env filled r.account.stake_batch in
      (
        record {
          same_id = ground arith;
          contract = ground (arith, found, same, more);
          account = ground (arith, own_more, before);
          account_rest = ground arith;
          rest = ground (arith, same);
        },
        ground (arith, same),
        ground arith,
      )

  pub deposit_next-Filled :
      deposit_next env r amount c ≡ ok ((b, id), d)
      → Filled amount r b c d
        × (d.stake_batch ≡ c.stake_batch)
        × (b.account.stake_batch ≡ r.account.stake_batch)
  unfolding deposit_next
  deposit_next-Filled h =
      let ((batch, e), e1, k1) =
        >>=-eq-ok (existing_or_new_stake_batch env c.next_stake_batch) _ c h in
      let (filled, e2, k2) = lift-eq-ok (add_near env batch amount) _ e k1 in
      let own = account_batch env filled r.account.next_stake_batch in
      let (mine, e3, k3) =
        lift-eq-ok (add_near env own amount) _ (set_next_stake_batch (some filled) e) k2 in
      let (found, same) = existing_or_new-eq env c.next_stake_batch c e batch e1 in
      let more = add_near-amount env batch filled amount e2 in
      let own_more = add_near-amount env own mine amount e3 in
      let before = account_batch-amount env filled r.account.next_stake_batch in
      (
        record {
          same_id = ground arith;
          contract = ground (arith, found, same, more);
          account = ground (arith, own_more, before);
          account_rest = ground arith;
          rest = ground (arith, same);
        },
        ground (arith, same),
        ground arith,
      )

-- A deposit that succeeds first claims the account's receipts. It then adds exactly the amount, which is not zero,
-- to the two batches of the account together, and to the two of the contract. While a stake batch
-- is locked the current batch of both is left as it was, so that the amount goes into their next
-- ones; else their next ones are left, and it goes into the current ones. Nothing else changes but
-- the sequence of batch IDs.
pub deposit_near_for_account_to_stake-Filled :
    (env : Env) (r b : RegisteredAccount) (amount id : ℕ) (c d : Contract)
    → deposit_near_for_account_to_stake env r amount c ≡ ok ((b, id), d)
    → (claimed : RegisteredAccount) × (between : Contract) × (claim_receipt_funds env r c
        ≡ ok (claimed, between))
      × (0 < amount)
      × Filled amount claimed b between d
      × ((if stake_batch_locked between then d.stake_batch else d.next_stake_batch)
          ≡ (if stake_batch_locked between then between.stake_batch else between.next_stake_batch))
      × ((if stake_batch_locked between then b.account.stake_batch else b.account.next_stake_batch)
          ≡ (if stake_batch_locked between
              then claimed.account.stake_batch
              else claimed.account.next_stake_batch))
unfolding deposit_near_for_account_to_stake
deposit_near_for_account_to_stake-Filled env r b amount id c d h =
    let (positive, k1) = assert-eq-ok (ltb 0 amount) deposit_required_for_stake _ c h in
    let ((claimed, e), e1, k2) = >>=-eq-ok (claim_receipt_funds env r) _ c k1 in
    elim (Bool-cases (stake_batch_locked e)) [
      | inl locked ↦
          let k3 : deposit_next env claimed amount e ≡ ok ((b, id), d) = rw locked at k2 in
          let (x, kept, own) = deposit_next-Filled env claimed b amount id e d k3 in
          (claimed, e, e1, ground (arith, positive), x, rw locked kept, rw locked own)
      | inr free ↦
          let k3 : deposit_current env claimed amount e ≡ ok ((b, id), d) = rw free at k2 in
          let (x, kept, own) = deposit_current-Filled env claimed b amount id e d k3 in
          (claimed, e, e1, ground (arith, positive), x, rw free kept, rw free own)
    ]
