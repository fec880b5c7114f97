-- ===== src/Contract/Unstaking/Workflow.antt =====
-- The redeeming workflow (contract/src/contract/redeeming_workflow_callbacks.rs): what its steps
-- do to the supply of STAKE, to the NEAR at hand and to the lock.
use oysterpack_near_stake_to.Prelude.{ℕ, ◌+◌, ◌≡◌, none, some, arith}
use oysterpack_near_stake_to.Prelude.Dict
use oysterpack_near_stake_to.Near.Error.{
  ok, unstake_failure, stake_batch_should_exist, redeem_stake_batch_should_exist,
  redeem_stake_batch_receipt_should_exist,
}
use oysterpack_near_stake_to.Near.Env.{Env}
use oysterpack_near_stake_to.Domain.Batch.{RedeemStakeBatch}
use oysterpack_near_stake_to.Domain.Balances.{near_credit-amount, stake_debit-amount}
use oysterpack_near_stake_to.Domain.NearBalance
use oysterpack_near_stake_to.Domain.StakeBalance
use oysterpack_near_stake_to.Domain.Receipt.{
  RedeemStakeBatchReceipt, create_receipt, stake_near_value,
}
use oysterpack_near_stake_to.Domain.Lock.{pending_withdrawal}
use oysterpack_near_stake_to.Contract.State.{Contract}
use oysterpack_near_stake_to.Contract.Monad.{>>=-eq-ok, lift-eq-ok, expect-eq-ok, assert-eq-ok}
use oysterpack_near_stake_to.Contract.Unstaking.{
  on_unstake, finalize_redeem_batch, create_redeem_stake_batch_receipt, promise_result_succeeded,
}

-- What an unstaked batch leaves behind.
pub record Unstaked (c d : Contract) : Type 0 where
  batch : RedeemStakeBatch
  is_batch : c.redeem_stake_batch ≡ some batch
  burned : d.total_stake.amount + batch.balance.amount ≡ c.total_stake.amount
  receipt :
      d.redeem_stake_batch_receipts
      ≡ Dict.insert batch.batch_id
          (create_receipt batch c.stake_token_value)
          c.redeem_stake_batch_receipts
  pub locked : d.redeem_stake_batch_lock ≡ some pending_withdrawal
  pub rest : d ≡ record c {
    redeem_stake_batch_receipts = d.redeem_stake_batch_receipts;
    total_stake = d.total_stake;
    redeem_stake_batch_lock = d.redeem_stake_batch_lock;
  }

-- When `on_unstake` succeeds, exactly the STAKE of the batch leaves the supply, a receipt
-- stores the batch's amount with the current value, the withdrawal is pending, and no other field
-- changes: the batch itself stays in place.
pub on_unstake-Unstaked :
    (env : Env) (c d : Contract) → on_unstake env c ≡ ok (tt, d) → Unstaked c d
unfolding on_unstake create_redeem_stake_batch_receipt
on_unstake-Unstaked env c d h =
    let (_, k1) = assert-eq-ok (promise_result_succeeded env) unstake_failure _ c h in
    let ((_, e), k2, k3) = >>=-eq-ok (create_redeem_stake_batch_receipt env) _ c k1 in
    let (batch, is_batch, k4) = expect-eq-ok c.redeem_stake_batch stake_batch_should_exist _ c k2 in
    let (total, k5, k6) =
      lift-eq-ok (StakeBalance.debit env c.total_stake batch.balance.amount) _ c k4 in
    let burned = stake_debit-amount env c.total_stake total batch.balance.amount k5 in
    record {
      batch = batch;
      is_batch = is_batch;
      burned = ground (arith, burned);
      receipt = ground arith;
      locked = ground arith;
      rest = ground arith;
    }

pub record Finalized (id : ℕ) (c d : Contract) : Type 0 where
  batch : RedeemStakeBatch
  receipt : RedeemStakeBatchReceipt
  near_value : ℕ
  is_batch : c.redeem_stake_batch ≡ some batch
  is_id : id ≡ batch.batch_id
  is_receipt : Dict.get batch.batch_id c.redeem_stake_batch_receipts ≡ some receipt
  worth : stake_near_value receipt ≡ ok near_value
  paid : d.total_near.amount ≡ c.total_near.amount + near_value
  next : d.redeem_stake_batch ≡ c.next_redeem_stake_batch
  no_next : d.next_redeem_stake_batch ≡ none
  pub unlocked : d.redeem_stake_batch_lock ≡ none
  pub rest : d ≡ record c {
    total_near = d.total_near;
    redeem_stake_batch = d.redeem_stake_batch;
    next_redeem_stake_batch = d.next_redeem_stake_batch;
    redeem_stake_batch_lock = d.redeem_stake_batch_lock;
  }

-- Finalizing a redeem batch, if it succeeds, adds what is left of its receipt in NEAR to the NEAR that accounts can
-- withdraw, makes the next batch the current one, and ends the workflow; no other field changes.
pub finalize_redeem_batch-Finalized :
    (env : Env) (c d : Contract) (id : ℕ)
    → finalize_redeem_batch env c ≡ ok (id, d)
    → Finalized id c d
unfolding finalize_redeem_batch
finalize_redeem_batch-Finalized env c d id h =
    let (batch, is_batch, k1) =
      expect-eq-ok c.redeem_stake_batch redeem_stake_batch_should_exist _ c h in
    let (receipt, is_receipt, k2) =
      expect-eq-ok (Dict.get batch.batch_id c.redeem_stake_batch_receipts)
        redeem_stake_batch_receipt_should_exist _ c k1 in
    let (near_value, worth, k3) = lift-eq-ok (stake_near_value receipt) _ c k2 in
    let (total, k4, k5) = lift-eq-ok (NearBalance.credit env c.total_near near_value) _ c k3 in
    let paid = near_credit-amount env c.total_near total near_value k4 in
    record {
      batch = batch;
      receipt = receipt;
      near_value = near_value;
      is_batch = is_batch;
      is_id = ground arith;
      is_receipt = is_receipt;
      worth = worth;
      paid = ground (arith, paid);
      next = ground arith;
      no_next = ground arith;
      unlocked = ground arith;
      rest = ground arith;
    }
