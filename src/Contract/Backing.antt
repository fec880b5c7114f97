-- ===== src/Contract/Backing.antt =====
-- Whether the contract holds, for every batch, what the accounts have in it: the calls of
-- contract/src/contract/staking_service.rs and staking_workflow_callbacks.rs in any order.
use oysterpack_near_stake_to.Prelude.{ℕ, ◌≡◌, sym, ap, ◌∙◌, none, some, arith, if◌then◌else◌}
use oysterpack_near_stake_to.Prelude.Dict
use oysterpack_near_stake_to.Prelude.Dict.{total}
use oysterpack_near_stake_to.Near.Error.{ok}
use oysterpack_near_stake_to.Near.Env.{Env}
use oysterpack_near_stake_to.Domain.Batch.{StakeBatch}
use oysterpack_near_stake_to.Contract.State.{Contract, stake_batch_locked}
use oysterpack_near_stake_to.Contract.Monad.{>>=-eq-ok}
use oysterpack_near_stake_to.Contract.Accounts.{predecessor_registered_account}
use oysterpack_near_stake_to.Contract.Accounts.Saving.{registered, registered_account-eq-ok}
use oysterpack_near_stake_to.Contract.Claims.{claim_receipt_funds}
use oysterpack_near_stake_to.Contract.Claims.Accounting.{batched, due, held}
use oysterpack_near_stake_to.Contract.Deposits.{deposit, withdraw_from_stake_batch}
use oysterpack_near_stake_to.Contract.Deposits.Filing.{at}
use oysterpack_near_stake_to.Contract.Deposits.Accounting.{
  claim_receipt_funds-due, deposit-Deposited,
}
use oysterpack_near_stake_to.Contract.Deposits.Withdrawing.{withdraw_from_stake_batch-Withdrawn}
use oysterpack_near_stake_to.Contract.StakedBatch.{process_staked_batch, stake_receipt}
use oysterpack_near_stake_to.Contract.StakedBatch.Processing.{process_staked_batch-Processed}
use oysterpack_near_stake_to.Contract.Withdrawals.{claim_receipts}

-- What the accounts have in the batches of an ID is what the contract holds for it.
abbrev pub IsBacked : Contract → Type 0
IsBacked c = (k : ℕ) → due k c ≡ held k c

process_staked_batch-IsBacked :
    (env : Env) (c d : Contract)
    → ((batch : StakeBatch)
        → c.stake_batch ≡ some batch
        → Dict.get batch.batch_id c.stake_batch_receipts ≡ none)
    → process_staked_batch env c ≡ ok (tt, d)
    → IsBacked c
    → IsBacked d
process_staked_batch-IsBacked env c d fresh h backed k =
    let x = process_staked_batch-Processed env c d h in
    ground (
      arith,
      ap (total (batched k)) x.accounts,
      backed k,
      x.receipts,
      x.is_batch,
      x.next,
      x.no_next,
      fresh x.batch x.is_batch,
      Dict.get-insert k x.batch.batch_id (stake_receipt x.batch d) c.stake_batch_receipts,
    )

-- The calls that change the batches, the accounts' batches or the receipts. A deposit or a withdrawal
-- counts where the account and the contract use the batch of one ID.
pub data Call (c d : Contract) : Type 0 where
  deposits :
      (env : Env) (id : ℕ) (filled : StakeBatch)
      → deposit env c ≡ ok (id, d)
      → (if stake_batch_locked c then d.next_stake_batch else d.stake_batch) ≡ some filled
      → filled.batch_id ≡ id
      → Call c d
  withdraws :
      (env : Env) (amount : ℕ) (h : withdraw_from_stake_batch env amount c ≡ ok (tt, d))
      → (let x = withdraw_from_stake_batch-Withdrawn env amount c d h in
          x.batch.batch_id ≡ x.taken.batch_id)
      → Call c d
  claims : (env : Env) → claim_receipts env c ≡ ok (tt, d) → Call c d
  processes :
      (env : Env) (batch : StakeBatch)
      → c.stake_batch ≡ some batch
      → Dict.get batch.batch_id c.stake_batch_receipts ≡ none
      → process_staked_batch env c ≡ ok (tt, d)
      → Call c d

claim_receipts-IsBacked :
    (env : Env) (c d : Contract) → claim_receipts env c ≡ ok (tt, d) → IsBacked c → IsBacked d
unfolding claim_receipts predecessor_registered_account
claim_receipts-IsBacked env c d h backed k =
    let (a, known, h0) = registered_account-eq-ok env env.predecessor_account_id _ c h in
    let r = registered env env.predecessor_account_id a in
    let ((b, e), e1, h1) = >>=-eq-ok (claim_receipt_funds env r) _ c h0 in
    let end : e ≡ d = ground (arith, h1) in
    let sum = claim_receipt_funds-due env r b c e k known e1 in
    ap (due k) (sym end) ∙ omega (arith, sum, backed k) ∙ ap (held k) end

Call-IsBacked : (c d : Contract) → Call c d → IsBacked c → IsBacked d
Call-IsBacked c d (deposits env id filled h into same) backed k =
    let x = deposit-Deposited env id c d h in
    let one : x.filled.batch_id ≡ id = ground (arith, into, x.is_filled, same) in
    let equal = ap (λ t. at t k env.attached_deposit) one in
    omega (arith, x.same_sum k, backed k, equal)
Call-IsBacked c d (withdraws env amount h same) backed k =
    let x = withdraw_from_stake_batch-Withdrawn env amount c d h in
    omega (arith, x.same_sum k, backed k, ap (λ t. at t k amount) same)
Call-IsBacked c d (claims env h) backed k = claim_receipts-IsBacked env c d h backed k
Call-IsBacked c d (processes env batch is_batch absent h) backed k =
    process_staked_batch-IsBacked env c d (λ b here. ground (arith, is_batch, here, absent)) h
      backed k

pub data Calls (c : Contract) : Contract → Type 0 where
  no_call : Calls c c
  one_more : {d e : Contract} → Calls c d → Call d e → Calls c e

-- Deposits and withdrawals that file the amount under one batch ID for the account and the contract,
-- claims of receipts, and the processing of batches for which there is no receipt yet, in any number
-- and order, keep what the contract holds for every batch equal to what the accounts have in it.
pub Calls-IsBacked : {c d : Contract} → IsBacked c → Calls c d → IsBacked d
Calls-IsBacked backed no_call = backed
Calls-IsBacked backed (one_more calls call) = Call-IsBacked _ _ call (Calls-IsBacked backed calls)
