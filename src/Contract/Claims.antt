-- ===== src/Contract/Claims.antt =====
-- Claiming the funds of processed batches (`claim_receipt_funds` and what it calls in
-- contract/src/contract/staking_service.rs), and the same computed for views.
pub mod Steps
pub mod Frame
pub mod Redeemed
pub mod Accounting
pub mod Settling
pub mod Refusal
pub mod Gain
use oysterpack_near_stake_to.Prelude.{
  ℕ, Bool, true, false, not, ◌||◌, ◌&&◌, Option, none, some, leb, ltb, ◌==◌, if◌then◌else◌, is_some,
}
use oysterpack_near_stake_to.Prelude.Dict
use oysterpack_near_stake_to.Near.Error.{redeem_stake_batch_should_exist}
use oysterpack_near_stake_to.Near.Word.{sub_u128}
use oysterpack_near_stake_to.Near.Env.{Env}
use oysterpack_near_stake_to.Domain.NearBalance
use oysterpack_near_stake_to.Domain.NearBalance.{TimestampedNearBalance}
use oysterpack_near_stake_to.Domain.StakeTokenValue.{near_to_stake, stake_to_near}
use oysterpack_near_stake_to.Domain.Batch.{StakeBatch, RedeemStakeBatch, remove_stake}
use oysterpack_near_stake_to.Domain.Receipt.{
  StakeBatchReceipt, RedeemStakeBatchReceipt, stake_tokens_issued, stake_tokens_redeemed,
  all_stake_claimed, all_near_claimed,
}
use oysterpack_near_stake_to.Domain.Lock.{RedeemLock, pending_withdrawal, unstaking}
use oysterpack_near_stake_to.Domain.Account.{
  Account, RegisteredAccount, apply_stake_credit, apply_near_credit,
}
use oysterpack_near_stake_to.Contract.State.{Contract, stake_batch_locked, pop_redeem_stake_batch}
use oysterpack_near_stake_to.Contract.Monad.{M, pure, ◌>>=◌, ◌>>◌, lift, expect, self, modify}
use oysterpack_near_stake_to.Contract.Accounts.{save_registered_account}

abbrev pub keep_stake_receipt : ℕ → StakeBatchReceipt → Contract → Contract
keep_stake_receipt id r c = record c {
  stake_batch_receipts =
      if all_stake_claimed r
      then Dict.remove id c.stake_batch_receipts
      else Dict.insert id r c.stake_batch_receipts;
}

abbrev keep_redeem_receipt : ℕ → RedeemStakeBatchReceipt → Contract → Contract
keep_redeem_receipt id r c = record c {
  redeem_stake_batch_receipts =
      if all_near_claimed r
      then Dict.remove id c.redeem_stake_batch_receipts
      else Dict.insert id r c.redeem_stake_batch_receipts;
}

-- The nested function of `claim_stake_batch_receipts`.
unfoldable pub claim_stake_tokens_for_batch :
    Env → Account → StakeBatch → StakeBatchReceipt → M Account
claim_stake_tokens_for_batch env a batch receipt = do
  let staked_near = batch.balance.amount
  stake ← lift (near_to_stake receipt.stake_token_value staked_near)
  credited ← lift (apply_stake_credit env a stake)
  claimed ← lift (stake_tokens_issued receipt staked_near)
  modify (keep_stake_receipt batch.batch_id claimed)
  pure credited

-- One of the two `if let Some(batch)` blocks of `claim_stake_batch_receipts`; `clear` takes the
-- batch off the account. The flag says whether funds were claimed.
unfoldable pub claim_stake_batch :
    Env → (Account → Account) → Account → Option StakeBatch → M (Account × Bool)
unfolding claim_stake_tokens_for_batch
claim_stake_batch env clear a none = pure (a, false)
claim_stake_batch env clear a (some batch) = do
  c ← self
  elim (Dict.get batch.batch_id c.stake_batch_receipts) [
    | none ↦ pure (a, false)
    | some receipt ↦ do
      credited ← claim_stake_tokens_for_batch env a batch receipt
      pure (clear credited, true)
  ]

abbrev pub clear_stake_batch : Account → Account
clear_stake_batch a = record a { stake_batch = none }

abbrev pub clear_next_stake_batch : Account → Account
clear_next_stake_batch a = record a { next_stake_batch = none }

-- The next batch becomes the current one once that is claimed, unless a stake batch is running.
abbrev pub shift_stake_batch : Contract → Account → Account
shift_stake_batch c a =
    if not (stake_batch_locked c) && not (is_some a.stake_batch)
    then record a { stake_batch = a.next_stake_batch; next_stake_batch = none }
    else a

unfoldable pub claim_stake_batch_receipts : Env → Account → M (Account × Bool)
claim_stake_batch_receipts env a = do
  (a1, first) ← claim_stake_batch env clear_stake_batch a a.stake_batch
  (a2, second) ← claim_stake_batch env clear_next_stake_batch a1 a1.next_stake_batch
  c ← self
  pure (shift_stake_batch c a2, first || second)

-- The nested functions of `claim_redeem_stake_batch_receipts`.
unfoldable pub claim_redeemed_stake_for_batch :
    Env → Account → RedeemStakeBatch → RedeemStakeBatchReceipt → M Account
claim_redeemed_stake_for_batch env a batch receipt = do
  let redeemed_stake = batch.balance.amount
  near ← lift (stake_to_near receipt.stake_token_value redeemed_stake)
  credited ← lift (apply_near_credit env a near)
  claimed ← lift (stake_tokens_redeemed receipt redeemed_stake)
  modify (keep_redeem_receipt batch.batch_id claimed)
  pure credited

abbrev take_liquidity : ℕ → TimestampedNearBalance → Contract → Contract
take_liquidity pool total_near c = record c { near_liquidity_pool = pool; total_near = total_near }

-- With all of the receipt claimed, the redeem workflow is over.
abbrev pub finish_redeem : Contract → Contract
finish_redeem c = pop_redeem_stake_batch (record c { redeem_stake_batch_lock = none })

unfoldable pub claim_redeemed_stake_for_batch_pending_withdrawal :
    Env → Account → RedeemStakeBatch → RedeemStakeBatchReceipt → M (Account × RedeemStakeBatch)
claim_redeemed_stake_for_batch_pending_withdrawal env a batch receipt = do
  near_value ← lift (stake_to_near receipt.stake_token_value batch.balance.amount)
  c ← self
  let claimed_near =
      if leb near_value c.near_liquidity_pool then near_value else c.near_liquidity_pool
  redeemable_stake ← lift (near_to_stake receipt.stake_token_value claimed_near)
  rest ← lift (remove_stake env batch redeemable_stake)
  credited ← lift (apply_near_credit env a claimed_near)
  pool ← lift (sub_u128 c.near_liquidity_pool claimed_near)
  total_near ← lift (NearBalance.credit env c.total_near claimed_near)
  modify (take_liquidity pool total_near)
  claimed ← lift (stake_tokens_redeemed receipt redeemable_stake)
  modify (keep_redeem_receipt batch.batch_id claimed)
  modify (λ d. if all_near_claimed claimed then finish_redeem d else d)
  pure (credited, rest)

-- One block of `claim_redeem_stake_batch_receipts` where no withdrawal is pending for the batch.
unfoldable pub claim_redeem_batch :
    Env → (Account → Account) → Account → RedeemStakeBatch → M (Account × Bool)
unfolding claim_redeemed_stake_for_batch
claim_redeem_batch env clear a batch = do
  c ← self
  elim (Dict.get batch.batch_id c.redeem_stake_batch_receipts) [
    | none ↦ pure (a, false)
    | some receipt ↦ do
      credited ← claim_redeemed_stake_for_batch env a batch receipt
      pure (clear credited, true)
  ]

unfoldable pub claim_optional_redeem_batch :
    Env → (Account → Account) → Account → Option RedeemStakeBatch → M (Account × Bool)
unfolding claim_redeem_batch
claim_optional_redeem_batch env clear a none = pure (a, false)
claim_optional_redeem_batch env clear a (some batch) = claim_redeem_batch env clear a batch

abbrev pub none_if_zero : RedeemStakeBatch → Option RedeemStakeBatch
none_if_zero b = if b.balance.amount == 0 then none else some b

-- The funds of the pending batch, as far as the liquidity pool has any.
unfoldable pub claim_from_liquidity :
    Env
    → (Option RedeemStakeBatch → Account → Account)
    → Account
    → RedeemStakeBatch
    → M (Account × Bool)
claim_from_liquidity env put a batch = do
  c ← self
  elim (if ltb 0 c.near_liquidity_pool
      then Dict.get batch.batch_id c.redeem_stake_batch_receipts
      else none) [
        | none ↦ pure (a, false)
        | some receipt ↦ do
          (credited, rest) ← claim_redeemed_stake_for_batch_pending_withdrawal env a batch receipt
          pure (put (none_if_zero rest) credited, true)
      ]

-- The block where the withdrawal of `pending_batch_id` is pending: against that batch's receipt
-- funds are claimed from the liquidity pool only. `put` puts what is left of the batch back.
unfoldable pub claim_batch_while_pending :
    Env
    → (Option RedeemStakeBatch → Account → Account)
    → ℕ
    → Account
    → Option RedeemStakeBatch
    → M (Account × Bool)
claim_batch_while_pending env put pending_batch_id a none = pure (a, false)
claim_batch_while_pending env put pending_batch_id a (some batch) =
    if not (batch.batch_id == pending_batch_id)
    then claim_redeem_batch env (put none) a batch
    else claim_from_liquidity env put a batch

abbrev pub put_redeem_batch : Option RedeemStakeBatch → Account → Account
put_redeem_batch o a = record a { redeem_stake_batch = o }

abbrev pub put_next_redeem_batch : Option RedeemStakeBatch → Account → Account
put_next_redeem_batch o a = record a { next_redeem_stake_batch = o }

-- The next batch becomes the current one once that is claimed, unless the redeem workflow runs.
abbrev pub shift_redeem_batch : Contract → Account → Account
shift_redeem_batch c a =
    if not (is_some c.redeem_stake_batch_lock) && not (is_some a.redeem_stake_batch)
    then record a { redeem_stake_batch = a.next_redeem_stake_batch; next_redeem_stake_batch = none }
    else a

unfoldable pub claim_while_pending : Env → Account → M (Account × Bool)
claim_while_pending env a = do
  c ← self
  pending ← expect c.redeem_stake_batch redeem_stake_batch_should_exist
  (a1, first) ←
      claim_batch_while_pending env put_redeem_batch pending.batch_id a a.redeem_stake_batch
  (a2, second) ←
      claim_batch_while_pending env put_next_redeem_batch pending.batch_id a1
        a1.next_redeem_stake_batch
  d ← self
  pure (shift_redeem_batch d a2, first || second)

unfoldable pub claim_while_unlocked : Env → Account → M (Account × Bool)
claim_while_unlocked env a = do
  (a1, first) ← claim_optional_redeem_batch env (put_redeem_batch none) a a.redeem_stake_batch
  (a2, second) ←
      claim_optional_redeem_batch env (put_next_redeem_batch none) a1 a1.next_redeem_stake_batch
  d ← self
  pure (shift_redeem_batch d a2, first || second)

unfoldable pub claim_by_lock : Env → Account → Option RedeemLock → M (Account × Bool)
claim_by_lock env a none = claim_while_unlocked env a
claim_by_lock env a (some pending_withdrawal) = claim_while_pending env a
claim_by_lock env a (some unstaking) = pure (a, false)

unfoldable pub claim_redeem_stake_batch_receipts : Env → Account → M (Account × Bool)
claim_redeem_stake_batch_receipts env a = do c ← self; claim_by_lock env a c.redeem_stake_batch_lock

-- The account is saved if funds were claimed.
unfoldable pub claim_receipt_funds : Env → RegisteredAccount → M RegisteredAccount
claim_receipt_funds env a = do
  (a1, claimed_stake) ← claim_stake_batch_receipts env a.account
  (a2, claimed_near) ← claim_redeem_stake_batch_receipts env a1
  let b = record a { account = a2 }
  (if claimed_stake || claimed_near then save_registered_account b else pure tt)
  pure b
