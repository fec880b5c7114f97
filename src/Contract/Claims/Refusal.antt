-- ===== src/Contract/Claims/Refusal.antt =====
-- Claims of a batch that holds more than its receipt (contract/src/contract/staking_service.rs).
use oysterpack_near_stake_to.Prelude.{
  Bool, ◌≡◌, ◌<◌, ◌∙◌, ap, subst, Option, none, some, ◌⊎◌, inl, inr, arith,
}
use oysterpack_near_stake_to.Prelude.Dict
use oysterpack_near_stake_to.Near.Error.{ok}
use oysterpack_near_stake_to.Near.Word.{sub_u128}
use oysterpack_near_stake_to.Near.Env.{Env}
use oysterpack_near_stake_to.Domain.Batch.{StakeBatch}
use oysterpack_near_stake_to.Domain.Receipt.{StakeBatchReceipt, stake_tokens_issued}
use oysterpack_near_stake_to.Domain.Account.{Account, RegisteredAccount}
use oysterpack_near_stake_to.Contract.State.{Contract}
use oysterpack_near_stake_to.Contract.Monad.{>>=-eq-ok}
use oysterpack_near_stake_to.Contract.Claims.{
  claim_stake_tokens_for_batch, claim_stake_batch, claim_stake_batch_receipts, claim_receipt_funds,
  clear_stake_batch, clear_next_stake_batch,
}

-- A batch beyond its receipt is not claimed.
claim_stake_batch-refused :
    (env : Env) (clear : Account → Account) (a b : Account) (y : StakeBatch) (q : StakeBatchReceipt)
    (flag : Bool) (c d : Contract)
    → Dict.get y.batch_id c.stake_batch_receipts ≡ some q
    → q.staked_near < y.balance.amount
    → ¬ (claim_stake_batch env clear a (some y) c ≡ ok ((b, flag), d))
unfolding claim_stake_batch claim_stake_tokens_for_batch stake_tokens_issued sub_u128
claim_stake_batch-refused env clear a b y q flag c d found less h = ground (arith, found, less, h)

-- An account whose batch holds more than is left of that batch's receipt cannot claim, and so can call
-- no method that claims: its current batch, or its next one where it has no current batch.
pub claim_receipt_funds-refused :
    (env : Env) (r b : RegisteredAccount) (y : StakeBatch) (q : StakeBatchReceipt) (c d : Contract)
    → (r.account.stake_batch ≡ some y)
      ⊎ ((r.account.stake_batch ≡ none) × (r.account.next_stake_batch ≡ some y))
    → Dict.get y.batch_id c.stake_batch_receipts ≡ some q
    → q.staked_near < y.balance.amount
    → ¬ (claim_receipt_funds env r c ≡ ok (b, d))
unfolding claim_receipt_funds claim_stake_batch_receipts claim_stake_batch
claim_receipt_funds-refused env r b y q c d (inl current) found less h =
    let (((a1, f), e), e1, k1) = >>=-eq-ok (claim_stake_batch_receipts env r.account) _ c h in
    let (((a2, g), l), e2, k2) =
      >>=-eq-ok (claim_stake_batch env clear_stake_batch r.account r.account.stake_batch) _ c e1 in
    claim_stake_batch-refused env clear_stake_batch r.account a2 y q g c l found less (
      subst
        (λ (o : Option StakeBatch).
          claim_stake_batch env clear_stake_batch r.account o c ≡ ok ((a2, g), l))
        current e2)
claim_receipt_funds-refused env r b y q c d (inr (current, next)) found less h =
    let (((a1, f), e), e1, k1) = >>=-eq-ok (claim_stake_batch_receipts env r.account) _ c h in
    let (((a2, g), l), e2, k2) =
      >>=-eq-ok (claim_stake_batch env clear_stake_batch r.account r.account.stake_batch) _ c e1 in
    let (((a3, i), m), e3, k3) =
      >>=-eq-ok (claim_stake_batch env clear_next_stake_batch a2 a2.next_stake_batch) _ l k2 in
    let unclaimed : (a2 ≡ r.account) × (l ≡ c) = ground (arith, current, e2) in
    claim_stake_batch-refused env clear_next_stake_batch a2 a3 y q i l m
      (ap (λ (t : Contract). Dict.get y.batch_id t.stake_batch_receipts) unclaimed.1 ∙ found) less
      (subst
        (λ (o : Option StakeBatch).
          claim_stake_batch env clear_next_stake_batch a2 o l ≡ ok ((a3, i), m))
        (ap (λ (t : Account). t.next_stake_batch) unclaimed.0 ∙ next) e3)
