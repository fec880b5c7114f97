-- ===== src/Contract/Views/Steps.antt =====
-- One block of the claim against the same block of the view
-- (contract/src/contract/staking_service.rs).
use oysterpack_near_stake_to.Prelude.{ℕ, ◌≡◌, refl, ◌≢◌, Bool, Option, none, some, arith}
use oysterpack_near_stake_to.Prelude.Dict
use oysterpack_near_stake_to.Near.Error.{ok}
use oysterpack_near_stake_to.Near.Env.{Env}
use oysterpack_near_stake_to.Domain.Batch.{StakeBatch, RedeemStakeBatch}
use oysterpack_near_stake_to.Domain.Receipt.{StakeBatchReceipt, RedeemStakeBatchReceipt}
use oysterpack_near_stake_to.Domain.Account.{Account, apply_stake_credit, apply_near_credit}
use oysterpack_near_stake_to.Contract.State.{Contract}
use oysterpack_near_stake_to.Contract.Claims.{
  claim_stake_tokens_for_batch, claim_stake_batch, claim_redeemed_stake_for_batch,
  claim_redeem_batch, claim_optional_redeem_batch, clear_stake_batch, clear_next_stake_batch,
  put_redeem_batch, put_next_redeem_batch,
}
use oysterpack_near_stake_to.Contract.Views.{view_stake_batch, view_redeem_batch}

module _ (env : Env) (clear : Account → Account) where
  -- The block of the claim leaves the account that the block of the view computes.
  pub claim_stake_batch-viewed :
      (a b : Account) (o : Option StakeBatch) (flag : Bool) (c d : Contract)
      → claim_stake_batch env clear a o c ≡ ok ((b, flag), d)
      → view_stake_batch env c clear a o ≡ ok b
  unfolding claim_stake_batch view_stake_batch claim_stake_tokens_for_batch
  claim_stake_batch-viewed a b none flag c d h = ground arith
  claim_stake_batch-viewed a b (some batch) flag c d h = ground arith

  pub claim_optional-viewed :
      (a b : Account) (o : Option RedeemStakeBatch) (flag : Bool) (c d : Contract)
      → claim_optional_redeem_batch env clear a o c ≡ ok ((b, flag), d)
      → view_redeem_batch env c clear a o ≡ ok b
  unfolding claim_optional_redeem_batch claim_redeem_batch view_redeem_batch
      claim_redeemed_stake_for_batch
  claim_optional-viewed a b none flag c d h = ground arith
  claim_optional-viewed a b (some batch) flag c d h = ground arith

  -- The receipts of other batches stay.
  pub claim_stake_batch-receipts :
      (a b : Account) (o : Option StakeBatch) (flag : Bool) (c d : Contract) (id : ℕ)
      → claim_stake_batch env clear a o c ≡ ok ((b, flag), d)
      → ((x : StakeBatch) → o ≡ some x → x.batch_id ≢ id)
      → Dict.get id d.stake_batch_receipts ≡ Dict.get id c.stake_batch_receipts
  unfolding claim_stake_batch claim_stake_tokens_for_batch
  claim_stake_batch-receipts a b none flag c d id h k = ground arith
  claim_stake_batch-receipts a b (some batch) flag c d id h k = grind (
    arith,
    λ (v : StakeBatchReceipt).
        Dict.get-insert_ne id batch.batch_id v c.stake_batch_receipts (k batch refl),
    Dict.get-remove_ne id batch.batch_id c.stake_batch_receipts (k batch refl),
  )

  pub claim_optional-receipts :
      (a b : Account) (o : Option RedeemStakeBatch) (flag : Bool) (c d : Contract) (id : ℕ)
      → claim_optional_redeem_batch env clear a o c ≡ ok ((b, flag), d)
      → ((x : RedeemStakeBatch) → o ≡ some x → x.batch_id ≢ id)
      → Dict.get id d.redeem_stake_batch_receipts ≡ Dict.get id c.redeem_stake_batch_receipts
  unfolding claim_optional_redeem_batch claim_redeem_batch claim_redeemed_stake_for_batch
  claim_optional-receipts a b none flag c d id h k = ground arith
  claim_optional-receipts a b (some batch) flag c d id h k = grind (
    arith,
    λ (v : RedeemStakeBatchReceipt).
        Dict.get-insert_ne id batch.batch_id v c.redeem_stake_batch_receipts (k batch refl),
    Dict.get-remove_ne id batch.batch_id c.redeem_stake_batch_receipts (k batch refl),
  )

  -- A claim of a stake batch touches no other field of the contract than the receipts.
  pub claim_stake_batch-kept :
      (a b : Account) (o : Option StakeBatch) (flag : Bool) (c d : Contract)
      → claim_stake_batch env clear a o c ≡ ok ((b, flag), d)
      → d ≡ record c { stake_batch_receipts = d.stake_batch_receipts }
  unfolding claim_stake_batch claim_stake_tokens_for_batch
  claim_stake_batch-kept a b none flag c d h = ground arith
  claim_stake_batch-kept a b (some batch) flag c d h = ground arith

  pub claim_optional-kept :
      (a b : Account) (o : Option RedeemStakeBatch) (flag : Bool) (c d : Contract)
      → claim_optional_redeem_batch env clear a o c ≡ ok ((b, flag), d)
      → d ≡ record c { redeem_stake_batch_receipts = d.redeem_stake_batch_receipts }
  unfolding claim_optional_redeem_batch claim_redeem_batch claim_redeemed_stake_for_batch
  claim_optional-kept a b none flag c d h = ground arith
  claim_optional-kept a b (some batch) flag c d h = ground arith

  -- The view of a batch reads that batch's receipt only.
  pub view_stake_batch-same :
      (a : Account) (o : Option StakeBatch) (c d : Contract)
      → ((x : StakeBatch)
          → o ≡ some x
          → Dict.get x.batch_id d.stake_batch_receipts ≡ Dict.get x.batch_id c.stake_batch_receipts)
      → view_stake_batch env d clear a o ≡ view_stake_batch env c clear a o
  unfolding view_stake_batch
  view_stake_batch-same a none c d k = refl
  view_stake_batch-same a (some batch) c d k = ground (arith, k batch refl)

  pub view_redeem_batch-same :
      (a : Account) (o : Option RedeemStakeBatch) (c d : Contract)
      → ((x : RedeemStakeBatch)
          → o ≡ some x
          → Dict.get x.batch_id d.redeem_stake_batch_receipts
            ≡ Dict.get x.batch_id c.redeem_stake_batch_receipts)
      → view_redeem_batch env d clear a o ≡ view_redeem_batch env c clear a o
  unfolding view_redeem_batch
  view_redeem_batch-same a none c d k = refl
  view_redeem_batch-same a (some batch) c d k = ground (arith, k batch refl)

-- What a block of the view changes of the account.
module _ (env : Env) (c : Contract) (a b : Account) where
  pub view_stake_batch-kept :
      (o : Option StakeBatch)
      → view_stake_batch env c clear_stake_batch a o ≡ ok b
      → b ≡ record a { stake = b.stake; stake_batch = b.stake_batch }
  unfolding view_stake_batch apply_stake_credit
  view_stake_batch-kept none h = ground arith
  view_stake_batch-kept (some batch) h = ground arith

  pub view_next_stake_batch-kept :
      (o : Option StakeBatch)
      → view_stake_batch env c clear_next_stake_batch a o ≡ ok b
      → b ≡ record a { stake = b.stake; next_stake_batch = b.next_stake_batch }
  unfolding view_stake_batch apply_stake_credit
  view_next_stake_batch-kept none h = ground arith
  view_next_stake_batch-kept (some batch) h = ground arith

  pub view_redeem_batch-kept :
      (o : Option RedeemStakeBatch)
      → view_redeem_batch env c (put_redeem_batch none) a o ≡ ok b
      → b ≡ record a { near = b.near; redeem_stake_batch = b.redeem_stake_batch }
  unfolding view_redeem_batch apply_near_credit
  view_redeem_batch-kept none h = ground arith
  view_redeem_batch-kept (some batch) h = ground arith

  pub view_next_redeem_batch-kept :
      (o : Option RedeemStakeBatch)
      → view_redeem_batch env c (put_next_redeem_batch none) a o ≡ ok b
      → b ≡ record a { near = b.near; next_redeem_stake_batch = b.next_redeem_stake_batch }
  unfolding view_redeem_batch apply_near_credit
  view_next_redeem_batch-kept none h = ground arith
  view_next_redeem_batch-kept (some batch) h = ground arith
