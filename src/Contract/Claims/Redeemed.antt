-- ===== src/Contract/Claims/Redeemed.antt =====
-- What claiming redeem batches leaves of the account (contract/src/contract/staking_service.rs).
use oysterpack_near_stake_to.Prelude.{ℕ, ◌≡◌, Bool, Option, none, some, arith}
use oysterpack_near_stake_to.Near.Error.{ok, ok-injective, redeem_stake_batch_should_exist}
use oysterpack_near_stake_to.Near.Error
use oysterpack_near_stake_to.Near.Env.{Env}
use oysterpack_near_stake_to.Domain.Batch.{RedeemStakeBatch}
use oysterpack_near_stake_to.Domain.Lock.{RedeemLock, pending_withdrawal, unstaking}
use oysterpack_near_stake_to.Domain.Account.{Account, apply_near_credit}
use oysterpack_near_stake_to.Contract.State.{Contract}
use oysterpack_near_stake_to.Contract.Monad.{>>=-eq-ok, lift-eq-ok}
use oysterpack_near_stake_to.Contract.Claims.{
  claim_optional_redeem_batch, claim_redeem_batch, claim_redeemed_stake_for_batch,
  claim_redeemed_stake_for_batch_pending_withdrawal, claim_from_liquidity,
  claim_batch_while_pending, claim_while_pending, claim_while_unlocked, claim_by_lock,
  put_redeem_batch, shift_redeem_batch, put_next_redeem_batch,
}

-- Of the account only the NEAR and the redeem batches differ; the receipts of stake batches stay too.
abbrev pub RedeemOnly : Account → Account → Type 0
RedeemOnly a b = b ≡ record a {
  near = b.near;
  redeem_stake_batch = b.redeem_stake_batch;
  next_redeem_stake_batch = b.next_redeem_stake_batch;
}

module _ (env : Env) (put : Option RedeemStakeBatch → Account → Account)
    (keeps : (o : Option RedeemStakeBatch) (e : Account) → RedeemOnly e (put o e)) where
  claim_redeem_batch-RedeemOnly :
      (a b : Account) (batch : RedeemStakeBatch) (flag : Bool) (c d : Contract)
      → claim_redeem_batch env (put none) a batch c ≡ ok ((b, flag), d)
      → RedeemOnly a b × (d.stake_batch_receipts ≡ c.stake_batch_receipts)
  unfolding claim_redeem_batch claim_redeemed_stake_for_batch apply_near_credit
  claim_redeem_batch-RedeemOnly a b batch flag c d h = grind (arith, keeps none)

  claim_optional-RedeemOnly :
      (a b : Account) (o : Option RedeemStakeBatch) (flag : Bool) (c d : Contract)
      → claim_optional_redeem_batch env (put none) a o c ≡ ok ((b, flag), d)
      → RedeemOnly a b × (d.stake_batch_receipts ≡ c.stake_batch_receipts)
  unfolding claim_optional_redeem_batch
  claim_optional-RedeemOnly a b none flag c d h = ground arith
  claim_optional-RedeemOnly a b (some batch) flag c d h =
      claim_redeem_batch-RedeemOnly a b batch flag c d h

  claim_from_liquidity-RedeemOnly :
      (a b : Account) (batch : RedeemStakeBatch) (flag : Bool) (c d : Contract)
      → claim_from_liquidity env put a batch c ≡ ok ((b, flag), d)
      → RedeemOnly a b × (d.stake_batch_receipts ≡ c.stake_batch_receipts)
  unfolding claim_from_liquidity claim_redeemed_stake_for_batch_pending_withdrawal apply_near_credit
  claim_from_liquidity-RedeemOnly a b batch flag c d h = grind (arith, keeps)

  claim_batch_while_pending-RedeemOnly :
      (id : ℕ) (a b : Account) (o : Option RedeemStakeBatch) (flag : Bool) (c d : Contract)
      → claim_batch_while_pending env put id a o c ≡ ok ((b, flag), d)
      → RedeemOnly a b × (d.stake_batch_receipts ≡ c.stake_batch_receipts)
  unfolding claim_batch_while_pending
  claim_batch_while_pending-RedeemOnly id a b none flag c d h = ground arith
  claim_batch_while_pending-RedeemOnly id a b (some batch) flag c d h = ground (
    arith,
    claim_redeem_batch-RedeemOnly a b batch flag c d,
    claim_from_liquidity-RedeemOnly a b batch flag c d,
  )

shift_redeem_batch-RedeemOnly : (c : Contract) (a : Account) → RedeemOnly a (shift_redeem_batch c a)
shift_redeem_batch-RedeemOnly c a = ground arith

module _ (env : Env) (a x : Account) (flag : Bool) (c h : Contract) where
  claim_while_unlocked-RedeemOnly :
      claim_while_unlocked env a c ≡ ok ((x, flag), h)
      → RedeemOnly a x × (h.stake_batch_receipts ≡ c.stake_batch_receipts)
  unfolding claim_while_unlocked
  claim_while_unlocked-RedeemOnly k =
      let (((a1, f), d), e1, k1) =
        >>=-eq-ok (claim_optional_redeem_batch env (put_redeem_batch none) a a.redeem_stake_batch) _
          c k in
      let (((a2, g), e), e2, k2) =
        >>=-eq-ok
          (claim_optional_redeem_batch env (put_next_redeem_batch none) a1
            a1.next_redeem_stake_batch)
          _ d k1 in
      ground (
        arith,
        k2,
        shift_redeem_batch-RedeemOnly e a2,
        claim_optional-RedeemOnly env put_redeem_batch (λ o e. ground arith) a a1
            a.redeem_stake_batch f c d e1,
        claim_optional-RedeemOnly env put_next_redeem_batch (λ o e. ground arith) a1 a2
            a1.next_redeem_stake_batch g d e e2,
      )

  claim_while_pending-RedeemOnly :
      claim_while_pending env a c ≡ ok ((x, flag), h)
      → RedeemOnly a x × (h.stake_batch_receipts ≡ c.stake_batch_receipts)
  unfolding claim_while_pending
  claim_while_pending-RedeemOnly k =
      let (pending, _, k0) =
        lift-eq-ok (Error.expect c.redeem_stake_batch redeem_stake_batch_should_exist) _ c k in
      let id = pending.batch_id in
      let (((a1, f), d), e1, k1) =
        >>=-eq-ok (claim_batch_while_pending env put_redeem_batch id a a.redeem_stake_batch) _ c
          k0 in
      let (((a2, g), e), e2, k2) =
        >>=-eq-ok
          (claim_batch_while_pending env put_next_redeem_batch id a1 a1.next_redeem_stake_batch) _ d
          k1 in
      ground (
        arith,
        k2,
        shift_redeem_batch-RedeemOnly e a2,
        claim_batch_while_pending-RedeemOnly env put_redeem_batch (λ o e. ground arith) id a a1
            a.redeem_stake_batch f c d e1,
        claim_batch_while_pending-RedeemOnly env put_next_redeem_batch (λ o e. ground arith) id a1
            a2 a1.next_redeem_stake_batch g d e e2,
      )

  pub claim_by_lock-RedeemOnly :
      (lock : Option RedeemLock)
      → claim_by_lock env a lock c ≡ ok ((x, flag), h)
      → RedeemOnly a x × (h.stake_batch_receipts ≡ c.stake_batch_receipts)
  unfolding claim_by_lock
  claim_by_lock-RedeemOnly none k = claim_while_unlocked-RedeemOnly k
  claim_by_lock-RedeemOnly (some pending_withdrawal) k = claim_while_pending-RedeemOnly k
  claim_by_lock-RedeemOnly (some unstaking) k = ground arith
