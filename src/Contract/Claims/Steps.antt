-- ===== src/Contract/Claims/Steps.antt =====
-- What one step of claiming receipts leaves alone (contract/src/contract/staking_service.rs).
use oysterpack_near_stake_to.Prelude.{
  ℕ, ◌≡◌, subst, ◌∙◌, ◌||◌, Bool, false, Option, none, some, arith,
}
use oysterpack_near_stake_to.Near.Error.{Result, ok, ok-injective}
use oysterpack_near_stake_to.Near.Env.{Env}
use oysterpack_near_stake_to.Domain.Batch.{StakeBatch, RedeemStakeBatch}
use oysterpack_near_stake_to.Domain.Receipt.{RedeemStakeBatchReceipt}
use oysterpack_near_stake_to.Domain.Account.{Account}
use oysterpack_near_stake_to.Contract.State.{Contract}
use oysterpack_near_stake_to.Contract.Claims.{
  claim_stake_batch, claim_redeem_batch, claim_optional_redeem_batch,
  claim_redeemed_stake_for_batch_pending_withdrawal, claim_from_liquidity,
  claim_batch_while_pending, shift_stake_batch, shift_redeem_batch,
}

-- The fields that claims may change, before the account is saved: all others are equal.
abbrev pub Within : Contract → Contract → Type 0
Within c d = d ≡ record c {
  stake_batch_receipts = d.stake_batch_receipts;
  redeem_stake_batch_receipts = d.redeem_stake_batch_receipts;
  near_liquidity_pool = d.near_liquidity_pool;
  total_near = d.total_near;
  redeem_stake_batch_lock = d.redeem_stake_batch_lock;
  redeem_stake_batch = d.redeem_stake_batch;
  next_redeem_stake_batch = d.next_redeem_stake_batch;
}

-- A step of claiming: it stays within those fields, and without claimed funds it changes neither
-- the contract nor the account's two balances.
pub record Claims (a b : Account) (flag : Bool) (c d : Contract) : Type 0 where
  pub within : Within c d
  pub near_kept : flag ≡ false → b.near ≡ a.near
  pub stake_kept : flag ≡ false → b.stake ≡ a.stake

pub Claims-trans :
    {a b e : Account} {f g : Bool} {c d h : Contract}
    → Claims a b f c d
    → Claims b e g d h
    → Claims a e (f || g) c h
Claims-trans x y = record {
  within = ground (arith, x.within, y.within);
  near_kept = λ k. ground (arith, x.near_kept, y.near_kept);
  stake_kept = λ k. ground (arith, x.stake_kept, y.stake_kept);
}

-- Shifting a batch leaves the balances alone.
Claims-same :
    {a b e : Account} {f : Bool} {c d : Contract}
    → Claims a b f c d
    → e.near ≡ b.near
    → e.stake ≡ b.stake
    → Claims a e f c d
Claims-same x n s = record {
  within = x.within;
  near_kept = λ k. n ∙ x.near_kept k;
  stake_kept = λ k. s ∙ x.stake_kept k;
}

module _ (env : Env) (clear : Account → Account) where
  pub claim_stake_batch-Claims :
      (a b : Account) (o : Option StakeBatch) (flag : Bool) (c d : Contract)
      → claim_stake_batch env clear a o c ≡ ok ((b, flag), d)
      → Claims a b flag c d
  unfolding claim_stake_batch
  claim_stake_batch-Claims a b none flag c d h = ground arith
  claim_stake_batch-Claims a b (some batch) flag c d h = ground arith

  claim_redeem_batch-Claims :
      (a b : Account) (batch : RedeemStakeBatch) (flag : Bool) (c d : Contract)
      → claim_redeem_batch env clear a batch c ≡ ok ((b, flag), d)
      → Claims a b flag c d
  unfolding claim_redeem_batch
  claim_redeem_batch-Claims a b batch flag c d h = ground arith

  pub claim_optional-Claims :
      (a b : Account) (o : Option RedeemStakeBatch) (flag : Bool) (c d : Contract)
      → claim_optional_redeem_batch env clear a o c ≡ ok ((b, flag), d)
      → Claims a b flag c d
  unfolding claim_optional_redeem_batch
  claim_optional-Claims a b none flag c d h = ground arith
  claim_optional-Claims a b (some batch) flag c d h = claim_redeem_batch-Claims a b batch flag c d h

pending-Within :
    (env : Env) (a b : Account) (batch rest : RedeemStakeBatch) (r : RedeemStakeBatchReceipt)
    (c d : Contract)
    → claim_redeemed_stake_for_batch_pending_withdrawal env a batch r c ≡ ok ((b, rest), d)
    → Within c d
unfolding claim_redeemed_stake_for_batch_pending_withdrawal
pending-Within env a b batch rest r c d h = ground arith

module _ (env : Env) (put : Option RedeemStakeBatch → Account → Account) where
  claim_from_liquidity-Claims :
      (a b : Account) (batch : RedeemStakeBatch) (flag : Bool) (c d : Contract)
      → claim_from_liquidity env put a batch c ≡ ok ((b, flag), d)
      → Claims a b flag c d
  unfolding claim_from_liquidity
  claim_from_liquidity-Claims a b batch flag c d h = grind (arith, pending-Within)

  pub claim_batch_while_pending-Claims :
      (id : ℕ) (a b : Account) (o : Option RedeemStakeBatch) (flag : Bool) (c d : Contract)
      → claim_batch_while_pending env put id a o c ≡ ok ((b, flag), d)
      → Claims a b flag c d
  unfolding claim_batch_while_pending
  claim_batch_while_pending-Claims id a b none flag c d h = ground arith
  claim_batch_while_pending-Claims id a b (some batch) flag c d h = ground (
    arith,
    claim_redeem_batch-Claims env (put none) a b batch flag c d,
    claim_from_liquidity-Claims a b batch flag c d,
  )

-- The balances of an account do not change when a batch is shifted.
pub shift_stake_batch_keeps :
    (c : Contract) (a : Account)
    → ((shift_stake_batch c a).near ≡ a.near) × ((shift_stake_batch c a).stake ≡ a.stake)
shift_stake_batch_keeps c a = ground arith

pub shift_redeem_batch_keeps :
    (c : Contract) (a : Account)
    → ((shift_redeem_batch c a).near ≡ a.near) × ((shift_redeem_batch c a).stake ≡ a.stake)
shift_redeem_batch_keeps c a = ground arith

-- The end of a chain of two claims.
pub finish :
    {a b a2 x : Account} {f g flag : Bool} {c d e h : Contract} {shifted : Account}
    → Claims a b f c d
    → Claims b a2 g d e
    → shifted.near ≡ a2.near
    → shifted.stake ≡ a2.stake
    → ◌≡◌ {A = Result ((Account × Bool) × Contract)} (ok ((shifted, f || g), e)) (ok ((x, flag), h))
    → Claims a x flag c h
finish {a} {c} p q n s k =
    subst (λ (t : (Account × Bool) × Contract). Claims a t.0.0 t.0.1 c t.1) (ok-injective k)
      (Claims-same (Claims-trans p q) n s)
