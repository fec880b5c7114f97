-- ===== src/Contract/Redeeming/Batches.antt =====
-- What putting STAKE into the redeem batches does (`redeem_stake_for_account` in
-- contract/src/contract/staking_service.rs).
use oysterpack_near_stake_to.Prelude.{
  ℕ, ◌+◌, ◌≡◌, Bool-cases, inl, inr, Option, none, some, arith, refl, if◌then◌else◌, is_some,
}
use oysterpack_near_stake_to.Near.Error.{ok}
use oysterpack_near_stake_to.Near.Word.{add_u128}
use oysterpack_near_stake_to.Near.Env.{Env}
use oysterpack_near_stake_to.Domain.StakeBalance
use oysterpack_near_stake_to.Domain.StakeBalance.{TimestampedStakeBalance}
use oysterpack_near_stake_to.Domain.Batch.{RedeemStakeBatch, add_stake}
use oysterpack_near_stake_to.Domain.Account.{Account, redeem_batch_amount}
use oysterpack_near_stake_to.Contract.State.{Contract}
use oysterpack_near_stake_to.Contract.Monad.{>>=-eq-ok, lift-eq-ok}
use oysterpack_near_stake_to.Contract.Redeeming.{
  account_batch, set_redeem_stake_batch, set_next_redeem_stake_batch, existing_or_new_redeem_batch,
  redeem_into_current, redeem_into_next,
}

-- The STAKE in the two batches together.
abbrev pub redeeming : Contract → ℕ
redeeming c =
    redeem_batch_amount c.redeem_stake_batch + redeem_batch_amount c.next_redeem_stake_batch

abbrev pub account_redeeming : Account → ℕ
account_redeeming a =
    redeem_batch_amount a.redeem_stake_batch + redeem_batch_amount a.next_redeem_stake_batch

-- What putting `amount` into a batch does to the account and to the contract.
pub record Filled (amount : ℕ) (a b : Account) (c d : Contract) : Type 0 where
  pub contract : redeeming d ≡ redeeming c + amount
  pub account : account_redeeming b ≡ account_redeeming a + amount
  pub account_rest : b ≡ record a {
    redeem_stake_batch = b.redeem_stake_batch;
    next_redeem_stake_batch = b.next_redeem_stake_batch;
  }
  pub rest : d ≡ record c {
    redeem_stake_batch = d.redeem_stake_batch;
    next_redeem_stake_batch = d.next_redeem_stake_batch;
    batch_id_sequence = d.batch_id_sequence;
  }

pub add_stake-amount :
    (env : Env) (a b : RedeemStakeBatch) (amount : ℕ)
    → add_stake env a amount ≡ ok b
    → b.balance.amount ≡ a.balance.amount + amount
unfolding add_stake StakeBalance.credit add_u128
add_stake-amount env a b amount h = ground arith

pub existing_or_new-eq :
    (env : Env) (o : Option RedeemStakeBatch) (c d : Contract) (b : RedeemStakeBatch)
    → existing_or_new_redeem_batch env o c ≡ ok (b, d)
    → (b.balance.amount ≡ redeem_batch_amount o)
      × (d ≡ record c { batch_id_sequence = d.batch_id_sequence })
unfolding existing_or_new_redeem_batch add_u128
existing_or_new-eq env none c d b h = ground arith
existing_or_new-eq env (some batch) c d b h = ground arith

pub account_batch-amount :
    (env : Env) (b : RedeemStakeBatch) (o : Option RedeemStakeBatch)
    → (account_batch env b o).balance.amount ≡ redeem_batch_amount o
account_batch-amount env b none = refl
account_batch-amount env b (some x) = refl

module _ (env : Env) (a b : Account) (amount id : ℕ) (c d : Contract) where
  redeem_into_current-Filled :
      redeem_into_current env a amount c ≡ ok ((b, id), d)
      → Filled amount a b c d
        × (d.next_redeem_stake_batch ≡ c.next_redeem_stake_batch)
        × (b.next_redeem_stake_batch ≡ a.next_redeem_stake_batch)
  unfolding redeem_into_current
  redeem_into_current-Filled h =
      let o = c.redeem_stake_batch in
      let ((batch, e), e1, k1) = >>=-eq-ok (existing_or_new_redeem_batch env o) _ c h in
      let (filled, e2, k2) = lift-eq-ok (add_stake env batch amount) _ e k1 in
      let own = account_batch env filled a.redeem_stake_batch in
      let (mine, e3, k3) =
        lift-eq-ok (add_stake env own amount) _ (set_redeem_stake_batch (some filled) e) k2 in
      let (found, same) = existing_or_new-eq env o c e batch e1 in
      let more = add_stake-amount env batch filled amount e2 in
      let own_more = add_stake-amount env own mine amount e3 in
      let before = account_batch-amount env filled a.redeem_stake_batch in
      (
        record {
          contract = ground (arith, found, same, more);
          account = ground (arith, own_more, before);
          account_rest = ground arith;
          rest = ground (arith, same);
        },
        ground (arith, same),
        ground arith,
      )

  redeem_into_next-Filled :
      redeem_into_next env a amount c ≡ ok ((b, id), d)
      → Filled amount a b c d
        × (d.redeem_stake_batch ≡ c.redeem_stake_batch)
        × (b.redeem_stake_batch ≡ a.redeem_stake_batch)
  unfolding redeem_into_next
  redeem_into_next-Filled h =
      let o = c.next_redeem_stake_batch in
      let ((batch, e), e1, k1) = >>=-eq-ok (existing_or_new_redeem_batch env o) _ c h in
      let (filled, e2, k2) = lift-eq-ok (add_stake env batch amount) _ e k1 in
      let own = account_batch env filled a.next_redeem_stake_batch in
      let (mine, e3, k3) =
        lift-eq-ok (add_stake env own amount) _ (set_next_redeem_stake_batch (some filled) e) k2 in
      let (found, same) = existing_or_new-eq env o c e batch e1 in
      let more = add_stake-amount env batch filled amount e2 in
      let own_more = add_stake-amount env own mine amount e3 in
      let before = account_batch-amount env filled a.next_redeem_stake_batch in
      (
        record {
          contract = ground (arith, found, same, more);
          account = ground (arith, own_more, before);
          account_rest = ground arith;
          rest = ground (arith, same);
        },
        ground (arith, same),
        ground arith,
      )

  -- By the redeem lock.
  pub by_lock-Filled :
      (if is_some c.redeem_stake_batch_lock
            then redeem_into_next env a amount
            else redeem_into_current env a amount)
          c
        ≡ ok ((b, id), d)
      → Filled amount a b c d
        × ((if is_some c.redeem_stake_batch_lock
              then d.redeem_stake_batch
              else d.next_redeem_stake_batch)
            ≡ (if is_some c.redeem_stake_batch_lock
                then c.redeem_stake_batch
                else c.next_redeem_stake_batch))
        × ((if is_some c.redeem_stake_batch_lock
              then b.redeem_stake_batch
              else b.next_redeem_stake_batch)
            ≡ (if is_some c.redeem_stake_batch_lock
                then a.redeem_stake_batch
                else a.next_redeem_stake_batch))
  by_lock-Filled h = elim (Bool-cases (is_some c.redeem_stake_batch_lock)) [
    | inl locked ↦
        let (x, kept, own) = redeem_into_next-Filled (rw locked at h) in
        (x, rw locked kept, rw locked own)
    | inr free ↦
        let (x, kept, own) = redeem_into_current-Filled (rw free at h) in
        (x, rw free kept, rw free own)
  ]
