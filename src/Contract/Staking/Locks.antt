-- ===== src/Contract/Staking/Locks.antt =====
-- What the calls that take or release the two locks do to them (contract/src/contract/staking_service.rs,
-- operator.rs and the two files of workflow callbacks).
use oysterpack_near_stake_to.Prelude.{
  subst, ap, ℕ, ◌≡◌, ◌⊎◌, false, ◌&&◌, arith, ◌∙◌, none, some, Option, refl,
}
use oysterpack_near_stake_to.Domain.StakeTokenValue.{StakeTokenValue}
use oysterpack_near_stake_to.Contract.TokenValue.{staked_near_balance, update_stake_token_value}
use oysterpack_near_stake_to.Contract.StakedBatch.Minting.{update-frame}
use oysterpack_near_stake_to.Near.Error.{
  ok, ok-injective, blocked_by_batch_running, stake_batch_should_exist,
}
use oysterpack_near_stake_to.Near.Env.{Env}
use oysterpack_near_stake_to.Domain.Batch.{StakeBatch}
use oysterpack_near_stake_to.Domain.Lock.{
  RedeemLock, StakeLock, unstaking, pending_withdrawal, staking, staked,
  refreshing_stake_token_value,
}
use oysterpack_near_stake_to.Contract.State.{
  Contract, stake_batch_locked, is_unstaking, StakingPoolAccount,
}
use oysterpack_near_stake_to.Contract.Monad.{lift-eq-ok, >>=-eq-ok, assert-eq-ok, expect-eq-ok}
use oysterpack_near_stake_to.Contract.Deposits.{can_run_batch}
use oysterpack_near_stake_to.Contract.Financials.{distribute_earnings}
use oysterpack_near_stake_to.Contract.StakedBatch.{set_stake_batch_lock}
use oysterpack_near_stake_to.Contract.Operator.{clear_stake_lock, clear_redeem_lock}
use oysterpack_near_stake_to.Contract.Staking.{start_staking, run_stake_batch, on_deposit_and_stake}
use oysterpack_near_stake_to.Contract.Unstaking.{unstake, unstake_by_lock}
use oysterpack_near_stake_to.Contract.Refresh.{
  refresh_stake_token_value, refresh_by_lock, on_refresh_stake_token_value,
}

-- Not both workflows are with the staking pool.
abbrev pub IsExclusive : Contract → Type 0
IsExclusive c = (stake_batch_locked c && is_unstaking c) ≡ false

-- What a run leaves of the contract, but for the stake lock it takes.
pub record Kept (c d : Contract) : Type 0 where
  pub redeem_lock : d.redeem_stake_batch_lock ≡ c.redeem_stake_batch_lock
  stake_lock : d.stake_batch_lock ≡ c.stake_batch_lock
  pub operator : d.operator_id ≡ c.operator_id
  pub redeem_batch : d.redeem_stake_batch ≡ c.redeem_stake_batch

distribute_earnings-Kept :
    (env : Env) (c d : Contract) → distribute_earnings env c ≡ ok (tt, d) → Kept c d
unfolding distribute_earnings
distribute_earnings-Kept env c d h = record {
  redeem_lock = ground arith;
  stake_lock = ground arith;
  operator = ground arith;
  redeem_batch = ground arith;
}

start_staking-Kept :
    (batch : StakeBatch) (c d : Contract) → start_staking batch c ≡ ok (tt, d) → Kept c d
unfolding start_staking
start_staking-Kept batch c d h = record {
  redeem_lock = ground arith;
  stake_lock = ground arith;
  operator = ground arith;
  redeem_batch = ground arith;
}

-- With one of the two locks free, the workflows are exclusive.
pub free-IsExclusive :
    (c : Contract) → (stake_batch_locked c ≡ false) ⊎ (is_unstaking c ≡ false) → IsExclusive c
free-IsExclusive c h = ground arith

-- A run begins while no redeem batch is being unstaked, and takes the stake lock.
pub run_stake_batch-locks :
    (env : Env) (c d : Contract)
    → run_stake_batch env c ≡ ok (tt, d)
    → (d.stake_batch_lock ≡ some staking)
      × (is_unstaking c ≡ false)
      × Kept (record c { stake_batch_lock = d.stake_batch_lock }) d
unfolding run_stake_batch
run_stake_batch-locks env c d h =
    let (free, k1) = assert-eq-ok (can_run_batch c) blocked_by_batch_running _ c h in
    let (batch, _, k2) = expect-eq-ok c.stake_batch stake_batch_should_exist _ c k1 in
    let locked = set_stake_batch_lock (some staking) c in
    let ((_, e), e3, k3) = >>=-eq-ok (distribute_earnings env) _ locked k2 in
    let x = distribute_earnings-Kept env locked e e3 in
    let y = start_staking-Kept batch e d k3 in
    (
      y.stake_lock ∙ x.stake_lock,
      ground (arith, free),
      record {
        redeem_lock = y.redeem_lock ∙ x.redeem_lock;
        stake_lock = refl;
        operator = y.operator ∙ x.operator;
        redeem_batch = y.redeem_batch ∙ x.redeem_batch;
      },
    )

-- Unstaking begins, or goes on, while no stake batch is locked.
pub unstake-locks :
    (c d : Contract)
    → unstake c ≡ ok (tt, d)
    → (stake_batch_locked c ≡ false) × (d.stake_batch_lock ≡ c.stake_batch_lock)
unfolding unstake unstake_by_lock
unstake-locks c d h =
    let (free, k1) = assert-eq-ok (can_run_batch c) blocked_by_batch_running _ c h in
    (ground (arith, free), by_lock c.redeem_stake_batch_lock k1)
  where
    by_lock :
        (lock : Option RedeemLock)
        → unstake_by_lock lock c ≡ ok (tt, d)
        → d.stake_batch_lock ≡ c.stake_batch_lock
    by_lock none k = ground arith
    by_lock (some pending_withdrawal) k = ground arith
    by_lock (some unstaking) k = cc

pub refresh-locks :
    (c d : Contract)
    → refresh_stake_token_value c ≡ ok (tt, d)
    → (c.stake_batch_lock ≡ none) × (is_unstaking d ≡ false)
unfolding refresh_stake_token_value refresh_by_lock
refresh-locks c d h = by_lock c.stake_batch_lock h
  where
    by_lock :
        (lock : Option StakeLock)
        → refresh_by_lock lock c ≡ ok (tt, d)
        → (lock ≡ none) × (is_unstaking d ≡ false)
    by_lock none k = (refl, ground arith)
    by_lock (some staking) k = cc
    by_lock (some (staked x y z)) k = cc
    by_lock (some refreshing_stake_token_value) k = cc

pub on_deposit_and_stake-IsExclusive :
    (env : Env) (o : Option ℕ) (account : StakingPoolAccount) (c d : Contract)
    → c.stake_batch_lock ≡ some staking
    → IsExclusive c
    → on_deposit_and_stake env o account c ≡ ok (tt, d)
    → IsExclusive d
unfolding on_deposit_and_stake
on_deposit_and_stake-IsExclusive env o account c d running x h = ground arith

pub clear_stake-IsExclusive :
    (env : Env) (c d : Contract)
    → IsExclusive c
    → clear_stake_lock env c ≡ ok (tt, d)
    → IsExclusive d
unfolding clear_stake_lock
clear_stake-IsExclusive env c d x h = ground arith

pub clear_redeem-IsExclusive :
    (env : Env) (c d : Contract)
    → IsExclusive c
    → clear_redeem_lock env c ≡ ok (tt, d)
    → IsExclusive d
unfolding clear_redeem_lock
clear_redeem-IsExclusive env c d x h = ground arith

pub clear_redeem-stake_lock :
    (env : Env) (c d : Contract)
    → clear_redeem_lock env c ≡ ok (tt, d)
    → d.stake_batch_lock ≡ c.stake_batch_lock
unfolding clear_redeem_lock
clear_redeem-stake_lock env c d h = ground arith

-- The callback of a refresh updates the value, and then clears the lock as the operator does.
pub on_refresh-IsExclusive :
    (env : Env) (account : StakingPoolAccount) (value : StakeTokenValue) (c d : Contract)
    → IsExclusive c
    → on_refresh_stake_token_value env account c ≡ ok (value, d)
    → IsExclusive d
unfolding on_refresh_stake_token_value
on_refresh-IsExclusive env account value c d x h =
    let (balance, _, k1) =
      lift-eq-ok (staked_near_balance c account.staked_balance account.unstaked_balance) _ c h in
    let ((_, e), e2, k2) = >>=-eq-ok (update_stake_token_value env balance) _ c k1 in
    let ((_, f), e3, k3) = >>=-eq-ok (clear_stake_lock env) _ e k2 in
    let (kept, _) = update-frame env balance c e e2 in
    let before : IsExclusive e = ground (arith, x, kept) in
    let after : IsExclusive f = clear_stake-IsExclusive env e f before e3 in
    subst IsExclusive (ap (λ (t : StakeTokenValue × Contract). t.1) (ok-injective k3)) after
