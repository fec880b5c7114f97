-- ===== src/Contract/Staking/Exclusion.antt =====
-- That staking and unstaking exclude each other (the locks in
-- contract/src/contract/staking_service.rs and the two files of workflow callbacks).
use oysterpack_near_stake_to.Prelude.{
  ℕ, ◌≡◌, inl, inr, Bool, true, false, arith, ◌∙◌, some, Option, refl, ap,
}
use oysterpack_near_stake_to.Near.Error.{ok}
use oysterpack_near_stake_to.Near.Env.{Env}
use oysterpack_near_stake_to.Domain.Lock.{staking}
use oysterpack_near_stake_to.Contract.State.{Contract, StakingPoolAccount}
use oysterpack_near_stake_to.Contract.StakedBatch.{process_staked_batch}
use oysterpack_near_stake_to.Contract.StakedBatch.Processing.{process_staked_batch-Processed}
use oysterpack_near_stake_to.Contract.Operator.{clear_stake_lock, clear_redeem_lock}
use oysterpack_near_stake_to.Contract.Unstaking.Workflow.{
  on_unstake-Unstaked, finalize_redeem_batch-Finalized,
}
use oysterpack_near_stake_to.Contract.Staking.{run_stake_batch, on_deposit_and_stake}
use oysterpack_near_stake_to.Contract.Unstaking.{unstake, on_unstake, finalize_redeem_batch}
use oysterpack_near_stake_to.Contract.Refresh.{
  refresh_stake_token_value, on_refresh_stake_token_value,
}
use oysterpack_near_stake_to.Domain.StakeTokenValue.{StakeTokenValue}
use oysterpack_near_stake_to.Contract.Staking.Locks.{
  on_refresh-IsExclusive, IsExclusive, free-IsExclusive, run_stake_batch-locks, unstake-locks,
  refresh-locks, on_deposit_and_stake-IsExclusive, clear_stake-IsExclusive,
  clear_redeem-IsExclusive, clear_redeem-stake_lock,
}

-- One call that takes or releases a lock. The flags before and after say whether the callback
-- `on_deposit_and_stake` of a run is on its way: a run sends it, and it succeeds, whatever the lock is
-- by then, or fails, once. The lock is not cleared while it is on its way.
pub data Step : Bool → Contract → Bool → Contract → Type 0 where
  run :
      {flag : Bool} {c d : Contract} (env : Env)
      → run_stake_batch env c ≡ ok (tt, d)
      → Step flag c true d
  record_staked :
      {c d : Contract} (env : Env) (liquidity : Option ℕ) (account : StakingPoolAccount)
      → on_deposit_and_stake env liquidity account c ≡ ok (tt, d)
      → Step true c false d
  fail : {c : Contract} → Step true c false c
  process :
      {flag : Bool} {c d : Contract} (env : Env)
      → process_staked_batch env c ≡ ok (tt, d)
      → Step flag c flag d
  clear_stake :
      {c d : Contract} (env : Env) → clear_stake_lock env c ≡ ok (tt, d) → Step false c false d
  refresh :
      {flag : Bool} {c d : Contract} → refresh_stake_token_value c ≡ ok (tt, d) → Step flag c flag d
  record_refreshed :
      {c d : Contract} (env : Env) (account : StakingPoolAccount) (value : StakeTokenValue)
      → on_refresh_stake_token_value env account c ≡ ok (value, d)
      → Step false c false d
  start_unstaking : {flag : Bool} {c d : Contract} → unstake c ≡ ok (tt, d) → Step flag c flag d
  record_unstaked :
      {flag : Bool} {c d : Contract} (env : Env)
      → on_unstake env c ≡ ok (tt, d)
      → Step flag c flag d
  clear_redeem :
      {flag : Bool} {c d : Contract} (env : Env)
      → clear_redeem_lock env c ≡ ok (tt, d)
      → Step flag c flag d
  finalize :
      {flag : Bool} {c d : Contract} (env : Env) (id : ℕ)
      → finalize_redeem_batch env c ≡ ok (id, d)
      → Step flag c flag d

-- Any number of such calls.
pub data Steps (start : Bool) (c : Contract) : Bool → Contract → Type 0 where
  none_yet : Steps start c start c
  then : {f g : Bool} {d e : Contract} → Steps start c f d → Step f d g e → Steps start c g e

-- While the callback is on its way, the lock says that the batch is being staked.
abbrev IsHeld : Bool → Contract → Type 0
IsHeld flag c = flag ≡ true → c.stake_batch_lock ≡ some staking

Step-IsHeld : {f g : Bool} {c d : Contract} → IsHeld f c → Step f c g d → IsHeld g d
Step-IsHeld {c} {d} held (run env h) on_way = (run_stake_batch-locks env c d h).0
Step-IsHeld {c} {d} held (record_staked env o account h) on_way = absurd (ground arith)
Step-IsHeld {c} {d} held fail on_way = absurd (ground arith)
Step-IsHeld {c} {d} held (process env h) on_way =
    absurd (ground (arith, held on_way, (process_staked_batch-Processed env c d h).recorded))
Step-IsHeld {c} {d} held (clear_stake env h) on_way = absurd (ground arith)
Step-IsHeld {c} {d} held (refresh h) on_way =
    absurd (ground (arith, held on_way, (refresh-locks c d h).0))
Step-IsHeld {c} {d} held (record_refreshed env account value h) on_way = absurd (ground arith)
Step-IsHeld {c} {d} held (start_unstaking h) on_way =
    absurd (ground (arith, held on_way, (unstake-locks c d h).0))
Step-IsHeld {c} {d} held (record_unstaked env h) on_way =
    ap (λ (t : Contract). t.stake_batch_lock) (on_unstake-Unstaked env c d h).rest ∙ held on_way
Step-IsHeld {c} {d} held (clear_redeem env h) on_way =
    clear_redeem-stake_lock env c d h ∙ held on_way
Step-IsHeld {c} {d} held (finalize env id h) on_way =
    ap (λ (t : Contract). t.stake_batch_lock) (finalize_redeem_batch-Finalized env c d id h).rest
    ∙ held on_way

Step-IsExclusive :
    {f g : Bool} {c d : Contract} → IsExclusive c → IsHeld f c → Step f c g d → IsExclusive d
Step-IsExclusive {c} {d} x held (run env h) =
    let (_, free, kept) = run_stake_batch-locks env c d h in
    free-IsExclusive d (inr (ground (arith, kept.redeem_lock, free)))
Step-IsExclusive {c} {d} x held (record_staked env o account h) =
    on_deposit_and_stake-IsExclusive env o account c d (held refl) x h
Step-IsExclusive {c} {d} x held fail = x
Step-IsExclusive {c} {d} x held (process env h) =
    free-IsExclusive d (inl (ground (arith, (process_staked_batch-Processed env c d h).unlocked)))
Step-IsExclusive {c} {d} x held (clear_stake env h) = clear_stake-IsExclusive env c d x h
Step-IsExclusive {c} {d} x held (refresh h) = free-IsExclusive d (inr (refresh-locks c d h).1)
Step-IsExclusive {c} {d} x held (record_refreshed env account value h) =
    on_refresh-IsExclusive env account value c d x h
Step-IsExclusive {c} {d} x held (start_unstaking h) =
    let (free, same) = unstake-locks c d h in free-IsExclusive d (inl (ground (arith, free, same)))
Step-IsExclusive {c} {d} x held (record_unstaked env h) =
    free-IsExclusive d (inr (ground (arith, (on_unstake-Unstaked env c d h).locked)))
Step-IsExclusive {c} {d} x held (clear_redeem env h) = clear_redeem-IsExclusive env c d x h
Step-IsExclusive {c} {d} x held (finalize env id h) =
    free-IsExclusive d
      (inr (ground (arith, (finalize_redeem_batch-Finalized env c d id h).unlocked)))

Steps-both :
    {c : Contract} {g : Bool} {d : Contract}
    → IsExclusive c
    → Steps false c g d
    → IsExclusive d × IsHeld g d
Steps-both x none_yet = (x, λ e. absurd (ground arith))
Steps-both x (then steps step) =
    let (y, held) = Steps-both x steps in (Step-IsExclusive y held step, Step-IsHeld held step)

-- From a state in which the staking workflow and the unstaking of a redeem batch are exclusive, and no
-- callback `on_deposit_and_stake` is on its way, no sequence of successful calls leads to a state in
-- which both are under way, as long as the stake lock is not cleared between a run and its callback.
-- The calls are running and processing a stake batch, refreshing the value, unstaking and finalizing
-- a redeem batch, the callbacks `on_deposit_and_stake`, `on_refresh_stake_token_value` and
-- `on_unstake`, and clearing either lock. That the lock is still held when `on_deposit_and_stake`
-- comes is not assumed.
pub Steps-IsExclusive :
    {g : Bool} {c d : Contract} → IsExclusive c → Steps false c g d → IsExclusive d
Steps-IsExclusive x steps = (Steps-both x steps).0
