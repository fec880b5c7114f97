-- ===== src/Contract/Staking/Overlap.antt =====
-- How staking and unstaking come to overlap: `clear_stake_lock` (contract/src/contract/operator.rs)
-- during a run, and the callback `on_deposit_and_stake`
-- (contract/src/contract/staking_workflow_callbacks.rs) that still comes.
use oysterpack_near_stake_to.Prelude.{
  ℕ, ◌≡◌, true, ◌∙◌, none, some, Option, refl, [], ◌∷◌, ◌++◌, arith,
}
use oysterpack_near_stake_to.Near.Error.{ok}
use oysterpack_near_stake_to.Near.Env.{Env}
use oysterpack_near_stake_to.Domain.Batch.{RedeemStakeBatch}
use oysterpack_near_stake_to.Domain.Lock.{staking, unstaking}
use oysterpack_near_stake_to.Contract.State.{
  Contract, stake_batch_locked, is_unstaking, StakingPoolAccount, pool_calls,
}
use oysterpack_near_stake_to.Contract.StakingPool
use oysterpack_near_stake_to.Contract.Operator.{
  clear_stake_lock, assert_predecessor_is_self_or_operator,
}
use oysterpack_near_stake_to.Contract.Staking.{run_stake_batch, on_deposit_and_stake}
use oysterpack_near_stake_to.Contract.Staking.Locks.{run_stake_batch-locks}
use oysterpack_near_stake_to.Contract.Unstaking.{unstake, unstake_by_lock}

abbrev pub cleared : Contract → Contract
cleared c = record c { stake_batch_lock = none }

clear_stake_lock-cleared :
    (op : Env) (c : Contract)
    → op.predecessor_account_id ≡ c.operator_id
    → c.stake_batch_lock ≡ some staking
    → clear_stake_lock op c ≡ ok (tt, cleared c)
unfolding clear_stake_lock assert_predecessor_is_self_or_operator
clear_stake_lock-cleared op c is_operator locked = ground (arith, is_operator, locked)

-- The redeem workflow begins.
abbrev pub unstaked : Contract → Contract
unstaked c = record c {
  redeem_stake_batch_lock = some unstaking;
  promises =
      c.promises
      ++ pool_calls c.staking_pool_id (StakingPool.get_account c ∷ []) (
          StakingPool.invoke_on_run_redeem_stake_batch c
          ∷ StakingPool.invoke_clear_redeem_lock c
          ∷ [])
        ∷ [];
}

unstake-unstaked :
    (c : Contract) (batch : RedeemStakeBatch)
    → c.stake_batch_lock ≡ none
    → c.redeem_stake_batch_lock ≡ none
    → c.redeem_stake_batch ≡ some batch
    → unstake c ≡ ok (tt, unstaked c)
unfolding unstake unstake_by_lock
unstake-unstaked c batch free idle has = ground (arith, free, idle, has)

on_deposit_and_stake-locks :
    (env : Env) (o : Option ℕ) (account : StakingPoolAccount) (c d : Contract)
    → is_unstaking c ≡ true
    → on_deposit_and_stake env o account c ≡ ok (tt, d)
    → (stake_batch_locked d ≡ true) × (is_unstaking d ≡ true)
unfolding on_deposit_and_stake
on_deposit_and_stake-locks env o account c d busy h = (ground arith, ground arith)

-- From any state with a redeem batch and no redeem lock in which a run of the stake batch succeeds,
-- the operator can then clear the stake lock, after which `unstake` succeeds too. When the run's
-- callback `on_deposit_and_stake` comes in the state that follows, and succeeds, the stake batch is
-- locked while the redeem batch is being unstaked.
pub on_deposit_and_stake-overlaps :
    (env op back : Env) (batch : RedeemStakeBatch) (o : Option ℕ) (account : StakingPoolAccount)
    (c d e : Contract)
    → op.predecessor_account_id ≡ c.operator_id
    → c.redeem_stake_batch_lock ≡ none
    → c.redeem_stake_batch ≡ some batch
    → run_stake_batch env c ≡ ok (tt, d)
    → on_deposit_and_stake back o account (unstaked (cleared d)) ≡ ok (tt, e)
    → (clear_stake_lock op d ≡ ok (tt, cleared d))
      × (unstake (cleared d) ≡ ok (tt, unstaked (cleared d)))
      × (stake_batch_locked e ≡ true)
      × (is_unstaking e ≡ true)
on_deposit_and_stake-overlaps env op back batch o account c d e is_operator idle has h returned =
    let (both, busy) =
      on_deposit_and_stake-locks back o account (unstaked (cleared d)) e refl returned in
    let (locked, _, kept) = run_stake_batch-locks env c d h in
    (
      clear_stake_lock-cleared op d (ground (arith, is_operator, kept.operator)) locked,
      unstake-unstaked (cleared d) batch refl (kept.redeem_lock ∙ idle) (kept.redeem_batch ∙ has),
      both,
      busy,
    )
