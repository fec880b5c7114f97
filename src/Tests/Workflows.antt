-- ===== src/Tests/Workflows.antt =====
-- The locks of the two workflows.
use oysterpack_near_stake_to.Prelude.{◌≡◌, refl, true, false, none}
use oysterpack_near_stake_to.Prelude.Dict
use oysterpack_near_stake_to.Near.Error.{ok}
use oysterpack_near_stake_to.Near.Word.{add_u128, sub_u128, mul_u128, as_u128, div_u256}
use oysterpack_near_stake_to.Domain.StakeTokenValue.{stake_to_near}
use oysterpack_near_stake_to.Domain.StakeBalance
use oysterpack_near_stake_to.Contract.State.{
  Contract, StakingPoolAccount, stake_batch_locked, is_unstaking,
}
use oysterpack_near_stake_to.Contract.StakingPool
use oysterpack_near_stake_to.Contract.TokenValue.{is_liquidity_needed}
use oysterpack_near_stake_to.Contract.Financials.{
  total_user_accounts_balance, customer_batched_stake_deposits, contract_earnings, total_earnings,
  contract_owner_share, contract_owner_earnings, user_accounts_earnings, distribute_earnings,
}
use oysterpack_near_stake_to.Contract.Operator.{clear_stake_lock}
use oysterpack_near_stake_to.Contract.Staking.{run_stake_batch, start_staking, on_deposit_and_stake}
use oysterpack_near_stake_to.Contract.Staking.Locks.{IsExclusive}
use oysterpack_near_stake_to.Contract.Staking.Overlap.{
  cleared, unstaked, on_deposit_and_stake-overlaps,
}
use oysterpack_near_stake_to.Contract.Unstaking.{
  unstake, unstake_by_lock, on_unstake, create_redeem_stake_batch_receipt,
}
use oysterpack_near_stake_to.Contract.Refresh.{refresh_stake_token_value, refresh_by_lock}
use oysterpack_near_stake_to.Contract.Staking.Exclusion.{
  Steps, none_yet, then, run, record_staked, start_unstaking, record_unstaked, refresh,
  Steps-IsExclusive,
}
use oysterpack_near_stake_to.Tests.Sample.{env, contract, stake_balance, state_after}

abbrev started : Contract
started = state_after (unstake contract) contract

unstake_runs : unstake contract ≡ ok (tt, started)
unfolding unstake unstake_by_lock
unstake_runs = refl

abbrev recorded : Contract
recorded = state_after (on_unstake env started) started

record_runs : on_unstake env started ≡ ok (tt, recorded)
unfolding on_unstake create_redeem_stake_batch_receipt StakeBalance.debit sub_u128 Dict.insert
    unstake unstake_by_lock
record_runs = refl

-- The value is refreshed while the withdrawal is pending.
abbrev refreshing : Contract
refreshing = state_after (refresh_stake_token_value recorded) recorded

refresh_runs : refresh_stake_token_value recorded ≡ ok (tt, refreshing)
unfolding refresh_stake_token_value refresh_by_lock on_unstake create_redeem_stake_batch_receipt
    StakeBalance.debit sub_u128 Dict.insert unstake unstake_by_lock
refresh_runs = refl

-- The current batch runs, and the pool reports its 1000 as staked.
abbrev running : Contract
running = state_after (run_stake_batch env contract) contract

run_runs : run_stake_batch env contract ≡ ok (tt, running)
unfolding run_stake_batch start_staking is_liquidity_needed distribute_earnings
    contract_owner_earnings user_accounts_earnings contract_owner_share total_earnings
    contract_earnings total_user_accounts_balance customer_batched_stake_deposits add_u128 sub_u128
    mul_u128 stake_to_near div_u256 as_u128 Dict.get
run_runs = refl

abbrev pool_account : StakingPoolAccount
pool_account = record {
  unstaked_balance = 0;
  staked_balance = 4000000000000000000000001000;
  can_withdraw = true;
}

abbrev confirmed : Contract
confirmed = state_after (on_deposit_and_stake env none pool_account running) running

confirm_runs : on_deposit_and_stake env none pool_account running ≡ ok (tt, confirmed)
unfolding run_stake_batch start_staking is_liquidity_needed distribute_earnings
    contract_owner_earnings user_accounts_earnings contract_owner_share total_earnings
    contract_earnings total_user_accounts_balance customer_batched_stake_deposits add_u128 sub_u128
    mul_u128 stake_to_near div_u256 as_u128 Dict.get on_deposit_and_stake
    StakingPool.invoke_process_stake_batch
confirm_runs = refl

running-Steps : Steps false contract false confirmed
running-Steps =
    then (then none_yet (run env run_runs)) (record_staked env none pool_account confirm_runs)

Steps-IsExclusive_example : IsExclusive confirmed
Steps-IsExclusive_example = Steps-IsExclusive {c = contract} refl running-Steps

-- After a withdrawal from the pool begins, the value is refreshed.
unstaking-Steps : Steps false contract false refreshing
unstaking-Steps =
    then (then (then none_yet (start_unstaking unstake_runs)) (record_unstaked env record_runs))
      (refresh refresh_runs)

-- Account 1 is the operator, and clears the lock during the run.
abbrev overlapping : Contract
overlapping =
    state_after (on_deposit_and_stake env none pool_account (unstaked (cleared running)))
      (unstaked (cleared running))

overlap_runs :
    on_deposit_and_stake env none pool_account (unstaked (cleared running)) ≡ ok (tt, overlapping)
unfolding run_stake_batch start_staking is_liquidity_needed distribute_earnings
    contract_owner_earnings user_accounts_earnings contract_owner_share total_earnings
    contract_earnings total_user_accounts_balance customer_batched_stake_deposits add_u128 sub_u128
    mul_u128 stake_to_near div_u256 as_u128 Dict.get on_deposit_and_stake
    StakingPool.invoke_process_stake_batch
overlap_runs = refl

on_deposit_and_stake-overlaps_example :
    (clear_stake_lock env running ≡ ok (tt, cleared running))
    × (unstake (cleared running) ≡ ok (tt, unstaked (cleared running)))
    × (stake_batch_locked overlapping ≡ true)
    × (is_unstaking overlapping ≡ true)
on_deposit_and_stake-overlaps_example =
    on_deposit_and_stake-overlaps env env env (record { batch_id = 6; balance = stake_balance 20 })
      none pool_account contract running overlapping refl refl refl run_runs overlap_runs
