-- ===== src/Contract/TokenValue.antt =====
-- Updating the STAKE token value (`update_stake_token_value` in
-- contract/src/contract/staking_service.rs), and the balances that it is computed from
-- (`staked_near_balance` and `is_liquidity_needed` in staking_workflow_callbacks.rs).
pub mod Worth
pub mod Compensation
use oysterpack_near_stake_to.Prelude.{
  ℕ, ◌+◌, ◌*◌, ◌/◌, Bool, false, ◌||◌, Option, none, some, leb, ltb, ◌==◌, if◌then◌else◌,
}
use oysterpack_near_stake_to.Prelude.Dict
use oysterpack_near_stake_to.Near.Error
use oysterpack_near_stake_to.Near.Error.{Result, ok}
use oysterpack_near_stake_to.Near.Word.{add_u128, sub_u128, as_u128, yocto}
use oysterpack_near_stake_to.Near.Env.{Env}
use oysterpack_near_stake_to.Domain.StakeTokenValue
use oysterpack_near_stake_to.Domain.StakeTokenValue.{StakeTokenValue, from_env, stake_to_near}
use oysterpack_near_stake_to.Domain.Receipt.{RedeemStakeBatchReceipt, stake_near_value}
use oysterpack_near_stake_to.Contract.State.{Contract}
use oysterpack_near_stake_to.Contract.Monad.{M, ◌>>=◌, ◌>>◌, lift, self, modify}

-- `get_pending_withdrawal`
abbrev pub get_pending_withdrawal : Contract → Option RedeemStakeBatchReceipt
get_pending_withdrawal c = elim c.redeem_stake_batch [
  | none ↦ none
  | some batch ↦ Dict.get batch.batch_id c.redeem_stake_batch_receipts
]

unfoldable pub is_liquidity_needed : Contract → Result Bool
is_liquidity_needed c = elim (get_pending_withdrawal c) [
  | none ↦ ok false
  | some receipt ↦
      Error.◌>>=◌ (stake_near_value receipt) λ near_value. ok (ltb c.near_liquidity_pool near_value)
]

unfoldable pub staked_near_balance : Contract → ℕ → ℕ → Result ℕ
staked_near_balance c staked_balance unstaked_balance =
    if staked_balance == 0 then ok 0 else (elim (get_pending_withdrawal c) [
      | none ↦ add_u128 staked_balance unstaked_balance
      | some receipt ↦ Error.◌>>=◌ (add_u128 staked_balance unstaked_balance) λ both.
          Error.◌>>=◌ (stake_near_value receipt) λ near_value.
            Error.◌>>=◌ (sub_u128 both near_value) λ rest. add_u128 rest c.near_liquidity_pool
    ])

abbrev pub set_stake_token_value : StakeTokenValue → Contract → Contract
set_stake_token_value v c = record c { stake_token_value = v }

abbrev pub set_near_liquidity_pool : ℕ → Contract → Contract
set_near_liquidity_pool n c = record c { near_liquidity_pool = n }

-- The branch where the value would fall: it is held by adding NEAR to the staked balance, and the
-- same amount to the liquidity pool.
unfoldable pub compensate : StakeTokenValue → ℕ → ℕ → M (Unit {0})
compensate new_value current_stake_near_value staked = do
  c ← self
  compensation ← lift (sub_u128 (current_stake_near_value * c.total_stake.amount / yocto) staked)
  amount ← lift (as_u128 compensation)
  pool ← lift (add_u128 c.near_liquidity_pool amount)
  modify (set_near_liquidity_pool pool)
  balance ← lift (as_u128 (staked + compensation))
  value ← lift (StakeTokenValue.new new_value.block_time_height balance c.total_stake.amount)
  modify (set_stake_token_value value)

unfoldable pub update_stake_token_value : Env → ℕ → M (Unit {0})
update_stake_token_value env staked = do
  c ← self
  new_value ← lift (StakeTokenValue.new (from_env env) staked c.total_stake.amount)
  new_near ← lift (stake_to_near new_value yocto)
  current_near ← lift (stake_to_near c.stake_token_value yocto)
  if leb current_near new_near || staked == 0
      then modify (set_stake_token_value new_value)
      else compensate new_value current_near staked
