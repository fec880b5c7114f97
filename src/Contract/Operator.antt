-- ===== src/Contract/Operator.antt =====
-- contract/src/contract/operator.rs and the access checks of contract/src/contract.rs.
use oysterpack_near_stake_to.Prelude.{◌||◌, Option, none, some, ◌==◌}
use oysterpack_near_stake_to.Near.Error.{
  predecessor_must_be_self_or_operator, predecessor_must_be_operator, predecessor_must_be_owner,
}
use oysterpack_near_stake_to.Near.Env.{Env}
use oysterpack_near_stake_to.Domain.Lock.{
  StakeLock, RedeemLock, staking, staked, refreshing_stake_token_value, unstaking,
  pending_withdrawal,
}
use oysterpack_near_stake_to.Config
use oysterpack_near_stake_to.Config.{Config, ConfigUpdate}
use oysterpack_near_stake_to.Contract.State.{Contract}
use oysterpack_near_stake_to.Contract.Monad.{M, ◌>>=◌, ◌>>◌, lift, assert, self, modify, pure}

unfoldable pub assert_predecessor_is_self_or_operator : Env → M (Unit {0})
assert_predecessor_is_self_or_operator env = do
  c ← self
  assert
      (env.predecessor_account_id == env.current_account_id
        || env.predecessor_account_id == c.operator_id)
      predecessor_must_be_self_or_operator

unfoldable pub assert_predecessor_is_operator : Env → M (Unit {0})
assert_predecessor_is_operator env = do
  c ← self
  assert (env.predecessor_account_id == c.operator_id) predecessor_must_be_operator

unfoldable pub assert_predecessor_is_owner : Env → M (Unit {0})
assert_predecessor_is_owner env = do
  c ← self
  assert (env.predecessor_account_id == c.owner_id) predecessor_must_be_owner

abbrev set_config : Config → Contract → Contract
set_config config c = record c { config = config }

abbrev set_changed_config : Env → Config → Contract → Contract
set_changed_config env config c = record c {
  config = config;
  config_change_block_height = env.block_index;
}

unfoldable pub reset_config_default : Env → M Config
unfolding assert_predecessor_is_operator
reset_config_default env = do
  assert_predecessor_is_operator env
  modify (set_config Config.default)
  pure Config.default

unfoldable pub update_config : Env → ConfigUpdate → M Config
unfolding assert_predecessor_is_operator
update_config env update = do
  assert_predecessor_is_operator env
  c ← self
  merged ← lift (Config.merge c.config update)
  modify (set_changed_config env merged)
  pure merged

unfoldable pub force_update_config : Env → ConfigUpdate → M Config
unfolding assert_predecessor_is_operator
force_update_config env update = do
  assert_predecessor_is_operator env
  c ← self
  merged ← lift (Config.force_merge c.config update)
  modify (set_changed_config env merged)
  pure merged

-- The lock is kept once the batch's funds are with the staking pool.
abbrev pub unlock_stake : Option StakeLock → Option StakeLock
unlock_stake (some staking) = none
unlock_stake (some refreshing_stake_token_value) = none
unlock_stake (some (staked liquidity staked_balance unstaked)) =
    some (staked liquidity staked_balance unstaked)
unlock_stake none = none

unfoldable pub clear_stake_lock : Env → M (Unit {0})
unfolding assert_predecessor_is_self_or_operator
clear_stake_lock env = do
  assert_predecessor_is_self_or_operator env
  modify (λ c. record c { stake_batch_lock = unlock_stake c.stake_batch_lock })

abbrev pub unlock_redeem : Option RedeemLock → Option RedeemLock
unlock_redeem (some unstaking) = none
unlock_redeem (some pending_withdrawal) = some pending_withdrawal
unlock_redeem none = none

unfoldable pub clear_redeem_lock : Env → M (Unit {0})
unfolding assert_predecessor_is_self_or_operator
clear_redeem_lock env = do
  assert_predecessor_is_self_or_operator env
  modify (λ c. record c { redeem_stake_batch_lock = unlock_redeem c.redeem_stake_batch_lock })
