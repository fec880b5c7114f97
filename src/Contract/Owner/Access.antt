-- ===== src/Contract/Owner/Access.antt =====
-- Who may call the methods of the owner and the operator (contract/src/contract/contract_owner.rs and
-- operator.rs).
use oysterpack_near_stake_to.Prelude.{ℕ, ◌≡◌, ◌≢◌, ne→==, arith}
use oysterpack_near_stake_to.Near.Error.{
  err, predecessor_must_be_owner, predecessor_must_be_operator,
  predecessor_must_be_self_or_operator,
}
use oysterpack_near_stake_to.Near.Env.{Env}
use oysterpack_near_stake_to.Config.{ConfigUpdate}
use oysterpack_near_stake_to.Contract.State.{Contract}
use oysterpack_near_stake_to.Contract.Operator.{
  assert_predecessor_is_owner, assert_predecessor_is_operator,
  assert_predecessor_is_self_or_operator, reset_config_default, update_config, force_update_config,
  clear_stake_lock, clear_redeem_lock,
}
use oysterpack_near_stake_to.Contract.Owner.{
  transfer_ownership, set_operator_id, stake_all_owner_balance, stake_owner_balance,
  withdraw_all_owner_balance, withdraw_owner_balance,
}

-- The refusals of one caller.
pub record Refused (env : Env) (account_id amount : ℕ) (config : ConfigUpdate) (c : Contract)
    : Type 0 where
  pub ownership : transfer_ownership env account_id c ≡ err predecessor_must_be_owner
  pub operator : set_operator_id env account_id c ≡ err predecessor_must_be_owner
  pub all_staked : stake_all_owner_balance env c ≡ err predecessor_must_be_owner
  pub staked : stake_owner_balance env amount c ≡ err predecessor_must_be_owner
  pub all_withdrawn : withdraw_all_owner_balance env c ≡ err predecessor_must_be_owner
  pub withdrawn : withdraw_owner_balance env amount c ≡ err predecessor_must_be_owner
  pub reset : reset_config_default env c ≡ err predecessor_must_be_operator
  pub updated : update_config env config c ≡ err predecessor_must_be_operator
  pub forced : force_update_config env config c ≡ err predecessor_must_be_operator
  pub stake_lock : clear_stake_lock env c ≡ err predecessor_must_be_self_or_operator
  pub redeem_lock : clear_redeem_lock env c ≡ err predecessor_must_be_self_or_operator

-- A caller that is neither the owner, nor the operator, nor the contract itself is refused by every
-- method that is the owner's or the operator's, whatever its arguments and the state.
pub stranger-Refused :
    (env : Env) (account_id amount : ℕ) (config : ConfigUpdate) (c : Contract)
    → env.predecessor_account_id ≢ c.owner_id
    → env.predecessor_account_id ≢ c.operator_id
    → env.predecessor_account_id ≢ env.current_account_id
    → Refused env account_id amount config c
unfolding transfer_ownership set_operator_id stake_all_owner_balance stake_owner_balance
    withdraw_all_owner_balance withdraw_owner_balance reset_config_default update_config
    force_update_config clear_stake_lock clear_redeem_lock assert_predecessor_is_owner
    assert_predecessor_is_operator assert_predecessor_is_self_or_operator
stranger-Refused env account_id amount config c owner operator itself =
    let a = ne→== env.predecessor_account_id c.owner_id owner in
    let b = ne→== env.predecessor_account_id c.operator_id operator in
    let s = ne→== env.predecessor_account_id env.current_account_id itself in
    record {
      ownership = ground (arith, a);
      operator = ground (arith, a);
      all_staked = ground (arith, a);
      staked = ground (arith, a);
      all_withdrawn = ground (arith, a);
      withdrawn = ground (arith, a);
      reset = ground (arith, b);
      updated = ground (arith, b);
      forced = ground (arith, b);
      stake_lock = ground (arith, b, s);
      redeem_lock = ground (arith, b, s);
    }
