-- ===== src/Contract/State.antt =====
-- The state of the contract: the fields of `struct Contract` in contract/src/lib.rs, and the
-- promises that a call has scheduled. The collections are association lists.
use oysterpack_near_stake_to.Prelude.{ℕ, Bool, Option, none, some, List}
use oysterpack_near_stake_to.Prelude.Dict.{Dict}
use oysterpack_near_stake_to.Domain.NearBalance.{TimestampedNearBalance}
use oysterpack_near_stake_to.Domain.StakeBalance.{TimestampedStakeBalance}
use oysterpack_near_stake_to.Domain.StakeTokenValue.{StakeTokenValue}
use oysterpack_near_stake_to.Domain.Batch.{StakeBatch, RedeemStakeBatch}
use oysterpack_near_stake_to.Domain.Receipt.{StakeBatchReceipt, RedeemStakeBatchReceipt}
use oysterpack_near_stake_to.Domain.Lock.{StakeLock, RedeemLock, unstaking}
use oysterpack_near_stake_to.Domain.Account.{Account}
use oysterpack_near_stake_to.Config.{Config}

-- A method of the staking pool contract, with its arguments.
pub data PoolMethod : Type 0 where
  ping get_account deposit deposit_and_stake withdraw_all unstake_all : PoolMethod
  stake unstake : ℕ → PoolMethod

pub record FunctionCall : Type 0 where
  pub method : PoolMethod
  pub deposit : ℕ
  pub gas : ℕ

-- The callbacks of contract/src/contract/staking_service.rs and fungible_token.rs, with the
-- arguments that the contract passes to itself.
pub data CallbackMethod : Type 0 where
  on_run_stake_batch process_staked_batch clear_stake_lock : CallbackMethod
  on_deposit_and_stake : Option ℕ → CallbackMethod
  on_run_redeem_stake_batch on_unstake clear_redeem_lock : CallbackMethod
  on_redeeming_stake_pending_withdrawal on_redeeming_stake_post_withdrawal : CallbackMethod
  on_refresh_stake_token_value : CallbackMethod
  ft_resolve_transfer_call : ℕ → ℕ → ℕ → CallbackMethod

pub record Callback : Type 0 where
  pub method : CallbackMethod
  pub gas : ℕ

pub data Promise : Type 0 where
  -- to an account, in yoctoNEAR
  transfer : ℕ → ℕ → Promise
  -- one batched transaction on the staking pool, then the callbacks in turn
  pool_calls : ℕ → List FunctionCall → List Callback → Promise
  -- a call of the contract by itself
  self_call : Callback → Promise
  -- `ft_on_transfer` on the receiver: the receiver, the sender, the amount, the message and the
  -- gas; then the callback
  ft_on_transfer : ℕ → ℕ → ℕ → ℕ → ℕ → Callback → Promise

-- What the staking pool reports of the contract's account.
pub record StakingPoolAccount : Type 0 where
  pub unstaked_balance : ℕ
  pub staked_balance : ℕ
  pub can_withdraw : Bool

-- `PromiseOrValue`: the promise itself is in the contract's list of scheduled ones.
pub data PromiseOrValue (A : Type 0) : Type 0 where
  promise : PromiseOrValue A
  value : A → PromiseOrValue A

pub record Contract : Type 0 where
  pub owner_id : ℕ
  pub contract_owner_balance : ℕ
  pub contract_initial_storage_usage : ℕ
  pub collected_earnings : ℕ
  pub operator_id : ℕ
  pub config : Config
  pub config_change_block_height : ℕ
  pub account_storage_usage : ℕ
  pub total_account_storage_escrow : ℕ
  pub accounts : Dict Account
  pub accounts_len : ℕ
  pub total_near : TimestampedNearBalance
  pub total_stake : TimestampedStakeBalance
  pub near_liquidity_pool : ℕ
  pub stake_token_value : StakeTokenValue
  pub batch_id_sequence : ℕ
  pub stake_batch : Option StakeBatch
  pub next_stake_batch : Option StakeBatch
  pub redeem_stake_batch : Option RedeemStakeBatch
  pub next_redeem_stake_batch : Option RedeemStakeBatch
  pub stake_batch_receipts : Dict StakeBatchReceipt
  pub redeem_stake_batch_receipts : Dict RedeemStakeBatchReceipt
  pub staking_pool_id : ℕ
  pub stake_batch_lock : Option StakeLock
  pub redeem_stake_batch_lock : Option RedeemLock
  pub promises : List Promise

-- `Contract::stake_batch_locked`
abbrev pub stake_batch_locked : Contract → Bool
stake_batch_locked c = elim c.stake_batch_lock [ none ↦ Bool.false | some _ ↦ Bool.true ]

-- `Contract::is_unstaking`
abbrev pub is_unstaking : Contract → Bool
is_unstaking c = elim c.redeem_stake_batch_lock [
  | none ↦ Bool.false
  | some lock ↦ elim lock [ unstaking ↦ Bool.true | _ ↦ Bool.false ]
]

-- `Contract::pop_stake_batch`
abbrev pub pop_stake_batch : Contract → Contract
pop_stake_batch c = record c { stake_batch = c.next_stake_batch; next_stake_batch = none }

-- `Contract::pop_redeem_stake_batch`
abbrev pub pop_redeem_stake_batch : Contract → Contract
pop_redeem_stake_batch c = record c {
  redeem_stake_batch = c.next_redeem_stake_batch;
  next_redeem_stake_batch = none;
}
