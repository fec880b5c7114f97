-- ===== src/Contract/FungibleToken.antt =====
-- contract/src/contract/fungible_token.rs: transfers of STAKE, with and without a call of the
-- receiver's contract.
pub mod Moving
pub mod Transfer
pub mod Crediting
pub mod Refund
pub mod Ledger
pub mod Success
use oysterpack_near_stake_to.Prelude.{ℕ, Option, none, some, ltb, ◌==◌, if◌then◌else◌}
use oysterpack_near_stake_to.Near.Error.{
  one_yocto_near_required, token_amount_must_not_be_zero, invalid_unused_amount,
}
use oysterpack_near_stake_to.Near.Error
use oysterpack_near_stake_to.Near.Error.{Result, ok}
use oysterpack_near_stake_to.Near.Word.{sub_u128}
use oysterpack_near_stake_to.Near.Env.{Env, PromiseResult, not_ready, failed, successful}
use oysterpack_near_stake_to.Domain.StakeBalance
use oysterpack_near_stake_to.Domain.StakeBalance.{TimestampedStakeBalance}
use oysterpack_near_stake_to.Domain.Account.{
  Account, RegisteredAccount, apply_stake_debit, apply_stake_credit, apply_near_credit,
}
use oysterpack_near_stake_to.Contract.State.{Contract, Callback, CallbackMethod, ft_on_transfer}
use oysterpack_near_stake_to.Contract.Monad.{
  M, pure, ◌>>=◌, ◌>>◌, lift, assert, self, modify, schedule,
}
use oysterpack_near_stake_to.Contract.Accounts.{
  registered_account, predecessor_registered_account, lookup_registered_account,
  save_registered_account,
}
use oysterpack_near_stake_to.Contract.Claims.{claim_receipt_funds}

-- What `ft_transfer` does once the sender's receipts are claimed: the receiver is loaded after
-- the sender's account is changed, and before that is saved.
unfoldable pub move_stake : Env → RegisteredAccount → ℕ → ℕ → M (Unit {0})
move_stake env sender receiver_id amount = do
  debited ← lift (apply_stake_debit env sender.account amount)
  paid ← lift (apply_near_credit env debited 1)
  receiver ← registered_account env receiver_id
  credited ← lift (apply_stake_credit env receiver.account amount)
  save_registered_account (record { account = paid; id = sender.id })
  save_registered_account (record { account = credited; id = receiver.id })

unfoldable pub ft_transfer : Env → ℕ → ℕ → M (Unit {0})
ft_transfer env receiver_id amount = do
  assert (env.attached_deposit == 1) one_yocto_near_required
  assert (ltb 0 amount) token_amount_must_not_be_zero
  sender ← predecessor_registered_account env
  claimed ← claim_receipt_funds env sender
  move_stake env claimed receiver_id amount

-- The gas that is left for `ft_on_transfer`.
unfoldable pub ft_on_transfer_gas : Env → Contract → Result ℕ
ft_on_transfer_gas env c = Error.◌>>=◌ (sub_u128 env.prepaid_gas env.used_gas) λ unused.
    Error.◌>>=◌ (sub_u128 unused c.config.gas_config.callbacks.resolve_transfer_gas) λ resolve.
      Error.◌>>=◌ (sub_u128 resolve c.config.gas_config.function_call_promise) λ first.
        Error.◌>>=◌ (sub_u128 first c.config.gas_config.function_call_promise)
          λ second. sub_u128 second c.config.gas_config.function_call_promise_data_dependency

unfoldable pub ft_transfer_call : Env → ℕ → ℕ → ℕ → M (Unit {0})
ft_transfer_call env receiver_id amount msg = do
  ft_transfer env receiver_id amount
  c ← self
  gas ← lift (ft_on_transfer_gas env c)
  schedule (
      ft_on_transfer receiver_id env.predecessor_account_id amount msg gas (record {
        method =
            CallbackMethod.ft_resolve_transfer_call env.predecessor_account_id receiver_id amount;
        gas = c.config.gas_config.callbacks.resolve_transfer_gas;
      }))

-- What the receiver's contract did not use, at most the amount; all of it if its call failed.
unfoldable pub reported_unused_amount : Env → ℕ → PromiseResult → Result ℕ
reported_unused_amount env amount (successful bytes) =
    Error.expect (env.token_amount_from_slice bytes) invalid_unused_amount
reported_unused_amount env amount failed = ok amount
reported_unused_amount env amount not_ready = ok amount

unfoldable pub transfer_call_receiver_unused_amount : Env → ℕ → Result ℕ
transfer_call_receiver_unused_amount env amount =
    Error.◌>>=◌ (reported_unused_amount env amount env.promise_result)
      λ unused. ok (if ltb amount unused then amount else unused)

abbrev pub set_total_stake : TimestampedStakeBalance → Contract → Contract
set_total_stake b c = record c { total_stake = b }

-- The refund goes to the sender, or is burned if the sender is registered no more.
unfoldable pub refund_sender : Env → ℕ → ℕ → M (Unit {0})
refund_sender env sender_id refund_amount = do
  c ← self
  elim (lookup_registered_account env sender_id c) [
    | none ↦ do
      total ← lift (StakeBalance.debit env c.total_stake refund_amount)
      modify (set_total_stake total)
    | some sender ↦ do
      credited ← lift (apply_stake_credit env sender.account refund_amount)
      save_registered_account (record { account = credited; id = sender.id })
  ]

-- The refund is bounded by what the receiver still has.
unfoldable pub refund_from : Env → ℕ → ℕ → RegisteredAccount → Option TimestampedStakeBalance → M ℕ
refund_from env sender_id unused receiver none = pure 0
refund_from env sender_id unused receiver (some balance) = do
  let refund_amount = if ltb balance.amount unused then balance.amount else unused
  debited ← lift (apply_stake_debit env receiver.account refund_amount)
  save_registered_account (record { account = debited; id = receiver.id })
  refund_sender env sender_id refund_amount
  pure refund_amount

unfoldable pub ft_resolve_transfer_call : Env → ℕ → ℕ → ℕ → M ℕ
ft_resolve_transfer_call env sender_id receiver_id amount = do
  unused ← lift (transfer_call_receiver_unused_amount env amount)
  c ← self
  if ltb 0 unused
      then (elim (lookup_registered_account env receiver_id c) [
        | none ↦ pure 0
        | some receiver ↦ refund_from env sender_id unused receiver receiver.account.stake
      ])
      else pure unused

-- `ft_total_supply`
abbrev pub ft_total_supply : Contract → ℕ
ft_total_supply c = c.total_stake.amount
