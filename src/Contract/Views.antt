-- ===== src/Contract/Views.antt =====
-- The account as it is once its receipts are claimed, computed without a change of the contract:
-- `apply_receipt_funds_for_view` in contract/src/contract/staking_service.rs, and the views that show
-- it, `ft_balance_of` in fungible_token.rs and `lookup_account` in account_management.rs.
pub mod Steps
pub mod Shifting
pub mod Agreement
pub mod Balance
use oysterpack_near_stake_to.Prelude.{
  ℕ, Bool, not, Option, none, some, leb, ltb, ◌==◌, if◌then◌else◌,
}
use oysterpack_near_stake_to.Prelude.Dict
use oysterpack_near_stake_to.Near.Error.{Result, ok, ◌>>=◌, expect, redeem_stake_batch_should_exist}
use oysterpack_near_stake_to.Near.Word.{add_u128}
use oysterpack_near_stake_to.Near.Env.{Env}
use oysterpack_near_stake_to.Interface
use oysterpack_near_stake_to.Interface.{
  StakeAccount, report_redeem_stake_batch_receipt, report_redeem_stake_batch,
  read_stake_token_value,
}
use oysterpack_near_stake_to.Domain.StakeTokenValue.{near_to_stake, stake_to_near}
use oysterpack_near_stake_to.Domain.Batch.{StakeBatch, RedeemStakeBatch}
use oysterpack_near_stake_to.Domain.Receipt.{StakeBatchReceipt, RedeemStakeBatchReceipt}
use oysterpack_near_stake_to.Domain.Lock.{RedeemLock, pending_withdrawal, unstaking}
use oysterpack_near_stake_to.Domain.Account.{
  Account, apply_stake_credit, apply_near_credit, stake_amount,
}
use oysterpack_near_stake_to.Contract.State.{Contract}
use oysterpack_near_stake_to.Contract.Claims.{
  clear_stake_batch, clear_next_stake_batch, put_redeem_batch, put_next_redeem_batch,
}

-- One of the two `if let Some(batch)` blocks for stake batches, with the nested `apply_stake_credit`.
unfoldable pub view_stake_batch :
    Env → Contract → (Account → Account) → Account → Option StakeBatch → Result Account
view_stake_batch env c clear a none = ok a
view_stake_batch env c clear a (some batch) =
    elim (Dict.get batch.batch_id c.stake_batch_receipts) [
      | none ↦ ok a
      | some receipt ↦ do
        stake ← near_to_stake receipt.stake_token_value batch.balance.amount
        credited ← apply_stake_credit env a stake
        ok (clear credited)
    ]

-- The same for redeem batches, with the nested `apply_near_credit`.
unfoldable pub view_redeem_batch :
    Env → Contract → (Account → Account) → Account → Option RedeemStakeBatch → Result Account
view_redeem_batch env c clear a none = ok a
view_redeem_batch env c clear a (some batch) =
    elim (Dict.get batch.batch_id c.redeem_stake_batch_receipts) [
      | none ↦ ok a
      | some receipt ↦ do
        near ← stake_to_near receipt.stake_token_value batch.balance.amount
        credited ← apply_near_credit env a near
        ok (clear credited)
    ]

-- The batch, unless it is the one whose withdrawal is pending.
abbrev pub unless_pending : ℕ → Option RedeemStakeBatch → Option RedeemStakeBatch
unless_pending pending_id none = none
unless_pending pending_id (some batch) =
    if not (pending_id == batch.batch_id) then some batch else none

unfoldable pub view_stake_batches : Env → Contract → Account → Result Account
view_stake_batches env c a = do
  a1 ← view_stake_batch env c clear_stake_batch a a.stake_batch
  view_stake_batch env c clear_next_stake_batch a1 a1.next_stake_batch

unfoldable pub view_redeem_batches : Env → Contract → Account → Result Account
view_redeem_batches env c a = do
  a1 ← view_redeem_batch env c (put_redeem_batch none) a a.redeem_stake_batch
  view_redeem_batch env c (put_next_redeem_batch none) a1 a1.next_redeem_stake_batch

-- The batch that is pending is taken by `unwrap`, which panics where there is none.
unfoldable pub view_while_pending : Env → Contract → Account → Result Account
view_while_pending env c a = do
  pending ← expect c.redeem_stake_batch redeem_stake_batch_should_exist
  let id = pending.batch_id
  a1 ← view_redeem_batch env c (put_redeem_batch none) a (unless_pending id a.redeem_stake_batch)
  view_redeem_batch env c (put_next_redeem_batch none) a1
      (unless_pending id a1.next_redeem_stake_batch)

unfoldable pub view_by_lock : Env → Contract → Account → Option RedeemLock → Result Account
view_by_lock env c a none = view_redeem_batches env c a
view_by_lock env c a (some pending_withdrawal) = view_while_pending env c a
view_by_lock env c a (some unstaking) = view_redeem_batches env c a

unfoldable pub apply_receipt_funds_for_view : Env → Contract → Account → Result Account
apply_receipt_funds_for_view env c a = do
  a1 ← view_stake_batches env c a
  view_by_lock env c a1 c.redeem_stake_batch_lock

unfoldable pub ft_balance_of : Env → ℕ → Contract → Result ℕ
ft_balance_of env account_id c = elim (Dict.get (env.sha256 account_id) c.accounts) [
  | none ↦ ok 0
  | some a ↦ do viewed ← apply_receipt_funds_for_view env c a; ok (stake_amount viewed.stake)
]

-- The view of the receipt with that ID.
unfoldable pub redeem_stake_batch_receipt :
    ℕ → Contract → Result (Option Interface.RedeemStakeBatchReceipt)
redeem_stake_batch_receipt id c = elim (Dict.get id c.redeem_stake_batch_receipts) [
  | none ↦ ok none
  | some receipt ↦ do reported ← report_redeem_stake_batch_receipt receipt; ok (some reported)
]

-- A batch with its receipt, if there is a batch.
unfoldable pub report_optional_batch :
    Contract → Option RedeemStakeBatch → Result (Option Interface.RedeemStakeBatch)
report_optional_batch c none = ok none
report_optional_batch c (some batch) = do
  receipt ← redeem_stake_batch_receipt batch.batch_id c
  reported ← report_redeem_stake_batch batch receipt
  ok (some reported)

-- The nested `update_total_unstaked_near`: it adds the NEAR value of the whole receipt.
unfoldable pub unstaked_near : Option Interface.RedeemStakeBatch → ℕ → Result ℕ
unstaked_near none total = ok total
unstaked_near (some batch) total = elim (batch.receipt) [
  | none ↦ ok total
  | some receipt ↦ do
    near ← stake_to_near (read_stake_token_value receipt.stake_token_value) receipt.redeemed_stake
    add_u128 total near
]

unfoldable pub contract_near_liquidity :
    Contract
    → Option Interface.RedeemStakeBatch
    → Option Interface.RedeemStakeBatch
    → Result (Option ℕ)
contract_near_liquidity c current next = if c.near_liquidity_pool == 0 then ok none else (do
  first ← unstaked_near current 0
  total ← unstaked_near next first
  ok (
      if ltb 0 total
      then (if leb total c.near_liquidity_pool then some total else some c.near_liquidity_pool)
      else none))

unfoldable pub report_account : Contract → Account → Result StakeAccount
report_account c a = do
  current ← report_optional_batch c a.redeem_stake_batch
  next ← report_optional_batch c a.next_redeem_stake_batch
  liquidity ← contract_near_liquidity c current next
  ok (record {
    storage_escrow = a.storage_escrow;
    near = a.near;
    stake = a.stake;
    stake_batch = a.stake_batch;
    next_stake_batch = a.next_stake_batch;
    redeem_stake_batch = current;
    next_redeem_stake_batch = next;
    contract_near_liquidity = liquidity;
  })

unfoldable pub lookup_account : Env → ℕ → Contract → Result (Option StakeAccount)
lookup_account env account_id c = elim (Dict.get (env.sha256 account_id) c.accounts) [
  | none ↦ ok none
  | some a ↦ do
    viewed ← apply_receipt_funds_for_view env c a
    reported ← report_account c viewed
    ok (some reported)
]
