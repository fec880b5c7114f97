-- ===== src/Contract/Withdrawals.antt =====
-- Paying out an account's NEAR balance (`withdraw_near_funds` and `transfer_near_funds` in
-- contract/src/contract/staking_service.rs, which differ in the recipient only).
pub mod Payout
use oysterpack_near_stake_to.Prelude.{ℕ, none, some, ltb, if◌then◌else◌}
use oysterpack_near_stake_to.Near.Word.{sub_u128}
use oysterpack_near_stake_to.Near.Env.{Env}
use oysterpack_near_stake_to.Domain.NearBalance
use oysterpack_near_stake_to.Domain.NearBalance.{TimestampedNearBalance}
use oysterpack_near_stake_to.Domain.Account.{RegisteredAccount, apply_near_debit}
use oysterpack_near_stake_to.Contract.State.{Contract, transfer}
use oysterpack_near_stake_to.Contract.Monad.{M, pure, ◌>>=◌, ◌>>◌, lift, self, modify, schedule}
use oysterpack_near_stake_to.Contract.Accounts.{
  predecessor_registered_account, save_registered_account,
}
use oysterpack_near_stake_to.Contract.Claims.{claim_receipt_funds}

abbrev set_total_near : TimestampedNearBalance → Contract → Contract
set_total_near b c = record c { total_near = b }

abbrev set_pool_and_near : ℕ → TimestampedNearBalance → Contract → Contract
set_pool_and_near pool b c = record c { near_liquidity_pool = pool; total_near = b }

-- What `total_near` is short of comes out of the liquidity pool.
unfoldable pub draw_liquidity : Env → ℕ → M (Unit {0})
unfolding sub_u128 NearBalance.credit
draw_liquidity env amount = do
  c ← self
  if ltb c.total_near.amount amount
      then (do
        difference ← lift (sub_u128 amount c.total_near.amount)
        pool ← lift (sub_u128 c.near_liquidity_pool difference)
        total ← lift (NearBalance.credit env c.total_near difference)
        modify (set_pool_and_near pool total))
      else pure tt

unfoldable pub debit_total_near : Env → ℕ → M (Unit {0})
unfolding NearBalance.debit
debit_total_near env amount = do
  c ← self
  total ← lift (NearBalance.debit env c.total_near amount)
  modify (set_total_near total)

unfoldable pub transfer_near_funds : Env → RegisteredAccount → ℕ → ℕ → M (Unit {0})
transfer_near_funds env r amount recipient = do
  claimed ← claim_receipt_funds env r
  debited ← lift (apply_near_debit env claimed.account amount)
  save_registered_account (record { account = debited; id = claimed.id })
  draw_liquidity env amount
  debit_total_near env amount
  schedule (transfer recipient amount)

unfoldable pub withdraw_near_funds : Env → RegisteredAccount → ℕ → M (Unit {0})
unfolding transfer_near_funds
withdraw_near_funds env r amount = transfer_near_funds env r amount env.predecessor_account_id

unfoldable pub withdraw : Env → ℕ → M (Unit {0})
withdraw env amount = do r ← predecessor_registered_account env; withdraw_near_funds env r amount

unfoldable pub withdraw_all : Env → M ℕ
withdraw_all env = do
  r ← predecessor_registered_account env
  claimed ← claim_receipt_funds env r
  elim claimed.account.near [
    | none ↦ pure 0
    | some balance ↦ do withdraw_near_funds env claimed balance.amount; pure balance.amount
  ]

unfoldable pub transfer_near : Env → ℕ → ℕ → M (Unit {0})
transfer_near env recipient amount = do
  r ← predecessor_registered_account env
  transfer_near_funds env r amount recipient

unfoldable pub transfer_all_near : Env → ℕ → M ℕ
transfer_all_near env recipient = do
  r ← predecessor_registered_account env
  claimed ← claim_receipt_funds env r
  elim claimed.account.near [
    | none ↦ pure 0
    | some balance ↦ do
      transfer_near_funds env claimed balance.amount recipient
      pure balance.amount
  ]

-- `claim_receipts`
unfoldable pub claim_receipts : Env → M (Unit {0})
claim_receipts env = do
  r ← predecessor_registered_account env
  _ ← claim_receipt_funds env r
  pure tt
