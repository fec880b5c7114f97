-- ===== src/Contract/Redeeming/Removing.antt =====
-- Taking STAKE out of the redeem batches again (`remove_from_redeem_stake_batch` in
-- contract/src/contract/staking_service.rs).
use oysterpack_near_stake_to.Prelude.{ℕ, ◌+◌, ◌≡◌, Option, is_some, if◌then◌else◌}
use oysterpack_near_stake_to.Prelude.Dict
use oysterpack_near_stake_to.Near.Env.{Env}
use oysterpack_near_stake_to.Domain.StakeBalance
use oysterpack_near_stake_to.Domain.Batch.{RedeemStakeBatch}
use oysterpack_near_stake_to.Domain.Account.{Account, RegisteredAccount, stake_amount}
use oysterpack_near_stake_to.Contract.State.{Contract}
use oysterpack_near_stake_to.Contract.Redeeming.Batches.{redeeming, account_redeeming}

-- What taking `amount` out of a batch does, from the state `c` on, with `b` the claimed account.
pub record Removed (amount : ℕ) (b : RegisteredAccount) (c d : Contract) : Type 0 where
  pub left : Account
  pub account : account_redeeming left + amount ≡ account_redeeming b.account
  pub contract : redeeming d + amount ≡ redeeming c
  pub returned : stake_amount left.stake ≡ stake_amount b.account.stake + amount
  pub near_kept : left.near ≡ b.account.near
  pub accounts : d.accounts ≡ Dict.insert b.id left c.accounts
  pub supply : d.total_stake ≡ c.total_stake
  pub promises : d.promises ≡ c.promises

-- The batch that the redeem lock selects.
abbrev pub selected : Contract → Account → Option RedeemStakeBatch
selected c a =
    if is_some c.redeem_stake_batch_lock then a.next_redeem_stake_batch else a.redeem_stake_batch
