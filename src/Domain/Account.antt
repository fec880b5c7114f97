-- ===== src/Domain/Account.antt =====
-- contract/src/domain/account.rs: the balances and batches of one account.
pub mod Balances
use oysterpack_near_stake_to.Prelude.{
  ℕ, Bool, false, ◌||◌, Option, none, some, leb, ltb, ◌==◌, if◌then◌else◌,
}
use oysterpack_near_stake_to.Near.Error.{
  Result, ok, ◌>>=◌, ◌>>◌, assert, expect, account_has_zero_near, account_near_balance_too_low,
  account_has_zero_stake, account_stake_balance_too_low,
}
use oysterpack_near_stake_to.Near.Env.{Env}
use oysterpack_near_stake_to.Domain.NearBalance
use oysterpack_near_stake_to.Domain.NearBalance.{TimestampedNearBalance}
use oysterpack_near_stake_to.Domain.StakeBalance
use oysterpack_near_stake_to.Domain.StakeBalance.{TimestampedStakeBalance}
use oysterpack_near_stake_to.Domain.Batch.{
  StakeBatch, RedeemStakeBatch, new_stake_batch, new_redeem_stake_batch,
}

pub record Account : Type 0 where
  pub storage_escrow : TimestampedNearBalance
  pub near : Option TimestampedNearBalance
  pub stake : Option TimestampedStakeBalance
  pub stake_batch : Option StakeBatch
  pub next_stake_batch : Option StakeBatch
  pub redeem_stake_batch : Option RedeemStakeBatch
  pub next_redeem_stake_batch : Option RedeemStakeBatch

-- The account with its key in the `accounts` collection.
pub record RegisteredAccount : Type 0 where
  pub account : Account
  pub id : ℕ

abbrev pub new : Env → ℕ → Account
new env storage_escrow_fee = record {
  storage_escrow = NearBalance.new env storage_escrow_fee;
  near = none;
  stake = none;
  stake_batch = none;
  next_stake_batch = none;
  redeem_stake_batch = none;
  next_redeem_stake_batch = none;
}

-- With every field present, to measure what the storage of an account costs at most.
abbrev pub account_template_to_measure_storage_usage : Env → Account
account_template_to_measure_storage_usage env = record {
  storage_escrow = NearBalance.new env 0;
  near = some (NearBalance.new env 0);
  stake = some (StakeBalance.new env 0);
  stake_batch = some (new_stake_batch env 0);
  next_stake_batch = some (new_stake_batch env 0);
  redeem_stake_batch = some (new_redeem_stake_batch env 0);
  next_redeem_stake_batch = some (new_redeem_stake_batch env 0);
}

-- The batch, if it has the given ID.
abbrev with_id : ℕ → Option StakeBatch → Option StakeBatch
with_id id none = none
with_id id (some b) = if b.batch_id == id then some b else none

abbrev or_else {ℓ} : {A : Type ℓ} → Option A → Option A → Option A
or_else none other = other
or_else (some a) other = some a

-- `Account::stake_batch(batch_id)`
unfoldable pub stake_batch_by_id : Account → ℕ → Option StakeBatch
stake_batch_by_id a id = or_else (with_id id a.next_stake_batch) (with_id id a.stake_batch)

abbrev pub near_amount : Option TimestampedNearBalance → ℕ
near_amount none = 0
near_amount (some b) = b.amount

abbrev pub stake_amount : Option TimestampedStakeBalance → ℕ
stake_amount none = 0
stake_amount (some b) = b.amount

abbrev pub stake_batch_amount : Option StakeBatch → ℕ
stake_batch_amount none = 0
stake_batch_amount (some b) = b.balance.amount

abbrev pub redeem_batch_amount : Option RedeemStakeBatch → ℕ
redeem_batch_amount none = 0
redeem_batch_amount (some b) = b.balance.amount

unfoldable pub can_redeem : Account → ℕ → Bool
can_redeem a amount = elim a.stake [ none ↦ false | some b ↦ leb amount b.amount ]

-- A balance that is missing counts as `map_or(false, |balance| balance > 0)` has it: as zero.
unfoldable pub has_funds : Account → Bool
has_funds a =
    ltb 0 (near_amount a.near)
    || (ltb 0 (stake_amount a.stake)
        || (ltb 0 (stake_batch_amount a.stake_batch)
            || (ltb 0 (stake_batch_amount a.next_stake_batch)
                || (ltb 0 (redeem_batch_amount a.redeem_stake_batch)
                    || ltb 0 (redeem_batch_amount a.next_redeem_stake_batch)))))

abbrev near_or_new : Env → Option TimestampedNearBalance → TimestampedNearBalance
near_or_new env none = NearBalance.new env 0
near_or_new env (some b) = b

abbrev stake_or_new : Env → Option TimestampedStakeBalance → TimestampedStakeBalance
stake_or_new env none = StakeBalance.new env 0
stake_or_new env (some b) = b

unfoldable pub apply_near_credit : Env → Account → ℕ → Result Account
unfolding NearBalance.credit
apply_near_credit env a amount = do
  balance ← NearBalance.credit env (near_or_new env a.near) amount
  ok (record a { near = some balance })

unfoldable pub apply_near_debit : Env → Account → ℕ → Result Account
unfolding NearBalance.debit
apply_near_debit env a amount = do
  balance ← expect a.near account_has_zero_near
  assert (leb amount balance.amount) account_near_balance_too_low
  rest ← NearBalance.debit env balance amount
  ok (record a { near = if rest.amount == 0 then none else some rest })

unfoldable pub apply_stake_credit : Env → Account → ℕ → Result Account
unfolding StakeBalance.credit
apply_stake_credit env a amount = do
  balance ← StakeBalance.credit env (stake_or_new env a.stake) amount
  ok (record a { stake = some balance })

unfoldable pub apply_stake_debit : Env → Account → ℕ → Result Account
unfolding StakeBalance.debit
apply_stake_debit env a amount = do
  balance ← expect a.stake account_has_zero_stake
  assert (leb amount balance.amount) account_stake_balance_too_low
  rest ← StakeBalance.debit env balance amount
  ok (record a { stake = if rest.amount == 0 then none else some rest })
