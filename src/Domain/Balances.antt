-- ===== src/Domain/Balances.antt =====
-- Credits and debits of timestamped balances (contract/src/domain/).
use oysterpack_near_stake_to.Prelude.{ℕ, ◌+◌, ◌≡◌, arith}
use oysterpack_near_stake_to.Near.Error.{ok}
use oysterpack_near_stake_to.Near.Word.{add_u128, sub_u128}
use oysterpack_near_stake_to.Near.Env.{Env}
use oysterpack_near_stake_to.Domain.NearBalance
use oysterpack_near_stake_to.Domain.NearBalance.{TimestampedNearBalance}
use oysterpack_near_stake_to.Domain.StakeBalance
use oysterpack_near_stake_to.Domain.StakeBalance.{TimestampedStakeBalance}

pub near_credit-amount :
    (env : Env) (a b : TimestampedNearBalance) (n : ℕ)
    → NearBalance.credit env a n ≡ ok b
    → b.amount ≡ a.amount + n
unfolding NearBalance.credit add_u128
near_credit-amount env a b n h = ground arith

pub near_debit-amount :
    (env : Env) (a b : TimestampedNearBalance) (n : ℕ)
    → NearBalance.debit env a n ≡ ok b
    → b.amount + n ≡ a.amount
unfolding NearBalance.debit sub_u128
near_debit-amount env a b n h = ground arith

pub stake_credit-amount :
    (env : Env) (a b : TimestampedStakeBalance) (n : ℕ)
    → StakeBalance.credit env a n ≡ ok b
    → b.amount ≡ a.amount + n
unfolding StakeBalance.credit add_u128
stake_credit-amount env a b n h = ground arith

pub stake_debit-amount :
    (env : Env) (a b : TimestampedStakeBalance) (n : ℕ)
    → StakeBalance.debit env a n ≡ ok b
    → b.amount + n ≡ a.amount
unfolding StakeBalance.debit sub_u128
stake_debit-amount env a b n h = ground arith
