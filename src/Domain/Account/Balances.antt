-- ===== src/Domain/Account/Balances.antt =====
-- Credits and debits of an account's STAKE (contract/src/domain/account.rs).
use oysterpack_near_stake_to.Prelude.{ℕ, ◌+◌, ◌≡◌, arith}
use oysterpack_near_stake_to.Near.Error.{ok}
use oysterpack_near_stake_to.Near.Env.{Env}
use oysterpack_near_stake_to.Near.Word.{add_u128, sub_u128}
use oysterpack_near_stake_to.Domain.StakeBalance.{TimestampedStakeBalance}
use oysterpack_near_stake_to.Domain.NearBalance.{TimestampedNearBalance}
use oysterpack_near_stake_to.Domain.StakeBalance
use oysterpack_near_stake_to.Domain.NearBalance
use oysterpack_near_stake_to.Domain.Account.{
  Account, apply_stake_credit, apply_stake_debit, apply_near_credit, stake_amount, near_amount,
  apply_near_debit,
}

pub apply_stake_credit-eq :
    (env : Env) (a b : Account) (amount : ℕ)
    → apply_stake_credit env a amount ≡ ok b
    → (stake_amount b.stake ≡ stake_amount a.stake + amount) × (b ≡ record a { stake = b.stake })
unfolding apply_stake_credit StakeBalance.credit add_u128
apply_stake_credit-eq env a b amount h = ground arith

pub apply_stake_debit-eq :
    (env : Env) (a b : Account) (amount : ℕ)
    → apply_stake_debit env a amount ≡ ok b
    → (stake_amount b.stake + amount ≡ stake_amount a.stake) × (b ≡ record a { stake = b.stake })
unfolding apply_stake_debit StakeBalance.debit sub_u128
apply_stake_debit-eq env a b amount h = ground arith

pub apply_near_credit-eq :
    (env : Env) (a b : Account) (amount : ℕ)
    → apply_near_credit env a amount ≡ ok b
    → (near_amount b.near ≡ near_amount a.near + amount) × (b ≡ record a { near = b.near })
unfolding apply_near_credit NearBalance.credit add_u128
apply_near_credit-eq env a b amount h = ground arith

pub apply_near_debit-eq :
    (env : Env) (a b : Account) (amount : ℕ)
    → apply_near_debit env a amount ≡ ok b
    → (near_amount b.near + amount ≡ near_amount a.near) × (b ≡ record a { near = b.near })
unfolding apply_near_debit NearBalance.debit sub_u128
apply_near_debit-eq env a b amount h = ground arith
