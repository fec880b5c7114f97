-- ===== src/Contract/Financials/Sharing.antt =====
-- How earnings are shared (contract/src/contract/financials.rs).
use oysterpack_near_stake_to.Prelude.{ℕ, ◌+◌, ◌*◌, ◌/◌, ◌≡◌, ◌≤◌, arith}
use oysterpack_near_stake_to.Near.Error.{ok}
use oysterpack_near_stake_to.Near.Word.{add_u128, sub_u128, mul_u128, u128_max}
use oysterpack_near_stake_to.Near.Env.{Env}
use oysterpack_near_stake_to.Contract.State.{Contract}
use oysterpack_near_stake_to.Contract.Financials.{
  total_earnings, contract_owner_earnings, contract_owner_share, user_accounts_earnings,
  distribute_earnings, deposit_earnings,
}

-- Distributing the earnings, if it succeeds, splits all of them: the owner's balance and the liquidity pool grow by
-- the total together, of which the owner gets the configured percentage of the hundredths, and none
-- are left collected, provided that both balances have room.
pub distribute_earnings-splits :
    (env : Env) (c d : Contract) (total : ℕ)
    → total_earnings env c ≡ ok total
    → c.contract_owner_balance + total ≤ u128_max
    → c.near_liquidity_pool + total ≤ u128_max
    → distribute_earnings env c ≡ ok (tt, d)
    → (d.contract_owner_balance + d.near_liquidity_pool
        ≡ c.contract_owner_balance + c.near_liquidity_pool + total)
      × (d.contract_owner_balance
          ≡ c.contract_owner_balance + total / 100 * c.config.contract_owner_earnings_percentage)
      × (d.collected_earnings ≡ 0)
unfolding distribute_earnings contract_owner_earnings contract_owner_share user_accounts_earnings
    sub_u128 mul_u128
distribute_earnings-splits env c d total e f g h = ground (arith, e)

-- A deposit of earnings that succeeds collects the whole balance of the contract, whatever was attached.
pub deposit_earnings-whole_balance :
    (env : Env) (c d : Contract) (earnings : ℕ)
    → deposit_earnings env c ≡ ok (earnings, d)
    → (d.collected_earnings ≡ c.collected_earnings + env.account_balance)
      × (earnings ≡ d.collected_earnings)
      × (d ≡ record c { collected_earnings = d.collected_earnings })
unfolding deposit_earnings add_u128
deposit_earnings-whole_balance env c d earnings h = ground arith
