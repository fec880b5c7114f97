-- ===== src/Contract/TokenValue/Compensation.antt =====
-- What a second `update_stake_token_value` (contract/src/contract/staking_service.rs) with the same
-- staked balance does to the liquidity pool.
use oysterpack_near_stake_to.Prelude.{
  ℕ, ◌+◌, ◌-◌, ◌*◌, ◌/◌, ◌≤◌, ◌<◌, ◌≡◌, false, refl, sym, subst, ap, ◌∙◌, ◌||◌, arith, ◌==◌, leb,
}
use oysterpack_near_stake_to.Near.Error.{ok}
use oysterpack_near_stake_to.Near.Word.{add_u128, sub_u128, as_u128, yocto, u128_max}
use oysterpack_near_stake_to.Near.Env.{Env}
use oysterpack_near_stake_to.Domain.StakeTokenValue
use oysterpack_near_stake_to.Domain.StakeTokenValue.{
  BlockTimeHeight, StakeTokenValue, from_env, stake_to_near, round_up,
}
use oysterpack_near_stake_to.Domain.StakeTokenValue.Rounding.{
  stake_to_near_le_max, stake_to_near_congr,
}
use oysterpack_near_stake_to.Contract.State.{Contract}
use oysterpack_near_stake_to.Contract.Monad.{lift}
use oysterpack_near_stake_to.Contract.TokenValue.{update_stake_token_value, compensate}
use oysterpack_near_stake_to.Contract.TokenValue.Worth.{
  compensated, compensate-eq, compensated_worth, new-fields, Updated, risen, held, update-Updated,
}

-- The state after an update that compensates by `amount` again.
abbrev pub compensated_again : Env → ℕ → Contract → Contract
compensated_again env amount d = record d {
  near_liquidity_pool = d.near_liquidity_pool + amount;
  stake_token_value = record (d.stake_token_value) { block_time_height = from_env env };
}

new-ok :
    (h : BlockTimeHeight) (staked supply : ℕ)
    → supply ≤ staked
    → StakeTokenValue.new h staked supply
      ≡ ok (record {
        block_time_height = h;
        total_staked_near_balance = staked;
        total_stake_supply = supply;
      })
unfolding StakeTokenValue.new
new-ok h staked supply le = ground arith

compensate_again :
    (env : Env) (v w : StakeTokenValue) (current staked : ℕ) (c : Contract)
    → let d = compensated v current staked c in
      let amount = current * c.total_stake.amount / yocto - staked in
      w.block_time_height ≡ from_env env
      → staked ≤ current * c.total_stake.amount / yocto
      → c.total_stake.amount ≤ current * c.total_stake.amount / yocto
      → current * c.total_stake.amount / yocto ≤ u128_max
      → d.near_liquidity_pool + amount ≤ u128_max
      → compensate w current staked d ≡ ok (tt, compensated_again env amount d)
unfolding compensate add_u128 sub_u128 as_u128 StakeTokenValue.new
compensate_again env v w current staked c e low backed small fits = ground arith

update-held :
    (env : Env) (staked : ℕ) (c : Contract) (v : StakeTokenValue) (current next : ℕ)
    → StakeTokenValue.new (from_env env) staked c.total_stake.amount ≡ ok v
    → stake_to_near v yocto ≡ ok next
    → stake_to_near c.stake_token_value yocto ≡ ok current
    → (leb current next || staked == 0) ≡ false
    → update_stake_token_value env staked c ≡ compensate v current staked c
unfolding update_stake_token_value
update-held env staked c v current next e f g fall =
    rw (e, lift) (rw (f, lift) (rw (g, lift) (rw fall refl)))

-- An update that compensated, and is made again with the same staked balance, credits the same
-- compensation to the liquidity pool once more: the balance that the pool reports is compared with
-- the compensated value as if nothing had been added before.
pub update-update_credits_again :
    (env later : Env) (staked : ℕ) (c d : Contract)
    → yocto ≤ c.total_stake.amount
    → update_stake_token_value env staked c ≡ ok (tt, d)
    → c.near_liquidity_pool < d.near_liquidity_pool
    → d.near_liquidity_pool + (d.near_liquidity_pool - c.near_liquidity_pool) ≤ u128_max
    → update_stake_token_value later staked d
      ≡ ok (tt, compensated_again later (d.near_liquidity_pool - c.near_liquidity_pool) d)
update-update_credits_again env later staked c d large h grew fits =
    again (update-Updated env staked c d h)
  where
    again :
        Updated env staked c d
        → update_stake_token_value later staked d
          ≡ ok (tt, compensated_again later (d.near_liquidity_pool - c.near_liquidity_pool) d)
    again (risen v current next made f g rise same) = absurd (ground (arith, same))
    again (held v current next made f g fall k) =
        let (same, low, backed, small) = compensate-eq v current staked c d k in
        let (bal, sup, le) = new-fields (from_env env) staked c.total_stake.amount made in
        let w : StakeTokenValue = record {
          block_time_height = from_env later;
          total_staked_near_balance = staked;
          total_stake_supply = c.total_stake.amount;
        } in
        let most = stake_to_near_le_max c.stake_token_value yocto current (omega arith) g in
        let e = compensated v current staked c in
        let amount = current * c.total_stake.amount / yocto - staked in
        let credited : d.near_liquidity_pool ≡ c.near_liquidity_pool + amount = ground arith in
        let step =
          update-held later staked e w current next
            (new-ok (from_env later) staked c.total_stake.amount le)
            (stake_to_near_congr w v yocto (sym bal) (sym sup) ∙ f)
            (compensated_worth v current staked c large most backed) fall in
        let last =
          compensate_again later v w current staked c refl low backed small
            (omega (arith, credited, fits)) in
        let difference : amount ≡ d.near_liquidity_pool - c.near_liquidity_pool =
          omega (arith, credited) in
        subst
          (λ (x : Contract).
            update_stake_token_value later staked x
            ≡ ok (tt, compensated_again later (d.near_liquidity_pool - c.near_liquidity_pool) x))
          (sym same) (step ∙ (last ∙ ap (λ n. ok (tt, compensated_again later n e)) difference))
