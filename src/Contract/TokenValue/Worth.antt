-- ===== src/Contract/TokenValue/Worth.antt =====
-- What `update_stake_token_value` (contract/src/contract/staking_service.rs) does to the value of
-- STAKE and to the liquidity pool.
use native.Mathlib.Nat.{lt_of_mul-lt-mul_right, div-mul-le_self, lt-div-mul-add}
use oysterpack_near_stake_to.Prelude.{
  ℕ, ◌+◌, ◌-◌, ◌*◌, ◌/◌, ◌≤◌, ◌<◌, ◌≡◌, inl, inr, true, false, refl, sym, subst, ap, ◌∙◌,
  Bool-cases, ◌||◌, arith, ◌==◌, leb,
}
use oysterpack_near_stake_to.Near.Error.{ok, ok-injective}
use oysterpack_near_stake_to.Near.Word.{add_u128, sub_u128, as_u128, yocto, u128_max}
use oysterpack_near_stake_to.Near.Env.{Env}
use oysterpack_near_stake_to.Domain.StakeTokenValue
use oysterpack_near_stake_to.Domain.StakeTokenValue.{
  BlockTimeHeight, StakeTokenValue, from_env, stake_to_near, round_up,
}
use oysterpack_near_stake_to.Domain.StakeTokenValue.Rounding.{
  IsBacked, stake_to_near-eq, round_up_total, round_up_bounds, stake_to_near_le_max,
}
use oysterpack_near_stake_to.Contract.State.{Contract}
use oysterpack_near_stake_to.Contract.Monad.{lift-eq-ok}
use oysterpack_near_stake_to.Contract.TokenValue.{
  update_stake_token_value, compensate, set_stake_token_value,
}

-- A staked balance of `current * supply / yocto` gives one STAKE the value `current` again, if
-- the supply is at least one STAKE.
held_value :
    (v : StakeTokenValue) (current : ℕ)
    → IsBacked v
    → yocto ≤ v.total_stake_supply
    → current ≤ u128_max
    → v.total_staked_near_balance ≡ current * v.total_stake_supply / yocto
    → stake_to_near v yocto ≡ ok current
held_value v current b large fits e =
    let S = v.total_stake_supply in
    let n = yocto * v.total_staked_near_balance in
    let low : n ≤ current * S = omega (arith, e, div-mul-le_self (current * S) yocto) in
    let high : current * S < n + yocto =
      omega (arith, e, lt-div-mul-add {a = current * S} {b = yocto} (omega arith)) in
    let (q, k) = round_up_total n S current b.positive low fits in
    let (reach, near) = round_up_bounds n S b.positive k in
    let q-le : q < current + 1 = lt_of_mul-lt-mul_right S (omega (arith, near, low)) in
    let le-q : current < q + 1 = lt_of_mul-lt-mul_right S (omega (arith, reach, high, large)) in
    let same : q ≡ current = omega (arith, q-le, le-q) in
    stake_to_near-eq v b yocto ∙ (k ∙ ap ok same)

-- What the compensating branch leaves behind.
abbrev pub compensated : StakeTokenValue → ℕ → ℕ → Contract → Contract
compensated new_value current staked c = record c {
  near_liquidity_pool = c.near_liquidity_pool + (current * c.total_stake.amount / yocto - staked);
  stake_token_value = record {
    block_time_height = new_value.block_time_height;
    total_staked_near_balance = current * c.total_stake.amount / yocto;
    total_stake_supply = c.total_stake.amount;
  };
}

pub compensate-eq :
    (v : StakeTokenValue) (current staked : ℕ) (c d : Contract) {u : Unit {0}}
    → compensate v current staked c ≡ ok (u, d)
    → (d ≡ compensated v current staked c)
      × (staked ≤ current * c.total_stake.amount / yocto)
      × (c.total_stake.amount ≤ current * c.total_stake.amount / yocto)
      × (current * c.total_stake.amount / yocto ≤ u128_max)
unfolding compensate add_u128 sub_u128 as_u128 StakeTokenValue.new
compensate-eq v current staked c d h = ground arith

-- The two ways in which an update ends. `current` and `next` are what one STAKE was worth, and
-- what it would be worth by the new balances.
pub data Updated (env : Env) (staked : ℕ) (c d : Contract) : Type 0 where
  risen :
      (v : StakeTokenValue) (current next : ℕ)
      → StakeTokenValue.new (from_env env) staked c.total_stake.amount ≡ ok v
      → stake_to_near v yocto ≡ ok next
      → stake_to_near c.stake_token_value yocto ≡ ok current
      → (leb current next || staked == 0) ≡ true
      → d ≡ set_stake_token_value v c
      → Updated env staked c d
  held :
      (v : StakeTokenValue) (current next : ℕ)
      → StakeTokenValue.new (from_env env) staked c.total_stake.amount ≡ ok v
      → stake_to_near v yocto ≡ ok next
      → stake_to_near c.stake_token_value yocto ≡ ok current
      → (leb current next || staked == 0) ≡ false
      → compensate v current staked c ≡ ok (tt, d)
      → Updated env staked c d

pub update-Updated :
    (env : Env) (staked : ℕ) (c d : Contract)
    → update_stake_token_value env staked c ≡ ok (tt, d)
    → Updated env staked c d
unfolding update_stake_token_value
update-Updated env staked c d h =
    let (v, e, r) =
      lift-eq-ok (StakeTokenValue.new (from_env env) staked c.total_stake.amount) _ c h in
    let (next, f, s) = lift-eq-ok (stake_to_near v yocto) _ c r in
    let (current, g, t) = lift-eq-ok (stake_to_near c.stake_token_value yocto) _ c s in
    elim (Bool-cases (leb current next || staked == 0)) [
      | inl rise ↦ risen v current next e f g rise (ground arith)
      | inr fall ↦ held v current next e f g fall (rw fall at t)
    ]

pub new-fields :
    (h : BlockTimeHeight) (staked supply : ℕ) {v : StakeTokenValue}
    → StakeTokenValue.new h staked supply ≡ ok v
    → (v.total_staked_near_balance ≡ staked) × (v.total_stake_supply ≡ supply) × (supply ≤ staked)
unfolding StakeTokenValue.new
new-fields h staked supply e = ground arith

-- The compensated value is worth what the value was worth before.
pub compensated_worth :
    (v : StakeTokenValue) (current staked : ℕ) (c : Contract)
    → yocto ≤ c.total_stake.amount
    → current ≤ u128_max
    → c.total_stake.amount ≤ current * c.total_stake.amount / yocto
    → stake_to_near (compensated v current staked c).stake_token_value yocto ≡ ok current
compensated_worth v current staked c large fits backed =
    held_value (compensated v current staked c).stake_token_value current
      (record { positive = omega arith; backed = backed }) large fits refl

-- With a supply of at least one STAKE, a staked balance that is not zero and a known worth of one
-- STAKE, no update that succeeds lowers what one STAKE is worth in NEAR, whatever balance the staking
-- pool reports; the new value quotes the whole supply, and is backed.
pub update-worth_le :
    (env : Env) (staked : ℕ) (c d : Contract) (old : ℕ)
    → 0 < staked
    → yocto ≤ c.total_stake.amount
    → stake_to_near c.stake_token_value yocto ≡ ok old
    → update_stake_token_value env staked c ≡ ok (tt, d)
    → (new : ℕ) × (stake_to_near d.stake_token_value yocto ≡ ok new)
      × (old ≤ new)
      × (d.stake_token_value.total_stake_supply ≡ c.total_stake.amount)
      × IsBacked d.stake_token_value
update-worth_le env staked c d old pos large e h = worth (update-Updated env staked c d h)
  where
    worth :
        Updated env staked c d
        → (new : ℕ) × (stake_to_near d.stake_token_value yocto ≡ ok new)
          × (old ≤ new)
          × (d.stake_token_value.total_stake_supply ≡ c.total_stake.amount)
          × IsBacked d.stake_token_value
    worth (risen v current next made f g rise same) =
        let (bal, sup, le) = new-fields (from_env env) staked c.total_stake.amount made in
        (
          next,
          ground (arith, f),
          ground (arith, ok-injective (sym e ∙ g)),
          ground arith,
          record { positive = ground arith; backed = ground arith },
        )
    worth (held v current next made f g fall k) =
        let (same, low, backed, _) = compensate-eq v current staked c d k in
        let eq : current ≡ old = ok-injective (sym g ∙ e) in
        let fits : current ≤ u128_max =
          stake_to_near_le_max c.stake_token_value yocto current (omega arith) g in
        let w = compensated_worth v current staked c large fits backed in
        (
          current,
          subst (λ (x : Contract). stake_to_near x.stake_token_value yocto ≡ ok current) (sym same)
              w,
          omega (arith, eq),
          ground arith,
          record { positive = ground arith; backed = ground arith },
        )
