-- ===== src/Domain/StakeTokenValue/Rounding.antt =====
-- What the conversions of contract/src/domain/stake_token_value.rs guarantee: `near_to_stake`
-- rounds down, `stake_to_near` rounds up, and so neither way does value leak out.
use native.Mathlib.Nat.{
  mul-le-mul_right, lt_of_mul-lt-mul_right, div-add-mod, mod-lt, lt-div-mul-add, div-mul-le_self,
  div-eq_of_lt-le, div-le_of_le-mul,
}
use oysterpack_near_stake_to.Prelude.{
  ℕ, ◌+◌, ◌*◌, ◌/◌, ◌%◌, ◌≤◌, ◌<◌, ◌≡◌, refl, subst, ap, sym, ◌∙◌, inl, inr, Bool-cases, arith,
  ◌==◌,
}
use oysterpack_near_stake_to.Near.Error.{ok, err, division_by_zero}
use oysterpack_near_stake_to.Near.Word.{as_u128, div_u256, add_u128, u128_max}
use oysterpack_near_stake_to.Domain.StakeTokenValue.{
  StakeTokenValue, near_to_stake, stake_to_near, round_up,
}

-- The invariant of a value that is quoted with a supply: one STAKE is worth at least one NEAR.
pub record IsBacked (v : StakeTokenValue) : Type 0 where
  pub positive : 0 < v.total_stake_supply
  pub backed : v.total_stake_supply ≤ v.total_staked_near_balance

module _ (v : StakeTokenValue) (b : IsBacked v) where
  pub near_to_stake-eq :
      (near : ℕ)
      → near_to_stake v near ≡ as_u128 (near * v.total_stake_supply / v.total_staked_near_balance)
  unfolding near_to_stake
  near_to_stake-eq near = ground (arith, b.positive, b.backed)

  pub stake_to_near-eq :
      (stake : ℕ)
      → let product = stake * v.total_staked_near_balance in
        stake_to_near v stake
        ≡ round_up (product % v.total_stake_supply) (product / v.total_stake_supply)
  unfolding stake_to_near div_u256
  stake_to_near-eq stake = ground (arith, b.positive, b.backed)

as_u128-ok : (n : ℕ) → n ≤ u128_max → as_u128 n ≡ ok n
unfolding as_u128
as_u128-ok n h = ground arith

as_u128-eq-ok : (n : ℕ) {m : ℕ} → as_u128 n ≡ ok m → n ≡ m
unfolding as_u128
as_u128-eq-ok n h = ground arith

floor_bounds : (n d : ℕ) {q : ℕ} → 0 < d → n / d ≡ q → (q * d ≤ n) × (n < (q + 1) * d)
floor_bounds n d {q} pos e =
    let below : q * d ≤ n = subst (λ r. r * d ≤ n) e (div-mul-le_self n d) in
    let above : n < q * d + d = subst (λ r. n < r * d + d) e (lt-div-mul-add {a = n} pos) in
    (below, omega (arith, above))

-- A quotient rounded up is the least number whose product reaches the dividend.
pub round_up_bounds :
    (n d : ℕ) {q : ℕ} → 0 < d → round_up (n % d) (n / d) ≡ ok q → (n ≤ q * d) × (q * d < n + d)
unfolding round_up as_u128 add_u128
round_up_bounds n d {q} pos h =
    let e : n / d * d + n % d ≡ n = omega (arith, div-add-mod n d) in grind (arith, mod-lt n pos, e)

pub round_up_total :
    (n d most : ℕ)
    → 0 < d
    → n ≤ most * d
    → most ≤ u128_max
    → (q : ℕ) × (round_up (n % d) (n / d) ≡ ok q)
unfolding round_up as_u128 add_u128
round_up_total n d most pos le fits =
    let e : n / d * d + n % d ≡ n = omega (arith, div-add-mod n d) in
    let small : n / d ≤ most = div-le_of_le-mul d (omega (arith, le)) in
    elim (Bool-cases (n % d == 0)) [
      | inl exact ↦ (n / d, ground arith)
      | inr rest ↦
          let below : n / d * d < most * d = ground (arith, e, le) in
          let room : n / d < most = lt_of_mul-lt-mul_right d below in (n / d + 1, ground arith)
    ]

module _ (v : StakeTokenValue) (b : IsBacked v) where
  -- At a backed value `near_to_stake` rounds down: the STAKE that it gives is worth no more than the
  -- NEAR, and one more yoctoSTAKE would be worth more.
  pub near_to_stake_floor :
      (near : ℕ) {stake : ℕ}
      → near_to_stake v near ≡ ok stake
      → (stake * v.total_staked_near_balance ≤ near * v.total_stake_supply)
        × (near * v.total_stake_supply < (stake + 1) * v.total_staked_near_balance)
  near_to_stake_floor near {stake} h =
      let e = as_u128-eq-ok _ (sym (near_to_stake-eq v b near) ∙ h) in
      floor_bounds _ _ (omega (arith, b.positive, b.backed)) e

  -- At a backed value `stake_to_near` rounds up: the NEAR that it gives is at least the value of the
  -- STAKE, and one yoctoNEAR less would be worth less.
  pub stake_to_near_ceil :
      (stake : ℕ) {near : ℕ}
      → stake_to_near v stake ≡ ok near
      → (stake * v.total_staked_near_balance ≤ near * v.total_stake_supply)
        × (near * v.total_stake_supply < stake * v.total_staked_near_balance + v.total_stake_supply)
  stake_to_near_ceil stake {near} h =
      round_up_bounds _ _ b.positive (subst (λ r. r ≡ ok near) (stake_to_near-eq v b stake) h)

  -- At a backed value, if `stake_to_near` of an amount of STAKE within `u128` succeeds, then
  -- `near_to_stake` of its result succeeds and gives back exactly that amount.
  pub near_to_stake-stake_to_near :
      (stake : ℕ) {near : ℕ}
      → stake ≤ u128_max
      → stake_to_near v stake ≡ ok near
      → near_to_stake v near ≡ ok stake
  near_to_stake-stake_to_near stake {near} fits h =
      let (low, high) = stake_to_near_ceil stake h in
      let e : near * v.total_stake_supply / v.total_staked_near_balance ≡ stake =
        div-eq_of_lt-le {k = stake} v.total_staked_near_balance low
          (omega (arith, high, b.backed)) in
      near_to_stake-eq v b near ∙ (ap as_u128 e ∙ as_u128-ok stake fits)

  -- Redeeming what was issued for some NEAR pays out no more than that NEAR.
  pub stake_to_near-near_to_stake_le :
      (near : ℕ) {stake paid : ℕ}
      → near_to_stake v near ≡ ok stake
      → stake_to_near v stake ≡ ok paid
      → paid ≤ near
  stake_to_near-near_to_stake_le near {stake} {paid} h k =
      let (low, _) = near_to_stake_floor near h in
      let (_, high) = stake_to_near_ceil stake k in
      let below : paid * v.total_stake_supply < (near + 1) * v.total_stake_supply =
        omega (arith, low, high) in
      omega (arith, lt_of_mul-lt-mul_right v.total_stake_supply below)

  -- The conversion of any amount of NEAR succeeds.
  pub near_to_stake_total :
      (near : ℕ)
      → near ≤ u128_max
      → (stake : ℕ) × (near_to_stake v near ≡ ok stake) × (stake ≤ near)
  near_to_stake_total near fits =
      let stake = near * v.total_stake_supply / v.total_staked_near_balance in
      let small : stake ≤ near =
        div-le_of_le-mul v.total_staked_near_balance
          (omega (arith, mul-le-mul_right near b.backed)) in
      (stake, near_to_stake-eq v b near ∙ as_u128-ok stake (omega (arith, small)), small)

  -- NEAR within `u128` that is staked and redeemed again at one backed value comes back without a
  -- panic, and no more comes back than went in.
  pub stake_and_redeem :
      (near : ℕ)
      → near ≤ u128_max
      → (stake : ℕ) × (paid : ℕ) × (near_to_stake v near ≡ ok stake)
        × (stake_to_near v stake ≡ ok paid)
        × (paid ≤ near)
  stake_and_redeem near fits =
      let (stake, e, _) = near_to_stake_total near fits in
      let (low, _) = near_to_stake_floor near e in
      let (paid, k) =
        round_up_total (stake * v.total_staked_near_balance) v.total_stake_supply near b.positive
          low fits in
      let r = stake_to_near-eq v b stake ∙ k in
      (stake, paid, e, r, stake_to_near-near_to_stake_le near e r)

-- With NEAR staked but no STAKE in supply `stake_to_near` panics, whatever the amount.
pub stake_to_near_no_supply :
    (v : StakeTokenValue) (stake : ℕ)
    → v.total_stake_supply ≡ 0
    → 0 < v.total_staked_near_balance
    → stake_to_near v stake ≡ err division_by_zero
unfolding stake_to_near div_u256
stake_to_near_no_supply v stake e h = ground arith

-- Every amount of NEAR that comes out of a conversion of a `u128` is a `u128`.
pub stake_to_near_le_max :
    (v : StakeTokenValue) (stake near : ℕ)
    → stake ≤ u128_max
    → stake_to_near v stake ≡ ok near
    → near ≤ u128_max
unfolding stake_to_near div_u256 as_u128 add_u128
stake_to_near_le_max v stake near fits h = ground arith

-- The conversions read the two balances only.
pub stake_to_near_congr :
    (v w : StakeTokenValue) (stake : ℕ)
    → v.total_staked_near_balance ≡ w.total_staked_near_balance
    → v.total_stake_supply ≡ w.total_stake_supply
    → stake_to_near v stake ≡ stake_to_near w stake
unfolding stake_to_near
stake_to_near_congr v w stake e f = rw (e, f) refl
