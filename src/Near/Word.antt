-- ===== src/Near/Word.antt =====
-- The machine words: `u128` with overflow checks (Cargo.toml sets `overflow-checks = true`, and
-- the operators of YoctoNear and YoctoStake are checked themselves), and the 256-bit `U256` of
-- contract/src/core.rs, in which a product of two `u128` is exact.
use native.Mathlib.Nat.{mul-le-mul}
use oysterpack_near_stake_to.Prelude.{
  ℕ, ◌+◌, ◌-◌, ◌*◌, ◌/◌, ◌^◌, ◌≤◌, ◌<◌, arith, leb, ◌==◌, if◌then◌else◌,
}
use oysterpack_near_stake_to.Near.Error.{
  Result, ok, err, add_overflow, sub_overflow, mul_overflow, cast_overflow, division_by_zero,
}

abbrev pub u64_max : ℕ
u64_max = 18446744073709551615

abbrev pub u128_max : ℕ
u128_max = 340282366920938463463374607431768211455

-- 10^24 yocto make one NEAR or one STAKE.
abbrev pub yocto : ℕ
yocto = 1000000000000000000000000

unfoldable pub add_u128 : ℕ → ℕ → Result ℕ
add_u128 a b = if leb (a + b) u128_max then ok (a + b) else err add_overflow

unfoldable pub sub_u128 : ℕ → ℕ → Result ℕ
sub_u128 a b = if leb b a then ok (a - b) else err sub_overflow

unfoldable pub mul_u128 : ℕ → ℕ → Result ℕ
mul_u128 a b = if leb (a * b) u128_max then ok (a * b) else err mul_overflow

unfoldable pub add_u64 : ℕ → ℕ → Result ℕ
add_u64 a b = if leb (a + b) u64_max then ok (a + b) else err add_overflow

unfoldable pub sub_u64 : ℕ → ℕ → Result ℕ
sub_u64 a b = if leb b a then ok (a - b) else err sub_overflow

unfoldable pub mul_u64 : ℕ → ℕ → Result ℕ
mul_u64 a b = if leb (a * b) u64_max then ok (a * b) else err mul_overflow

-- `saturating_sub` and `saturating_add` of `u128`
abbrev pub saturating_sub : ℕ → ℕ → ℕ
saturating_sub a b = a - b

abbrev pub saturating_add : ℕ → ℕ → ℕ
saturating_add a b = if leb (a + b) u128_max then a + b else u128_max

-- `U256::as_u128`
unfoldable pub as_u128 : ℕ → Result ℕ
as_u128 n = if leb n u128_max then ok n else err cast_overflow

-- `U256 / U256`
unfoldable pub div_u256 : ℕ → ℕ → Result ℕ
div_u256 a b = if b == 0 then err division_by_zero else ok (a / b)

-- A product of two `u128` fits into a `U256`, so `U256 * U256` needs no check here.
pub mul_fits_u256 : (a b : ℕ) → a ≤ u128_max → b ≤ u128_max → a * b < 2 ^ 256
mul_fits_u256 a b h k = omega (arith, mul-le-mul {m₁ = b} h k)
