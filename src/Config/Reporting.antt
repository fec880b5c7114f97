-- ===== src/Config/Reporting.antt =====
-- A reported configuration that is merged back (`From<GasConfig>` in contract/src/config.rs and
-- contract/src/interface/model/config.rs).
use oysterpack_near_stake_to.Prelude.{◌*◌, ◌≤◌, ◌≡◌, refl, subst, true, false, arith}
use oysterpack_near_stake_to.Near.Error.{ok, >>=-eq-ok, ok-injective}
use oysterpack_near_stake_to.Config.Gas.{
  GasConfig, StakingPoolGasConfig, CallBacksGasConfig, tgas, merge_gas, merge_gas_config,
  merge_callbacks, merge_staking_pool, merge_optional_callbacks, merge_optional_staking_pool,
  report_callbacks, report_staking_pool, report_gas_config, assert_gas_range, validate_gas_config,
}
use oysterpack_near_stake_to.Config.Merging.{AddsUp, merge_gas_config-AddsUp}

merge_callbacks-report :
    (c d : CallBacksGasConfig)
    → merge_callbacks c (report_callbacks c) true ≡ ok d
    → (d ≡ c) × (c.on_deposit_and_stake ≤ tgas * 10)
unfolding merge_callbacks merge_gas assert_gas_range
merge_callbacks-report c d h = (ground arith, ground arith)

merge_staking_pool-report :
    (c d : StakingPoolGasConfig)
    → merge_staking_pool c (report_staking_pool c) true ≡ ok d
    → (d ≡ c) × (c.deposit ≤ tgas * 20)
unfolding merge_staking_pool merge_gas assert_gas_range
merge_staking_pool-report c d h = (ground arith, ground arith)

-- Without validation the report is always taken over, and changes nothing.
force_merge-report : (c : GasConfig) → merge_gas_config c (report_gas_config c) false ≡ ok c
unfolding merge_gas_config merge_optional_callbacks merge_optional_staking_pool merge_callbacks
    merge_staking_pool merge_gas validate_gas_config
force_merge-report c = refl

-- Whenever a gas configuration as it is reported is accepted back by a validated change, the
-- configuration stays as it is, as it does when the change is forced. It is accepted only if it adds
-- up, if its gas for `on_deposit_and_stake` is at most 10 TGas and its gas for `deposit` at most
-- 20 TGas, so that the default's 15 and 45 TGas are refused.
pub merge_gas_config-report :
    (c d : GasConfig)
    → merge_gas_config c (report_gas_config c) true ≡ ok d
    → (d ≡ c)
      × (merge_gas_config c (report_gas_config c) false ≡ ok c)
      × AddsUp c
      × (c.callbacks.on_deposit_and_stake ≤ tgas * 10)
      × (c.staking_pool.deposit ≤ tgas * 20)
unfolding merge_gas_config merge_optional_callbacks merge_optional_staking_pool
merge_gas_config-report c d h =
    let (calls, e, r) =
      >>=-eq-ok (merge_callbacks c.callbacks (report_callbacks c.callbacks) true) _ h in
    let (pool, f, s) =
      >>=-eq-ok (merge_staking_pool c.staking_pool (report_staking_pool c.staking_pool) true) _ r in
    let (_, _, g) = >>=-eq-ok (validate_gas_config _ true) _ s in
    let (same_calls, callback) = merge_callbacks-report c.callbacks calls e in
    let (same_pool, call) = merge_staking_pool-report c.staking_pool pool f in
    let same : d ≡ c = ground (arith, ok-injective g, same_calls, same_pool) in
    (
      same,
      force_merge-report c,
      subst AddsUp same (merge_gas_config-AddsUp c d (report_gas_config c) h),
      callback,
      call,
    )
