-- ===== src/Config/Merging.antt =====
-- What a validated change of the configuration guarantees (contract/src/config.rs).
use oysterpack_near_stake_to.Prelude.{
  ℕ, ◌+◌, ◌*◌, ◌≤◌, ◌≡◌, ◌⊎◌, inl, inr, refl, subst, Bool, true, false, Option, none, some, arith,
}
use oysterpack_near_stake_to.Near.Error.{ok, ◌>>=◌, >>=-eq-ok, ok-injective}
use oysterpack_near_stake_to.Config.{
  Config, ConfigUpdate, merge, force_merge, merge_storage_cost, merge_optional_gas_config,
}
use oysterpack_near_stake_to.Config.Gas.{
  GasConfig, GasConfigUpdate, StakingPoolGasConfig, StakingPoolGasConfigUpdate, CallBacksGasConfig,
  CallBacksGasConfigUpdate, tgas, merge_gas_config, merge_callbacks, merge_staking_pool,
  merge_optional_callbacks, merge_optional_staking_pool, assert_adds_up, validate_gas_config,
}

-- The three sums that are validated: the first callback of running a batch, of unstaking and of a
-- pending withdrawal has gas for one staking pool call, the callback of that, and 5 TGas.
pub record AddsUp (c : GasConfig) : Type 0 where
  pub staking :
      c.staking_pool.deposit_and_stake + c.callbacks.on_deposit_and_stake + tgas * 5
      ≤ c.callbacks.on_run_stake_batch
  pub redeeming :
      c.staking_pool.unstake + c.callbacks.on_unstake + tgas * 5
      ≤ c.callbacks.on_run_redeem_stake_batch
  pub withdrawing :
      c.staking_pool.withdraw + c.callbacks.on_redeeming_stake_post_withdrawal + tgas * 5
      ≤ c.callbacks.on_redeeming_stake_pending_withdrawal

assert_adds_up_bound :
    (whole call callback : ℕ) {u : Unit {0}}
    → assert_adds_up whole call callback ≡ ok u
    → call + callback + tgas * 5 ≤ whole
unfolding assert_adds_up
assert_adds_up_bound whole call callback h = ground arith

validate-AddsUp : (c : GasConfig) {u : Unit {0}} → validate_gas_config c true ≡ ok u → AddsUp c
unfolding validate_gas_config
validate-AddsUp c {u} h =
    let (_, e, rest) =
      >>=-eq-ok
        (assert_adds_up c.callbacks.on_run_stake_batch c.staking_pool.deposit_and_stake
          c.callbacks.on_deposit_and_stake)
        _ h in
    let (_, f, last) =
      >>=-eq-ok
        (assert_adds_up c.callbacks.on_run_redeem_stake_batch c.staking_pool.unstake
          c.callbacks.on_unstake)
        _ rest in
    record {
      staking = assert_adds_up_bound _ _ _ e;
      redeeming = assert_adds_up_bound _ _ _ f;
      withdrawing = assert_adds_up_bound _ _ _ last;
    }

-- A change of the gas configuration that passes validation leaves a configuration that respects three
-- sums, whatever it was before: `deposit_and_stake`, `on_deposit_and_stake` and 5 TGas are at most
-- `on_run_stake_batch`; `unstake`, `on_unstake` and 5 TGas are at most `on_run_redeem_stake_batch`; and
-- `withdraw`, `on_redeeming_stake_post_withdrawal` and 5 TGas are at most
-- `on_redeeming_stake_pending_withdrawal`. The other calls that these callbacks make, such as
-- `deposit`, `stake` and `get_account`, are not in the sums.
pub merge_gas_config-AddsUp :
    (c d : GasConfig) (update : GasConfigUpdate) → merge_gas_config c update true ≡ ok d → AddsUp d
unfolding merge_gas_config
merge_gas_config-AddsUp c d update h =
    let (calls, _, r) =
      >>=-eq-ok (merge_optional_callbacks c.callbacks update.callbacks true) _ h in
    let (pool, _, s) =
      >>=-eq-ok (merge_optional_staking_pool c.staking_pool update.staking_pool true) _ r in
    let (_, valid, e) = >>=-eq-ok (validate_gas_config _ true) _ s in
    subst AddsUp (ok-injective e) (validate-AddsUp _ valid)

merge_staking_pool-ping :
    (c d : StakingPoolGasConfig) (u : StakingPoolGasConfigUpdate) (validate : Bool)
    → merge_staking_pool c u validate ≡ ok d
    → d.ping ≡ c.ping
unfolding merge_staking_pool
merge_staking_pool-ping c d u validate h = ground arith

merge_callbacks-refresh :
    (c d : CallBacksGasConfig) (u : CallBacksGasConfigUpdate) (validate : Bool)
    → merge_callbacks c u validate ≡ ok d
    → d.on_refresh_stake_token_value ≡ c.on_refresh_stake_token_value
unfolding merge_callbacks
merge_callbacks-refresh c d u validate h = ground arith

-- The values that a change of the configuration cannot reach.
abbrev pub SameUnreachable : GasConfig → GasConfig → Type 0
SameUnreachable c d =
    (d.staking_pool.ping ≡ c.staking_pool.ping)
    × (d.callbacks.on_refresh_stake_token_value ≡ c.callbacks.on_refresh_stake_token_value)

optional-ping :
    (c d : StakingPoolGasConfig) (u : Option StakingPoolGasConfigUpdate) (validate : Bool)
    → merge_optional_staking_pool c u validate ≡ ok d
    → d.ping ≡ c.ping
unfolding merge_optional_staking_pool
optional-ping c d none validate h = ground arith
optional-ping c d (some u) validate h = merge_staking_pool-ping c d u validate h

optional-refresh :
    (c d : CallBacksGasConfig) (u : Option CallBacksGasConfigUpdate) (validate : Bool)
    → merge_optional_callbacks c u validate ≡ ok d
    → d.on_refresh_stake_token_value ≡ c.on_refresh_stake_token_value
unfolding merge_optional_callbacks
optional-refresh c d none validate h = ground arith
optional-refresh c d (some u) validate h = merge_callbacks-refresh c d u validate h

merge_gas_config-SameUnreachable :
    (c d : GasConfig) (update : GasConfigUpdate) (validate : Bool)
    → merge_gas_config c update validate ≡ ok d
    → SameUnreachable c d
unfolding merge_gas_config
merge_gas_config-SameUnreachable c d update validate h =
    let (calls, e, r) =
      >>=-eq-ok (merge_optional_callbacks c.callbacks update.callbacks validate) _ h in
    let (pool, f, s) =
      >>=-eq-ok (merge_optional_staking_pool c.staking_pool update.staking_pool validate) _ r in
    let (_, _, g) = >>=-eq-ok (validate_gas_config _ validate) _ s in
    subst (SameUnreachable c) (ok-injective g) (
      optional-ping c.staking_pool pool update.staking_pool validate f,
      optional-refresh c.callbacks calls update.callbacks validate e,
    )

optional-SameUnreachable :
    (validate : Bool) (o : Option GasConfigUpdate) (c d : GasConfig)
    → merge_optional_gas_config validate o c ≡ ok d
    → SameUnreachable c d
unfolding merge_optional_gas_config
optional-SameUnreachable validate none c d h = ground arith
optional-SameUnreachable validate (some u) c d h = merge_gas_config-SameUnreachable c d u validate h

merged :
    (validate : Bool) (c d : Config) (update : ConfigUpdate)
    → (merge_storage_cost validate update.storage_cost_per_byte c.storage_cost_per_byte >>= λ cost.
        merge_optional_gas_config validate update.gas_config c.gas_config >>= λ gas.
        ok (record c { storage_cost_per_byte = cost; gas_config = gas }))
      ≡ ok d
    → (d.contract_owner_earnings_percentage ≡ c.contract_owner_earnings_percentage)
      × SameUnreachable c.gas_config d.gas_config
merged validate c d update h =
    let (cost, _, r) = >>=-eq-ok (merge_storage_cost validate _ c.storage_cost_per_byte) _ h in
    let (gas, e, s) = >>=-eq-ok (merge_optional_gas_config validate _ c.gas_config) _ r in
    subst
      (λ (k : Config).
        (k.contract_owner_earnings_percentage ≡ c.contract_owner_earnings_percentage)
        × SameUnreachable c.gas_config k.gas_config)
      (ok-injective s)
      (refl, optional-SameUnreachable validate update.gas_config c.gas_config gas e)

-- No accepted change, validated or forced, alters the owner's share of the earnings, the gas for
-- `ping` or the gas for refreshing the STAKE token value, although a change names all three.
pub merge-SameUnreachable :
    (c d : Config) (update : ConfigUpdate)
    → (merge c update ≡ ok d) ⊎ (force_merge c update ≡ ok d)
    → (d.contract_owner_earnings_percentage ≡ c.contract_owner_earnings_percentage)
      × SameUnreachable c.gas_config d.gas_config
unfolding merge force_merge
merge-SameUnreachable c d update (inl h) = merged true c d update h
merge-SameUnreachable c d update (inr h) = merged false c d update h
