-- ===== src/Config.antt =====
-- contract/src/config.rs and contract/src/domain/gas.rs: the contract's configuration, and how the
-- operator's changes (contract/src/interface/model/config.rs) are merged into it.
pub mod Gas
pub mod Merging
pub mod Reporting
use oysterpack_near_stake_to.Prelude.{ℕ, Bool, true, false, Option, none, some, ltb}
use oysterpack_near_stake_to.Near.Error.{
  Result, ok, ◌>>=◌, ◌>>◌, assert, storage_cost_must_be_positive,
}
use Gas.{GasConfig, GasConfigUpdate, merge_gas_config}

pub record Config : Type 0 where
  pub storage_cost_per_byte : ℕ
  pub gas_config : GasConfig
  pub contract_owner_earnings_percentage : ℕ

-- `interface::Config`
pub record ConfigUpdate : Type 0 where
  pub storage_cost_per_byte : Option ℕ
  pub gas_config : Option GasConfigUpdate
  pub contract_owner_earnings_percentage : Option ℕ

-- `Config::default()`
abbrev pub default : Config
default = record {
  storage_cost_per_byte = 100000000000000000000;
  gas_config = Gas.default_gas_config;
  contract_owner_earnings_percentage = 50;
}

unfoldable pub merge_storage_cost : Bool → Option ℕ → ℕ → Result ℕ
merge_storage_cost validate none old = ok old
merge_storage_cost true (some cost) old = do
  assert (ltb 0 cost) storage_cost_must_be_positive
  ok cost
merge_storage_cost false (some cost) old = ok cost

unfoldable pub merge_optional_gas_config :
    Bool → Option GasConfigUpdate → GasConfig → Result GasConfig
merge_optional_gas_config validate none old = ok old
merge_optional_gas_config validate (some update) old = merge_gas_config old update validate

-- `Config::merge`, for the operator's `update_config`
unfoldable pub merge : Config → ConfigUpdate → Result Config
unfolding merge_storage_cost merge_optional_gas_config
merge c update = do
  cost ← merge_storage_cost true update.storage_cost_per_byte c.storage_cost_per_byte
  gas ← merge_optional_gas_config true update.gas_config c.gas_config
  ok (record c { storage_cost_per_byte = cost; gas_config = gas })

-- `Config::force_merge`, for `force_update_config`
unfoldable pub force_merge : Config → ConfigUpdate → Result Config
unfolding merge_storage_cost merge_optional_gas_config
force_merge c update = do
  cost ← merge_storage_cost false update.storage_cost_per_byte c.storage_cost_per_byte
  gas ← merge_optional_gas_config false update.gas_config c.gas_config
  ok (record c { storage_cost_per_byte = cost; gas_config = gas })

abbrev pub report : Config → ConfigUpdate
report c = record {
  storage_cost_per_byte = some c.storage_cost_per_byte;
  gas_config = some (Gas.report_gas_config c.gas_config);
  contract_owner_earnings_percentage = some c.contract_owner_earnings_percentage;
}
