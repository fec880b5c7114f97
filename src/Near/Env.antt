-- ===== src/Near/Env.antt =====
-- The NEAR runtime (`near_sdk::env`), as the values that one call reads. Account IDs are only
-- compared and hashed, so they are numbers; `sha256` is the host's hash function, by which
-- contract/src/core/hash.rs keys the accounts.
use oysterpack_near_stake_to.Prelude.{ℕ, Option, List}

-- `near_sdk::PromiseResult`, with the bytes of a successful result.
pub data PromiseResult : Type 0 where
  not_ready failed : PromiseResult
  successful : List ℕ → PromiseResult

pub record Env : Type 0 where
  pub predecessor_account_id : ℕ
  pub current_account_id : ℕ
  pub attached_deposit : ℕ
  pub account_balance : ℕ
  pub block_index : ℕ
  pub block_timestamp : ℕ
  pub epoch_height : ℕ
  pub storage_usage : ℕ
  pub prepaid_gas : ℕ
  pub used_gas : ℕ
  -- `env::promise_result(0)`
  pub promise_result : PromiseResult
  pub sha256 : ℕ → ℕ
  -- `serde_json::from_slice` at a token amount
  pub token_amount_from_slice : List ℕ → Option ℕ
