-- ===== src/Contract/Creation.antt =====
-- The constructor (contract/src/lib.rs), which measures what the storage of an account takes.
use oysterpack_near_stake_to.Prelude.{
  ℕ, Bool, not, none, [], ◌==◌, ◌≡◌, ◌≢◌, ◌+◌, ◌-◌, ◌≤◌, ne→==, false, arith,
}
use oysterpack_near_stake_to.Prelude.Dict
use oysterpack_near_stake_to.Prelude.Dict.{Dict}
use oysterpack_near_stake_to.Near.Error.{
  Result, ok, ◌>>=◌, ◌>>◌, assert, already_initialized, current_account_must_not_be_owner,
  current_account_must_not_be_operator, storage_usage_not_restored,
}
use oysterpack_near_stake_to.Near.Word.{add_u64, sub_u64, u64_max}
use oysterpack_near_stake_to.Near.Env.{Env}
use oysterpack_near_stake_to.Config
use oysterpack_near_stake_to.Domain.NearBalance
use oysterpack_near_stake_to.Domain.StakeBalance
use oysterpack_near_stake_to.Domain.StakeTokenValue
use oysterpack_near_stake_to.Domain.Receipt.{StakeBatchReceipt, RedeemStakeBatchReceipt}
use oysterpack_near_stake_to.Domain.Account.{Account, account_template_to_measure_storage_usage}
use oysterpack_near_stake_to.Contract.State.{Contract}

-- The key `Hash::from([0u8; 32])`.
abbrev zero_hash : ℕ
zero_hash = 0

abbrev pub allocate_account_template_to_measure_storage_usage : Env → Contract → Contract
allocate_account_template_to_measure_storage_usage env c = record c {
  accounts = Dict.insert zero_hash (account_template_to_measure_storage_usage env) c.accounts;
  stake_batch_receipts =
      Dict.insert 0 (record { staked_near = 0; stake_token_value = StakeTokenValue.default })
        c.stake_batch_receipts;
  redeem_stake_batch_receipts =
      Dict.insert 0 (record { redeemed_stake = 0; stake_token_value = StakeTokenValue.default })
        c.redeem_stake_batch_receipts;
}

abbrev pub deallocate_account_template_to_measure_storage_usage : Contract → Contract
deallocate_account_template_to_measure_storage_usage c = record c {
  accounts = Dict.remove zero_hash c.accounts;
  stake_batch_receipts = Dict.remove 0 c.stake_batch_receipts;
  redeem_stake_batch_receipts = Dict.remove 0 c.redeem_stake_batch_receipts;
}

-- The contract before anything is measured.
abbrev pub fresh_contract : Env → ℕ → ℕ → ℕ → Contract
fresh_contract env staking_pool_id owner_id operator_id = record {
  owner_id = owner_id;
  contract_owner_balance = env.account_balance;
  contract_initial_storage_usage = 0;
  collected_earnings = 0;
  operator_id = operator_id;
  config = Config.default;
  config_change_block_height = env.block_index;
  account_storage_usage = 0;
  total_account_storage_escrow = 0;
  accounts = [];
  accounts_len = 0;
  total_near = NearBalance.new env 0;
  total_stake = StakeBalance.new env 0;
  near_liquidity_pool = 0;
  stake_token_value = StakeTokenValue.default;
  batch_id_sequence = 0;
  stake_batch = none;
  next_stake_batch = none;
  redeem_stake_batch = none;
  next_redeem_stake_batch = none;
  stake_batch_receipts = [];
  redeem_stake_batch_receipts = [];
  staking_pool_id = staking_pool_id;
  stake_batch_lock = none;
  redeem_stake_batch_lock = none;
  promises = [];
}

-- The overhead of the stored state beyond its serialized bytes.
abbrev pub state_storage_overhead : ℕ
state_storage_overhead = 45

-- What the host knows: whether a state is stored, the storage that the collections take (the state
-- itself is not stored yet), and the length of the state as borsh serializes it.
module _ (state_exists : Bool)
    (storage_usage : Dict Account → Dict StakeBatchReceipt → Dict RedeemStakeBatchReceipt → ℕ)
    (serialized_len : Contract → ℕ) where
  abbrev pub storage_used : Contract → ℕ
  storage_used c = storage_usage c.accounts c.stake_batch_receipts c.redeem_stake_batch_receipts

  unfoldable pub new : Env → ℕ → ℕ → ℕ → Result Contract
  new env staking_pool_id owner_id operator_id = do
    assert (not state_exists) already_initialized
    assert (not (env.current_account_id == owner_id)) current_account_must_not_be_owner
    assert (not (env.current_account_id == operator_id)) current_account_must_not_be_operator
    let contract = fresh_contract env staking_pool_id owner_id operator_id
    with_state ← add_u64 (storage_used contract) (serialized_len contract)
    initial ← add_u64 with_state state_storage_overhead
    let measured = record contract { contract_initial_storage_usage = initial }
    let allocated = allocate_account_template_to_measure_storage_usage env measured
    account_storage ← sub_u64 (storage_used allocated) (storage_used measured)
    let freed =
        deallocate_account_template_to_measure_storage_usage
          (record allocated { account_storage_usage = account_storage })
    assert (storage_used measured == storage_used freed) storage_usage_not_restored
    ok freed

  -- With no state stored, an owner and an operator other than the contract's own account, and a host
  -- that counts at least as much storage with the templates as without and no more than 64 bits
  -- hold, the constructor returns the contract as it is laid out, with nothing left of the templates
  -- and with the storage that they took as that of an account.
  pub new-total :
      (env : Env) (staking_pool_id owner_id operator_id : ℕ) (contract allocated : Contract)
      → contract ≡ fresh_contract env staking_pool_id owner_id operator_id
      → allocated ≡ allocate_account_template_to_measure_storage_usage env contract
      → state_exists ≡ false
      → env.current_account_id ≢ owner_id
      → env.current_account_id ≢ operator_id
      → storage_used contract + serialized_len contract + state_storage_overhead ≤ u64_max
      → storage_used contract ≤ storage_used allocated
      → (account_storage : ℕ) × (account_storage + storage_used contract ≡ storage_used allocated)
        × (new env staking_pool_id owner_id operator_id
            ≡ ok (record contract {
              contract_initial_storage_usage =
                  storage_used contract + serialized_len contract + state_storage_overhead;
              account_storage_usage = account_storage;
            }))
  unfolding new add_u64 sub_u64 Dict.insert Dict.remove
  new-total env staking_pool_id owner_id operator_id contract allocated is_fresh is_allocated absent
        owner operator fits grows =
      (
        storage_used allocated - storage_used contract,
        omega arith,
        ground (
          arith,
          ne→== env.current_account_id owner_id owner,
          ne→== env.current_account_id operator_id operator,
        ),
      )
