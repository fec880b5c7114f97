-- ===== src/Lib.antt =====
-- The STAKE token contract (contract/src/): accounts deposit NEAR into batches that the contract
-- stakes with one staking pool, receive STAKE tokens at the value that the batch was staked at,
-- transfer them, and redeem them for NEAR again once the pool has released it.
--
-- The program's parts, and the files that model them:
-- - Near: what the contract takes from the runtime. Near/Error has the panics of contract/src/errors.rs
--   and results that carry them, Near/Word the checked arithmetic on u128 and u64, Near/Env the values
--   of near_sdk::env that one call reads.
-- - Domain: contract/src/domain/, a module per type: NearBalance and StakeBalance
--   (TimestampedNearBalance, TimestampedStakeBalance), StakeTokenValue (near_to_stake and
--   stake_to_near), Batch, Receipt, Lock and Account. Balances and Account/Balances say what credits
--   and debits do, StakeTokenValue/Rounding what the conversions guarantee.
-- - Config and Config/Gas: contract/src/config.rs with the changes and the reports of
--   contract/src/interface/model/config.rs; Config/Merging is about its changes, and
--   Config/Reporting about reports that are merged back.
-- - Contract: struct Contract of contract/src/lib.rs is the record Contract of Contract/State, and a
--   method is a function of Contract/Monad into a panic or a result with the new state. The modules
--   follow contract/src/contract/: Accounts (account_management.rs), Financials (financials.rs), Owner
--   (contract_owner.rs), Operator (operator.rs, and the access checks of contract.rs), StakingPool
--   (staking_pool.rs and the invoke functions), FungibleToken (fungible_token.rs). staking_service.rs
--   is Claims (claim_receipt_funds), TokenValue (update_stake_token_value), Deposits, Redeeming,
--   Withdrawals, Staking, Refresh and Unstaking; Staking and StakedBatch have the callbacks of
--   staking_workflow_callbacks.rs, Unstaking those of redeeming_workflow_callbacks.rs.
--   Views has the account as views show it (apply_receipt_funds_for_view, ft_balance_of and
--   lookup_account), Reports the views that show fields, and Creation the constructor.
--   A module below one of these is about what its operations do, and Backing about sequences of calls
--   that move NEAR between the accounts' batches, the contract's batches and the receipts.
-- - Interface: contract/src/interface/model/, what the views report of values, receipts and accounts.
-- - Tests: runs on a sample contract, at which the theorems are applied.
-- - Prelude: names of the library, Boolean tests, and a map as an association list.
--
-- How the parts interact: every method of an account loads it, claims what processed batches owe it
-- (Claims), works on it and saves it. stake takes the stake lock and schedules calls of the pool; the
-- callbacks record what the pool reports and process the batch, which updates the value of STAKE.
-- unstake does the same for the redeem batch with the redeem lock, in two rounds, as the pool releases
-- NEAR some epochs later. The liquidity pool holds NEAR that pays redeemers before that.
--
-- How the model reads the code:
-- - A panic ends a call and loses its state, as the runtime reverts the changes of a call that panics.
--   u128 arithmetic panics on overflow, as Cargo.toml asks for; a product of two u128 fits into U256,
--   so products are exact, and conversions back are checked.
-- - Account IDs are numbers, since they are only compared and hashed. The hash and the parser of a
--   receiver's answer are functions of the environment; no theorem assumes that the hash is injective,
--   and what depends on two hashes being different says so.
-- - LookupMap is an association list. A scheduled promise is a value at the end of a list in the
--   state. A callback is a method that gets what the pool reports as its argument.
-- - There are no loops in the code and no fuel in the model; every definition is total.
-- - What the constructor measures, the storage that the host counts and the length of the serialized
--   state, are functions that it takes as parameters.
--
-- Not modelled: logging, the metadata of the token, the serialization of arguments and state, the
-- attributes of near_bindgen (a callback is private, a method is payable), the staking pool itself,
-- and contract/tests, the mocks, contract-test and the JavaScript clients.
pub mod Prelude
pub mod Near
pub mod Domain
pub mod Config
pub mod Interface
pub mod Contract
pub mod Tests
