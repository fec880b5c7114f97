-- ===== src/Contract/StakedBatch/Processing.antt =====
-- What processing a staked batch does (contract/src/contract/staking_workflow_callbacks.rs).
use oysterpack_near_stake_to.Prelude.{ℕ, ◌+◌, ◌≡◌, Option, none, some, arith, refl, ap}
use oysterpack_near_stake_to.Prelude.Dict
use oysterpack_near_stake_to.Near.Error.{ok, stake_batch_should_exist}
use oysterpack_near_stake_to.Near.Word.{add_u128, sub_u128}
use oysterpack_near_stake_to.Near.Env.{Env}
use oysterpack_near_stake_to.Domain.NearBalance
use oysterpack_near_stake_to.Domain.Batch.{StakeBatch}
use oysterpack_near_stake_to.Domain.Lock.{StakeLock, staking, staked, refreshing_stake_token_value}
use oysterpack_near_stake_to.Contract.State.{Contract}
use oysterpack_near_stake_to.Contract.Monad.{>>=-eq-ok, expect-eq-ok}
use oysterpack_near_stake_to.Contract.StakedBatch.{
  mint_stake_and_update_stake_token_value, clear_pending_withdrawal, add_near_liquidity,
  finish_staked_batch, process_by_lock, process_staked_batch, stake_receipt,
}
use oysterpack_near_stake_to.Contract.StakedBatch.Minting.{Minted, mint-Minted}
use oysterpack_near_stake_to.Contract.Withdrawals.Payout.{near_at_hand}

-- What the liquidity step may change: NEAR moves, and a redeem workflow may end.
abbrev pub Liquid : Contract → Contract → Type 0
Liquid c d = d ≡ record c {
  near_liquidity_pool = d.near_liquidity_pool;
  total_near = d.total_near;
  redeem_stake_batch = d.redeem_stake_batch;
  next_redeem_stake_batch = d.next_redeem_stake_batch;
  redeem_stake_batch_lock = d.redeem_stake_batch_lock;
}

-- A pending withdrawal that is settled moves NEAR within the contract only.
clear_pending_withdrawal-kept :
    (env : Env) (c d : Contract)
    → clear_pending_withdrawal env c ≡ ok (tt, d)
    → (near_at_hand d ≡ near_at_hand c) × Liquid c d
unfolding clear_pending_withdrawal sub_u128 NearBalance.credit add_u128
clear_pending_withdrawal-kept env c d h = ground arith

-- The liquidity that comes with the batch, if adding it succeeds, is added to the NEAR that the contract has at hand, and
-- nothing else, whether or not it settles a pending withdrawal.
pub add_near_liquidity-at_hand :
    (env : Env) (liquidity : ℕ) (c d : Contract)
    → add_near_liquidity env (some liquidity) c ≡ ok (tt, d)
    → (near_at_hand d ≡ near_at_hand c + liquidity) × Liquid c d
unfolding add_near_liquidity add_u128
add_near_liquidity-at_hand env liquidity c d h = ground (
  arith,
  clear_pending_withdrawal-kept env
      (record c { near_liquidity_pool = c.near_liquidity_pool + liquidity }) d,
)

add_near_liquidity-Liquid :
    (env : Env) (o : Option ℕ) (c d : Contract)
    → add_near_liquidity env o c ≡ ok (tt, d)
    → Liquid c d
unfolding add_near_liquidity
add_near_liquidity-Liquid env none c d h = ground arith
add_near_liquidity-Liquid env (some n) c d h = (add_near_liquidity-at_hand env n c d h).1

-- What processing a batch does: `liquid` is the state once the liquidity is added, and `priced` the one
-- after the STAKE is minted.
pub record Processed (env : Env) (c d : Contract) : Type 0 where
  pub batch : StakeBatch
  pub near_liquidity : Option ℕ
  pub staked_balance : ℕ
  pub unstaked_balance : ℕ
  pub liquid : Contract
  pub priced : Contract
  pub is_batch : c.stake_batch ≡ some batch
  pub recorded : c.stake_batch_lock ≡ some (staked near_liquidity staked_balance unstaked_balance)
  pub adds :
      add_near_liquidity env near_liquidity (record c { stake_batch = none }) ≡ ok (tt, liquid)
  pub same_value : liquid.stake_token_value ≡ c.stake_token_value
  pub minting : Minted env staked_balance unstaked_balance batch liquid priced
  pub issued : d.total_stake.amount ≡ c.total_stake.amount + minting.stake
  pub final : d.stake_token_value ≡ priced.stake_token_value
  pub quoted : d.stake_token_value.total_stake_supply ≡ d.total_stake.amount
  pub receipts :
      d.stake_batch_receipts
      ≡ Dict.insert batch.batch_id (stake_receipt batch d) c.stake_batch_receipts
  pub next : d.stake_batch ≡ c.next_stake_batch
  pub no_next : d.next_stake_batch ≡ none
  pub unlocked : d.stake_batch_lock ≡ none
  pub accounts : d.accounts ≡ c.accounts
  pub promises : d.promises ≡ c.promises

finish-Processed :
    (env : Env) (batch : StakeBatch) (o : Option ℕ) (staked_balance unstaked_balance : ℕ)
    (c d : Contract)
    → c.stake_batch ≡ some batch
    → c.stake_batch_lock ≡ some (staked o staked_balance unstaked_balance)
    → finish_staked_batch env batch o staked_balance unstaked_balance
        (record c { stake_batch = none })
      ≡ ok (tt, d)
    → Processed env c d
unfolding finish_staked_batch
finish-Processed env batch o staked_balance unstaked_balance c d is_batch recorded h =
    let e = record c { stake_batch = none } in
    let ((_, f), e1, k1) = >>=-eq-ok (add_near_liquidity env o) _ e h in
    let ((_, g), e2, k2) =
      >>=-eq-ok (mint_stake_and_update_stake_token_value env staked_balance unstaked_balance batch)
        _ f k1 in
    let liquid = add_near_liquidity-Liquid env o e f e1 in
    let m = mint-Minted env staked_balance unstaked_balance batch f g e2 in
    record {
      batch = batch;
      near_liquidity = o;
      staked_balance = staked_balance;
      unstaked_balance = unstaked_balance;
      liquid = f;
      priced = g;
      is_batch = is_batch;
      recorded = recorded;
      adds = e1;
      same_value = ap (λ (t : Contract). t.stake_token_value) liquid;
      minting = m;
      issued = ground (arith, liquid, m.issued, k2);
      final = ground (arith, k2);
      quoted = ground (arith, m.quoted, k2);
      receipts = ground (arith, liquid, m.rest, k2);
      next = ground (arith, liquid, m.rest, k2);
      no_next = ground (arith, k2);
      unlocked = ground (arith, k2);
      accounts = ground (arith, liquid, m.rest, k2);
      promises = ground (arith, liquid, m.rest, k2);
    }

by_lock-Processed :
    (env : Env) (batch : StakeBatch) (lock : Option StakeLock) (c d : Contract)
    → c.stake_batch ≡ some batch
    → c.stake_batch_lock ≡ lock
    → process_by_lock env batch lock (record c { stake_batch = none }) ≡ ok (tt, d)
    → Processed env c d
unfolding process_by_lock
by_lock-Processed env batch (some (staked o s u)) c d e recorded h =
    finish-Processed env batch o s u c d e recorded h
by_lock-Processed env batch (some staking) c d e recorded h = cc
by_lock-Processed env batch (some refreshing_stake_token_value) c d e recorded h = cc
by_lock-Processed env batch none c d e recorded h = cc

-- Processing a staked batch, if it succeeds, adds the recorded liquidity, and works on the balances
-- of the pool that the stake lock recorded. It mints what the batch's NEAR is worth at the value that
-- the contract has, and updates the value with that supply. What the batch's NEAR is worth at the
-- updated value then replaces what was minted, so that the supply grows by just that, and the value is
-- updated once more. A receipt of the batch's whole amount at this final value is filed, the next
-- batch becomes the current one, and the lock is released. The final value quotes the whole supply;
-- no account changes and no promise is scheduled.
pub process_staked_batch-Processed :
    (env : Env) (c d : Contract) → process_staked_batch env c ≡ ok (tt, d) → Processed env c d
unfolding process_staked_batch
process_staked_batch-Processed env c d h =
    let (batch, is_batch, k) = expect-eq-ok c.stake_batch stake_batch_should_exist _ c h in
    by_lock-Processed env batch c.stake_batch_lock c d is_batch refl k
