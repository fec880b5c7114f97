-- ===== src/Contract/Deposits/Taking.antt =====
-- Taking NEAR out of one stake batch of an account and of the contract
-- (contract/src/contract/staking_service.rs).
use oysterpack_near_stake_to.Prelude.{ℕ, ◌+◌, ◌≡◌, refl, true, none, some, [], ◌∷◌, ◌++◌, arith}
use oysterpack_near_stake_to.Prelude.Dict
use oysterpack_near_stake_to.Prelude.Dict.{total, total-insert}
use oysterpack_near_stake_to.Near.Error.{
  ok, next_stake_batch_should_exist, stake_batch_should_exist_for_account, blocked_by_batch_running,
}
use oysterpack_near_stake_to.Near.Word.{sub_u128}
use oysterpack_near_stake_to.Near.Env.{Env}
use oysterpack_near_stake_to.Domain.NearBalance
use oysterpack_near_stake_to.Domain.Batch.{StakeBatch, remove_near}
use oysterpack_near_stake_to.Domain.Account.{Account, RegisteredAccount}
use oysterpack_near_stake_to.Contract.State.{Contract, transfer}
use oysterpack_near_stake_to.Contract.Monad.{lift-eq-ok, assert-eq-ok, expect-eq-ok}
use oysterpack_near_stake_to.Contract.Accounts.{save_registered_account, save_account}
use oysterpack_near_stake_to.Contract.Claims.Accounting.{in_batch, batched}
use oysterpack_near_stake_to.Contract.Deposits.{
  can_run_batch, some_unless_zero, set_stake_batch, set_next_stake_batch,
  check_stake_batch_min_required_near_balance, withdraw_from_next, withdraw_from_current,
  withdraw_all_from_next, withdraw_all_from_current,
}
use oysterpack_near_stake_to.Contract.Deposits.Filing.{at, in_contract}

-- The amount leaves the account's batch with the ID `id` and the contract's batch `taken`.
pub record Taken (amount id recipient : ℕ) (r : RegisteredAccount) (c d : Contract) : Type 0 where
  pub taken : StakeBatch
  pub left : Account
  pub by_contract : (k : ℕ) → in_contract k d + at taken.batch_id k amount ≡ in_contract k c
  pub by_account : (k : ℕ) → batched k left + at id k amount ≡ batched k r.account
  pub account_rest : left ≡ record (r.account) {
    stake_batch = left.stake_batch;
    next_stake_batch = left.next_stake_batch;
  }
  pub saved : d.accounts ≡ Dict.insert r.id left c.accounts
  pub same_receipts : d.stake_batch_receipts ≡ c.stake_batch_receipts
  pub paid : d.promises ≡ c.promises ++ transfer recipient amount ∷ []

remove_near-in_batch :
    (env : Env) (a b : StakeBatch) (amount k : ℕ)
    → remove_near env a amount ≡ ok b
    → in_batch k (some_unless_zero b) + at a.batch_id k amount ≡ in_batch k (some a)
unfolding remove_near NearBalance.debit sub_u128
remove_near-in_batch env a b amount k h = ground arith

module _ (env : Env) (r : RegisteredAccount) (s : Account) (batch : StakeBatch) (amount : ℕ)
    (c d : Contract) where
  pub withdraw_from_next-Taken :
      Dict.get r.id c.accounts ≡ some s
      → r.account.next_stake_batch ≡ some batch
      → withdraw_from_next env r batch amount c ≡ ok (tt, d)
      → (x : Taken amount batch.batch_id env.predecessor_account_id r c d) × (c.next_stake_batch
          ≡ some (x.taken))
  unfolding withdraw_from_next check_stake_batch_min_required_near_balance save_registered_account
      save_account
  withdraw_from_next-Taken known mine h =
      let (taken, is_taken, k1) =
        expect-eq-ok c.next_stake_batch next_stake_batch_should_exist _ c h in
      let (rest, e2, k2) = lift-eq-ok (remove_near env taken amount) _ c k1 in
      let (left, e3, k3) =
        lift-eq-ok (remove_near env batch amount) _ (set_next_stake_batch (some_unless_zero rest) c)
          k2 in
      (
        record {
          taken = taken;
          left = record (r.account) { next_stake_batch = some_unless_zero left };
          by_contract = λ k.
              ground (arith, known, k3, is_taken, remove_near-in_batch env taken rest amount k e2);
          by_account = λ k. ground (arith, mine, remove_near-in_batch env batch left amount k e3);
          account_rest = refl;
          saved = ground (arith, known, k3);
          same_receipts = ground (arith, known, k3);
          paid = ground (arith, known, k3);
        },
        is_taken,
      )

  pub withdraw_from_current-Taken :
      Dict.get r.id c.accounts ≡ some s
      → r.account.stake_batch ≡ some batch
      → withdraw_from_current env r batch amount c ≡ ok (tt, d)
      → (x : Taken amount batch.batch_id env.predecessor_account_id r c d) × (c.stake_batch
          ≡ some (x.taken))
        × (can_run_batch c ≡ true)
  unfolding withdraw_from_current save_registered_account save_account
  withdraw_from_current-Taken known mine h =
      let (free, k0) = assert-eq-ok (can_run_batch c) blocked_by_batch_running _ c h in
      let (taken, is_taken, k1) =
        expect-eq-ok c.stake_batch stake_batch_should_exist_for_account _ c k0 in
      let (rest, e2, k2) = lift-eq-ok (remove_near env taken amount) _ c k1 in
      let (left, e3, k3) =
        lift-eq-ok (remove_near env batch amount) _ (set_stake_batch (some_unless_zero rest) c)
          k2 in
      (
        record {
          taken = taken;
          left = record (r.account) { stake_batch = some_unless_zero left };
          by_contract = λ k.
              ground (arith, known, k3, is_taken, remove_near-in_batch env taken rest amount k e2);
          by_account = λ k. ground (arith, mine, remove_near-in_batch env batch left amount k e3);
          account_rest = refl;
          saved = ground (arith, known, k3);
          same_receipts = ground (arith, known, k3);
          paid = ground (arith, known, k3);
        },
        is_taken,
        free,
      )

module _ (env : Env) (r : RegisteredAccount) (s : Account) (batch : StakeBatch) (amount : ℕ)
    (c d : Contract) where
  pub withdraw_all_from_next-Taken :
      Dict.get r.id c.accounts ≡ some s
      → r.account.next_stake_batch ≡ some batch
      → withdraw_all_from_next env r batch c ≡ ok (amount, d)
      → (x : Taken amount batch.batch_id env.predecessor_account_id r c d) × (c.next_stake_batch
          ≡ some (x.taken))
        × (amount ≡ batch.balance.amount)
  unfolding withdraw_all_from_next save_registered_account save_account
  withdraw_all_from_next-Taken known mine h =
      let (taken, is_taken, k1) =
        expect-eq-ok c.next_stake_batch next_stake_batch_should_exist _ c h in
      let (rest, e2, k2) = lift-eq-ok (remove_near env taken batch.balance.amount) _ c k1 in
      let all : amount ≡ batch.balance.amount = ground (arith, known, k2) in
      (
        record {
          taken = taken;
          left = record (r.account) { next_stake_batch = none };
          by_contract = λ k. ground (
            arith,
            all,
            known,
            k2,
            is_taken,
            remove_near-in_batch env taken rest batch.balance.amount k e2,
          );
          by_account = λ k. ground (arith, all, mine);
          account_rest = refl;
          saved = ground (arith, known, k2);
          same_receipts = ground (arith, known, k2);
          paid = ground (arith, known, k2);
        },
        is_taken,
        all,
      )

  pub withdraw_all_from_current-Taken :
      Dict.get r.id c.accounts ≡ some s
      → r.account.stake_batch ≡ some batch
      → withdraw_all_from_current env r batch c ≡ ok (amount, d)
      → (x : Taken amount batch.batch_id env.predecessor_account_id r c d) × (c.stake_batch
          ≡ some (x.taken))
        × (can_run_batch c ≡ true)
        × (amount ≡ batch.balance.amount)
  unfolding withdraw_all_from_current save_registered_account save_account
  withdraw_all_from_current-Taken known mine h =
      let (free, k0) = assert-eq-ok (can_run_batch c) blocked_by_batch_running _ c h in
      let (taken, is_taken, k1) = expect-eq-ok c.stake_batch next_stake_batch_should_exist _ c k0 in
      let (rest, e2, k2) = lift-eq-ok (remove_near env taken batch.balance.amount) _ c k1 in
      let all : amount ≡ batch.balance.amount = ground (arith, known, k2) in
      (
        record {
          taken = taken;
          left = record (r.account) { stake_batch = none };
          by_contract = λ k. ground (
            arith,
            all,
            known,
            k2,
            is_taken,
            remove_near-in_batch env taken rest batch.balance.amount k e2,
          );
          by_account = λ k. ground (arith, all, mine);
          account_rest = refl;
          saved = ground (arith, known, k2);
          same_receipts = ground (arith, known, k2);
          paid = ground (arith, known, k2);
        },
        is_taken,
        free,
        all,
      )
