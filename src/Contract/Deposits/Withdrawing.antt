-- ===== src/Contract/Deposits/Withdrawing.antt =====
-- Taking NEAR out of the stake batches again (`withdraw_from_stake_batch` and
-- `withdraw_all_from_stake_batch` in contract/src/contract/staking_service.rs).
use oysterpack_near_stake_to.Prelude.{
  ℕ, ◌+◌, ◌≡◌, refl, ap, ◌∙◌, false, ◌⊎◌, inl, inr, Option, none, some, [], ◌∷◌, ◌++◌, arith,
}
use oysterpack_near_stake_to.Prelude.Dict
use oysterpack_near_stake_to.Prelude.Dict.{total, total-insert}
use oysterpack_near_stake_to.Near.Error.{ok}
use oysterpack_near_stake_to.Near.Env.{Env}
use oysterpack_near_stake_to.Domain.Batch.{StakeBatch}
use oysterpack_near_stake_to.Domain.Account.{Account, RegisteredAccount}
use oysterpack_near_stake_to.Contract.State.{Contract, stake_batch_locked, transfer}
use oysterpack_near_stake_to.Contract.Monad.{>>=-eq-ok}
use oysterpack_near_stake_to.Contract.Accounts.{predecessor_registered_account}
use oysterpack_near_stake_to.Contract.Accounts.Saving.{registered, registered_account-eq-ok}
use oysterpack_near_stake_to.Contract.Claims.{claim_receipt_funds}
use oysterpack_near_stake_to.Contract.Claims.Frame.{
  Claimed, stored-found, claim_receipt_funds-Claimed,
}
use oysterpack_near_stake_to.Contract.Claims.Settling.{Settled, claim_receipt_funds-Settled}
use oysterpack_near_stake_to.Contract.Claims.Accounting.{batched, due, held, held_by_receipt}
use oysterpack_near_stake_to.Contract.Deposits.{
  withdraw_by_batch, withdraw_from_stake_batch, withdraw_all_by_batch,
  withdraw_all_from_stake_batch,
}
use oysterpack_near_stake_to.Contract.Deposits.Filing.{at, in_contract}
use oysterpack_near_stake_to.Contract.Deposits.Accounting.{Settled-sum}
use oysterpack_near_stake_to.Contract.Deposits.Taking.{
  Taken, withdraw_from_next-Taken, withdraw_from_current-Taken, withdraw_all_from_next-Taken,
  withdraw_all_from_current-Taken,
}

-- What a withdrawal of `amount` does, from the state `between` on, in which the caller's receipts are
-- claimed: `batch` is the account's batch that it is taken from, `taken` the contract's, and `left` the
-- account that is written.
pub record Withdrawn (env : Env) (amount : ℕ) (c d : Contract) : Type 0 where
  pub caller : Account
  pub claimed : RegisteredAccount
  pub between : Contract
  pub left : Account
  pub batch : StakeBatch
  pub taken : StakeBatch
  pub is_caller : Dict.get (env.sha256 env.predecessor_account_id) c.accounts ≡ some caller
  pub claims :
      claim_receipt_funds env (registered env env.predecessor_account_id caller) c
      ≡ ok (claimed, between)
  pub selected :
      (claimed.account.next_stake_batch ≡ some batch) × (c.next_stake_batch ≡ some taken)
      ⊎ (claimed.account.next_stake_batch ≡ none)
        × (claimed.account.stake_batch ≡ some batch)
        × (c.stake_batch ≡ some taken)
        × (stake_batch_locked c ≡ false)
  pub account_loses :
      (k : ℕ) → batched k left + at batch.batch_id k amount ≡ batched k claimed.account
  pub account_rest : left ≡ record (claimed.account) {
    stake_batch = left.stake_batch;
    next_stake_batch = left.next_stake_batch;
  }
  pub is_written : d.accounts ≡ Dict.insert (env.sha256 env.predecessor_account_id) left c.accounts
  pub contract_loses : (k : ℕ) → in_contract k d + at taken.batch_id k amount ≡ in_contract k c
  pub same_sum :
      (k : ℕ)
      → due k d + held k c + at batch.batch_id k amount
        ≡ due k c + held k d + at taken.batch_id k amount
  pub paid : d.promises ≡ c.promises ++ transfer env.predecessor_account_id amount ∷ []

Taken-sum :
    (r b : RegisteredAccount) (amount id recipient : ℕ) (c e d : Contract) (k : ℕ)
    → Dict.get r.id c.accounts ≡ some r.account
    → Claimed r b c e
    → Settled r b c e
    → (x : Taken amount id recipient b e d)
    → (due k d + held k c + at id k amount ≡ due k c + held k d + at (x.taken.batch_id) k amount)
      × (in_contract k d + at (x.taken.batch_id) k amount ≡ in_contract k c)
      × (d.accounts ≡ Dict.insert r.id (x.left) c.accounts)
Taken-sum r b amount id recipient c e d k known x y z =
    let written : d.accounts ≡ Dict.insert r.id z.left c.accounts = ground (
      arith,
      z.saved,
      x.same_id,
      y.is_stored,
      Dict.insert-insert r.id z.left y.stored c.accounts,
    ) in
    let accounts : due k d + batched k r.account ≡ due k c + batched k z.left =
      ap (λ t. total (batched k) t + batched k r.account) written
      ∙ total-insert (batched k) r.id z.left r.account c.accounts known in
    let receipt : held_by_receipt k d ≡ held_by_receipt k e = ground (arith, z.same_receipts) in
    let batches : in_contract k d + at (z.taken.batch_id) k amount ≡ in_contract k c =
      ground (arith, z.by_contract k, x.within) in
    (omega (arith, accounts, receipt, batches, z.by_account k, y.same_sum k), batches, written)

-- Both withdrawals, once the caller's account is claimed.
module _ (env : Env) (amount : ℕ) (a : Account) (b : RegisteredAccount) (c e d : Contract)
    (known : Dict.get (env.sha256 env.predecessor_account_id) c.accounts ≡ some a)
    (claims : claim_receipt_funds env (registered env env.predecessor_account_id a) c
      ≡ ok (b, e)) where
  claim-Claimed : Claimed (registered env env.predecessor_account_id a) b c e
  claim-Claimed =
      claim_receipt_funds-Claimed env (registered env env.predecessor_account_id a) b c e known
        claims

  claim-Settled : Settled (registered env env.predecessor_account_id a) b c e
  claim-Settled =
      claim_receipt_funds-Settled env (registered env env.predecessor_account_id a) b c e known
        claims

  Taken-Withdrawn :
      (batch : StakeBatch) (x : Taken amount batch.batch_id env.predecessor_account_id b e d)
      → (b.account.next_stake_batch ≡ some batch) × (c.next_stake_batch ≡ some (x.taken))
        ⊎ (b.account.next_stake_batch ≡ none)
          × (b.account.stake_batch ≡ some batch)
          × (c.stake_batch ≡ some (x.taken))
          × (stake_batch_locked c ≡ false)
      → Withdrawn env amount c d
  Taken-Withdrawn batch x selected =
      let r = registered env env.predecessor_account_id a in
      let sums = λ (k : ℕ).
        Taken-sum r b amount batch.batch_id env.predecessor_account_id c e d k known claim-Claimed
          claim-Settled x in
      record {
        caller = a;
        claimed = b;
        between = e;
        left = x.left;
        batch = batch;
        taken = x.taken;
        is_caller = known;
        claims = claims;
        selected = selected;
        account_loses = x.by_account;
        account_rest = x.account_rest;
        is_written = (sums 0).2;
        contract_loses = λ k. (sums k).1;
        same_sum = λ k. (sums k).0;
        paid = ground (arith, x.paid, claim-Claimed.within);
      }

  -- What the contract's batches were before the claim.
  next_before : (t : StakeBatch) → e.next_stake_batch ≡ some t → c.next_stake_batch ≡ some t
  next_before t h = ground (arith, h, claim-Claimed.within)

  current_before :
      (t : StakeBatch)
      → e.stake_batch ≡ some t
      → stake_batch_locked e ≡ false
      → (c.stake_batch ≡ some t) × (stake_batch_locked c ≡ false)
  current_before t h free =
      (ground (arith, h, claim-Claimed.within), ground (arith, free, claim-Claimed.within))

  by_batch-Withdrawn :
      (next current : Option StakeBatch)
      → b.account.next_stake_batch ≡ next
      → b.account.stake_batch ≡ current
      → withdraw_by_batch env b amount next current e ≡ ok (tt, d)
      → Withdrawn env amount c d
  unfolding withdraw_by_batch
  by_batch-Withdrawn (some batch) current is_next is_current h =
      let (x, into) =
        withdraw_from_next-Taken env b claim-Claimed.stored batch amount e d
          (stored-found claim-Claimed) is_next h in
      Taken-Withdrawn batch x (inl (is_next, next_before x.taken into))
  by_batch-Withdrawn none (some batch) is_next is_current h =
      let (x, into, free) =
        withdraw_from_current-Taken env b claim-Claimed.stored batch amount e d
          (stored-found claim-Claimed) is_current h in
      let (was, unlocked) = current_before x.taken into (ground (arith, free)) in
      Taken-Withdrawn batch x (inr (is_next, is_current, was, unlocked))
  by_batch-Withdrawn none none is_next is_current h = cc

  all_by_batch-Withdrawn :
      (next current : Option StakeBatch)
      → b.account.next_stake_batch ≡ next
      → b.account.stake_batch ≡ current
      → withdraw_all_by_batch env b next current e ≡ ok (amount, d)
      → (amount ≡ 0)
          × (d.promises ≡ c.promises)
          × ((k : ℕ) → due k d + held k c ≡ due k c + held k d)
        ⊎ Withdrawn env amount c d
  unfolding withdraw_all_by_batch
  all_by_batch-Withdrawn (some batch) current is_next is_current h =
      let (x, into, _) =
        withdraw_all_from_next-Taken env b claim-Claimed.stored batch amount e d
          (stored-found claim-Claimed) is_next h in
      inr (Taken-Withdrawn batch x (inl (is_next, next_before x.taken into)))
  all_by_batch-Withdrawn none (some batch) is_next is_current h =
      let (x, into, free, _) =
        withdraw_all_from_current-Taken env b claim-Claimed.stored batch amount e d
          (stored-found claim-Claimed) is_current h in
      let (was, unlocked) = current_before x.taken into (ground (arith, free)) in
      inr (Taken-Withdrawn batch x (inr (is_next, is_current, was, unlocked)))
  all_by_batch-Withdrawn none none is_next is_current h =
      let kept : d ≡ e = ground (arith, h) in
      inl (
        ground (arith, h),
        ground (arith, kept, claim-Claimed.within),
        λ k. ground (
          arith,
          kept,
          Settled-sum (registered env env.predecessor_account_id a) b c e k known claim-Claimed
              claim-Settled,
        ),
      )

-- A withdrawal from the stake batches that succeeds claims the caller's receipts, and then takes the
-- amount out of the caller's next stake batch and the contract's next one, or, if the caller has no
-- next one, out of the current ones of both, while no stake batch is locked. Under the ID of that
-- batch, and no other, the caller's and the contract's stake batches each lose the amount. The account
-- is stored so, of which nothing else changes, no other account changes, and the amount is paid to the caller.
-- For every batch ID, the difference between what the accounts have in that batch and what the
-- contract holds for it changes by the amount under the one and the other ID.
pub withdraw_from_stake_batch-Withdrawn :
    (env : Env) (amount : ℕ) (c d : Contract)
    → withdraw_from_stake_batch env amount c ≡ ok (tt, d)
    → Withdrawn env amount c d
unfolding withdraw_from_stake_batch predecessor_registered_account
withdraw_from_stake_batch-Withdrawn env amount c d h =
    let (a, known, h0) = registered_account-eq-ok env env.predecessor_account_id _ c h in
    let r = registered env env.predecessor_account_id a in
    let ((b, e), e1, h1) = >>=-eq-ok (claim_receipt_funds env r) _ c h0 in
    by_batch-Withdrawn env amount a b c e d known e1 b.account.next_stake_batch
      b.account.stake_batch refl refl h1

-- Withdrawing all returns zero if the account has no stake batch, and then takes nothing.
pub withdraw_all_from_stake_batch-Withdrawn :
    (env : Env) (amount : ℕ) (c d : Contract)
    → withdraw_all_from_stake_batch env c ≡ ok (amount, d)
    → (amount ≡ 0) × (d.promises ≡ c.promises) × ((k : ℕ) → due k d + held k c ≡ due k c + held k d)
      ⊎ Withdrawn env amount c d
unfolding withdraw_all_from_stake_batch predecessor_registered_account
withdraw_all_from_stake_batch-Withdrawn env amount c d h =
    let (a, known, h0) = registered_account-eq-ok env env.predecessor_account_id _ c h in
    let r = registered env env.predecessor_account_id a in
    let ((b, e), e1, h1) = >>=-eq-ok (claim_receipt_funds env r) _ c h0 in
    all_by_batch-Withdrawn env amount a b c e d known e1 b.account.next_stake_batch
      b.account.stake_batch refl refl h1
