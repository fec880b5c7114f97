-- ===== src/Contract/Claims/Settling.antt =====
-- What is stored of an account, and what is left of the receipts, after a claim
-- (contract/src/contract/staking_service.rs).
use oysterpack_near_stake_to.Prelude.{
  ℕ, ◌+◌, ◌≡◌, refl, ap, ◌∙◌, ◌||◌, Bool, true, false, some, arith, if◌then◌else◌,
}
use oysterpack_near_stake_to.Prelude.Dict
use oysterpack_near_stake_to.Prelude.Dict.{Dict, total}
use oysterpack_near_stake_to.Near.Error.{ok}
use oysterpack_near_stake_to.Near.Env.{Env}
use oysterpack_near_stake_to.Domain.Account.{Account, RegisteredAccount}
use oysterpack_near_stake_to.Contract.State.{Contract}
use oysterpack_near_stake_to.Contract.Monad.{pure, ◌>>◌, >>=-eq-ok}
use oysterpack_near_stake_to.Contract.Claims.Redeemed.{RedeemOnly, claim_by_lock-RedeemOnly}
use oysterpack_near_stake_to.Contract.Claims.Frame.{
  claim_stake_batch_receipts-Claims, claim_by_lock-Claims,
}
use oysterpack_near_stake_to.Contract.Claims.Steps.{Claims-trans}
use oysterpack_near_stake_to.Contract.Accounts.{save_registered_account, store_account}
use oysterpack_near_stake_to.Contract.Accounts.Saving.{save_existing}
use oysterpack_near_stake_to.Contract.Claims.{
  claim_stake_batch, claim_stake_batch_receipts, claim_by_lock, claim_redeem_stake_batch_receipts,
  claim_receipt_funds, clear_stake_batch, clear_next_stake_batch, shift_stake_batch,
}
use oysterpack_near_stake_to.Contract.Claims.Accounting.{
  batched, held_by_receipt, claim_stake_batch-BatchClaim, BatchClaim-idle, claim_current-accounted,
  claim_next-accounted,
}

-- The end of a claim of both batches: without claimed funds the account has what it had.
record Accounted (a b : Account) (flag : Bool) (c d : Contract) : Type 0 where
  same_sum : (k : ℕ) → batched k b + held_by_receipt k c ≡ batched k a + held_by_receipt k d
  kept : flag ≡ false → (k : ℕ) → batched k b ≡ batched k a

claim_stake_batch_receipts-Accounted :
    (env : Env) (a x : Account) (flag : Bool) (c h : Contract)
    → claim_stake_batch_receipts env a c ≡ ok ((x, flag), h)
    → Accounted a x flag c h
unfolding claim_stake_batch_receipts
claim_stake_batch_receipts-Accounted env a x flag c h m =
    let (((a1, f), d), e1, m1) =
      >>=-eq-ok (claim_stake_batch env clear_stake_batch a a.stake_batch) _ c m in
    let (((a2, g), e), e2, m2) =
      >>=-eq-ok (claim_stake_batch env clear_next_stake_batch a1 a1.next_stake_batch) _ d m1 in
    let first = claim_stake_batch-BatchClaim env clear_stake_batch a a1 a.stake_batch f c d e1 in
    let second =
      claim_stake_batch-BatchClaim env clear_next_stake_batch a1 a2 a1.next_stake_batch g d e e2 in
    record {
      same_sum = λ k. ground (
        arith,
        m2,
        claim_current-accounted c d k env a a1 f first,
        claim_next-accounted d e k env a1 a2 g second,
        shifted k e a2,
      );
      kept = λ idle k.
          ground (arith, m2, shifted k e a2, BatchClaim-idle first, BatchClaim-idle second, idle);
    }
  where
    shifted : (k : ℕ) (l : Contract) (a : Account) → batched k (shift_stake_batch l a) ≡ batched k a
    shifted k l a = ground arith

-- What is stored of an account once it is claimed, next to the account that the caller goes on with.
pub record Settled (r b : RegisteredAccount) (c d : Contract) : Type 0 where
  pub same_id : b.id ≡ r.id
  pub stored : Account
  pub is_stored : d.accounts ≡ Dict.insert r.id stored c.accounts
  pub stored_batched : (k : ℕ) → batched k stored ≡ batched k b.account
  pub same_sum :
      (k : ℕ)
      → batched k b.account + held_by_receipt k c ≡ batched k r.account + held_by_receipt k d

saved-Settled :
    (flag : Bool) (r : RegisteredAccount) (a : Account) (b : RegisteredAccount) (c l d : Contract)
    → Dict.get r.id c.accounts ≡ some r.account
    → l.accounts ≡ c.accounts
    → ((k : ℕ) → batched k a + held_by_receipt k c ≡ batched k r.account + held_by_receipt k l)
    → (flag ≡ false → (k : ℕ) → batched k a ≡ batched k r.account)
    → ((if flag then save_registered_account (record r { account = a }) else pure tt)
          >> pure (record r { account = a }))
        l
      ≡ ok (b, d)
    → Settled r b c d
saved-Settled true r a b c l d known same sum kept h =
    let saved =
      save_existing (record r { account = a }) l r.account (ap (Dict.get r.id) same ∙ known) in
    let ended : (b ≡ record r { account = a }) × (d ≡ store_account r.id a l) =
      ground (arith, h, saved) in
    record {
      same_id = ground (arith, ended);
      stored = a;
      is_stored = ground (arith, ended, same);
      stored_batched = λ k. ground (arith, ended);
      same_sum = λ k. ground (arith, ended, sum k);
    }
saved-Settled false r a b c l d known same sum kept h =
    let ended : (b ≡ record r { account = a }) × (d ≡ l) = ground (arith, h) in
    record {
      same_id = ground (arith, ended);
      stored = r.account;
      is_stored = ground (arith, ended, same, Dict.insert-get r.id r.account c.accounts known);
      stored_batched = λ k. ground (arith, ended, kept refl k);
      same_sum = λ k. ground (arith, ended, sum k);
    }

redeemed_batched : (k : ℕ) (a b : Account) → RedeemOnly a b → batched k b ≡ batched k a
redeemed_batched k a b same = ground (arith, same)

pub claim_receipt_funds-Settled :
    (env : Env) (r b : RegisteredAccount) (c d : Contract)
    → Dict.get r.id c.accounts ≡ some r.account
    → claim_receipt_funds env r c ≡ ok (b, d)
    → Settled r b c d
unfolding claim_receipt_funds claim_redeem_stake_batch_receipts
claim_receipt_funds-Settled env r b c d known h =
    let (((a1, f), e), e1, k1) = >>=-eq-ok (claim_stake_batch_receipts env r.account) _ c h in
    let (((a2, g), l), e2, h2) =
      >>=-eq-ok (claim_by_lock env a1 e.redeem_stake_batch_lock) _ e k1 in
    let x = claim_stake_batch_receipts-Accounted env r.account a1 f c e e1 in
    let y = claim_by_lock-RedeemOnly env a1 a2 g e l e.redeem_stake_batch_lock e2 in
    let within =
      Claims-trans (claim_stake_batch_receipts-Claims env r.account a1 f c e e1)
        (claim_by_lock-Claims env a1 a2 g e l e.redeem_stake_batch_lock e2) in
    saved-Settled (f || g) r a2 b c l d known (ap (λ (t : Contract). t.accounts) within.within)
      (λ k. ground (arith, x.same_sum k, y))
      (λ idle k. redeemed_batched k a1 a2 y.0 ∙ x.kept (ground (arith, idle)) k) h2
