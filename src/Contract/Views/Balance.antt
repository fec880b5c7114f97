-- ===== src/Contract/Views/Balance.antt =====
-- `ft_balance_of` (contract/src/contract/fungible_token.rs) against the claim of the receipts.
use oysterpack_near_stake_to.Prelude.{ℕ, ◌≡◌, sym, ap, ◌∙◌, ◌||◌, Option, none, some, arith}
use oysterpack_near_stake_to.Prelude.Dict
use oysterpack_near_stake_to.Near.Error.{ok, ok-injective, redeem_stake_batch_should_exist}
use oysterpack_near_stake_to.Near.Error
use oysterpack_near_stake_to.Near.Env.{Env}
use oysterpack_near_stake_to.Domain.Lock.{RedeemLock, pending_withdrawal, unstaking}
use oysterpack_near_stake_to.Domain.Account.{Account, RegisteredAccount, stake_amount}
use oysterpack_near_stake_to.Contract.State.{Contract}
use oysterpack_near_stake_to.Contract.Monad.{>>=-eq-ok}
use oysterpack_near_stake_to.Contract.Accounts.Saving.{registered}
use oysterpack_near_stake_to.Contract.Accounts.{save_registered_account}
use oysterpack_near_stake_to.Contract.Claims.{
  claim_stake_batch_receipts, claim_by_lock, claim_redeem_stake_batch_receipts, claim_receipt_funds,
  put_redeem_batch, put_next_redeem_batch,
}
use oysterpack_near_stake_to.Contract.Claims.Steps.{shift_stake_batch_keeps}
use oysterpack_near_stake_to.Contract.Claims.Redeemed.{claim_by_lock-RedeemOnly}
use oysterpack_near_stake_to.Contract.Views.{
  view_stake_batches, view_redeem_batch, view_redeem_batches, view_while_pending, view_by_lock,
  unless_pending, apply_receipt_funds_for_view, ft_balance_of,
}
use oysterpack_near_stake_to.Contract.Views.Steps.{
  view_redeem_batch-kept, view_next_redeem_batch-kept,
}
use oysterpack_near_stake_to.Contract.Views.Agreement.{
  IsApart, claim_stake_batch_receipts-viewed, end-account,
}

-- Viewing a redeem batch leaves the STAKE of the account.
module _ (env : Env) (c : Contract) (a v : Account) where
  view_redeem_batches-stake : view_redeem_batches env c a ≡ ok v → v.stake ≡ a.stake
  unfolding view_redeem_batches
  view_redeem_batches-stake h =
      let (x, e1, e2) =
        Error.>>=-eq-ok (view_redeem_batch env c (put_redeem_batch none) a a.redeem_stake_batch)
          (λ x. view_redeem_batch env c (put_next_redeem_batch none) x x.next_redeem_stake_batch)
          h in
      ground (
        arith,
        view_redeem_batch-kept env c a x a.redeem_stake_batch e1,
        view_next_redeem_batch-kept env c x v x.next_redeem_stake_batch e2,
      )

  view_while_pending-stake : view_while_pending env c a ≡ ok v → v.stake ≡ a.stake
  unfolding view_while_pending
  view_while_pending-stake h =
      let (p, e0, h0) =
        Error.>>=-eq-ok (Error.expect c.redeem_stake_batch redeem_stake_batch_should_exist) _ h in
      let (x, e1, e2) =
        Error.>>=-eq-ok
          (view_redeem_batch env c (put_redeem_batch none) a
            (unless_pending p.batch_id a.redeem_stake_batch))
          _ h0 in
      ground (
        arith,
        view_redeem_batch-kept env c a x (unless_pending p.batch_id a.redeem_stake_batch) e1,
        view_next_redeem_batch-kept env c x v (unless_pending p.batch_id x.next_redeem_stake_batch)
            e2,
      )

  view_by_lock-stake :
      (lock : Option RedeemLock) → view_by_lock env c a lock ≡ ok v → v.stake ≡ a.stake
  unfolding view_by_lock
  view_by_lock-stake none h = view_redeem_batches-stake h
  view_by_lock-stake (some pending_withdrawal) h = view_while_pending-stake h
  view_by_lock-stake (some unstaking) h = view_redeem_batches-stake h

-- Whatever the lock, `ft_balance_of` shows the STAKE that the account has once a claim of its receipts
-- succeeds, if the batches of the account have different IDs and the view does not overflow.
pub ft_balance_of-claimed :
    (env : Env) (account_id n : ℕ) (a : Account) (b : RegisteredAccount) (c d : Contract)
    → Dict.get (env.sha256 account_id) c.accounts ≡ some a
    → IsApart a
    → ft_balance_of env account_id c ≡ ok n
    → claim_receipt_funds env (registered env account_id a) c ≡ ok (b, d)
    → stake_amount b.account.stake ≡ n
unfolding ft_balance_of apply_receipt_funds_for_view claim_receipt_funds
    claim_redeem_stake_batch_receipts
ft_balance_of-claimed env account_id n a b c d known p shown h =
    let (((a1, f), e), e1, k1) = >>=-eq-ok (claim_stake_batch_receipts env a) _ c h in
    let (((a2, g), l), e2, h2) =
      >>=-eq-ok (claim_by_lock env a1 e.redeem_stake_batch_lock) _ e k1 in
    let x = claim_stake_batch_receipts-viewed env a a1 f c e p e1 in
    let viewed : Error.◌>>=◌ (apply_receipt_funds_for_view env c a) (λ v. ok (stake_amount v.stake))
        ≡ ok n =
      ground (arith, shown, known) in
    let (w, e3, h3) =
      Error.>>=-eq-ok (apply_receipt_funds_for_view env c a) (λ v. ok (stake_amount v.stake))
        viewed in
    let (v, e4, h4) =
      Error.>>=-eq-ok (view_stake_batches env c a)
        (λ t. view_by_lock env c t c.redeem_stake_batch_lock) e3 in
    let same : x.v ≡ v = ok-injective (sym x.viewed ∙ e4) in
    let seen : w.stake ≡ v.stake = view_by_lock-stake env c v w c.redeem_stake_batch_lock h4 in
    let claimed : a2.stake ≡ a1.stake =
      ap (λ (t : Account). t.stake)
        (claim_by_lock-RedeemOnly env a1 a2 g e l e.redeem_stake_batch_lock e2).0 in
    let shifted : a1.stake ≡ x.v.stake =
      ap (λ (t : Account). t.stake) x.shifted ∙ (shift_stake_batch_keeps c x.v).1 in
    let end : b.account ≡ a2 =
      ap (λ (t : RegisteredAccount). t.account)
        (end-account (f || g)
          (save_registered_account (record (registered env account_id a) { account = a2 }))
          (record (registered env account_id a) { account = a2 }) b l d h2) in
    ap (λ (t : Account). stake_amount t.stake) end
    ∙ ap stake_amount (claimed ∙ shifted ∙ ap (λ (t : Account). t.stake) same ∙ sym seen)
    ∙ ok-injective h3
