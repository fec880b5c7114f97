-- ===== src/Contract/Views/Shifting.antt =====
-- Shifting an account's stake batches against viewing its redeem batches
-- (contract/src/contract/staking_service.rs).
use oysterpack_near_stake_to.Prelude.{
  ℕ, Option-cases, inl, inr, ◌≡◌, refl, sym, ap, ◌∙◌, Option, none, some, arith,
}
use oysterpack_near_stake_to.Near.Error.{ok, ok-injective}
use oysterpack_near_stake_to.Near.Error
use oysterpack_near_stake_to.Near.Env.{Env}
use oysterpack_near_stake_to.Prelude.Dict
use oysterpack_near_stake_to.Domain.StakeTokenValue.{stake_to_near}
use oysterpack_near_stake_to.Domain.Batch.{RedeemStakeBatch}
use oysterpack_near_stake_to.Domain.Account.{Account, apply_near_credit}
use oysterpack_near_stake_to.Contract.State.{Contract}
use oysterpack_near_stake_to.Contract.Claims.{
  put_redeem_batch, put_next_redeem_batch, shift_stake_batch,
}
use oysterpack_near_stake_to.Contract.Views.{view_redeem_batch, view_redeem_batches}

-- Crediting NEAR and shifting the stake batches do not disturb each other.
shift-apply_near_credit :
    (env : Env) (l : Contract) (a b : Account) (n : ℕ)
    → apply_near_credit env (shift_stake_batch l a) n ≡ ok b
    → (apply_near_credit env a n ≡ ok (record a { near = b.near }))
      × (b ≡ shift_stake_batch l (record a { near = b.near }))
unfolding apply_near_credit
shift-apply_near_credit env l a b n h = ground arith

pub shift-view_redeem_batch :
    (env : Env) (c l : Contract) (clear : Option RedeemStakeBatch → Account → Account)
    → ((e : Account) → clear none (shift_stake_batch l e) ≡ shift_stake_batch l (clear none e))
    → (a b : Account) (o : Option RedeemStakeBatch)
    → view_redeem_batch env c (clear none) (shift_stake_batch l a) o ≡ ok b
    → (e : Account) × (view_redeem_batch env c (clear none) a o ≡ ok e)
      × (b ≡ shift_stake_batch l e)
unfolding view_redeem_batch apply_near_credit
shift-view_redeem_batch env c l clear k a b none h = (a, refl, ground (arith, h))
shift-view_redeem_batch env c l clear k a b (some batch) h =
    elim (Option-cases (Dict.get batch.batch_id c.redeem_stake_batch_receipts)) [
      | inl missing ↦ (a, ground (arith, missing), ground (arith, missing, h))
      | inr (receipt, found) ↦
          let (near, e1, h1) =
            Error.>>=-eq-ok (stake_to_near receipt.stake_token_value batch.balance.amount)
              (λ near.
                Error.◌>>=◌ (apply_near_credit env (shift_stake_batch l a) near)
                  (λ x. ok (clear none x)))
              (ground (arith, found, h)) in
          let (x, e2, h2) =
            Error.>>=-eq-ok (apply_near_credit env (shift_stake_batch l a) near)
              (λ x. ok (clear none x)) h1 in
          let (e3, s) = shift-apply_near_credit env l a x near e2 in
          (
            clear none (record a { near = x.near }),
            ground (arith, found, e1, e3),
            sym (ok-injective h2) ∙ ap (clear none) s ∙ k (record a { near = x.near }),
          )
    ]

-- The redeem batches of an account are seen alike before its stake batches are shifted and after.
pub shift-view_redeem_batches :
    (env : Env) (c l : Contract) (a b : Account)
    → view_redeem_batches env c (shift_stake_batch l a) ≡ ok b
    → (e : Account) × (view_redeem_batches env c a ≡ ok e) × (b ≡ shift_stake_batch l e)
unfolding view_redeem_batches
shift-view_redeem_batches env c l a b h =
    let current = shift_redeem_fields l a in
    let (b1, e1, h1) =
      Error.>>=-eq-ok
        (view_redeem_batch env c (put_redeem_batch none) (shift_stake_batch l a)
          (shift_stake_batch l a).redeem_stake_batch)
        (λ a1. view_redeem_batch env c (put_next_redeem_batch none) a1 a1.next_redeem_stake_batch)
        h in
    let (x1, f1, s1) =
      shift-view_redeem_batch env c l put_redeem_batch (λ e. ground arith) a b1 a.redeem_stake_batch
        (ground (arith, e1, current)) in
    let (x2, f2, s2) =
      shift-view_redeem_batch env c l put_next_redeem_batch (λ e. ground arith) x1 b
        x1.next_redeem_stake_batch (ground (arith, h1, s1, shift_redeem_fields l x1)) in
    (x2, ground (arith, f1, f2), s2)
  where
    shift_redeem_fields :
        (l : Contract) (a : Account)
        → ((shift_stake_batch l a).redeem_stake_batch ≡ a.redeem_stake_batch)
          × ((shift_stake_batch l a).next_redeem_stake_batch ≡ a.next_redeem_stake_batch)
    shift_redeem_fields l a = ground arith
