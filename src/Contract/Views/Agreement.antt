-- ===== src/Contract/Views/Agreement.antt =====
-- The view of an account against the claim of its receipts (contract/src/contract/staking_service.rs,
-- `apply_receipt_funds_for_view` and `claim_receipt_funds`).
use oysterpack_near_stake_to.Prelude.{
  ◌≡◌, sym, ap, ◌∙◌, subst, ◌≢◌, ◌||◌, Bool, Option, none, some, arith, if◌then◌else◌,
}
use oysterpack_near_stake_to.Near.Error.{ok, ok-injective}
use oysterpack_near_stake_to.Near.Error
use oysterpack_near_stake_to.Near.Env.{Env}
use oysterpack_near_stake_to.Prelude.Dict
use oysterpack_near_stake_to.Domain.Batch.{StakeBatch, RedeemStakeBatch}
use oysterpack_near_stake_to.Domain.Lock.{RedeemLock}
use oysterpack_near_stake_to.Domain.Account.{Account, RegisteredAccount}
use oysterpack_near_stake_to.Contract.State.{Contract}
use oysterpack_near_stake_to.Contract.Monad.{M, pure, ◌>>◌, >>=-eq-ok}
use oysterpack_near_stake_to.Contract.Accounts.{save_registered_account}
use oysterpack_near_stake_to.Contract.Claims.{
  claim_stake_batch, claim_stake_batch_receipts, claim_optional_redeem_batch, claim_while_unlocked,
  claim_by_lock, claim_redeem_stake_batch_receipts, claim_receipt_funds, clear_stake_batch,
  clear_next_stake_batch, put_redeem_batch, put_next_redeem_batch, shift_stake_batch,
  shift_redeem_batch,
}
use oysterpack_near_stake_to.Contract.Views.{
  view_stake_batch, view_stake_batches, view_redeem_batch, view_redeem_batches, view_by_lock,
  apply_receipt_funds_for_view,
}
use oysterpack_near_stake_to.Contract.Views.Steps.{
  claim_stake_batch-viewed, claim_optional-viewed, claim_stake_batch-receipts,
  claim_optional-receipts, claim_stake_batch-kept, claim_optional-kept, view_stake_batch-same,
  view_redeem_batch-same, view_stake_batch-kept, view_redeem_batch-kept, view_next_stake_batch-kept,
}
use oysterpack_near_stake_to.Contract.Views.Shifting.{shift-view_redeem_batches}

-- The two stake batches of the account have different IDs, and so have its two redeem batches.
pub record IsApart (a : Account) : Type 0 where
  pub stake_apart :
      (x y : StakeBatch)
      → a.stake_batch ≡ some x
      → a.next_stake_batch ≡ some y
      → x.batch_id ≢ y.batch_id
  pub redeem_apart :
      (x y : RedeemStakeBatch)
      → a.redeem_stake_batch ≡ some x
      → a.next_redeem_stake_batch ≡ some y
      → x.batch_id ≢ y.batch_id

-- What claiming the stake batches does, in terms of the view.
pub record StakeViewed (env : Env) (a x : Account) (c h : Contract) : Type 0 where
  pub v : Account
  pub viewed : view_stake_batches env c a ≡ ok v
  pub shifted : x ≡ shift_stake_batch c v
  pub kept : h ≡ record c { stake_batch_receipts = h.stake_batch_receipts }

pub claim_stake_batch_receipts-viewed :
    (env : Env) (a x : Account) (flag : Bool) (c h : Contract)
    → IsApart a
    → claim_stake_batch_receipts env a c ≡ ok ((x, flag), h)
    → StakeViewed env a x c h
unfolding claim_stake_batch_receipts view_stake_batches
claim_stake_batch_receipts-viewed env a x flag c h p k =
    let (((a1, f), d), e1, k1) =
      >>=-eq-ok (claim_stake_batch env clear_stake_batch a a.stake_batch) _ c k in
    let (((a2, g), e), e2, k2) =
      >>=-eq-ok (claim_stake_batch env clear_next_stake_batch a1 a1.next_stake_batch) _ d k1 in
    let v1 = claim_stake_batch-viewed env clear_stake_batch a a1 a.stake_batch f c d e1 in
    let v2 =
      claim_stake_batch-viewed env clear_next_stake_batch a1 a2 a1.next_stake_batch g d e e2 in
    let next : a1.next_stake_batch ≡ a.next_stake_batch =
      ap (λ (t : Account). t.next_stake_batch)
        (view_stake_batch-kept env c a a1 a.stake_batch v1) in
    let same = view_stake_batch-same env clear_next_stake_batch a1 a1.next_stake_batch c d λ y here.
      claim_stake_batch-receipts env clear_stake_batch a a1 a.stake_batch f c d y.batch_id e1
        (λ x there. p.stake_apart x y there (sym next ∙ here)) in
    let kept1 = claim_stake_batch-kept env clear_stake_batch a a1 a.stake_batch f c d e1 in
    let kept2 =
      claim_stake_batch-kept env clear_next_stake_batch a1 a2 a1.next_stake_batch g d e e2 in
    record {
      v = a2;
      viewed = ground (arith, v1, v2, same);
      shifted = ground (arith, k2, kept1, kept2);
      kept = ground (arith, k2, kept1, kept2);
    }

-- The same for the redeem batches where no redeem batch is locked.
record RedeemViewed (env : Env) (a x : Account) (c h : Contract) : Type 0 where
  pub v : Account
  pub viewed : view_redeem_batches env c a ≡ ok v
  pub shifted : x ≡ shift_redeem_batch c v

claim_while_unlocked-viewed :
    (env : Env) (a x : Account) (flag : Bool) (c h : Contract)
    → ((x y : RedeemStakeBatch)
        → a.redeem_stake_batch ≡ some x
        → a.next_redeem_stake_batch ≡ some y
        → x.batch_id ≢ y.batch_id)
    → claim_while_unlocked env a c ≡ ok ((x, flag), h)
    → RedeemViewed env a x c h
unfolding claim_while_unlocked view_redeem_batches
claim_while_unlocked-viewed env a x flag c h apart k =
    let current = put_redeem_batch none in
    let later = put_next_redeem_batch none in
    let (((a1, f), d), e1, k1) =
      >>=-eq-ok (claim_optional_redeem_batch env current a a.redeem_stake_batch) _ c k in
    let (((a2, g), e), e2, k2) =
      >>=-eq-ok (claim_optional_redeem_batch env later a1 a1.next_redeem_stake_batch) _ d k1 in
    let v1 = claim_optional-viewed env current a a1 a.redeem_stake_batch f c d e1 in
    let v2 = claim_optional-viewed env later a1 a2 a1.next_redeem_stake_batch g d e e2 in
    let next : a1.next_redeem_stake_batch ≡ a.next_redeem_stake_batch =
      ap (λ (t : Account). t.next_redeem_stake_batch)
        (view_redeem_batch-kept env c a a1 a.redeem_stake_batch v1) in
    let same = view_redeem_batch-same env later a1 a1.next_redeem_stake_batch c d λ y here.
      claim_optional-receipts env current a a1 a.redeem_stake_batch f c d y.batch_id e1
        (λ x there. apart x y there (sym next ∙ here)) in
    let kept1 = claim_optional-kept env current a a1 a.redeem_stake_batch f c d e1 in
    let kept2 = claim_optional-kept env later a1 a2 a1.next_redeem_stake_batch g d e e2 in
    record {
      v = a2;
      viewed = ground (arith, v1, v2, same);
      shifted = ground (arith, k2, kept1, kept2);
    }

-- Viewing the stake batches leaves the redeem batches.
view_stake_batches-kept :
    (env : Env) (c : Contract) (a v : Account)
    → view_stake_batches env c a ≡ ok v
    → v ≡ record a {
      stake = v.stake;
      stake_batch = v.stake_batch;
      next_stake_batch = v.next_stake_batch;
    }
unfolding view_stake_batches
view_stake_batches-kept env c a v h =
    let (x, e1, e2) =
      Error.>>=-eq-ok (view_stake_batch env c clear_stake_batch a a.stake_batch)
        (λ x. view_stake_batch env c clear_next_stake_batch x x.next_stake_batch) h in
    ground (
      arith,
      view_stake_batch-kept env c a x a.stake_batch e1,
      view_next_stake_batch-kept env c x v x.next_stake_batch e2,
    )

-- Viewing the redeem batches reads their receipts only.
view_redeem_batches-receipts :
    (env : Env) (c e : Contract) (a v : Account)
    → e.redeem_stake_batch_receipts ≡ c.redeem_stake_batch_receipts
    → view_redeem_batches env e a ≡ ok v
    → view_redeem_batches env c a ≡ ok v
unfolding view_redeem_batches
view_redeem_batches-receipts env c e a v same h =
    let (x, e1, e2) =
      Error.>>=-eq-ok (view_redeem_batch env e (put_redeem_batch none) a a.redeem_stake_batch)
        (λ x. view_redeem_batch env e (put_next_redeem_batch none) x x.next_redeem_stake_batch) h in
    ground (
      arith,
      e1,
      e2,
      view_redeem_batch-same env (put_redeem_batch none) a a.redeem_stake_batch c e
          λ b here. ap (Dict.get b.batch_id) same,
      view_redeem_batch-same env (put_next_redeem_batch none) x x.next_redeem_stake_batch c e
          λ b here. ap (Dict.get b.batch_id) same,
    )

-- A claim goes on with the account that it computed, saved or not.
pub end-account :
    (flag : Bool) (m : M (Unit {0})) (x b : RegisteredAccount) (l d : Contract)
    → ((if flag then m else pure tt) >> pure x) l ≡ ok (b, d)
    → b ≡ x
end-account flag m x b l d h = ground arith

-- While no redeem batch is locked, and the batches of the account have different IDs, a claim that
-- succeeds leaves the account that the view shows, but for the next batches moving up.
pub claim_receipt_funds-viewed :
    (env : Env) (r b : RegisteredAccount) (c d : Contract)
    → c.redeem_stake_batch_lock ≡ none
    → IsApart r.account
    → claim_receipt_funds env r c ≡ ok (b, d)
    → (v : Account) × (apply_receipt_funds_for_view env c r.account ≡ ok v)
      × (b.account ≡ shift_redeem_batch c (shift_stake_batch c v))
unfolding claim_receipt_funds claim_redeem_stake_batch_receipts claim_by_lock
    apply_receipt_funds_for_view view_by_lock
claim_receipt_funds-viewed env r b c d unlocked p h =
    let (((a1, f), e), e1, k1) = >>=-eq-ok (claim_stake_batch_receipts env r.account) _ c h in
    let (((a2, g), l), e2, h2) =
      >>=-eq-ok (claim_by_lock env a1 e.redeem_stake_batch_lock) _ e k1 in
    let x = claim_stake_batch_receipts-viewed env r.account a1 f c e p e1 in
    let keeps = view_stake_batches-kept env c r.account x.v x.viewed in
    let lock : e.redeem_stake_batch_lock ≡ none = ground (arith, x.kept, unlocked) in
    let current : a1.redeem_stake_batch ≡ r.account.redeem_stake_batch =
      ground (arith, x.shifted, keeps) in
    let next : a1.next_redeem_stake_batch ≡ r.account.next_redeem_stake_batch =
      ground (arith, x.shifted, keeps) in
    let y =
      claim_while_unlocked-viewed env a1 a2 g e l
        (λ s t hs ht. p.redeem_apart s t (sym current ∙ hs) (sym next ∙ ht))
        (subst (λ (o : Option RedeemLock). claim_by_lock env a1 o e ≡ ok ((a2, g), l)) lock e2) in
    let receipts : e.redeem_stake_batch_receipts ≡ c.redeem_stake_batch_receipts =
      ground (arith, x.kept) in
    let seen : view_redeem_batches env c (shift_stake_batch c x.v) ≡ ok y.v =
      subst (λ (t : Account). view_redeem_batches env c t ≡ ok y.v) x.shifted
        (view_redeem_batches-receipts env c e a1 y.v receipts y.viewed) in
    let (w, w1, w2) = shift-view_redeem_batches env c c x.v y.v seen in
    (
      w,
      ground (arith, x.viewed, w1, unlocked),
      ground (
        arith,
        end-account (f || g) (save_registered_account (record r { account = a2 }))
            (record r { account = a2 }) b l d h2,
        y.shifted,
        w2,
        lock,
        unlocked,
      ),
    )
