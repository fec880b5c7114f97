-- ===== src/Contract/Claims/Frame.antt =====
-- What claiming receipts leaves alone (contract/src/contract/staking_service.rs).
use oysterpack_near_stake_to.Prelude.{
  ◌≡◌, refl, sym, subst, ◌∙◌, ◌||◌, Bool, true, false, Option, none, some, arith, ap, if◌then◌else◌,
}
use oysterpack_near_stake_to.Prelude.Dict
use oysterpack_near_stake_to.Near.Error.{Result, ok, ok-injective, redeem_stake_batch_should_exist}
use oysterpack_near_stake_to.Near.Error
use oysterpack_near_stake_to.Near.Env.{Env}
use oysterpack_near_stake_to.Domain.Lock.{RedeemLock, pending_withdrawal, unstaking}
use oysterpack_near_stake_to.Domain.Account.{Account, RegisteredAccount}
use oysterpack_near_stake_to.Contract.State.{Contract}
use oysterpack_near_stake_to.Contract.Monad.{pure, ◌>>◌, >>=-eq-ok, lift-eq-ok}
use oysterpack_near_stake_to.Contract.Accounts.{save_registered_account, store_account}
use oysterpack_near_stake_to.Contract.Accounts.Saving.{save_existing}
use oysterpack_near_stake_to.Contract.Claims.{
  claim_stake_batch, claim_stake_batch_receipts, claim_optional_redeem_batch,
  claim_batch_while_pending, claim_while_pending, claim_while_unlocked, claim_by_lock,
  claim_redeem_stake_batch_receipts, claim_receipt_funds, clear_stake_batch, clear_next_stake_batch,
  put_redeem_batch, put_next_redeem_batch,
}
use oysterpack_near_stake_to.Contract.Claims.Steps.{
  Within, Claims, Claims-trans, claim_stake_batch-Claims, claim_optional-Claims,
  claim_batch_while_pending-Claims, shift_stake_batch_keeps, shift_redeem_batch_keeps, finish,
}

module _ (env : Env) (a x : Account) (flag : Bool) (c h : Contract) where
  pub claim_stake_batch_receipts-Claims :
      claim_stake_batch_receipts env a c ≡ ok ((x, flag), h) → Claims a x flag c h
  unfolding claim_stake_batch_receipts
  claim_stake_batch_receipts-Claims k =
      let (((a1, f), d), e1, k1) =
        >>=-eq-ok (claim_stake_batch env clear_stake_batch a a.stake_batch) _ c k in
      let (((a2, g), e), e2, k2) =
        >>=-eq-ok (claim_stake_batch env clear_next_stake_batch a1 a1.next_stake_batch) _ d k1 in
      let (n, s) = shift_stake_batch_keeps e a2 in
      finish (claim_stake_batch-Claims env clear_stake_batch a a1 a.stake_batch f c d e1)
        (claim_stake_batch-Claims env clear_next_stake_batch a1 a2 a1.next_stake_batch g d e e2) n s
        k2

  claim_while_unlocked-Claims :
      claim_while_unlocked env a c ≡ ok ((x, flag), h) → Claims a x flag c h
  unfolding claim_while_unlocked
  claim_while_unlocked-Claims k =
      let current = put_redeem_batch none in
      let next = put_next_redeem_batch none in
      let (((a1, f), d), e1, k1) =
        >>=-eq-ok (claim_optional_redeem_batch env current a a.redeem_stake_batch) _ c k in
      let (((a2, g), e), e2, k2) =
        >>=-eq-ok (claim_optional_redeem_batch env next a1 a1.next_redeem_stake_batch) _ d k1 in
      let (n, s) = shift_redeem_batch_keeps e a2 in
      finish (claim_optional-Claims env current a a1 a.redeem_stake_batch f c d e1)
        (claim_optional-Claims env next a1 a2 a1.next_redeem_stake_batch g d e e2) n s k2

  claim_while_pending-Claims : claim_while_pending env a c ≡ ok ((x, flag), h) → Claims a x flag c h
  unfolding claim_while_pending
  claim_while_pending-Claims k =
      let (pending, _, k0) =
        lift-eq-ok (Error.expect c.redeem_stake_batch redeem_stake_batch_should_exist) _ c k in
      let id = pending.batch_id in
      let (((a1, f), d), e1, k1) =
        >>=-eq-ok (claim_batch_while_pending env put_redeem_batch id a a.redeem_stake_batch) _ c
          k0 in
      let (((a2, g), e), e2, k2) =
        >>=-eq-ok
          (claim_batch_while_pending env put_next_redeem_batch id a1 a1.next_redeem_stake_batch) _ d
          k1 in
      let (n, s) = shift_redeem_batch_keeps e a2 in
      finish
        (claim_batch_while_pending-Claims env put_redeem_batch id a a1 a.redeem_stake_batch f c d
          e1)
        (claim_batch_while_pending-Claims env put_next_redeem_batch id a1 a2
          a1.next_redeem_stake_batch g d e e2)
        n s k2

  pub claim_by_lock-Claims :
      (lock : Option RedeemLock)
      → claim_by_lock env a lock c ≡ ok ((x, flag), h)
      → Claims a x flag c h
  unfolding claim_by_lock
  claim_by_lock-Claims none k = claim_while_unlocked-Claims k
  claim_by_lock-Claims (some pending_withdrawal) k = claim_while_pending-Claims k
  claim_by_lock-Claims (some unstaking) k = ground arith

-- What a claim leaves behind: `r` is the account as it is loaded, and `b` the one that the caller
-- goes on with.
pub record Claimed (r b : RegisteredAccount) (c d : Contract) : Type 0 where
  pub same_id : b.id ≡ r.id
  pub stored : Account
  pub is_stored : d.accounts ≡ Dict.insert r.id stored c.accounts
  pub stored_near : stored.near ≡ b.account.near
  pub stored_stake : stored.stake ≡ b.account.stake
  pub within : Within c (record d { accounts = c.accounts })

-- The end of a claim: with claimed funds the account is saved.
saved-Claimed :
    (flag : Bool) (r : RegisteredAccount) (a : Account) (b : RegisteredAccount) (c l d : Contract)
    → Dict.get r.id c.accounts ≡ some r.account
    → Claims r.account a flag c l
    → ((if flag then save_registered_account (record r { account = a }) else pure tt)
          >> pure (record r { account = a }))
        l
      ≡ ok (b, d)
    → Claimed r b c d
saved-Claimed true r a b c l d known x h =
    let same : l.accounts ≡ c.accounts = ap (λ (e : Contract). e.accounts) x.within in
    let saved =
      save_existing (record r { account = a }) l r.account (ap (Dict.get r.id) same ∙ known) in
    let ((u, m), e, k) =
      >>=-eq-ok (save_registered_account (record r { account = a }))
        (λ _. pure (record r { account = a })) l h in
    let end : m ≡ store_account r.id a l =
      ap (λ (t : Unit {0} × Contract). t.1) (ok-injective (sym e ∙ saved)) in
    let h2 : ◌≡◌ {A = Result (RegisteredAccount × Contract)}
        (ok (record r { account = a }, store_account r.id a l)) (ok (b, d)) =
      ap (λ (x : Contract). ok (record r { account = a }, x)) (sym end) ∙ k in
    subst (λ (t : RegisteredAccount × Contract). Claimed r t.0 c t.1) (ok-injective h2)
      (record {
        same_id = refl;
        stored = a;
        is_stored = ap (Dict.insert r.id a) same;
        stored_near = refl;
        stored_stake = refl;
        within = ground (arith, x.within);
      })
saved-Claimed false r a b c l d known x h =
    let same : l.accounts ≡ c.accounts = ap (λ (e : Contract). e.accounts) x.within in
    subst (λ (t : RegisteredAccount × Contract). Claimed r t.0 c t.1) (ok-injective h)
      (record {
        same_id = refl;
        stored = r.account;
        is_stored = same ∙ sym (Dict.insert-get r.id r.account c.accounts known);
        stored_near = sym (x.near_kept refl);
        stored_stake = sym (x.stake_kept refl);
        within = ground (arith, x.within);
      })

-- Claiming the receipts of a registered account, if it succeeds, changes no field of the contract but
-- the receipts, the NEAR at hand, the redeem workflow, and the account itself; what is stored of the
-- account then has the balances of NEAR and STAKE that the caller goes on with.
pub claim_receipt_funds-Claimed :
    (env : Env) (r b : RegisteredAccount) (c d : Contract)
    → Dict.get r.id c.accounts ≡ some r.account
    → claim_receipt_funds env r c ≡ ok (b, d)
    → Claimed r b c d
unfolding claim_receipt_funds claim_redeem_stake_batch_receipts
claim_receipt_funds-Claimed env r b c d known h =
    let (((a1, f), e), e1, k1) = >>=-eq-ok (claim_stake_batch_receipts env r.account) _ c h in
    let (((a2, g), l), e2, h2) =
      >>=-eq-ok (claim_by_lock env a1 e.redeem_stake_batch_lock) _ e k1 in
    let x = claim_stake_batch_receipts-Claims env r.account a1 f c e e1 in
    let y = claim_by_lock-Claims env a1 a2 g e l e.redeem_stake_batch_lock e2 in
    saved-Claimed (f || g) r a2 b c l d known (Claims-trans x y) h2

-- What is stored of the account once its receipts are claimed.
pub stored-found :
    {r b : RegisteredAccount} {c d : Contract} (x : Claimed r b c d)
    → Dict.get b.id d.accounts ≡ some x.stored
stored-found {r} {b} {c} {d} x =
    ground (arith, Dict.get-insert b.id r.id x.stored c.accounts, x.same_id, x.is_stored)

-- Writing the account again leaves the last value with the others as they were.
pub stored_over :
    {r b : RegisteredAccount} {c d : Contract} (x : Claimed r b c d) (a : Account)
    → Dict.insert b.id a d.accounts ≡ Dict.insert r.id a c.accounts
stored_over {r} {b} {c} {d} x a =
    ground (arith, x.same_id, x.is_stored, Dict.insert-insert r.id a x.stored c.accounts)
