-- ===== src/Contract/Withdrawals/Payout.antt =====
-- What paying out NEAR does (`transfer_near_funds` in contract/src/contract/staking_service.rs).
use oysterpack_near_stake_to.Prelude.{ℕ, ◌+◌, ◌≡◌, some, arith, ap, sym, ◌∙◌, ◌++◌, [], ◌∷◌}
use oysterpack_near_stake_to.Prelude.Dict
use oysterpack_near_stake_to.Prelude.Dict.{get-insert, insert-insert}
use oysterpack_near_stake_to.Near.Error.{ok, ok-injective}
use oysterpack_near_stake_to.Near.Env.{Env}
use oysterpack_near_stake_to.Near.Word.{sub_u128}
use oysterpack_near_stake_to.Domain.NearBalance
use oysterpack_near_stake_to.Domain.Account.{
  Account, RegisteredAccount, apply_near_debit, near_amount,
}
use oysterpack_near_stake_to.Domain.Account.Balances.{apply_near_debit-eq}
use oysterpack_near_stake_to.Contract.State.{Contract, transfer}
use oysterpack_near_stake_to.Contract.Monad.{>>=-eq-ok, lift-eq-ok}
use oysterpack_near_stake_to.Contract.Accounts.{save_registered_account, store_account}
use oysterpack_near_stake_to.Contract.Accounts.Saving.{save_existing}
use oysterpack_near_stake_to.Contract.Claims.{claim_receipt_funds}
use oysterpack_near_stake_to.Contract.Claims.Frame.{
  Claimed, claim_receipt_funds-Claimed, stored-found, stored_over,
}
use oysterpack_near_stake_to.Contract.Withdrawals.{
  draw_liquidity, debit_total_near, transfer_near_funds,
}

-- The NEAR that the contract has at hand for its accounts.
abbrev pub near_at_hand : Contract → ℕ
near_at_hand c = c.total_near.amount + c.near_liquidity_pool

-- Drawing on the liquidity pool moves NEAR within the contract only.
draw_liquidity-eq :
    (env : Env) (amount : ℕ) (c d : Contract)
    → draw_liquidity env amount c ≡ ok (tt, d)
    → (near_at_hand d ≡ near_at_hand c)
      × (d ≡ record c { near_liquidity_pool = d.near_liquidity_pool; total_near = d.total_near })
unfolding draw_liquidity sub_u128 NearBalance.credit
draw_liquidity-eq env amount c d h = ground arith

debit_total_near-eq :
    (env : Env) (amount : ℕ) (c d : Contract)
    → debit_total_near env amount c ≡ ok (tt, d)
    → (d.total_near.amount + amount ≡ c.total_near.amount)
      × (d ≡ record c { total_near = d.total_near })
unfolding debit_total_near NearBalance.debit sub_u128
debit_total_near-eq env amount c d h = ground arith

-- What a payout does, from the state `between` on, in which the account's receipts are claimed.
pub record PaidOut (env : Env) (r : RegisteredAccount) (amount recipient : ℕ) (c d : Contract)
    : Type 0 where
  claimed : RegisteredAccount
  between : Contract
  claims : claim_receipt_funds env r c ≡ ok (claimed, between)
  paid : Account
  account : near_amount paid.near + amount ≡ near_amount claimed.account.near
  kept : paid ≡ record (claimed.account) { near = paid.near }
  accounts : d.accounts ≡ Dict.insert r.id paid c.accounts
  at_hand : near_at_hand d + amount ≡ near_at_hand between
  sent : d.promises ≡ c.promises ++ transfer recipient amount ∷ []
  supply : d.total_stake ≡ c.total_stake

payout-PaidOut :
    (r b : RegisteredAccount) (paid : Account) (amount recipient : ℕ) (c e f g l d : Contract)
    (env : Env)
    → claim_receipt_funds env r c ≡ ok (b, e)
    → Claimed r b c e
    → (near_amount paid.near + amount ≡ near_amount b.account.near)
      × (paid ≡ record (b.account) { near = paid.near })
    → f ≡ store_account b.id paid e
    → (near_at_hand g ≡ near_at_hand f)
      × (g ≡ record f { near_liquidity_pool = g.near_liquidity_pool; total_near = g.total_near })
    → (l.total_near.amount + amount ≡ g.total_near.amount)
      × (l ≡ record g { total_near = l.total_near })
    → d ≡ record l { promises = l.promises ++ transfer recipient amount ∷ [] }
    → PaidOut env r amount recipient c d
payout-PaidOut r b paid amount recipient c e f g l d env k x (debit, kept) saved (at_hand, drawn)
      (total, taken) sent =
    let same_accounts : d.accounts ≡ Dict.insert b.id paid e.accounts =
      ap (λ (t : Contract). t.accounts) sent
      ∙ (ap (λ (t : Contract). t.accounts) taken
          ∙ (ap (λ (t : Contract). t.accounts) drawn ∙ ap (λ (t : Contract). t.accounts) saved)) in
    let same_promises : l.promises ≡ c.promises =
      ap (λ (t : Contract). t.promises) taken
      ∙ (ap (λ (t : Contract). t.promises) drawn
          ∙ (ap (λ (t : Contract). t.promises) saved
              ∙ ap (λ (t : Contract). t.promises) x.within)) in
    let same_supply : d.total_stake ≡ c.total_stake =
      ap (λ (t : Contract). t.total_stake) sent
      ∙ (ap (λ (t : Contract). t.total_stake) taken
          ∙ (ap (λ (t : Contract). t.total_stake) drawn
              ∙ (ap (λ (t : Contract). t.total_stake) saved
                  ∙ ap (λ (t : Contract). t.total_stake) x.within))) in
    let last : near_at_hand d ≡ near_at_hand l = ap near_at_hand sent in
    let pool : l.near_liquidity_pool ≡ g.near_liquidity_pool =
      ap (λ (t : Contract). t.near_liquidity_pool) taken in
    let first : near_at_hand f ≡ near_at_hand e = ap near_at_hand saved in
    record {
      claimed = b;
      between = e;
      claims = k;
      paid = paid;
      account = debit;
      kept = kept;
      accounts = same_accounts ∙ stored_over x paid;
      at_hand = omega (arith, last, first, at_hand, total, pool);
      sent =
          ap (λ (t : Contract). t.promises) sent
          ∙ ap (λ t. t ++ transfer recipient amount ∷ []) same_promises;
      supply = same_supply;
    }

-- A payout of a registered account's NEAR that succeeds takes exactly the amount off the account's NEAR balance,
-- as it is once its receipts are claimed, and off the NEAR that the contract has at hand, and
-- schedules one transfer of the amount to the recipient. The rest of the account, the other accounts
-- and the supply of STAKE stay.
pub transfer_near_funds-PaidOut :
    (env : Env) (r : RegisteredAccount) (amount recipient : ℕ) (c d : Contract)
    → Dict.get r.id c.accounts ≡ some r.account
    → transfer_near_funds env r amount recipient c ≡ ok (tt, d)
    → PaidOut env r amount recipient c d
unfolding transfer_near_funds
transfer_near_funds-PaidOut env r amount recipient c d known h =
    let ((b, e), k1, k2) = >>=-eq-ok (claim_receipt_funds env r) _ c h in
    let frame = claim_receipt_funds-Claimed env r b c e known k1 in
    let (paid, k3, k4) = lift-eq-ok (apply_near_debit env b.account amount) _ e k2 in
    let p : RegisteredAccount = record { account = paid; id = b.id } in
    let ((_, f), k5, k6) = >>=-eq-ok (save_registered_account p) _ e k4 in
    let ((_, g), k7, k8) = >>=-eq-ok (draw_liquidity env amount) _ f k6 in
    let ((_, l), k9, k10) = >>=-eq-ok (debit_total_near env amount) _ g k8 in
    let saved : f ≡ store_account b.id paid e =
      ap (λ (t : Unit {0} × Contract). t.1)
        (ok-injective (sym k5 ∙ save_existing p e frame.stored (stored-found frame))) in
    payout-PaidOut r b paid amount recipient c e f g l d env k1 frame
      (apply_near_debit-eq env b.account paid amount k3) saved (draw_liquidity-eq env amount f g k7)
      (debit_total_near-eq env amount g l k9)
      (ap (λ (t : Unit {0} × Contract). t.1) (sym (ok-injective k10)))
