-- ===== src/Contract/FungibleToken/Success.antt =====
-- When `ft_transfer` succeeds (contract/src/contract/fungible_token.rs).
use oysterpack_near_stake_to.Prelude.{ℕ, ◌+◌, ◌≡◌, ◌≤◌, ◌<◌, refl, inl, inr, some, arith, ◌⊎◌}
use oysterpack_near_stake_to.Prelude.Dict
use oysterpack_near_stake_to.Prelude.Dict.{get-insert}
use oysterpack_near_stake_to.Near.Error.{Error, Result, ok, err}
use oysterpack_near_stake_to.Near.Word.{add_u128, sub_u128, u128_max}
use oysterpack_near_stake_to.Near.Env.{Env}
use oysterpack_near_stake_to.Domain.StakeBalance
use oysterpack_near_stake_to.Domain.NearBalance
use oysterpack_near_stake_to.Domain.StakeBalance.{TimestampedStakeBalance}
use oysterpack_near_stake_to.Domain.Account.{
  Account, RegisteredAccount, apply_stake_debit, apply_stake_credit, apply_near_credit,
  stake_amount, near_amount,
}
use oysterpack_near_stake_to.Contract.State.{Contract}
use oysterpack_near_stake_to.Contract.Monad.{◌>>◌}
use oysterpack_near_stake_to.Contract.Accounts.{
  predecessor_registered_account, save_registered_account, save_account,
}
use oysterpack_near_stake_to.Contract.Accounts.Saving.{registered, registered_account-found}
use oysterpack_near_stake_to.Contract.Claims.{claim_receipt_funds}
use oysterpack_near_stake_to.Contract.Claims.Frame.{claim_receipt_funds-Claimed, stored-found}
use oysterpack_near_stake_to.Contract.FungibleToken.{ft_transfer, move_stake}

Result-cases : {A : Type 0} (r : Result A) → ((a : A) × (r ≡ ok a)) ⊎ ((e : Error) × (r ≡ err e))
Result-cases (ok a) = inl (a, refl)
Result-cases (err e) = inr (e, refl)

module _ (env : Env) (a : Account) (amount : ℕ) where
  apply_stake_debit-total :
      (balance : TimestampedStakeBalance)
      → a.stake ≡ some balance
      → amount ≤ balance.amount
      → (b : Account) × (apply_stake_debit env a amount ≡ ok b) × (b.near ≡ a.near)
  unfolding apply_stake_debit StakeBalance.debit sub_u128
  apply_stake_debit-total balance here enough =
      elim (Result-cases (apply_stake_debit env a amount)) [
        | inl (b, e) ↦ (b, e, ground (arith, e))
        | inr (x, e) ↦ absurd (ground (arith, here, enough, e))
      ]

  apply_stake_credit-total :
      stake_amount a.stake + amount ≤ u128_max
      → (b : Account) × (apply_stake_credit env a amount ≡ ok b)
  unfolding apply_stake_credit StakeBalance.credit add_u128
  apply_stake_credit-total fits = elim (Result-cases (apply_stake_credit env a amount)) [
    | inl r ↦ r
    | inr (x, e) ↦ absurd (ground (arith, fits, e))
  ]

  apply_near_credit-total :
      near_amount a.near + amount ≤ u128_max
      → (b : Account) × (apply_near_credit env a amount ≡ ok b)
  unfolding apply_near_credit NearBalance.credit add_u128
  apply_near_credit-total fits = elim (Result-cases (apply_near_credit env a amount)) [
    | inl r ↦ r
    | inr (x, e) ↦ absurd (ground (arith, fits, e))
  ]

save_twice-total :
    (p q : RegisteredAccount) (s t : Account) (e : Contract)
    → Dict.get p.id e.accounts ≡ some s
    → Dict.get q.id e.accounts ≡ some t
    → (d : Contract) × ((save_registered_account p >> save_registered_account q) e ≡ ok (tt, d))
unfolding save_registered_account save_account
save_twice-total p q s t e hp hq =
    elim (Result-cases ((save_registered_account p >> save_registered_account q) e)) [
      | inl ((_, d), h) ↦ (d, h)
      | inr (x, h) ↦ absurd (ground (arith, hp, hq, h, get-insert q.id p.id p.account e.accounts))
    ]

-- A transfer succeeds if one yoctoNEAR is attached and the amount is not zero, the sender is registered
-- and can claim its receipts, has the amount of STAKE then, and the receiver is registered, provided
-- that the receiver's STAKE and the sender's NEAR do not grow beyond 128 bits.
pub ft_transfer-succeeds :
    (env : Env) (receiver_id amount : ℕ) (a receiver : Account) (b : RegisteredAccount)
    (balance : TimestampedStakeBalance) (c e : Contract)
    → env.attached_deposit ≡ 1
    → 0 < amount
    → Dict.get (env.sha256 env.predecessor_account_id) c.accounts ≡ some a
    → claim_receipt_funds env (registered env env.predecessor_account_id a) c ≡ ok (b, e)
    → b.account.stake ≡ some balance
    → amount ≤ balance.amount
    → Dict.get (env.sha256 receiver_id) e.accounts ≡ some receiver
    → stake_amount receiver.stake + amount ≤ u128_max
    → near_amount b.account.near + 1 ≤ u128_max
    → (d : Contract) × (ft_transfer env receiver_id amount c ≡ ok (tt, d))
unfolding ft_transfer move_stake predecessor_registered_account
ft_transfer-succeeds env receiver_id amount a receiver b balance c e one positive known claims here
      enough found fits near_fits =
    let x =
      claim_receipt_funds-Claimed env (registered env env.predecessor_account_id a) b c e known
        claims in
    let (debited, h1, same) = apply_stake_debit-total env b.account amount balance here enough in
    let (paid, h2) = apply_near_credit-total env debited 1 (ground (arith, near_fits, same)) in
    let (credited, h3) = apply_stake_credit-total env receiver amount fits in
    let (d, h4) =
      save_twice-total (record { account = paid; id = b.id })
        (record { account = credited; id = env.sha256 receiver_id }) x.stored receiver e
        (stored-found x) found in
    (
      d,
      ground (
        arith,
        one,
        positive,
        registered_account-found env env.predecessor_account_id c a known,
        claims,
        h1,
        h2,
        h3,
        h4,
        registered_account-found env receiver_id e receiver found,
      ),
    )
