-- ===== src/Contract/FungibleToken/Crediting.antt =====
-- What `refund_sender` (contract/src/contract/fungible_token.rs) does, and what saving an account does to
-- the balances of STAKE.
use oysterpack_near_stake_to.Prelude.{
  ℕ, ◌+◌, ◌≡◌, ◌==◌, is_some, inl, inr, none, some, arith, sym, ap, ◌∙◌, if◌then◌else◌,
}
use oysterpack_near_stake_to.Prelude.Dict
use oysterpack_near_stake_to.Prelude.Dict.{get-insert, total-insert}
use oysterpack_near_stake_to.Near.Error.{ok, ok-injective}
use oysterpack_near_stake_to.Near.Env.{Env}
use oysterpack_near_stake_to.Domain.StakeBalance
use oysterpack_near_stake_to.Domain.StakeBalance.{TimestampedStakeBalance}
use oysterpack_near_stake_to.Domain.Balances.{stake_debit-amount}
use oysterpack_near_stake_to.Domain.Account.{Account, RegisteredAccount, apply_stake_credit}
use oysterpack_near_stake_to.Domain.Account.Balances.{apply_stake_credit-eq}
use oysterpack_near_stake_to.Contract.State.{Contract}
use oysterpack_near_stake_to.Contract.Monad.{lift-eq-ok, ◌>>=◌, lift, modify}
use oysterpack_near_stake_to.Contract.Accounts.{save_registered_account, store_account}
use oysterpack_near_stake_to.Contract.Accounts.Saving.{
  save_existing, registered, lookup_registered_account-cases,
}
use oysterpack_near_stake_to.Contract.FungibleToken.{set_total_stake, refund_sender}
use oysterpack_near_stake_to.Contract.FungibleToken.Moving.{account_stake, stake_of, stake_of_all}
use oysterpack_near_stake_to.Contract.FungibleToken.Ledger.{ledger, credit}

-- The STAKE of all accounts and the supply change by the same, where `extra` STAKE is put in; no
-- other fields change.
abbrev pub Balanced : ℕ → Contract → Contract → Type 0
Balanced extra c d =
    (stake_of_all d + c.total_stake.amount ≡ stake_of_all c + d.total_stake.amount + extra)
    × (d ≡ record c { accounts = d.accounts; total_stake = d.total_stake })

-- Saving an account with other STAKE.
pub save-stored :
    (r : RegisteredAccount) (old : Account) (c d : Contract)
    → Dict.get r.id c.accounts ≡ some old
    → save_registered_account r c ≡ ok (tt, d)
    → d ≡ store_account r.id r.account c
save-stored r old c d found h =
    ap (λ (t : Unit {0} × Contract). t.1) (ok-injective (sym h ∙ save_existing r c old found))

pub save-total :
    (r : RegisteredAccount) (old : Account) (c d : Contract)
    → Dict.get r.id c.accounts ≡ some old
    → save_registered_account r c ≡ ok (tt, d)
    → (stake_of_all d + account_stake old ≡ stake_of_all c + account_stake r.account)
      × (d ≡ record c { accounts = d.accounts })
save-total r old c d found h =
    let same = save-stored r old c d found h in
    let all = ap stake_of_all same in
    let change = total-insert account_stake r.id r.account old c.accounts found in
    (omega (arith, all, change), ground (arith, same))

pub stake_of-stored :
    (j k : ℕ) (a : Account) (c d : Contract)
    → d ≡ store_account k a c
    → stake_of j d ≡ (if k == j then account_stake a else stake_of j c)
stake_of-stored j k a c d same = ground (arith, same, get-insert j k a c.accounts)

-- What crediting `n` to the sender does: it is added to what is stored of the sender, or it leaves the
-- supply if the sender is not registered.
pub record Credited (from n : ℕ) (c d : Contract) : Type 0 where
  pub credited :
      (j : ℕ)
      → stake_of j d
        ≡ (if is_some (Dict.get from c.accounts) then credit from n (ledger c) j else stake_of j c)
  pub burned :
      d.total_stake.amount + (if is_some (Dict.get from c.accounts) then 0 else n)
      ≡ c.total_stake.amount
  pub balanced : Balanced n c d

pub refund_sender-Credited :
    (env : Env) (sender_id n : ℕ) (c d : Contract)
    → refund_sender env sender_id n c ≡ ok (tt, d)
    → Credited (env.sha256 sender_id) n c d
unfolding refund_sender
refund_sender-Credited env sender_id n c d h =
    elim (lookup_registered_account-cases env sender_id _ _ c h) [
      | inl (missing, k) ↦ burned missing k
      | inr (a, found, k) ↦ refunded a found k
    ]
  where
    burned :
        Dict.get (env.sha256 sender_id) c.accounts ≡ none
        → (lift (StakeBalance.debit env c.total_stake n) >>= λ total.
              modify (set_total_stake total))
            c
          ≡ ok (tt, d)
        → Credited (env.sha256 sender_id) n c d
    burned missing h2 =
        let (total, e, k) = lift-eq-ok (StakeBalance.debit env c.total_stake n) _ c h2 in
        let less = stake_debit-amount env c.total_stake total n e in
        let kept : d.accounts ≡ c.accounts = ground (arith, k) in
        record {
          credited = λ j. ground (arith, missing, kept);
          burned = ground (arith, missing, less, k);
          balanced = ground (arith, less, k);
        }

    refunded :
        (a : Account)
        → Dict.get (env.sha256 sender_id) c.accounts ≡ some a
        → (lift (apply_stake_credit env a n) >>= λ b.
              save_registered_account (registered env sender_id b))
            c
          ≡ ok (tt, d)
        → Credited (env.sha256 sender_id) n c d
    refunded a found h2 =
        let (b, e, k) = lift-eq-ok (apply_stake_credit env a n) _ c h2 in
        let (more, _) = apply_stake_credit-eq env a b n e in
        let (change, rest) = save-total (registered env sender_id b) a c d found k in
        let supply : d.total_stake.amount ≡ c.total_stake.amount =
          ap (λ (t : Contract). t.total_stake.amount) rest in
        let same = save-stored (registered env sender_id b) a c d found k in
        record {
          credited =
              λ j. ground (arith, found, more, stake_of-stored j (env.sha256 sender_id) b c d same);
          burned = ground (arith, found, supply);
          balanced = (omega (arith, change, more, supply), ground (arith, rest));
        }
