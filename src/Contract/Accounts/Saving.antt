-- ===== src/Contract/Accounts/Saving.antt =====
-- Saving and loading accounts (contract/src/contract/account_management.rs).
use oysterpack_near_stake_to.Prelude.{ℕ, ◌≡◌, some, arith, none, ◌⊎◌, inl, inr, Option-cases}
use oysterpack_near_stake_to.Prelude.Dict
use oysterpack_near_stake_to.Near.Error.{ok}
use oysterpack_near_stake_to.Near.Env.{Env}
use oysterpack_near_stake_to.Domain.Account.{Account, RegisteredAccount}
use oysterpack_near_stake_to.Contract.State.{Contract}
use oysterpack_near_stake_to.Contract.Monad.{M, ◌>>=◌}
use oysterpack_near_stake_to.Contract.Accounts.{
  save_registered_account, store_account, registered_account, lookup_registered_account,
}

-- Saving an account that is registered changes that account only.
pub save_existing :
    (r : RegisteredAccount) (c : Contract) (a : Account)
    → Dict.get r.id c.accounts ≡ some a
    → save_registered_account r c ≡ ok (tt, store_account r.id r.account c)
unfolding save_registered_account
save_existing r c a e = ground (arith, e)

-- The account that is stored under the hash of an ID, with that key.
abbrev pub registered : Env → ℕ → Account → RegisteredAccount
registered env account_id a = record { account = a; id = env.sha256 account_id }

-- A call that goes on after it loads an account goes on with the one that is stored.
pub registered_account-eq-ok :
    {B : Type 0} (env : Env) (account_id : ℕ) (f : RegisteredAccount → M B) (c : Contract)
    {s : B × Contract}
    → (registered_account env account_id >>= f) c ≡ ok s
    → (a : Account) × (Dict.get (env.sha256 account_id) c.accounts ≡ some a)
      × (f (registered env account_id a) c ≡ ok s)
unfolding registered_account
registered_account-eq-ok env account_id f c h =
    elim (Option-cases (Dict.get (env.sha256 account_id) c.accounts)) [
      | inl missing ↦ absurd (ground (arith, missing))
      | inr (a, found) ↦ (a, found, ground (arith, found))
    ]

pub registered_account-found :
    (env : Env) (account_id : ℕ) (c : Contract) (a : Account)
    → Dict.get (env.sha256 account_id) c.accounts ≡ some a
    → registered_account env account_id c ≡ ok (registered env account_id a, c)
unfolding registered_account
registered_account-found env account_id c a found = ground (arith, found)

-- The two ways in which a lookup goes on.
pub lookup_registered_account-cases :
    {B : Type 0} (env : Env) (account_id : ℕ) (m : M B) (f : RegisteredAccount → M B) (c : Contract)
    {s : B × Contract}
    → (elim (lookup_registered_account env account_id c) as (λ _. M B) [ none ↦ m | some r ↦ f r ])
        c
      ≡ ok s
    → (Dict.get (env.sha256 account_id) c.accounts ≡ none) × (m c ≡ ok s)
      ⊎ ((a : Account) × (Dict.get (env.sha256 account_id) c.accounts ≡ some a)
          × (f (registered env account_id a) c ≡ ok s))
lookup_registered_account-cases env account_id m f c h =
    elim (Option-cases (Dict.get (env.sha256 account_id) c.accounts)) [
      | inl missing ↦ inl (missing, ground (arith, missing))
      | inr (a, found) ↦ inr (a, found, ground (arith, found))
    ]
