-- ===== src/Contract/Accounts/Registration.antt =====
-- Registering and unregistering accounts (contract/src/contract/account_management.rs).
use oysterpack_near_stake_to.Prelude.{
  ℕ, ◌+◌, ◌-◌, ◌*◌, ◌≡◌, ◌≤◌, false, none, some, arith, ◌++◌, [], ◌∷◌, List, ltb, if◌then◌else◌,
}
use oysterpack_near_stake_to.Prelude.Dict
use oysterpack_near_stake_to.Prelude.Dict.{get-insert}
use oysterpack_near_stake_to.Near.Error.{ok}
use oysterpack_near_stake_to.Near.Env.{Env}
use oysterpack_near_stake_to.Near.Word.{add_u128, sub_u128, mul_u128}
use oysterpack_near_stake_to.Domain.Account
use oysterpack_near_stake_to.Domain.Account.{Account, has_funds}
use oysterpack_near_stake_to.Contract.State.{Contract, Promise, transfer}
use oysterpack_near_stake_to.Contract.Accounts.{
  register_account, unregister_account, account_storage_fee, save_account, delete_account,
}

-- What an account pays for its storage.
abbrev pub storage_fee : Contract → ℕ
storage_fee c = c.config.storage_cost_per_byte * c.account_storage_usage

abbrev pub predecessor_key : Env → ℕ
predecessor_key env = env.sha256 env.predecessor_account_id

-- The promises with what is sent back of a deposit.
abbrev send_back : Env → ℕ → List Promise → List Promise
send_back env amount promises =
    if ltb 0 amount then promises ++ transfer env.predecessor_account_id amount ∷ [] else promises

-- The state that a registration leaves behind.
abbrev pub with_account : Env → Contract → Contract
with_account env c = record c {
  accounts = Dict.insert (predecessor_key env) (Account.new env (storage_fee c)) c.accounts;
  accounts_len = c.accounts_len + 1;
  total_account_storage_escrow = c.total_account_storage_escrow + storage_fee c;
  promises = send_back env (env.attached_deposit - storage_fee c) c.promises;
}

-- A registration that succeeds is one of an account that is not registered with a deposit of at
-- least the storage fee; it stores an account without funds, counts it, escrows the fee and sends
-- back the rest of the deposit.
pub register_account-eq :
    (env : Env) (c d : Contract)
    → register_account env c ≡ ok (tt, d)
    → (Dict.get (predecessor_key env) c.accounts ≡ none)
      × (storage_fee c ≤ env.attached_deposit)
      × (d ≡ with_account env c)
unfolding register_account account_storage_fee save_account add_u128 sub_u128 mul_u128
register_account-eq env c d h = ground arith

-- Unregistering succeeds for an account without funds only; it removes the account, and pays back and
-- takes off the escrow what the account had paid for its storage.
pub unregister_account-eq :
    (env : Env) (c d : Contract)
    → unregister_account env c ≡ ok (tt, d)
    → (a : Account) × (Dict.get (predecessor_key env) c.accounts ≡ some a)
      × (has_funds a ≡ false)
      × (a.storage_escrow.amount ≤ c.total_account_storage_escrow)
      × (d ≡ record c {
        accounts = Dict.remove (predecessor_key env) c.accounts;
        accounts_len = c.accounts_len - 1;
        total_account_storage_escrow = c.total_account_storage_escrow - a.storage_escrow.amount;
        promises = c.promises ++ transfer env.predecessor_account_id a.storage_escrow.amount ∷ [];
      })
unfolding unregister_account delete_account sub_u128
unregister_account-eq env c d h = ground arith

-- An account that has just registered can unregister in any later call of its own, which gives back
-- the counts and the escrow of before, and pays the storage fee back.
pub unregister-register :
    (env later : Env) (c d : Contract)
    → register_account env c ≡ ok (tt, d)
    → later.predecessor_account_id ≡ env.predecessor_account_id
    → predecessor_key later ≡ predecessor_key env
    → unregister_account later d
      ≡ ok (
        tt,
        record d {
          accounts = Dict.remove (predecessor_key env) d.accounts;
          accounts_len = c.accounts_len;
          total_account_storage_escrow = c.total_account_storage_escrow;
          promises = d.promises ++ transfer env.predecessor_account_id (storage_fee c) ∷ [];
        },
      )
unfolding unregister_account delete_account sub_u128 has_funds
unregister-register env later c d h who key =
    let (_, _, same) = register_account-eq env c d h in
    let found =
      get-insert (predecessor_key env) (predecessor_key env) (Account.new env (storage_fee c))
        c.accounts in
    ground (arith, found)
