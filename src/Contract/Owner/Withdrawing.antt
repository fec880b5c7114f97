-- ===== src/Contract/Owner/Withdrawing.antt =====
-- The owner's withdrawals (contract/src/contract/contract_owner.rs).
use oysterpack_near_stake_to.Prelude.{
  ℕ, ◌≡◌, ◌≤◌, ◌==◌, ◌++◌, [], ◌∷◌, List, arith, refl, ap, sym, ◌∙◌,
}
use oysterpack_near_stake_to.Near.Error
use oysterpack_near_stake_to.Near.Error.{ok, ok-injective, predecessor_must_be_owner}
use oysterpack_near_stake_to.Near.Env.{Env}
use oysterpack_near_stake_to.Contract.State.{Contract, Promise, transfer}
use oysterpack_near_stake_to.Contract.Monad.{lift-eq-ok}
use oysterpack_near_stake_to.Contract.Financials.{
  ContractBalances, balances, owner_available_balance, contract_owner_storage_usage_cost,
}
use oysterpack_near_stake_to.Contract.Owner.{withdraw_owner_balance}
use oysterpack_near_stake_to.Contract.Operator.{assert_predecessor_is_owner}

-- The balances report what the owner has available.
balances-available :
    (env : Env) (c : Contract) (b : ContractBalances)
    → balances env c ≡ ok b
    → owner_available_balance c ≡ ok b.contract_owner_available_balance
unfolding balances
balances-available env c b h = ground arith

-- The promises do not count in what the owner has.
available-promises :
    (c : Contract) (p : List Promise)
    → owner_available_balance (record c { promises = p }) ≡ owner_available_balance c
unfolding owner_available_balance contract_owner_storage_usage_cost
available-promises c p = refl

abbrev pub paid_out : ℕ → Contract → Contract
paid_out amount c = record c { promises = c.promises ++ transfer c.owner_id amount ∷ [] }

-- A withdrawal is one by the owner of at most what the balances report as available.
withdraw_owner_balance-eq :
    (env : Env) (amount : ℕ) (c d : Contract)
    → withdraw_owner_balance env amount c ≡ ok (tt, d)
    → (d ≡ paid_out amount c)
      × (env.predecessor_account_id ≡ c.owner_id)
      × (available : ℕ) × (owner_available_balance c ≡ ok available)
      × (amount ≤ available)
unfolding withdraw_owner_balance assert_predecessor_is_owner
withdraw_owner_balance-eq env amount c d h =
    let (_, is_owner, k1) =
      lift-eq-ok (Error.assert (env.predecessor_account_id == c.owner_id) predecessor_must_be_owner)
        _ c h in
    let (b, e, k2) = lift-eq-ok (balances env c) _ c k1 in
    (
      ground arith,
      ground arith,
      b.contract_owner_available_balance,
      balances-available env c b e,
      ground arith,
    )

-- What the owner withdraws is not taken off the owner's balance: after one withdrawal the owner can
-- withdraw the same amount again, in any later call for which the balances compute.
pub withdraw_owner_balance-repeats :
    (env later : Env) (amount : ℕ) (c d : Contract) (b : ContractBalances)
    → withdraw_owner_balance env amount c ≡ ok (tt, d)
    → later.predecessor_account_id ≡ env.predecessor_account_id
    → balances later d ≡ ok b
    → withdraw_owner_balance later amount d ≡ ok (tt, paid_out amount d)
unfolding withdraw_owner_balance assert_predecessor_is_owner
withdraw_owner_balance-repeats env later amount c d b h who e =
    let (same, is_owner, available, has, enough) = withdraw_owner_balance-eq env amount c d h in
    let still : owner_available_balance d ≡ ok available =
      ap owner_available_balance same ∙ (available-promises c _ ∙ has) in
    let now : available ≡ b.contract_owner_available_balance =
      ok-injective (sym still ∙ balances-available later d b e) in
    let owner : d.owner_id ≡ c.owner_id = ap (λ (x : Contract). x.owner_id) same in
    ground (arith, e)
