-- ===== src/Near/Error.antt =====
-- The panics of the contract (contract/src/errors.rs and the messages written in place), and
-- results that carry them. A panic reverts every change of the call that it ends.
use oysterpack_near_stake_to.Prelude.{◌≡◌, refl, ap, Bool, true, false, Option, none, some}

pub data Error : Type 0 where
  add_overflow sub_overflow mul_overflow cast_overflow division_by_zero : Error
  predecessor_must_be_self_or_operator predecessor_must_be_operator : Error
  predecessor_must_be_owner : Error
  unstake_failure get_account_failure withdraw_all_failure : Error
  blocked_by_batch_running blocked_by_stake_token_value_refresh : Error
  no_funds_in_stake_batch_to_withdraw : Error
  no_redeem_stake_batch_to_run unstaked_funds_not_available_for_withdrawal : Error
  deposit_required_for_stake zero_redeem_amount insufficient_stake_for_redeem_request : Error
  batch_balance_insufficient : Error
  stake_batch_should_exist redeem_stake_batch_should_exist : Error
  redeem_stake_batch_receipt_should_exist illegal_redeem_lock_state : Error
  insufficient_storage_fee account_already_registered : Error
  unregister_requires_zero_balances account_not_registered : Error
  insufficient_funds_for_owner_withdrawal insufficient_funds_for_owner_staking : Error
  transfer_to_non_registered_account : Error
  balance_too_low : Error
  account_has_zero_near account_near_balance_too_low : Error
  account_has_zero_stake account_stake_balance_too_low : Error
  staked_balance_below_stake_supply : Error
  min_required_near_deposit : Error
  stake_batch_should_exist_for_account redeem_stake_batch_should_exist_for_account : Error
  next_stake_batch_should_exist next_redeem_stake_batch_should_exist : Error
  illegal_stake_lock_state : Error
  owner_balance_is_zero : Error
  one_yocto_near_required token_amount_must_not_be_zero invalid_unused_amount : Error
  already_initialized current_account_must_not_be_owner : Error
  current_account_must_not_be_operator storage_usage_not_restored : Error
  gas_out_of_range gas_config_does_not_add_up storage_cost_must_be_positive : Error

-- What a call ends in: a value, or the panic that ended it.
pub data Result {ℓ} (Value : Type ℓ) : Type ℓ where
  ok : Value → Result Value
  err : Error → Result Value

-- `assert!(test, e)`
abbrev pub assert : Bool → Error → Result (Unit {0})
assert false panic = err panic
assert true panic = ok tt

-- `option.expect(e)`
abbrev pub expect {ℓ} : {A : Type ℓ} → Option A → Error → Result A
expect none e = err e
expect (some a) e = ok a

infixl 5 ◌>>=◌ ◌>>◌
-- The rest of a call runs on the value, if there is one.
abbrev pub ◌>>=◌ {ℓ κ} :
    {Value : Type ℓ} {Next : Type κ} → Result Value → (Value → Result Next) → Result Next
err panic >>= rest = err panic
ok value >>= rest = rest value

-- The same after a check, which has no value of its own.
abbrev pub ◌>>◌ {ℓ} : {Next : Type ℓ} → Result (Unit {0}) → Result Next → Result Next
check >> rest = check >>= λ _. rest

-- What a result holds, if it is no panic.
abbrev pub Holds {ℓ κ} : {A : Type ℓ} → (A → Type κ) → Result A → Type κ
Holds P (ok a) = P a
Holds P (err e) = Unit

-- A chain that ends in a value had a value at its first step.
pub >>=-eq-ok {ℓ κ} :
    {Value : Type ℓ} {Next : Type κ} (first : Result Value) (rest : Value → Result Next)
    {end : Next}
    → (first >>= rest) ≡ ok end
    → (value : Value) × (first ≡ ok value) × (rest value ≡ ok end)
>>=-eq-ok (err panic) rest ends = cc
>>=-eq-ok (ok value) rest ends = (value, refl, ends)

pub ok-injective {ℓ} : {A : Type ℓ} {a b : A} → ok a ≡ ok b → a ≡ b
ok-injective {a} h = ap (λ r. elim r [ ok x ↦ x | err _ ↦ a ]) h

pub assert-eq-ok : (b : Bool) (e : Error) {u : Unit {0}} → assert b e ≡ ok u → b ≡ true
assert-eq-ok true e h = refl
assert-eq-ok false e h = cc
