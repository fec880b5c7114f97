-- ===== src/Contract/FungibleToken/Refund.antt =====
-- What `ft_resolve_transfer_call` (contract/src/contract/fungible_token.rs) does to the balances of
-- STAKE.
use oysterpack_near_stake_to.Prelude.{
  ℕ, ◌+◌, ◌-◌, ◌≡◌, ◌≤◌, ◌==◌, ◌⊎◌, refl, is_some, inl, inr, Option, none, some, arith, sym, ap,
  ◌∙◌, ltb, Bool-cases, if◌then◌else◌,
}
use oysterpack_near_stake_to.Prelude.Dict
use oysterpack_near_stake_to.Prelude.Dict.{get-insert, total-insert}
use oysterpack_near_stake_to.Near.Error.{ok, ok-injective}
use oysterpack_near_stake_to.Near.Env.{Env}
use oysterpack_near_stake_to.Domain.StakeBalance.{TimestampedStakeBalance}
use oysterpack_near_stake_to.Domain.Account.{RegisteredAccount, apply_stake_debit}
use oysterpack_near_stake_to.Domain.Account.Balances.{apply_stake_debit-eq}
use oysterpack_near_stake_to.Contract.State.{Contract}
use oysterpack_near_stake_to.Contract.Monad.{>>=-eq-ok, lift-eq-ok}
use oysterpack_near_stake_to.Contract.Accounts.{save_registered_account}
use oysterpack_near_stake_to.Contract.Accounts.Saving.{registered, lookup_registered_account-cases}
use oysterpack_near_stake_to.Contract.FungibleToken.{
  transfer_call_receiver_unused_amount, refund_sender, refund_from, ft_resolve_transfer_call,
}
use oysterpack_near_stake_to.Contract.FungibleToken.Moving.{stake_of, stake_of_all}
use oysterpack_near_stake_to.Contract.FungibleToken.Ledger.{Ledger, ledger, credit}
use oysterpack_near_stake_to.Contract.FungibleToken.Crediting.{
  save-stored, save-total, stake_of-stored, refund_sender-Credited,
}

-- The amount is taken off what the holder has.
abbrev pub debit : ℕ → ℕ → Ledger → Ledger
debit k amount l j = if k == j then l j - amount else l j

unused_le_amount :
    (env : Env) (amount unused : ℕ)
    → transfer_call_receiver_unused_amount env amount ≡ ok unused
    → unused ≤ amount
unfolding transfer_call_receiver_unused_amount
unused_le_amount env amount unused h = ground arith

-- What the refund leaves of the receiver's and the sender's STAKE and of the supply, and how much it is.
pub record Refunded (from to unused refund : ℕ) (c d : Contract) : Type 0 where
  pub is_refund : refund ≡ (if ltb (stake_of to c) unused then stake_of to c else unused)
  pub balances :
      (j : ℕ)
      → stake_of j d ≡ (
          if is_some (Dict.get from c.accounts)
          then credit from refund (debit to refund (ledger c)) j
          else debit to refund (ledger c) j)
  pub burned :
      d.total_stake.amount + (if is_some (Dict.get from c.accounts) then 0 else refund)
      ≡ c.total_stake.amount
  pub in_step : stake_of_all d + c.total_stake.amount ≡ stake_of_all c + d.total_stake.amount
  pub rest : d ≡ record c { accounts = d.accounts; total_stake = d.total_stake }

-- Nothing is refunded where nothing is unused, or the receiver has nothing.
none-Refunded :
    (from to unused refund : ℕ) (c d : Contract)
    → (unused ≡ 0) ⊎ (stake_of to c ≡ 0)
    → refund ≡ 0
    → d ≡ c
    → Refunded from to unused refund c d
none-Refunded from to unused refund c d nothing zero same = record {
  is_refund = ground (arith, nothing, zero);
  balances = λ j. ground (arith, zero, same);
  burned = ground (arith, zero, same);
  in_step = ground (arith, same);
  rest = ground (arith, same);
}

refund_from-Refunded :
    (env : Env) (sender_id unused : ℕ) (r : RegisteredAccount) (o : Option TimestampedStakeBalance)
    (c d : Contract) (refund : ℕ)
    → Dict.get r.id c.accounts ≡ some r.account
    → r.account.stake ≡ o
    → refund_from env sender_id unused r o c ≡ ok (refund, d)
    → Refunded (env.sha256 sender_id) r.id unused refund c d
unfolding refund_from
refund_from-Refunded env sender_id unused r none c d refund found has h =
    none-Refunded (env.sha256 sender_id) r.id unused refund c d (inr (ground (arith, found, has)))
      (ground (arith, h)) (ground (arith, h))
refund_from-Refunded env sender_id unused r (some balance) c d refund found has h =
    let from = env.sha256 sender_id in
    let n = if ltb balance.amount unused then balance.amount else unused in
    let (b, e, k) = lift-eq-ok (apply_stake_debit env r.account n) _ c h in
    let p : RegisteredAccount = record { account = b; id = r.id } in
    let ((_, f), k1, k2) = >>=-eq-ok (save_registered_account p) _ c k in
    let ((_, g), k3, k4) = >>=-eq-ok (refund_sender env sender_id n) _ f k2 in
    let (less, _) = apply_stake_debit-eq env r.account b n e in
    let (change, rest) = save-total p r.account c f found k1 in
    let x = refund_sender-Credited env sender_id n f g k3 in
    let supply : f.total_stake.amount ≡ c.total_stake.amount =
      ap (λ (t : Contract). t.total_stake.amount) rest in
    let end : g ≡ d = ap (λ (t : ℕ × Contract). t.1) (ok-injective k4) in
    let all = ap stake_of_all end in
    let last = ap (λ (t : Contract). t.total_stake.amount) end in
    let is_refund : n ≡ refund = ap (λ (t : ℕ × Contract). t.0) (ok-injective k4) in
    let stored = save-stored p r.account c f found k1 in
    let had : stake_of r.id c ≡ balance.amount = ground (arith, found, has) in
    let known : is_some (Dict.get from f.accounts) ≡ is_some (Dict.get from c.accounts) =
      ground (arith, stored, found, get-insert from r.id b c.accounts) in
    let debited : (j : ℕ) → stake_of j f ≡ debit r.id refund (ledger c) j =
      λ j. ground (arith, stake_of-stored j r.id b c f stored, less, found, is_refund) in
    record {
      is_refund = ground (arith, is_refund, had);
      balances = λ j. ground (arith, x.credited j, known, end, debited j, is_refund);
      burned = ground (arith, x.burned, known, supply, last, is_refund);
      in_step = omega (arith, less, change, x.balanced.0, supply, all, last);
      rest = ground (arith, rest, x.balanced.1, end);
    }

-- Resolving a transfer call, if it succeeds, refunds what the receiver's contract left unused, which
-- is at most the amount transferred, or all that is stored of the receiver if that is less. The
-- refund comes off the receiver's STAKE. If the sender is registered, its STAKE grows by the refund and
-- the supply stays; if not, the refund leaves the supply. No other account's STAKE changes, the STAKE
-- of all accounts together and the supply change by the same, and nothing but accounts and the supply
-- changes.
pub ft_resolve_transfer_call-Refunded :
    (env : Env) (sender_id receiver_id amount refund : ℕ) (c d : Contract)
    → ft_resolve_transfer_call env sender_id receiver_id amount c ≡ ok (refund, d)
    → (unused : ℕ) × (transfer_call_receiver_unused_amount env amount ≡ ok unused)
      × (unused ≤ amount)
      × Refunded (env.sha256 sender_id) (env.sha256 receiver_id) unused refund c d
unfolding ft_resolve_transfer_call
ft_resolve_transfer_call-Refunded env sender_id receiver_id amount refund c d h =
    let from = env.sha256 sender_id in
    let to = env.sha256 receiver_id in
    let (unused, e, k) = lift-eq-ok (transfer_call_receiver_unused_amount env amount) _ c h in
    let le = unused_le_amount env amount unused e in
    let refunded : Refunded from to unused refund c d = elim (Bool-cases (ltb 0 unused)) [
      | inl some_unused ↦
          elim (lookup_registered_account-cases env receiver_id _ _ c (rw some_unused at k)) [
            | inl (missing, k2) ↦
                none-Refunded from to unused refund c d (inr (ground (arith, missing)))
                  (ground (arith, k2)) (ground (arith, k2))
            | inr (r, found, k2) ↦
                refund_from-Refunded env sender_id unused (registered env receiver_id r) r.stake c d
                  refund found refl k2
          ]
      | inr none_unused ↦
          let zero : unused ≡ 0 = ground (arith, none_unused) in
          let end : (unused, c) ≡ (refund, d) = ok-injective (rw none_unused at k) in
          none-Refunded from to unused refund c d (inl zero)
            (sym (ap (λ (t : ℕ × Contract). t.0) end) ∙ zero)
            (sym (ap (λ (t : ℕ × Contract). t.1) end))
    ] in
    (unused, e, le, refunded)
