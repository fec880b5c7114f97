-- ===== src/Contract/FungibleToken/Moving.antt =====
-- The part of `ft_transfer` (contract/src/contract/fungible_token.rs) that moves the STAKE.
use oysterpack_near_stake_to.Prelude.{
  ℕ, ◌+◌, ◌≡◌, ◌≢◌, none, some, arith, refl, sym, ap, ◌∙◌, ◌==◌, Bool-cases, inl, inr,
}
use oysterpack_near_stake_to.Prelude.Dict
use oysterpack_near_stake_to.Prelude.Dict.{get-insert, total-insert, insert-insert}
use oysterpack_near_stake_to.Near.Error.{ok, ok-injective}
use oysterpack_near_stake_to.Near.Env.{Env}
use oysterpack_near_stake_to.Domain.Account.{
  Account, RegisteredAccount, apply_stake_debit, apply_stake_credit, apply_near_credit,
  stake_amount,
}
use oysterpack_near_stake_to.Domain.Account.Balances.{
  apply_stake_credit-eq, apply_stake_debit-eq, apply_near_credit-eq,
}
use oysterpack_near_stake_to.Contract.State.{Contract}
use oysterpack_near_stake_to.Contract.Monad.{◌>>◌, >>=-eq-ok, lift-eq-ok}
use oysterpack_near_stake_to.Contract.Accounts.{save_registered_account, store_account}
use oysterpack_near_stake_to.Contract.Accounts.Saving.{save_existing, registered_account-eq-ok}
use oysterpack_near_stake_to.Contract.FungibleToken.{move_stake}

-- The STAKE that is stored under a key.
abbrev pub account_stake : Account → ℕ
account_stake a = stake_amount a.stake

abbrev pub stake_of : ℕ → Contract → ℕ
stake_of id c = elim (Dict.get id c.accounts) [ none ↦ 0 | some a ↦ account_stake a ]

-- The STAKE of all accounts together.
abbrev pub stake_of_all : Contract → ℕ
stake_of_all c = Dict.total account_stake c.accounts

-- What a move of STAKE leaves behind: the receiver's old account with the amount on top is written
-- after the sender's account.
pub record Moved (b : RegisteredAccount) (to amount : ℕ) (e d : Contract) : Type 0 where
  pub paid : Account
  pub receiver : Account
  pub credited : Account
  pub enough : account_stake paid + amount ≡ account_stake b.account
  pub is_receiver : Dict.get to e.accounts ≡ some receiver
  pub more : account_stake credited ≡ account_stake receiver + amount
  pub result :
      d ≡ record e { accounts = Dict.insert to credited (Dict.insert b.id paid e.accounts) }

-- A stored key is stored after another write, under whatever key.
stored_still :
    (j k : ℕ) (v w : Account) (m : Dict.Dict Account)
    → Dict.get k m ≡ some w
    → (x : Account) × (Dict.get k (Dict.insert j v m) ≡ some x)
stored_still j k v w m e = elim (Bool-cases (j == k)) [
  | inl same ↦ (v, get-insert k j v m ∙ rw same refl)
  | inr other ↦ (w, get-insert k j v m ∙ rw other e)
]

-- Saving two accounts, of which the second may be the first.
save_twice :
    (p q : RegisteredAccount) (a r : Account) (e d : Contract)
    → Dict.get p.id e.accounts ≡ some a
    → Dict.get q.id e.accounts ≡ some r
    → (save_registered_account p >> save_registered_account q) e ≡ ok (tt, d)
    → d ≡ record e { accounts = Dict.insert q.id q.account (Dict.insert p.id p.account e.accounts) }
save_twice p q a r e d known other h =
    let f = store_account p.id p.account e in
    let first = save_existing p e a known in
    let ((u, m), k, l) =
      >>=-eq-ok (save_registered_account p) (λ _. save_registered_account q) e h in
    let same : m ≡ f = ap (λ (t : Unit {0} × Contract). t.1) (ok-injective (sym k ∙ first)) in
    let (v, e2) : (v : Account) × (Dict.get q.id f.accounts ≡ some v) =
      stored_still p.id q.id p.account r e.accounts other in
    let second : save_registered_account q f ≡ ok (tt, d) = rw same at l in
    ap (λ (t : Unit {0} × Contract). t.1) (ok-injective (sym second ∙ save_existing q f v e2))

pub move_stake-Moved :
    (env : Env) (b : RegisteredAccount) (receiver_id amount : ℕ) (a : Account) (e d : Contract)
    → Dict.get b.id e.accounts ≡ some a
    → move_stake env b receiver_id amount e ≡ ok (tt, d)
    → Moved b (env.sha256 receiver_id) amount e d
unfolding move_stake
move_stake-Moved env b receiver_id amount a e d known h =
    let (x, h1, k1) = lift-eq-ok (apply_stake_debit env b.account amount) _ e h in
    let (paid, h2, k2) = lift-eq-ok (apply_near_credit env x 1) _ e k1 in
    let (r, found, k3) = registered_account-eq-ok env receiver_id _ e k2 in
    let (credited, h4, k4) = lift-eq-ok (apply_stake_credit env r amount) _ e k3 in
    let (enough, _) = apply_stake_debit-eq env b.account x amount h1 in
    let (_, kept) = apply_near_credit-eq env x paid 1 h2 in
    let (more, _) = apply_stake_credit-eq env r credited amount h4 in
    let paid_stake : account_stake paid ≡ account_stake x = ap account_stake kept in
    let p : RegisteredAccount = record { account = paid; id = b.id } in
    let q : RegisteredAccount = record { account = credited; id = env.sha256 receiver_id } in
    record {
      paid = paid;
      receiver = r;
      credited = credited;
      enough = omega (arith, enough, paid_stake);
      is_receiver = found;
      more = more;
      result = save_twice p q a r e d known found k4;
    }

-- The balances after two writes, of which the second is a credit of the account as it was before.
module _ (b : RegisteredAccount) (to amount : ℕ) (stored : Account) (e d : Contract) where
  -- With different keys the STAKE moves.
  pub Moved-moves :
      Moved b to amount e d
      → Dict.get b.id e.accounts ≡ some stored
      → account_stake stored ≡ account_stake b.account
      → to ≢ b.id
      → (stake_of b.id d + amount ≡ account_stake b.account)
        × (stake_of to d ≡ stake_of to e + amount)
        × (stake_of_all d ≡ stake_of_all e)
  Moved-moves m known same ne =
      let w = Dict.insert b.id m.paid e.accounts in
      let written : d.accounts ≡ Dict.insert to m.credited w =
        ap (λ (x : Contract). x.accounts) m.result in
      let first = total-insert account_stake b.id m.paid stored e.accounts known in
      let still : Dict.get to w ≡ some m.receiver =
        ground (arith, get-insert to b.id m.paid e.accounts, m.is_receiver, ne) in
      let second = total-insert account_stake to m.credited m.receiver w still in
      let receiver_now : Dict.get to d.accounts ≡ some m.credited =
        ground (arith, written, get-insert to to m.credited w) in
      let sender_now : Dict.get b.id d.accounts ≡ some m.paid = ground (
        arith,
        written,
        get-insert b.id to m.credited w,
        get-insert b.id b.id m.paid e.accounts,
        ne,
      ) in
      let all : stake_of_all d ≡ Dict.total account_stake (Dict.insert to m.credited w) =
        ap (Dict.total account_stake) written in
      (
        rw (stake_of, sender_now) m.enough,
        rw (stake_of, receiver_now, stake_of, m.is_receiver) m.more,
        omega (arith, first, second, m.enough, m.more, same, all),
      )

  -- With the same key the credit is written over the debit.
  pub Moved-mints :
      Moved b to amount e d
      → Dict.get b.id e.accounts ≡ some stored
      → account_stake stored ≡ account_stake b.account
      → to ≡ b.id
      → (stake_of b.id d ≡ account_stake b.account + amount)
        × (stake_of_all d ≡ stake_of_all e + amount)
  Moved-mints m known same eq =
      let w = Dict.insert b.id m.paid e.accounts in
      let written : d.accounts ≡ Dict.insert to m.credited w =
        ap (λ (x : Contract). x.accounts) m.result in
      let first = total-insert account_stake b.id m.paid stored e.accounts known in
      let still : Dict.get to w ≡ some m.paid =
        ground (arith, get-insert to b.id m.paid e.accounts, eq) in
      let second = total-insert account_stake to m.credited m.paid w still in
      let now : Dict.get b.id d.accounts ≡ some m.credited =
        ground (arith, written, get-insert b.id to m.credited w, eq) in
      let all : stake_of_all d ≡ Dict.total account_stake (Dict.insert to m.credited w) =
        ap (Dict.total account_stake) written in
      let loaded : some m.receiver ≡ some stored =
        sym m.is_receiver ∙ (ap (λ k. Dict.get k e.accounts) eq ∙ known) in
      let unchanged : account_stake m.receiver ≡ account_stake b.account =
        ground (arith, loaded, same) in
      (
        rw (stake_of, now) (omega (arith, m.more, unchanged)),
        omega (arith, first, second, m.enough, m.more, same, all, unchanged),
      )
