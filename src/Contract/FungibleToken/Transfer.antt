-- ===== src/Contract/FungibleToken/Transfer.antt =====
-- What `ft_transfer` (contract/src/contract/fungible_token.rs) does to the balances of STAKE.
use oysterpack_near_stake_to.Prelude.{
  ℕ, ◌+◌, ◌≡◌, ◌≢◌, some, arith, refl, sym, ap, subst, ◌∙◌, ◌==◌, ltb,
}
use oysterpack_near_stake_to.Prelude.Dict
use oysterpack_near_stake_to.Prelude.Dict.{get-insert, total-insert, insert-insert}
use oysterpack_near_stake_to.Near.Error.{
  Result, ok, ok-injective, account_not_registered, one_yocto_near_required,
  token_amount_must_not_be_zero,
}
use oysterpack_near_stake_to.Near.Error
use oysterpack_near_stake_to.Near.Env.{Env}
use oysterpack_near_stake_to.Domain.Account.{Account, RegisteredAccount, stake_amount}
use oysterpack_near_stake_to.Contract.State.{Contract}
use oysterpack_near_stake_to.Contract.Monad.{>>=-eq-ok, lift-eq-ok}
use oysterpack_near_stake_to.Contract.Accounts.{predecessor_registered_account}
use oysterpack_near_stake_to.Contract.Accounts.Saving.{registered, registered_account-eq-ok}
use oysterpack_near_stake_to.Contract.Claims.{claim_receipt_funds}
use oysterpack_near_stake_to.Contract.Claims.Frame.{
  Claimed, claim_receipt_funds-Claimed, stored-found,
}
use oysterpack_near_stake_to.Contract.FungibleToken.{ft_transfer}
use oysterpack_near_stake_to.Contract.FungibleToken.Moving.{
  account_stake, stake_of, stake_of_all, Moved, move_stake-Moved, Moved-moves, Moved-mints,
}

-- A transfer, taken apart: the sender's account as it is stored and as it is after its receipts are
-- claimed, and the state between.
record Transferred (env : Env) (receiver_id amount : ℕ) (c d : Contract) : Type 0 where
  sender : Account
  claimed : RegisteredAccount
  between : Contract
  is_sender : Dict.get (env.sha256 env.predecessor_account_id) c.accounts ≡ some sender
  claims :
      claim_receipt_funds env (registered env env.predecessor_account_id sender) c
      ≡ ok (claimed, between)
  moved : Moved claimed (env.sha256 receiver_id) amount between d
  frame : Claimed (registered env env.predecessor_account_id sender) claimed c between

ft_transfer-Transferred :
    (env : Env) (receiver_id amount : ℕ) (c d : Contract)
    → ft_transfer env receiver_id amount c ≡ ok (tt, d)
    → Transferred env receiver_id amount c d
unfolding ft_transfer predecessor_registered_account
ft_transfer-Transferred env receiver_id amount c d h =
    let (_, _, k1) =
      lift-eq-ok (Error.assert (env.attached_deposit == 1) one_yocto_near_required) _ c h in
    let (_, _, k2) =
      lift-eq-ok (Error.assert (ltb 0 amount) token_amount_must_not_be_zero) _ c k1 in
    let (sender, found, k3) = registered_account-eq-ok env env.predecessor_account_id _ c k2 in
    let r = registered env env.predecessor_account_id sender in
    let ((b, e), h4, k4) = >>=-eq-ok (claim_receipt_funds env r) _ c k3 in
    let frame = claim_receipt_funds-Claimed env r b c e found h4 in
    record {
      sender = sender;
      claimed = b;
      between = e;
      is_sender = found;
      claims = h4;
      moved = move_stake-Moved env b receiver_id amount frame.stored e d (stored-found frame) k4;
      frame = frame;
    }

-- The sender's account is written over what the claim stored of it.
written :
    {env : Env} {receiver_id amount : ℕ} {c d : Contract} (k : ℕ)
    (x : Transferred env receiver_id amount c d)
    → k ≡ env.sha256 env.predecessor_account_id
    → Dict.insert k x.moved.paid x.between.accounts
      ≡ Dict.insert (env.sha256 env.predecessor_account_id) x.moved.paid c.accounts
written {env} {c} k x e = ground (
  arith,
  x.frame.is_stored,
  e,
  insert-insert (env.sha256 env.predecessor_account_id) x.moved.paid x.frame.stored c.accounts,
)

supply_kept :
    {env : Env} {receiver_id amount : ℕ} {c d : Contract}
    → Transferred env receiver_id amount c d
    → d.total_stake ≡ c.total_stake
supply_kept x =
    ap (λ (t : Contract). t.total_stake) x.moved.result
    ∙ ap (λ (t : Contract). t.total_stake) x.frame.within

-- The account of the predecessor.
abbrev pub sender_key : Env → ℕ
sender_key env = env.sha256 env.predecessor_account_id

-- What a transfer between two accounts does, from the state `between` on, in which the sender's
-- receipts are claimed.
pub record Moves (env : Env) (receiver_id amount : ℕ) (c d : Contract) : Type 0 where
  pub sender : Account
  pub claimed : RegisteredAccount
  pub between : Contract
  pub is_sender : Dict.get (sender_key env) c.accounts ≡ some sender
  pub claims :
      claim_receipt_funds env (registered env env.predecessor_account_id sender) c
      ≡ ok (claimed, between)
  pub paid : Account
  pub credited : Account
  pub debit : account_stake paid + amount ≡ account_stake claimed.account
  pub credit : account_stake credited ≡ stake_of (env.sha256 receiver_id) c + amount
  pub accounts :
      d.accounts
      ≡ Dict.insert (env.sha256 receiver_id) credited (Dict.insert (sender_key env) paid c.accounts)
  pub all_kept : stake_of_all d ≡ stake_of_all between
  pub supply : d.total_stake ≡ c.total_stake

-- A transfer between two accounts that succeeds moves exactly the amount from what the sender has once its
-- receipts are claimed to the receiver, and changes no third account. All accounts together have
-- what they had after the claim, and the supply of STAKE does not change.
pub ft_transfer-Moves :
    (env : Env) (receiver_id amount : ℕ) (c d : Contract)
    → env.sha256 receiver_id ≢ sender_key env
    → ft_transfer env receiver_id amount c ≡ ok (tt, d)
    → Moves env receiver_id amount c d
ft_transfer-Moves env receiver_id amount c d ne h =
    let x = ft_transfer-Transferred env receiver_id amount c d h in
    let b = x.claimed in
    let id = x.frame.same_id in
    let to = env.sha256 receiver_id in
    let (_, _, all) =
      Moved-moves b to amount x.frame.stored x.between d x.moved (stored-found x.frame)
        (ap stake_amount x.frame.stored_stake) (λ e. ne (e ∙ id)) in
    let receiver_before : Dict.get to c.accounts ≡ some x.moved.receiver = ground (
      arith,
      x.moved.is_receiver,
      x.frame.is_stored,
      get-insert to (sender_key env) x.frame.stored c.accounts,
      ne,
    ) in
    let before : stake_of to c ≡ account_stake x.moved.receiver =
      rw (stake_of, receiver_before) refl in
    record {
      sender = x.sender;
      claimed = b;
      between = x.between;
      is_sender = x.is_sender;
      claims = x.claims;
      paid = x.moved.paid;
      credited = x.moved.credited;
      debit = x.moved.enough;
      credit = x.moved.more ∙ ap (λ n. n + amount) (sym before);
      accounts =
          ap (λ (t : Contract). t.accounts) x.moved.result
          ∙ ap (Dict.insert to x.moved.credited) (written b.id x id);
      all_kept = all;
      supply = supply_kept x;
    }

-- What a transfer of an account to itself does.
pub record Mints (env : Env) (amount : ℕ) (c d : Contract) : Type 0 where
  sender : Account
  claimed : RegisteredAccount
  between : Contract
  is_sender : Dict.get (sender_key env) c.accounts ≡ some sender
  claims :
      claim_receipt_funds env (registered env env.predecessor_account_id sender) c
      ≡ ok (claimed, between)
  credit : stake_of (sender_key env) d ≡ account_stake claimed.account + amount
  all_grow : stake_of_all d ≡ stake_of_all between + amount
  supply : d.total_stake ≡ c.total_stake

-- A transfer of an account to itself that succeeds creates STAKE: the account ends with the amount on top of what
-- it has once its receipts are claimed, and so do all accounts together, while the supply of STAKE
-- that the contract records does not change.
pub ft_transfer-Mints :
    (env : Env) (receiver_id amount : ℕ) (c d : Contract)
    → env.sha256 receiver_id ≡ sender_key env
    → ft_transfer env receiver_id amount c ≡ ok (tt, d)
    → Mints env amount c d
ft_transfer-Mints env receiver_id amount c d eq h =
    let x = ft_transfer-Transferred env receiver_id amount c d h in
    let b = x.claimed in
    let (now, all) =
      Moved-mints b (env.sha256 receiver_id) amount x.frame.stored x.between d x.moved
        (stored-found x.frame) (ap stake_amount x.frame.stored_stake) (eq ∙ sym x.frame.same_id) in
    record {
      sender = x.sender;
      claimed = b;
      between = x.between;
      is_sender = x.is_sender;
      claims = x.claims;
      credit = subst (λ k. stake_of k d ≡ account_stake b.account + amount) x.frame.same_id now;
      all_grow = all;
      supply = supply_kept x;
    }
