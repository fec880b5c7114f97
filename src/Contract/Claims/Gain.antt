-- ===== src/Contract/Claims/Gain.antt =====
-- What a claim adds to the STAKE of the account: what its stake batches are worth by the receipts
-- (contract/src/contract/staking_service.rs).
use oysterpack_near_stake_to.Prelude.{
  ℕ, ◌+◌, ◌-◌, ◌≡◌, true, ◌||◌, ap, ◌∙◌, Bool, Option, none, some, inl, inr, Option-cases, ◌==◌,
  if◌then◌else◌, arith,
}
use oysterpack_near_stake_to.Prelude.Dict
use oysterpack_near_stake_to.Prelude.Dict.{Dict}
use oysterpack_near_stake_to.Near.Error.{ok, err}
use oysterpack_near_stake_to.Near.Word.{sub_u128}
use oysterpack_near_stake_to.Near.Env.{Env}
use oysterpack_near_stake_to.Domain.Batch.{StakeBatch}
use oysterpack_near_stake_to.Domain.Receipt.{StakeBatchReceipt, stake_tokens_issued}
use oysterpack_near_stake_to.Domain.StakeTokenValue.{near_to_stake}
use oysterpack_near_stake_to.Domain.Account.{
  Account, RegisteredAccount, stake_amount, apply_stake_credit,
}
use oysterpack_near_stake_to.Domain.Account.Balances.{apply_stake_credit-eq}
use oysterpack_near_stake_to.Contract.State.{Contract}
use oysterpack_near_stake_to.Contract.Monad.{M, pure, ◌>>=◌, >>=-eq-ok, lift-eq-ok}
use oysterpack_near_stake_to.Contract.Accounts.{save_registered_account}
use oysterpack_near_stake_to.Contract.Claims.{
  claim_stake_tokens_for_batch, claim_stake_batch, claim_stake_batch_receipts, claim_by_lock,
  claim_redeem_stake_batch_receipts, claim_receipt_funds, clear_stake_batch, clear_next_stake_batch,
}
use oysterpack_near_stake_to.Contract.Claims.Accounting.{
  BatchClaim, idle, paid, claim_stake_batch-BatchClaim,
}
use oysterpack_near_stake_to.Contract.Claims.Steps.{shift_stake_batch_keeps}
use oysterpack_near_stake_to.Contract.Claims.Redeemed.{claim_by_lock-RedeemOnly}
use oysterpack_near_stake_to.Contract.Views.Agreement.{end-account}

-- The STAKE that a batch is worth by its receipt; nothing, if it has none.
abbrev pub receipt_worth : Dict StakeBatchReceipt → Option StakeBatch → ℕ
receipt_worth m none = 0
receipt_worth m (some batch) = elim (Dict.get batch.batch_id m) [
  | none ↦ 0
  | some r ↦ elim (near_to_stake r.stake_token_value batch.balance.amount) [ ok n ↦ n | err _ ↦ 0 ]
]

-- The receipts once the batch is taken off its own, which goes with its last NEAR.
abbrev pub without_batch : Dict StakeBatchReceipt → Option StakeBatch → Dict StakeBatchReceipt
without_batch m none = m
without_batch m (some batch) = elim (Dict.get batch.batch_id m) [
  | none ↦ m
  | some r ↦
      if r.staked_near - batch.balance.amount == 0
      then Dict.remove batch.batch_id m
      else Dict.insert batch.batch_id
          (record r { staked_near = r.staked_near - batch.balance.amount }) m
]

-- What the account is owed for its two batches.
abbrev pub owed_to : Dict StakeBatchReceipt → Account → ℕ
owed_to m a =
    receipt_worth m a.stake_batch + receipt_worth (without_batch m a.stake_batch) a.next_stake_batch

-- What is owed under a key.
abbrev pub owed : ℕ → Contract → ℕ
owed k c = elim (Dict.get k c.accounts) [ none ↦ 0 | some a ↦ owed_to c.stake_batch_receipts a ]

-- What claiming one batch does to the STAKE and to the receipts.
record Gained (a b : Account) (o : Option StakeBatch) (c d : Contract) : Type 0 where
  stake : stake_amount b.stake ≡ stake_amount a.stake + receipt_worth c.stake_batch_receipts o
  receipts : d.stake_batch_receipts ≡ without_batch c.stake_batch_receipts o

claim_stake_batch-Gained :
    (env : Env) (clear : Account → Account) (a b : Account) (o : Option StakeBatch) (flag : Bool)
    (c d : Contract)
    → ((e : Account) → (clear e).stake ≡ e.stake)
    → claim_stake_batch env clear a o c ≡ ok ((b, flag), d)
    → Gained a b o c d
unfolding claim_stake_batch claim_stake_tokens_for_batch stake_tokens_issued sub_u128
claim_stake_batch-Gained env clear a b none flag c d keeps h = record {
  stake = ground (arith, h);
  receipts = ground (arith, h);
}
claim_stake_batch-Gained env clear a b (some batch) flag c d keeps h =
    elim (Option-cases (Dict.get batch.batch_id c.stake_batch_receipts)) [
      | inl missing ↦ record {
        stake = ground (arith, missing, h);
        receipts = ground (arith, missing, h);
      }
      | inr (r, found) ↦
          let rest : Account → M (Account × Bool) = λ credited. pure (clear credited, true) in
          let m : (claim_stake_tokens_for_batch env a batch r >>= rest) c ≡ ok ((b, flag), d) =
            ground (arith, found, h) in
          let ((e, l), e1, h1) = >>=-eq-ok (claim_stake_tokens_for_batch env a batch r) rest c m in
          let (stake, f1, k1) =
            lift-eq-ok (near_to_stake r.stake_token_value batch.balance.amount) _ c e1 in
          let (credited, f2, k2) = lift-eq-ok (apply_stake_credit env a stake) _ c k1 in
          let (q, f3, k3) = lift-eq-ok (stake_tokens_issued r batch.balance.amount) _ c k2 in
          let (more, _) = apply_stake_credit-eq env a credited stake f2 in
          record {
            stake = ground (arith, found, f1, more, keeps credited, k3, h1);
            receipts = ground (arith, found, f3, k3, h1);
          }
    ]

-- The first claim leaves the next batch.
claim_current-next :
    (env : Env) (a b : Account) (flag : Bool) (c d : Contract)
    → claim_stake_batch env clear_stake_batch a a.stake_batch c ≡ ok ((b, flag), d)
    → b.next_stake_batch ≡ a.next_stake_batch
claim_current-next env a b flag c d h =
    by_claim (claim_stake_batch-BatchClaim env clear_stake_batch a b a.stake_batch flag c d h)
  where
    by_claim :
        BatchClaim env clear_stake_batch a b a.stake_batch flag c d
        → b.next_stake_batch ≡ a.next_stake_batch
    by_claim (idle same _ _) = ground (arith, same)
    by_claim (paid batch r q e stake _ _ credited _ cleared _ _) =
        ground (arith, cleared, apply_stake_credit-eq env a e stake credited)

-- A claim that succeeds adds to the account's STAKE what its stake batches are worth by their
-- receipts, and nothing else.
pub claim_receipt_funds-owed :
    (env : Env) (r b : RegisteredAccount) (c d : Contract)
    → claim_receipt_funds env r c ≡ ok (b, d)
    → stake_amount b.account.stake
      ≡ stake_amount r.account.stake + owed_to c.stake_batch_receipts r.account
unfolding claim_receipt_funds claim_redeem_stake_batch_receipts claim_stake_batch_receipts
claim_receipt_funds-owed env r b c d h =
    let a = r.account in
    let (((x, f), e), e1, k1) = >>=-eq-ok (claim_stake_batch_receipts env a) _ c h in
    let (((y, g), l), e2, h2) = >>=-eq-ok (claim_by_lock env x e.redeem_stake_batch_lock) _ e k1 in
    let (((a1, f1), d1), m1, n1) =
      >>=-eq-ok (claim_stake_batch env clear_stake_batch a a.stake_batch) _ c e1 in
    let (((a2, f2), d2), m2, n2) =
      >>=-eq-ok (claim_stake_batch env clear_next_stake_batch a1 a1.next_stake_batch) _ d1 n1 in
    let first =
      claim_stake_batch-Gained env clear_stake_batch a a1 a.stake_batch f1 c d1 (λ e. ground arith)
        m1 in
    let second =
      claim_stake_batch-Gained env clear_next_stake_batch a1 a2 a1.next_stake_batch f2 d1 d2
        (λ e. ground arith) m2 in
    let next_worth : receipt_worth d1.stake_batch_receipts a1.next_stake_batch
        ≡ receipt_worth (without_batch c.stake_batch_receipts a.stake_batch) a.next_stake_batch =
      ap (λ t. receipt_worth t a1.next_stake_batch) first.receipts
      ∙ ap (receipt_worth (without_batch c.stake_batch_receipts a.stake_batch))
          (claim_current-next env a a1 f1 c d1 m1) in
    let moved : stake_amount x.stake ≡ stake_amount a2.stake =
      ground (arith, n2, shift_stake_batch_keeps d2 a2) in
    let kept : stake_amount y.stake ≡ stake_amount x.stake =
      ap (λ (t : Account). stake_amount t.stake)
        (claim_by_lock-RedeemOnly env x y g e l e.redeem_stake_batch_lock e2).0 in
    let end : stake_amount b.account.stake ≡ stake_amount y.stake =
      ap (λ (t : RegisteredAccount). stake_amount t.account.stake)
        (end-account (f || g) (save_registered_account (record r { account = y }))
          (record r { account = y }) b l d h2) in
    omega (arith, end, kept, moved, first.stake, second.stake, next_worth)
