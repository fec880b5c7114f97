-- ===== src/Contract/Claims/Accounting.antt =====
-- Accounting for batched NEAR: what the accounts have in the batch of an ID against what the contract
-- holds for it, in its batches and as a receipt (contract/src/contract/staking_service.rs).
use oysterpack_near_stake_to.Prelude.{
  ℕ, inl, inr, Option-cases, ◌+◌, ◌≡◌, refl, Bool, true, false, Option, none, some, ◌==◌, arith,
  if◌then◌else◌,
}
use oysterpack_near_stake_to.Prelude.Dict
use oysterpack_near_stake_to.Prelude.Dict.{Dict, total}
use oysterpack_near_stake_to.Near.Error.{ok}
use oysterpack_near_stake_to.Near.Word.{sub_u128}
use oysterpack_near_stake_to.Near.Env.{Env}
use oysterpack_near_stake_to.Domain.Batch.{StakeBatch}
use oysterpack_near_stake_to.Domain.Receipt.{StakeBatchReceipt, stake_tokens_issued}
use oysterpack_near_stake_to.Domain.Account.{Account, apply_stake_credit}
use oysterpack_near_stake_to.Domain.Account.Balances.{apply_stake_credit-eq}
use oysterpack_near_stake_to.Domain.StakeTokenValue.{near_to_stake}
use oysterpack_near_stake_to.Contract.State.{Contract}
use oysterpack_near_stake_to.Contract.Monad.{M, pure, >>=-eq-ok, lift-eq-ok, ◌>>=◌}
use oysterpack_near_stake_to.Contract.Claims.{
  claim_stake_tokens_for_batch, claim_stake_batch, clear_stake_batch, clear_next_stake_batch,
  keep_stake_receipt,
}

-- The NEAR in a batch, if it has that ID.
abbrev pub in_batch : ℕ → Option StakeBatch → ℕ
in_batch k none = 0
in_batch k (some b) = if b.batch_id == k then b.balance.amount else 0

abbrev pub batched : ℕ → Account → ℕ
batched k a = in_batch k a.stake_batch + in_batch k a.next_stake_batch

-- What all accounts have in the batches of that ID.
abbrev pub due : ℕ → Contract → ℕ
due k c = total (batched k) c.accounts

abbrev pub unclaimed : Option StakeBatchReceipt → ℕ
unclaimed none = 0
unclaimed (some r) = r.staked_near

abbrev pub held_by_receipt : ℕ → Contract → ℕ
held_by_receipt k c = unclaimed (Dict.get k c.stake_batch_receipts)

-- What the contract holds for the batch of that ID.
abbrev pub held : ℕ → Contract → ℕ
held k c = in_batch k c.stake_batch + in_batch k c.next_stake_batch + held_by_receipt k c

-- A claim of a stake batch that finds its receipt, or one that does nothing.
pub data BatchClaim (env : Env) (clear : Account → Account) (a b : Account) (o : Option StakeBatch)
    (flag : Bool) (c d : Contract) : Type 0 where
  idle : b ≡ a → d ≡ c → flag ≡ false → BatchClaim env clear a b o flag c d
  paid :
      (batch : StakeBatch) (r q : StakeBatchReceipt) (e : Account) (stake : ℕ)
      → o ≡ some batch
      → Dict.get batch.batch_id c.stake_batch_receipts ≡ some r
      → apply_stake_credit env a stake ≡ ok e
      → stake_tokens_issued r batch.balance.amount ≡ ok q
      → b ≡ clear e
      → d ≡ keep_stake_receipt batch.batch_id q c
      → flag ≡ true
      → BatchClaim env clear a b o flag c d

pub claim_stake_batch-BatchClaim :
    (env : Env) (clear : Account → Account) (a b : Account) (o : Option StakeBatch) (flag : Bool)
    (c d : Contract)
    → claim_stake_batch env clear a o c ≡ ok ((b, flag), d)
    → BatchClaim env clear a b o flag c d
unfolding claim_stake_batch claim_stake_tokens_for_batch
claim_stake_batch-BatchClaim env clear a b none flag c d h =
    idle (ground (arith, h)) (ground (arith, h)) (ground (arith, h))
claim_stake_batch-BatchClaim env clear a b (some batch) flag c d h =
    elim (Option-cases (Dict.get batch.batch_id c.stake_batch_receipts)) [
      | inl missing ↦
          idle (ground (arith, missing, h)) (ground (arith, missing, h))
            (ground (arith, missing, h))
      | inr (r, found) ↦
          let rest : Account → M (Account × Bool) = λ credited. pure (clear credited, true) in
          let m : (claim_stake_tokens_for_batch env a batch r >>= rest) c ≡ ok ((b, flag), d) =
            ground (arith, found, h) in
          let ((e, l), e1, h1) = >>=-eq-ok (claim_stake_tokens_for_batch env a batch r) rest c m in
          let (stake, _, k1) =
            lift-eq-ok (near_to_stake r.stake_token_value batch.balance.amount) _ c e1 in
          let (credited, f2, k2) = lift-eq-ok (apply_stake_credit env a stake) _ c k1 in
          let (q, f3, k3) = lift-eq-ok (stake_tokens_issued r batch.balance.amount) _ c k2 in
          paid batch r q credited stake refl found f2 f3 (ground (arith, k3, h1))
            (ground (arith, k3, h1)) (ground (arith, h1))
    ]

pub BatchClaim-idle :
    {env : Env} {clear : Account → Account} {a b : Account} {o : Option StakeBatch} {flag : Bool}
    {c d : Contract}
    → BatchClaim env clear a b o flag c d
    → flag ≡ false
    → b ≡ a
BatchClaim-idle (idle same _ _) h = same
BatchClaim-idle (paid _ _ _ _ _ _ _ _ _ _ _ t) h = absurd (ground (arith, t, h))

module _ (c d : Contract) (k : ℕ) where
  pub claimed_off_receipt :
      (batch : StakeBatch) (r q : StakeBatchReceipt)
      → Dict.get batch.batch_id c.stake_batch_receipts ≡ some r
      → stake_tokens_issued r batch.balance.amount ≡ ok q
      → d ≡ keep_stake_receipt batch.batch_id q c
      → in_batch k (some batch) + held_by_receipt k d ≡ held_by_receipt k c
  unfolding stake_tokens_issued sub_u128
  claimed_off_receipt batch r q found e s = ground (
    arith,
    found,
    e,
    s,
    Dict.get-insert k batch.batch_id q c.stake_batch_receipts,
    Dict.get-remove k batch.batch_id c.stake_batch_receipts,
  )

  module _ (env : Env) (a b : Account) (flag : Bool) where
    pub claim_current-accounted :
        BatchClaim env clear_stake_batch a b a.stake_batch flag c d
        → batched k b + held_by_receipt k c ≡ batched k a + held_by_receipt k d
    claim_current-accounted (idle same kept _) = ground (arith, same, kept)
    claim_current-accounted (paid batch r q e stake here found credited issued cleared kept _) =
        ground (
          arith,
          here,
          cleared,
          apply_stake_credit-eq env a e stake credited,
          claimed_off_receipt batch r q found issued kept,
        )

    pub claim_next-accounted :
        BatchClaim env clear_next_stake_batch a b a.next_stake_batch flag c d
        → batched k b + held_by_receipt k c ≡ batched k a + held_by_receipt k d
    claim_next-accounted (idle same kept _) = ground (arith, same, kept)
    claim_next-accounted (paid batch r q e stake here found credited issued cleared kept _) =
        ground (
          arith,
          here,
          cleared,
          apply_stake_credit-eq env a e stake credited,
          claimed_off_receipt batch r q found issued kept,
        )
