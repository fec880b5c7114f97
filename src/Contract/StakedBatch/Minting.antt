-- ===== src/Contract/StakedBatch/Minting.antt =====
-- What minting STAKE for a batch does (`mint_stake_and_update_stake_token_value` in
-- contract/src/contract/staking_workflow_callbacks.rs).
use oysterpack_near_stake_to.Prelude.{ℕ, ◌+◌, ◌≡◌, ap, sym, ◌∙◌, arith}
use oysterpack_near_stake_to.Near.Error.{ok}
use oysterpack_near_stake_to.Near.Env.{Env}
use oysterpack_near_stake_to.Domain.StakeBalance
use oysterpack_near_stake_to.Domain.StakeBalance.{TimestampedStakeBalance}
use oysterpack_near_stake_to.Domain.Balances.{stake_credit-amount, stake_debit-amount}
use oysterpack_near_stake_to.Domain.StakeTokenValue.{near_to_stake, from_env}
use oysterpack_near_stake_to.Domain.Batch.{StakeBatch}
use oysterpack_near_stake_to.Contract.State.{Contract}
use oysterpack_near_stake_to.Contract.Monad.{>>=-eq-ok, lift-eq-ok}
use oysterpack_near_stake_to.Contract.TokenValue.{staked_near_balance, update_stake_token_value}
use oysterpack_near_stake_to.Contract.TokenValue.Worth.{
  Updated, risen, held, update-Updated, new-fields, compensate-eq,
}
use oysterpack_near_stake_to.Contract.StakedBatch.{
  mint_stake, align_stake, mint_stake_and_update_stake_token_value,
}

-- An update changes the value and the liquidity pool only, and the value quotes the whole supply.
pub update-frame :
    (env : Env) (balance : ℕ) (c d : Contract)
    → update_stake_token_value env balance c ≡ ok (tt, d)
    → (d ≡ record c {
      near_liquidity_pool = d.near_liquidity_pool;
      stake_token_value = d.stake_token_value;
    })
      × (d.stake_token_value.total_stake_supply ≡ c.total_stake.amount)
update-frame env balance c d h = frame (update-Updated env balance c d h)
  where
    frame :
        Updated env balance c d
        → (d ≡ record c {
          near_liquidity_pool = d.near_liquidity_pool;
          stake_token_value = d.stake_token_value;
        })
          × (d.stake_token_value.total_stake_supply ≡ c.total_stake.amount)
    frame (risen v current next made f g rise same) =
        let (_, sup, _) = new-fields (from_env env) balance c.total_stake.amount made in
        (ground (arith, same), ground (arith, same, sup))
    frame (held v current next made f g fall k) =
        let (same, _, _, _) = compensate-eq v current balance c d k in
        (ground (arith, same), ground (arith, same))

-- What minting does. STAKE is minted at the value that the contract has, which gives `first` with an
-- updated value; what the batch is worth at that value replaces what was minted, and the value is
-- updated again.
pub record Minted (env : Env) (staked_balance unstaked_balance : ℕ) (batch : StakeBatch)
    (c d : Contract) : Type 0 where
  pub balance : ℕ
  pub reported : staked_near_balance c staked_balance unstaked_balance ≡ ok balance
  pub minted : ℕ
  pub at_old_value : near_to_stake c.stake_token_value batch.balance.amount ≡ ok minted
  pub raised : TimestampedStakeBalance
  pub first : Contract
  pub is_raised : raised.amount ≡ c.total_stake.amount + minted
  pub updates :
      update_stake_token_value env balance (record c { total_stake = raised }) ≡ ok (tt, first)
  pub supplied : first.stake_token_value.total_stake_supply ≡ c.total_stake.amount + minted
  pub stake : ℕ
  pub worth : near_to_stake first.stake_token_value batch.balance.amount ≡ ok stake
  pub issued : d.total_stake.amount ≡ c.total_stake.amount + stake
  pub updates_again :
      update_stake_token_value env balance (record first { total_stake = d.total_stake })
      ≡ ok (tt, d)
  pub quoted : d.stake_token_value.total_stake_supply ≡ d.total_stake.amount
  pub rest : d ≡ record c {
    near_liquidity_pool = d.near_liquidity_pool;
    stake_token_value = d.stake_token_value;
    total_stake = d.total_stake;
  }

mint_stake-eq :
    (env : Env) (batch : StakeBatch) (c d : Contract) (minted : ℕ)
    → mint_stake env batch c ≡ ok (minted, d)
    → (d.total_stake.amount ≡ c.total_stake.amount + minted)
      × (d ≡ record c { total_stake = d.total_stake })
      × (near_to_stake c.stake_token_value batch.balance.amount ≡ ok minted)
unfolding mint_stake
mint_stake-eq env batch c d minted h =
    let (stake, e, k) = lift-eq-ok (near_to_stake c.stake_token_value batch.balance.amount) _ c h in
    let (total, f, l) = lift-eq-ok (StakeBalance.credit env c.total_stake stake) _ c k in
    let more = stake_credit-amount env c.total_stake total stake f in
    (ground (arith, l, more), ground (arith, l), ground (arith, l, e))

align_stake-eq :
    (env : Env) (minted value : ℕ) (c d : Contract)
    → align_stake env minted value c ≡ ok (tt, d)
    → (d.total_stake.amount + minted ≡ c.total_stake.amount + value)
      × (d ≡ record c { total_stake = d.total_stake })
unfolding align_stake
align_stake-eq env minted value c d h =
    let (without, e, k) = lift-eq-ok (StakeBalance.debit env c.total_stake minted) _ c h in
    let (total, f, l) = lift-eq-ok (StakeBalance.credit env without value) _ c k in
    let less = stake_debit-amount env c.total_stake without minted e in
    let more = stake_credit-amount env without total value f in ground (arith, less, more)

pub mint-Minted :
    (env : Env) (staked_balance unstaked_balance : ℕ) (batch : StakeBatch) (c d : Contract)
    → mint_stake_and_update_stake_token_value env staked_balance unstaked_balance batch c
      ≡ ok (tt, d)
    → Minted env staked_balance unstaked_balance batch c d
unfolding mint_stake_and_update_stake_token_value
mint-Minted env staked_balance unstaked_balance batch c d h =
    let (balance, reported, k) =
      lift-eq-ok (staked_near_balance c staked_balance unstaked_balance) _ c h in
    let ((minted, e), e1, k1) = >>=-eq-ok (mint_stake env batch) _ c k in
    let ((_, f), e2, k2) = >>=-eq-ok (update_stake_token_value env balance) _ e k1 in
    let (stake, worth, k3) =
      lift-eq-ok (near_to_stake f.stake_token_value batch.balance.amount) _ f k2 in
    let ((_, g), e4, k4) = >>=-eq-ok (align_stake env minted stake) _ f k3 in
    let (more, rest1, at_old) = mint_stake-eq env batch c e minted e1 in
    let (rest2, supplied) = update-frame env balance e f e2 in
    let (aligned, rest3) = align_stake-eq env minted stake f g e4 in
    let (rest4, quoted) = update-frame env balance g d k4 in
    let again : record f { total_stake = d.total_stake } ≡ g = ground (arith, rest3, rest4) in
    record {
      balance = balance;
      reported = reported;
      minted = minted;
      at_old_value = at_old;
      raised = e.total_stake;
      first = f;
      is_raised = more;
      updates = ap (update_stake_token_value env balance) (sym rest1) ∙ e2;
      supplied = supplied ∙ more;
      stake = stake;
      worth = worth;
      issued = ground (arith, more, rest2, aligned, rest4);
      updates_again = ap (update_stake_token_value env balance) again ∙ k4;
      quoted = ground (arith, quoted, rest4);
      rest = ground (arith, rest1, rest2, rest3, rest4);
    }
