-- ===== src/Contract/FungibleToken/Ledger.antt =====
-- The STAKE token as a ledger of amounts, and how `ft_transfer` and `claim_receipts` implement it
-- (contract/src/contract/fungible_token.rs and staking_service.rs).
use oysterpack_near_stake_to.Prelude.{
  ℕ, ◌+◌, ◌-◌, ◌≡◌, ◌≢◌, ◌≤◌, refl, sym, ap, ◌==◌, if◌then◌else◌, arith, List, [], ◌∷◌,
}
use oysterpack_near_stake_to.Prelude.Dict
use oysterpack_near_stake_to.Prelude.Dict.{get-insert}
use oysterpack_near_stake_to.Near.Error.{ok}
use oysterpack_near_stake_to.Near.Env.{Env}
use oysterpack_near_stake_to.Domain.Account.{stake_amount}
use oysterpack_near_stake_to.Contract.State.{Contract}
use oysterpack_near_stake_to.Contract.Monad.{>>=-eq-ok}
use oysterpack_near_stake_to.Contract.Accounts.{predecessor_registered_account}
use oysterpack_near_stake_to.Contract.Accounts.Saving.{registered, registered_account-eq-ok}
use oysterpack_near_stake_to.Contract.Claims.{claim_receipt_funds}
use oysterpack_near_stake_to.Contract.Claims.Frame.{claim_receipt_funds-Claimed}
use oysterpack_near_stake_to.Contract.Claims.Gain.{owed_to, owed, claim_receipt_funds-owed}
use oysterpack_near_stake_to.Contract.Withdrawals.{claim_receipts}
use oysterpack_near_stake_to.Contract.FungibleToken.{ft_transfer}
use oysterpack_near_stake_to.Contract.FungibleToken.Moving.{account_stake, stake_of}
use oysterpack_near_stake_to.Contract.FungibleToken.Transfer.{sender_key, Moves, ft_transfer-Moves}

-- What every holder has.
abbrev pub Ledger : Type 0
Ledger = ℕ → ℕ

-- The amount is added to what the holder has.
abbrev pub credit : ℕ → ℕ → Ledger → Ledger
credit k amount l j = if k == j then l j + amount else l j

abbrev pub move : ℕ → ℕ → ℕ → Ledger → Ledger
move from to amount l j =
    if from == j then l j - amount else (if to == j then l j + amount else l j)

-- What is asked of the ledger: a holder collects what it is owed, or collects it and then sends an
-- amount to another holder. How much is owed comes with the request.
pub data Request : Type 0 where
  collect : (holder owed : ℕ) → Request
  send : (from to amount owed : ℕ) → Request

-- The ledger serves a request; what it has afterwards is determined.
pub data Serves (l m : Ledger) : Request → Type 0 where
  collected : (k owed : ℕ) → ((j : ℕ) → m j ≡ credit k owed l j) → Serves l m (collect k owed)
  sent :
      (from to amount owed : ℕ)
      → from ≢ to
      → amount ≤ l from + owed
      → ((j : ℕ) → m j ≡ move from to amount (credit from owed l) j)
      → Serves l m (send from to amount owed)

-- Requests in a row, the last one first.
pub data ServesAll (l : Ledger) : List Request → Ledger → Type 0 where
  nothing : ServesAll l [] l
  and_then :
      {m n : Ledger} {q : Request} {qs : List Request}
      → ServesAll l qs m
      → Serves m n q
      → ServesAll l (q ∷ qs) n

-- What the contract stores of the ledger.
abbrev pub ledger : Contract → Ledger
ledger c k = stake_of k c

Moves-Serves :
    (env : Env) (receiver_id amount : ℕ) (c d : Contract)
    → env.sha256 receiver_id ≢ sender_key env
    → Moves env receiver_id amount c d
    → Serves
        (ledger c)
        (ledger d)
        (send (sender_key env) (env.sha256 receiver_id) amount (owed (sender_key env) c))
Moves-Serves env receiver_id amount c d ne x =
    let to = env.sha256 receiver_id in
    let had : stake_of (sender_key env) c ≡ account_stake x.sender =
      rw (stake_of, x.is_sender) refl in
    let due : owed (sender_key env) c ≡ owed_to c.stake_batch_receipts x.sender =
      rw (owed, x.is_sender) refl in
    let gained =
      claim_receipt_funds-owed env (registered env env.predecessor_account_id x.sender) x.claimed c
        x.between x.claims in
    let all : account_stake x.paid + amount
        ≡ stake_of (sender_key env) c + owed (sender_key env) c =
      omega (arith, x.debit, gained, had, due) in
    sent (sender_key env) to amount (owed (sender_key env) c) (λ e. ne (sym e)) (omega (arith, all))
      λ j. ground (
        arith,
        all,
        x.credit,
        ne,
        x.accounts,
        get-insert j to x.credited (Dict.insert (sender_key env) x.paid c.accounts),
        get-insert j (sender_key env) x.paid c.accounts,
      )

-- The calls: a transfer to another account, and a claim, by whoever `env` has as the caller.
pub data TokenCall (c d : Contract) : Type 0 where
  transfers :
      (env : Env) (receiver_id amount : ℕ)
      → env.sha256 receiver_id ≢ sender_key env
      → ft_transfer env receiver_id amount c ≡ ok (tt, d)
      → TokenCall c d
  claims : (env : Env) → claim_receipts env c ≡ ok (tt, d) → TokenCall c d

pub data TokenCalls (c : Contract) : Contract → Type 0 where
  no_call : TokenCalls c c
  and_call : {d e : Contract} → TokenCalls c d → TokenCall d e → TokenCalls c e

-- The request that a call makes. What the caller is owed is what its stake batches are worth by the
-- receipts that the contract stores.
abbrev pub request : {c d : Contract} → TokenCall c d → Request
request {c} (transfers env receiver_id amount _ _) =
    send (sender_key env) (env.sha256 receiver_id) amount (owed (sender_key env) c)
request {c} (claims env _) = collect (sender_key env) (owed (sender_key env) c)

abbrev pub requests : {c d : Contract} → TokenCalls c d → List Request
requests no_call = []
requests (and_call calls call) = request call ∷ requests calls

claim_receipts-Serves :
    (env : Env) (c d : Contract)
    → claim_receipts env c ≡ ok (tt, d)
    → Serves (ledger c) (ledger d) (collect (sender_key env) (owed (sender_key env) c))
unfolding claim_receipts predecessor_registered_account
claim_receipts-Serves env c d h =
    let (a, known, h0) = registered_account-eq-ok env env.predecessor_account_id _ c h in
    let r = registered env env.predecessor_account_id a in
    let ((b, e), e1, h1) = >>=-eq-ok (claim_receipt_funds env r) _ c h0 in
    let end : e ≡ d = ground (arith, h1) in
    let x = claim_receipt_funds-Claimed env r b c e known e1 in
    let more = claim_receipt_funds-owed env r b c e e1 in
    let due : owed (sender_key env) c ≡ owed_to c.stake_batch_receipts a = rw (owed, known) refl in
    let now : account_stake x.stored ≡ account_stake a + owed (sender_key env) c =
      omega (arith, more, due, ap stake_amount x.stored_stake) in
    collected (sender_key env) (owed (sender_key env) c) λ j.
      ground
        (arith, end, x.is_stored, now, known, get-insert j (sender_key env) x.stored c.accounts)

TokenCall-Serves :
    (c d : Contract) (call : TokenCall c d) → Serves (ledger c) (ledger d) (request call)
TokenCall-Serves c d (transfers env receiver_id amount ne h) =
    Moves-Serves env receiver_id amount c d ne (ft_transfer-Moves env receiver_id amount c d ne h)
TokenCall-Serves c d (claims env h) = claim_receipts-Serves env c d h

-- The stored balances of STAKE implement the ledger: after any sequence of successful transfers
-- between different accounts and of successful claims they are what the ledger has after serving the
-- requests of these calls in their order. A claim adds to the caller's balance just what its stake
-- batches are worth by the stored receipts. A transfer adds that to the sender's balance, takes the
-- amount off it, which it covers, and adds the amount to the receiver's. No other balance changes.
pub TokenCalls-ServesAll :
    {c d : Contract} (calls : TokenCalls c d) → ServesAll (ledger c) (requests calls) (ledger d)
TokenCalls-ServesAll no_call = nothing
TokenCalls-ServesAll (and_call calls call) =
    and_then (TokenCalls-ServesAll calls) (TokenCall-Serves _ _ call)
