-- ===== src/Execution/Chain.antt =====
-- What the chain and the wallet answer to a handler, and the step that both trade dialogs share: a
-- batch is sent, and the fall of a balance is awaited. Every answer depends on what has been sent.
pub mod Fire
use b1nary_xlayer_hackathon.Prelude.{
  ℕ, ◌^◌, ◌-◌, String, Bool, true, false, Option, none, some, List, [], ◌∷◌, ◌++◌, if◌then◌else◌,
}
use b1nary_xlayer_hackathon.Prelude.Int.{ℤ, pos, ltb_ℤ}
use b1nary_xlayer_hackathon.Js.Error.{Try, ok, throws}
use b1nary_xlayer_hackathon.Execution.Poll.{poll_until, max_attempts}
use b1nary_xlayer_hackathon.Execution.Race.{Settled, Fired, fire_and_poll}
use b1nary_xlayer_hackathon.Execution.Wallet.{BatchCall, FundingWallet, send_batch_tx}
use b1nary_xlayer_hackathon.Execution.Order.{Viem}

pub record Chain : Type 0 where
  pub wallet : Option FundingWallet
  -- token, account
  pub balance_of : List BatchCall → String → String → Try ℤ
  pub native_balance : List BatchCall → String → Try ℤ
  -- token, owner, spender
  pub allowance : List BatchCall → String → String → String → Try ℤ
  -- `waitForTransactionReceipt`
  pub receipt : List BatchCall → String → Try (Unit {0})
  -- the poll's attempt at which the promise of the batch has settled, if it ever does
  pub settles : List BatchCall → Option ℕ
  -- the answer of `balance_of` at an attempt of the poll
  pub balance_at_poll : List BatchCall → String → String → ℕ → Try ℤ

-- `check` of `fireAndPoll`: the balance is less than before.
abbrev pub fell : ℤ → Try ℤ → Try Bool
fell before (ok balance) = ok (ltb_ℤ balance before)
fell before (throws e) = throws e

abbrev pub fired : Option ℕ → Try String → Fired
fired none r = none
fired (some t) r = some (t, r)

-- `fireAndPoll(() => sendBatchTx(calls), balanceDecreased, label)`, and all that has been sent.
unfoldable pub fire_batch :
    Chain
    → (token account : String) → ℤ
    → List BatchCall
    → List BatchCall
    → Settled (Option String) × List BatchCall
fire_batch chain token account before calls sent =
    let (r, sent') = send_batch_tx chain.wallet sent calls in
    (
      fire_and_poll (fired (chain.settles sent') r) (
          poll_until (λ i. fell before (chain.balance_at_poll sent' token account i)) max_attempts),
      sent',
    )

-- `maxUint256`
abbrev pub max_uint256 : ℤ
max_uint256 = pos (2 ^ 256 - 1)

abbrev pub plain_call : String → String → BatchCall
plain_call to payload = record { to = to; payload = payload; value = none }

-- The calls that go before a call which spends `amount` of a token: an unlimited approval, unless the
-- allowance is enough.
unfoldable pub approvals :
    Viem → (token spender : String) → (allowance amount : ℤ) → Try (List BatchCall)
approvals viem token spender allowance amount =
    if ltb_ℤ allowance amount
    then elim (viem.encode_approve spender max_uint256) [
      | ok payload ↦ ok (plain_call token payload ∷ [])
      | throws e ↦ throws e
    ]
    else ok []
