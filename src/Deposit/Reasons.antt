-- ===== src/Deposit/Reasons.antt =====
-- How a deposit or a withdrawal can end, and why.
use b1nary_xlayer_hackathon.Prelude.{
  ◌≡◌, ◌⊎◌, String, true, false, Option, none, some, List, [], ◌∷◌, ◌++◌,
}
use b1nary_xlayer_hackathon.Prelude.Int.{ℤ, pos, ltb_ℤ}
use b1nary_xlayer_hackathon.Js.Error.{JsError, message, Try, ok, throws}
use b1nary_xlayer_hackathon.Flow.{Exit, returned, thrown, Flow, next, recover, of_settled, waiting}
use b1nary_xlayer_hackathon.Flow as F
use b1nary_xlayer_hackathon.Execution.Wallet.{BatchCall, send_batch_tx, send_funding_tx}
use b1nary_xlayer_hackathon.Positions.{account}
use b1nary_xlayer_hackathon.Deposit.Form.{
  Form, Status, Notice, not_ready, because, enter_amount, exceeds_balance, invalid_amount,
  max_spendable, decimals, same_ℤ, token_address,
}
use b1nary_xlayer_hackathon.Deposit.Handlers.{Vault, transfer_call, check_hash}

module _ (env : Vault) where
  -- The call that moves the amount in the form to an account. The amount is not 0 and is not more than
  -- what the form can spend.
  pub record Transfer (f : Form) (to : String) (call : BatchCall) : Type 0 where
    pub value : ℤ
    pub parsed : env.viem.parse_units f.amount_str (decimals f.token) ≡ ok value
    pub not_zero : same_ℤ value (pos 0) ≡ false
    pub covered : ltb_ℤ (max_spendable env.eoa env.smart f) value ≡ false
    pub made : transfer_call env (token_address env.at f.token) to value ≡ ok call

  pub record Checked (f : Form) (value : ℤ) : Type 0 where
    pub parsed : env.viem.parse_units f.amount_str (decimals f.token) ≡ ok value
    pub not_zero : same_ℤ value (pos 0) ≡ false
    pub covered : ltb_ℤ (max_spendable env.eoa env.smart f) value ≡ false

  -- Why the amount in the form is refused, and the notice of it.
  pub data Refuses (f : Form) : Notice → Type 0 where
    unparsed :
        (e : JsError)
        → env.viem.parse_units f.amount_str (decimals f.token) ≡ throws e
        → Refuses f invalid_amount
    nothing :
        (value : ℤ)
        → env.viem.parse_units f.amount_str (decimals f.token) ≡ ok value
        → same_ℤ value (pos 0) ≡ true
        → Refuses f enter_amount
    too_much :
        (value : ℤ)
        → env.viem.parse_units f.amount_str (decimals f.token) ≡ ok value
        → same_ℤ value (pos 0) ≡ false
        → ltb_ℤ (max_spendable env.eoa env.smart f) value ≡ true
        → Refuses f exceeds_balance

  -- The wallet's answer to the call, as `sendFundingTx` or `sendBatchTx` gives it.
  abbrev pub Answered : Form → BatchCall → Try String → Type 0
  Answered f call x =
      ((send_funding_tx env.chain.wallet f.sent call).0 ≡ x)
      ⊎ ((send_batch_tx env.chain.wallet f.sent (call ∷ [])).0 ≡ x)

  -- What throws before the call has been sent: it cannot be encoded, or the wallet refuses it.
  pub data Unsent (f : Form) (to : String) (e : JsError) : Type 0 where
    unencoded :
        (value : ℤ)
        → Checked f value
        → transfer_call env (token_address env.at f.token) to value ≡ throws e
        → Unsent f to e
    refused_call :
        (call : BatchCall) → Transfer f to call → Answered f call (throws e) → Unsent f to e

  -- What throws behind the call: the wallet's answer is not a hash, or its receipt does not come.
  pub data Lost (sent : List BatchCall) (hash : String) (e : JsError) : Type 0 where
    no_hash : check_hash env hash ≡ throws e → Lost sent hash e
    no_receipt : env.chain.receipt sent hash ≡ throws e → Lost sent hash e

  -- The handler declines with the notice that belongs to the reason; it fails before or behind the
  -- transfer, and the message is shown; it waits for a wallet that never answers; or the transfer has
  -- gone through.
  pub data MoveEnd (f : Form) (target : Option String) : Exit (Unit {0}) × Form → Type 0 where
    unready :
        (f' : Form)
        → (account env.address ≡ none) ⊎ ((account env.funding_address ≡ none) ⊎ (target ≡ none))
        → f'.sent ≡ f.sent
        → f'.status ≡ f.status
        → f'.error ≡ some not_ready
        → MoveEnd f target (returned, f')
    declined :
        (notice : Notice) (f' : Form)
        → Refuses f notice
        → f'.sent ≡ f.sent
        → f'.status ≡ f.status
        → f'.error ≡ some notice
        → MoveEnd f target (returned, f')
    not_sent :
        (to : String) (e : JsError) (f' : Form)
        → target ≡ some to
        → Unsent f to e
        → f'.sent ≡ f.sent
        → f'.status ≡ Status.idle
        → f'.error ≡ some (because (message env.aggregate_text e))
        → MoveEnd f target (F.done tt, f')
    sent_and_lost :
        (to : String) (call : BatchCall) (hash : String) (e : JsError) (f' : Form)
        → target ≡ some to
        → Transfer f to call
        → f'.sent ≡ f.sent ++ (call ∷ [])
        → Lost f'.sent hash e
        → f'.status ≡ Status.idle
        → f'.error ≡ some (because (message env.aggregate_text e))
        → MoveEnd f target (F.done tt, f')
    waits_for_wallet :
        (to : String) (call : BatchCall) (f' : Form)
        → target ≡ some to
        → Transfer f to call
        → (f'.sent ≡ f.sent) ⊎ (f'.sent ≡ f.sent ++ (call ∷ []))
        → f'.status ≡ Status.pending
        → MoveEnd f target (waiting, f')
    moved :
        (to : String) (call : BatchCall) (hash : String) (f' : Form)
        → target ≡ some to
        → Transfer f to call
        → f'.sent ≡ f.sent ++ (call ∷ [])
        → env.chain.receipt f'.sent hash ≡ ok tt
        → f'.status ≡ Status.done
        → f'.tx_hash ≡ some hash
        → f'.error ≡ none
        → MoveEnd f target (F.done tt, f')
