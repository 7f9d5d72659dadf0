-- ===== src/Deposit/Handlers.antt =====
-- `handleDeposit` and `handleWithdraw`, as flows over the form.
use b1nary_xlayer_hackathon.Prelude.{String, true, Option, none, some, [], ◌∷◌, if◌then◌else◌}
use b1nary_xlayer_hackathon.Prelude.Int.{ℤ}
use b1nary_xlayer_hackathon.Js.Error.{JsError, error, Try, ok, throws, message}
use b1nary_xlayer_hackathon.Js.Text.{begins, codes}
use b1nary_xlayer_hackathon.Flow.{
  Exit, Flow, ◌>>=◌, ◌>>◌, modify, leave, attempt, await, catch, done, returned,
}
use b1nary_xlayer_hackathon.Execution.Race.{settling}
use b1nary_xlayer_hackathon.Execution.Wallet.{BatchCall, send_batch_tx, send_funding_tx}
use b1nary_xlayer_hackathon.Execution.Order.{Addresses, Viem}
use b1nary_xlayer_hackathon.Execution.Chain.{Chain, plain_call}
use b1nary_xlayer_hackathon.Positions.{account}
use b1nary_xlayer_hackathon.Deposit.Form.{
  Form, Status, pending, Notice, not_ready, because, RawBalances, Amount, amount, refused,
  parse_amount, token_address,
}

-- What surrounds the dialog.
pub record Vault : Type 0 where
  pub address : Option String
  pub funding_address : Option String
  pub eoa : RawBalances
  pub smart : RawBalances
  pub chain : Chain
  pub viem : Viem
  pub at : Addresses
  pub aggregate_text : String

module _ (env : Vault) where
  abbrev pub show : Notice → Form → Form
  show notice f = record f { error = some notice }

  -- `parseAmount`, which shows its error by itself.
  abbrev pub amount_or_leave : Amount → Form → Exit ℤ × Form
  amount_or_leave (amount a) f = (done a, f)
  amount_or_leave (refused notice) f = (returned, show notice f)

  -- The call that moves an amount of a token to an account.
  unfoldable pub transfer_call : Option String → (to : String) → ℤ → Try BatchCall
  transfer_call none to value = ok (record { to = to; payload = "0x"; value = some value })
  transfer_call (some token) to value = elim (env.viem.encode_transfer to value) [
    | ok payload ↦ ok (plain_call token payload)
    | throws e ↦ throws e
  ]

  abbrev pub begin : Form → Form
  begin f = record f { error = none; status = pending; tx_hash = none }

  -- The `catch` block.
  abbrev pub fail : JsError → Form → Form
  fail e f = record f {
    error = some (because (message env.aggregate_text e));
    status = Status.idle;
  }

  -- The wallet's prompt may never be answered.
  unfoldable pub send_deposit : String → ℤ → Flow Form (Unit {0})
  unfolding transfer_call token_address
  send_deposit to value = do
    call ← (λ f. attempt (λ _. transfer_call (token_address env.at f.token) to value) f)
    hash ← await λ f.
        let (r, sent') = send_funding_tx env.chain.wallet f.sent call in
        (settling (env.chain.settles sent') r, record f { sent = sent' })
    attempt (λ f. env.chain.receipt f.sent hash)
    modify λ f. record f {
      tx_hash = some hash;
      status = Status.done;
      refetched = true;
      completed = true;
    }

  -- `!result.startsWith("0x")`
  abbrev pub check_hash : String → Try (Unit {0})
  check_hash hash =
      if begins (codes hash) (codes "0x")
      then ok tt
      else throws (error "Unexpected response from wallet")

  unfoldable pub send_withdrawal : String → ℤ → Flow Form (Unit {0})
  unfolding transfer_call token_address begins
  send_withdrawal to value = do
    call ← (λ f. attempt (λ _. transfer_call (token_address env.at f.token) to value) f)
    hash ← await λ f.
        let (r, sent') = send_batch_tx env.chain.wallet f.sent (call ∷ []) in
        (settling (env.chain.settles sent') r, record f { sent = sent' })
    attempt (λ _. check_hash hash)
    attempt (λ f. env.chain.receipt f.sent hash)
    modify (λ f. record f { tx_hash = some hash; status = Status.done; refetched = true })

  -- Behind the check of the accounts.
  unfoldable pub move : (String → ℤ → Flow Form (Unit {0})) → String → Flow Form (Unit {0})
  unfolding parse_amount
  move send to = do
    value ← (λ f. amount_or_leave (parse_amount env.viem env.eoa env.smart f) f)
    modify begin
    catch (send to value) fail

  -- The cases where one of the two is missing come second.
  unfoldable pub deposit_to : (address funding : Option String) → Flow Form (Unit {0})
  unfolding move send_deposit
  deposit_to (some a) (some b) = move send_deposit a
  deposit_to _ _ = leave (show not_ready)

  unfoldable pub withdraw_to : (address target : Option String) → Flow Form (Unit {0})
  unfolding move send_withdrawal
  withdraw_to (some a) (some b) = move send_withdrawal b
  withdraw_to _ _ = leave (show not_ready)

  abbrev pub withdraw_address : Option String → Option String → Option String
  withdraw_address none funding = funding
  withdraw_address (some wallet) funding = some wallet

  unfoldable pub handle_deposit : Flow Form (Unit {0})
  unfolding deposit_to
  handle_deposit = deposit_to (account env.address) (account env.funding_address)

  unfoldable pub handle_withdraw : Flow Form (Unit {0})
  unfolding withdraw_to
  handle_withdraw f =
      withdraw_to (account env.address) (account (withdraw_address f.selected env.funding_address))
        f
