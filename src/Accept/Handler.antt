-- ===== src/Accept/Handler.antt =====
-- `handleAccept` of the dialog, as a `Flow` over the dialog's state. The error texts are constructors;
-- `because` shows the message of the exception itself.
use b1nary_xlayer_hackathon.Prelude.{
  String, Bool, true, false, not, ◌&&◌, ◌||◌, Option, none, some, List, [], ◌∷◌, ◌++◌,
  if◌then◌else◌,
}
use b1nary_xlayer_hackathon.Prelude.Int.{ℤ, pos, ltb_ℤ}
use b1nary_xlayer_hackathon.Js.Error.{JsError, message}
use b1nary_xlayer_hackathon.Js.Text.{includes}
use b1nary_xlayer_hackathon.Js.Number.{JsNumber}
use b1nary_xlayer_hackathon.Api.{Position}
use b1nary_xlayer_hackathon.Flow.{
  Flow, ◌>>=◌, ◌>>◌, modify, leave, leave_if, when, attempt, await, catch,
}
use b1nary_xlayer_hackathon.Execution.Race.{settling}
use b1nary_xlayer_hackathon.Execution.Wallet.{BatchCall, send_batch_tx}
use b1nary_xlayer_hackathon.Execution.Order.{
  Viem, Addresses, Collateral, okb_token, compute_collateral, encode_execute_order,
  build_optimistic_position,
}
use b1nary_xlayer_hackathon.Execution.Chain.{Chain, fire_batch, approvals, plain_call}
use b1nary_xlayer_hackathon.Accept.Props.{
  AcceptProps, quote_is_valid, amount_of, max_amount, min_amount,
}

pub data TxStep : Type 0 where
  idle executing confirmed : TxStep

pub data DepositToken : Type 0 where
  usdc okb : DepositToken

pub data Notice : Type 0 where
  not_available below_minimum above_maximum unreadable failed : Notice
  because : String → Notice

-- The React state, the local `currentStep`, and the effects: the calls sent, the positions stored
-- (`saveOptimistic`) and what `onAccepted` was told.
pub record Dialog (N : Type 0) : Type 0 where
  pub step : TxStep
  pub current : TxStep
  pub tx_hash : Option String
  pub error : Option Notice
  pub show_deposit : Bool
  pub deposit_token : DepositToken
  pub sent : List BatchCall
  pub stored : List (Position N)
  pub accepted : Option (N × Option String)

-- What surrounds the dialog: the account, the chain, the libraries, and the clock's texts for the
-- optimistic position. `aggregate_text` is the engine's message of an `AggregateError`.
pub record Setting : Type 0 where
  pub connected : Bool
  pub address : Option String
  pub chain : Chain
  pub viem : Viem
  pub at : Addresses
  pub lower : String → String
  pub aggregate_text : String
  pub can_store : Bool
  pub opt_id : String
  pub now_iso : String

module _ {N : Type 0} ⦃js : JsNumber N⦄ (env : Setting) (props : AcceptProps N) where
  open js use {lt}

  abbrev pub amount : N
  amount = amount_of props.amount_str

  abbrev ask_deposit : DepositToken → Dialog N → Dialog N
  ask_deposit token d = record d { deposit_token = token; show_deposit = true }

  abbrev own_token : DepositToken
  own_token = if props.is_buy then usdc else okb

  abbrev show : Notice → Dialog N → Dialog N
  show notice d = record d { error = some notice }

  abbrev update_step : TxStep → Dialog N → Dialog N
  update_step s d = record d { current = s; step = s }

  abbrev set_hash : Option String → Dialog N → Dialog N
  set_hash none d = d
  set_hash (some hash) d = record d { tx_hash = some hash }

  -- `approveAndExecuteCalls`, sent by `fireAndPoll` until the balance falls.
  abbrev fire : Collateral → String → ℤ → List BatchCall → Flow (Dialog N) (Option String)
  fire col address before calls = await λ d.
      let (r, sent') = fire_batch env.chain col.collateral_asset address before calls d.sent in
      (r, record d { sent = sent' })

  -- `wrapAmount` stays 0.
  abbrev wrap_amount : ℤ
  wrap_amount = pos 0

  unfoldable pub wrap : ℤ → Flow (Dialog N) (Unit {0})
  wrap value = do
    payload ← attempt (λ d. env.viem.encode_deposit)
    hash ← await λ d.
        let (r, sent') =
          send_batch_tx env.chain.wallet d.sent
            (record { to = env.at.weth; payload = payload; value = some value } ∷ []) in
        (settling (env.chain.settles sent') r, record d { sent = sent' })
    attempt (λ d. env.chain.receipt d.sent hash)

  -- Behind the confirmation.
  unfoldable pub finish : String → Option String → Flow (Dialog N) (Unit {0})
  finish address hash = do
    modify (set_hash hash)
    modify (update_step confirmed)
    modify (λ d. record d { accepted = some (amount, hash) })
    let p =
        build_optimistic_position env.opt_id env.now_iso props.quote amount props.is_buy address
          props.asset_slug none
    modify (λ d. if env.can_store then record d { stored = d.stored ++ (p ∷ []) } else d)

  -- The `try` block, for an account.
  unfoldable pub trade : String → Flow (Dialog N) (Unit {0})
  unfolding wrap finish
  trade address = do
    col ← attempt λ d.
        compute_collateral env.viem env.at env.lower props.is_buy amount props.quote.strike
          props.asset_slug
    okb_bal ← attempt (λ d. env.chain.balance_of d.sent (okb_token env.at) address)
    leave_if (not props.is_buy && ltb_ℤ okb_bal col.collateral) (ask_deposit okb)
    execute_data ← attempt λ d.
        encode_execute_order env.viem env.at env.lower props.quote col.otoken_amount col.collateral
    current_allowance ←
        attempt λ d. env.chain.allowance d.sent col.collateral_asset address env.at.margin_pool
    modify (update_step executing)
    when (ltb_ℤ (pos 0) wrap_amount) (wrap wrap_amount)
    before ← attempt (λ d. env.chain.balance_of d.sent col.collateral_asset address)
    first ← attempt λ d.
        approvals env.viem col.collateral_asset env.at.margin_pool current_allowance col.collateral
    hash ← fire col address before (first ++ (plain_call env.at.batch_settler execute_data ∷ []))
    finish address hash

  -- The `try` block.
  unfoldable pub start_trade : Option String → Flow (Dialog N) (Unit {0})
  unfolding trade
  start_trade none = leave (ask_deposit own_token)
  start_trade (some address) = trade address

  abbrev is_idle : TxStep → Bool
  is_idle idle = true
  is_idle _ = false

  -- The `catch` block.
  unfoldable pub on_error : JsError → Dialog N → Dialog N
  on_error e d =
      let msg = message env.aggregate_text e in
      let notice =
        if includes msg "Timed out" || includes msg "Lost connection"
        then because msg
        else if includes msg "collateral vault is not initialized"
        then because msg
        else if is_idle d.current
        then unreadable
        else failed in
      record d { error = some notice; step = idle }

  unfoldable pub handle_accept : Flow (Dialog N) (Unit {0})
  unfolding start_trade on_error
  handle_accept = do
    leave_if (not env.connected) (ask_deposit own_token)
    leave_if (not (quote_is_valid props.quote)) (show not_available)
    leave_if (lt amount (min_amount env.lower props)) (show below_minimum)
    leave_if (lt (max_amount props) amount) (show above_maximum)
    modify (λ d. record d { error = none; current = idle })
    catch (start_trade env.address) on_error
