-- ===== src/Accept/Outcomes.antt =====
-- What becomes of the `try` block of the trade dialog.
use b1nary_xlayer_hackathon.Prelude.{◌≡◌, String, true, false, Option, some, List, [], ◌∷◌, ◌++◌}
use b1nary_xlayer_hackathon.Prelude.Int.{ℤ, ltb_ℤ}
use b1nary_xlayer_hackathon.Js.Error.{JsError, ok, throws}
use b1nary_xlayer_hackathon.Js.Number.{JsNumber}
use b1nary_xlayer_hackathon.Flow.{Exit, done, returned, thrown, waiting}
use b1nary_xlayer_hackathon.Execution.Wallet.{BatchCall}
use b1nary_xlayer_hackathon.Execution.Race.{Settled, resolved, rejected, pending}
use b1nary_xlayer_hackathon.Execution.Order.{
  Collateral, okb_token, compute_collateral, encode_execute_order,
}
use b1nary_xlayer_hackathon.Execution.Chain.{fire_batch, approvals, plain_call}
use b1nary_xlayer_hackathon.Accept.Props.{AcceptProps}
use b1nary_xlayer_hackathon.Accept.Handler.{
  Dialog, Setting, TxStep, idle, executing, confirmed, okb, amount,
}

module _ {N : Type 0} ⦃js : JsNumber N⦄ (env : Setting) (props : AcceptProps N) where
  -- The batch that has been fired for an account, in a state where `before` had been sent: the
  -- approval, if the allowance is short, and the order for the collateral of the amount. For a sale
  -- the OKB balance covers it. `settled` is what became of it, and `after` is all that was sent.
  pub record Fired (account : String) (before after : List BatchCall)
      (settled : Settled (Option String)) : Type 0 where
    pub col : Collateral
    pub okb_balance : ℤ
    pub allowance : ℤ
    pub balance : ℤ
    pub first : List BatchCall
    pub payload : String
    pub computed :
        compute_collateral env.viem env.at env.lower props.is_buy
          (amount env props)
          props.quote.strike
          props.asset_slug
        ≡ ok col
    pub balance_read : env.chain.balance_of before (okb_token env.at) account ≡ ok okb_balance
    pub covered : props.is_buy ≡ false → ltb_ℤ okb_balance col.collateral ≡ false
    pub allowance_read :
        env.chain.allowance before col.collateral_asset account env.at.margin_pool ≡ ok allowance
    pub collateral_read : env.chain.balance_of before col.collateral_asset account ≡ ok balance
    pub approved :
        approvals env.viem col.collateral_asset env.at.margin_pool allowance col.collateral
        ≡ ok first
    pub encoded :
        encode_execute_order env.viem env.at env.lower props.quote col.otoken_amount col.collateral
        ≡ ok payload
    pub fired :
        fire_batch env.chain col.collateral_asset account balance
          (first ++ (plain_call env.at.batch_settler payload ∷ []))
          before
        ≡ (settled, after)

  -- A sale that the OKB balance does not cover.
  pub record Uncovered (account : String) (before : List BatchCall) : Type 0 where
    pub col : Collateral
    pub okb_balance : ℤ
    pub sale : props.is_buy ≡ false
    pub computed :
        compute_collateral env.viem env.at env.lower props.is_buy
          (amount env props)
          props.quote.strike
          props.asset_slug
        ≡ ok col
    pub balance_read : env.chain.balance_of before (okb_token env.at) account ≡ ok okb_balance
    pub short : ltb_ℤ okb_balance col.collateral ≡ true

  -- What can throw before the batch is fired, and whether `currentStep` is executing by then.
  pub data Breaks (account : String) (before : List BatchCall) (e : JsError) : TxStep → Type 0 where
    not_computed :
        compute_collateral env.viem env.at env.lower props.is_buy
            (amount env props)
            props.quote.strike
            props.asset_slug
          ≡ throws e
        → Breaks account before e idle
    balance_unread :
        env.chain.balance_of before (okb_token env.at) account ≡ throws e
        → Breaks account before e idle
    not_encoded :
        (col : Collateral)
        → compute_collateral env.viem env.at env.lower props.is_buy
            (amount env props)
            props.quote.strike
            props.asset_slug
          ≡ ok col
        → encode_execute_order env.viem env.at env.lower props.quote col.otoken_amount
            col.collateral
          ≡ throws e
        → Breaks account before e idle
    allowance_unread :
        (col : Collateral)
        → compute_collateral env.viem env.at env.lower props.is_buy
            (amount env props)
            props.quote.strike
            props.asset_slug
          ≡ ok col
        → env.chain.allowance before col.collateral_asset account env.at.margin_pool ≡ throws e
        → Breaks account before e idle
    collateral_unread :
        (col : Collateral)
        → compute_collateral env.viem env.at env.lower props.is_buy
            (amount env props)
            props.quote.strike
            props.asset_slug
          ≡ ok col
        → env.chain.balance_of before col.collateral_asset account ≡ throws e
        → Breaks account before e executing
    not_approved :
        (col : Collateral) (allowance : ℤ)
        → compute_collateral env.viem env.at env.lower props.is_buy
            (amount env props)
            props.quote.strike
            props.asset_slug
          ≡ ok col
        → env.chain.allowance before col.collateral_asset account env.at.margin_pool ≡ ok allowance
        → approvals env.viem col.collateral_asset env.at.margin_pool allowance col.collateral
          ≡ throws e
        → Breaks account before e executing

  -- The ends of the `try` block.
  pub data TradeEnd (account : String) (d : Dialog N) : Exit (Unit {0}) × Dialog N → Type 0 where
    asked :
        (d' : Dialog N)
        → d'.sent ≡ d.sent
        → d'.step ≡ d.step
        → d'.show_deposit ≡ true
        → d'.deposit_token ≡ okb
        → Uncovered account d.sent
        → TradeEnd account d (returned, d')
    unread :
        (e : JsError) (d' : Dialog N)
        → d'.sent ≡ d.sent
        → Breaks account d.sent e d'.current
        → TradeEnd account d (thrown e, d')
    refused :
        (e : JsError) (d' : Dialog N)
        → Fired account d.sent d'.sent (rejected e)
        → d'.current ≡ executing
        → TradeEnd account d (thrown e, d')
    hung :
        (d' : Dialog N)
        → Fired account d.sent d'.sent pending
        → d'.step ≡ executing
        → TradeEnd account d (waiting, d')
    traded :
        (hash : Option String) (d' : Dialog N)
        → Fired account d.sent d'.sent (resolved hash)
        → d'.step ≡ confirmed
        → d'.accepted ≡ some (amount env props, hash)
        → TradeEnd account d (done tt, d')
