-- ===== src/Range/Reasons.antt =====
-- Why the range dialog does not come to its legs.
use b1nary_xlayer_hackathon.Prelude.{◌≡◌, ◌⊎◌, String, true, false, ◌&&◌, none, some}
use b1nary_xlayer_hackathon.Js.Error.{JsError, ok}
use b1nary_xlayer_hackathon.Js.Number.{JsNumber}
use b1nary_xlayer_hackathon.Execution.Order.{Collateral, compute_collateral}
use b1nary_xlayer_hackathon.Accept.Props.{quote_is_valid}
use b1nary_xlayer_hackathon.Range.Handler.{
  RangeProps, Range, RangeSetting, deadline_ok, not_available, expiring,
}
use b1nary_xlayer_hackathon.Accept.Handler.{DepositToken, usdc}
use b1nary_xlayer_hackathon.Range.Funds.{Lacks, Covered}
use b1nary_xlayer_hackathon.Range.Legs.{both_in_time}
use b1nary_xlayer_hackathon.Range.Breaks.{CoverFails, TopUpFails}
use b1nary_xlayer_hackathon.Js.Error.{throws}

module _ {N : Type 0} ⦃js : JsNumber N⦄ (setting : RangeSetting N) (props : RangeProps N) where
  -- All that `handleAccept` asks for before it reads the chain, and the collateral of the legs.
  pub record Guarded (d : Range N) (account : String) (put_col call_col : Collateral) : Type 0 where
    pub connected : setting.base.connected ≡ true
    pub account_known : setting.base.address ≡ some account
    pub put_valid : quote_is_valid props.put_quote ≡ true
    pub call_valid : quote_is_valid props.call_quote ≡ true
    pub put_in_time : deadline_ok setting props (setting.clock d.sent) props.put_quote ≡ true
    pub call_in_time : deadline_ok setting props (setting.clock d.sent) props.call_quote ≡ true
    pub put_computed :
        compute_collateral setting.base.viem setting.base.at setting.base.lower true
          props.put_amount_usd props.put_quote.strike props.asset_slug
        ≡ ok put_col
    pub call_computed :
        compute_collateral setting.base.viem setting.base.at setting.base.lower false
          props.call_amount_eth props.call_quote.strike props.asset_slug
        ≡ ok call_col

  -- Why the handler declines: no wallet is connected or has an account; a quote is not valid; a quote
  -- expires within a minute; or the account lacks a token that the legs spend. What the user is shown
  -- belongs to it.
  pub data Declines (d d' : Range N) : Type 0 where
    no_wallet :
        (setting.base.connected ≡ false) ⊎ (setting.base.address ≡ none)
        → d'.show_deposit ≡ true
        → d'.deposit_token ≡ usdc
        → Declines d d'
    invalid :
        setting.base.connected ≡ true
        → (quote_is_valid props.put_quote && quote_is_valid props.call_quote) ≡ false
        → d'.error ≡ some not_available
        → Declines d d'
    too_late :
        setting.base.connected ≡ true
        → (quote_is_valid props.put_quote && quote_is_valid props.call_quote) ≡ true
        → both_in_time setting props (setting.clock d.sent) ≡ false
        → d'.error ≡ some expiring
        → Declines d d'
    poor :
        (account : String) (put_col call_col : Collateral) (token : DepositToken)
        → Guarded d account put_col call_col
        → Lacks setting props account put_col call_col d.sent token
        → d'.show_deposit ≡ true
        → d'.deposit_token ≡ token
        → Declines d d'

  -- What can throw before a leg has begun: the collateral of a leg cannot be computed; a balance cannot
  -- be read or the swap fails; or the wrapping does.
  pub data Fails (d : Range N) (e : JsError) (d' : Range N) : Type 0 where
    put_not_computed :
        compute_collateral setting.base.viem setting.base.at setting.base.lower true
            props.put_amount_usd props.put_quote.strike props.asset_slug
          ≡ throws e
        → d'.sent ≡ d.sent
        → Fails d e d'
    call_not_computed :
        compute_collateral setting.base.viem setting.base.at setting.base.lower false
            props.call_amount_eth props.call_quote.strike props.asset_slug
          ≡ throws e
        → d'.sent ≡ d.sent
        → Fails d e d'
    not_covered :
        (account : String) (put_col call_col : Collateral)
        → Guarded d account put_col call_col
        → CoverFails setting props account put_col call_col d.sent e d'.sent
        → Fails d e d'
    not_topped_up :
        (account : String) (put_col call_col : Collateral) (d1 : Range N)
        → Guarded d account put_col call_col
        → Covered setting props account put_col call_col d.sent d1
        → TopUpFails setting props account call_col d1.sent e d'.sent
        → Fails d e d'
