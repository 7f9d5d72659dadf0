-- ===== src/Accept/Props.antt =====
-- What the dialog is opened with, and the limits on the amount that follow from it.
use text.Mathlib.Text.{◌==◌ as str_eq}
use b1nary_xlayer_hackathon.Prelude.{
  String, Bool, true, false, not, ◌&&◌, Option, none, some, if◌then◌else◌,
}
use b1nary_xlayer_hackathon.Js.Number.{JsNumber}
use b1nary_xlayer_hackathon.Api.{PriceQuote}
use b1nary_xlayer_hackathon.Assets.{AssetConfig, get_asset_config}
use b1nary_xlayer_hackathon.Execution.Order.{or_default}

pub record AcceptProps (N : Type 0) : Type 0 where
  pub quote : PriceQuote N
  -- `side === "buy"`
  pub is_buy : Bool
  pub max_position_eth : Option N
  pub asset_slug : String
  pub amount_str : String

-- `!!text` for a text that may be `null`.
abbrev pub truthy_text : Option String → Bool
truthy_text none = false
truthy_text (some s) = not (str_eq s "")

module _ {N : Type 0} ⦃js : JsNumber N⦄ where
  open js use {num, dec, mul, min, le, same, parse}

  -- `!!x`: neither 0 nor NaN.
  abbrev pub truthy : N → Bool
  truthy x = le x x && not (same x (num 0))

  abbrev pub truthy_number : Option N → Bool
  truthy_number none = false
  truthy_number (some x) = truthy x

  abbrev pub is_given : Option N → Bool
  is_given none = false
  is_given (some x) = true

  -- The fields that `executeOrder` needs (in the range dialog, `quoteIsValid`).
  unfoldable pub quote_is_valid : PriceQuote N → Bool
  quote_is_valid q =
      truthy_text q.otoken_address
      && truthy_text q.signature
      && truthy_number q.bid_price_raw
      && truthy_number q.deadline
      && truthy_text q.quote_id
      && is_given q.max_amount_raw
      && is_given q.maker_nonce

  -- `Number(amountStr) || 0`
  unfoldable pub amount_of : String → N
  amount_of text = let x = parse text in if truthy x then x else num 0

  unfoldable pub max_amount : AcceptProps N → N
  max_amount p =
      let cap_eth = or_default p.max_position_eth p.quote.available_amount in
      if p.is_buy
      then mul (min p.quote.available_amount cap_eth) p.quote.strike
      else min p.quote.available_amount cap_eth

  abbrev min_buy : Option (AssetConfig N) → N
  min_buy none = num 10
  min_buy (some config) = config.min_buy_amount_usd

  abbrev min_sell : Option (AssetConfig N) → N
  min_sell none = dec 5 3
  min_sell (some config) = config.min_sell_amount

  unfoldable pub min_amount : (String → String) → AcceptProps N → N
  unfolding get_asset_config
  min_amount lower p =
      let config = get_asset_config lower p.asset_slug in
      if p.is_buy then min_buy config else min_sell config
