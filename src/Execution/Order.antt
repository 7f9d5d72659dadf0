-- ===== src/Execution/Order.antt =====
-- The order that frontend/src/lib/execution.ts builds: yields, collateral, calldata, and the position
-- that is shown before the backend has it. `Viem` is the library that encodes and parses.
pub mod Amounts
use text.Mathlib.Text.{◌==◌ as str_eq}
use b1nary_xlayer_hackathon.Prelude.{
  ℕ, ◌-◌, ◌^◌, String, Bool, true, false, ◌||◌, Option, none, some, ltb, if◌then◌else◌,
}
use b1nary_xlayer_hackathon.Prelude.Int.{ℤ, pos, ◌*ℤ◌, quot_ℤ}
use b1nary_xlayer_hackathon.Js.Error.{Try, ok, throws, error}
use b1nary_xlayer_hackathon.Js.Number.{JsNumber}
use b1nary_xlayer_hackathon.Api.{PriceQuote, Position, absent, number}
use b1nary_xlayer_hackathon.Assets.{AssetConfig, get_asset_config}

infixl 5 ◌>>=◌
abbrev pub ◌>>=◌ : {A B : Type 0} → Try A → (A → Try B) → Try B
ok a >>= f = f a
throws e >>= f = throws e

-- `ADDRESSES` of frontend/src/lib/contracts.ts.
pub record Addresses : Type 0 where
  pub margin_pool : String
  pub batch_settler : String
  pub usdc : String
  pub weth : String
  pub wbtc : String
  pub mokb : Option String
  pub swap_router : Option String

-- The first argument of `executeOrder`.
pub record QuoteTuple : Type 0 where
  pub o_token : String
  pub bid_price : ℤ
  pub deadline : ℤ
  pub quote_id : ℤ
  pub max_amount : ℤ
  pub maker_nonce : ℤ

-- What the program calls of viem: `parseUnits`, and `encodeFunctionData` at each of its functions.
pub record Viem : Type 0 where
  pub parse_units : String → ℕ → Try ℤ
  pub encode_order : QuoteTuple → String → ℤ → ℤ → Try String
  pub encode_approve : String → ℤ → Try String
  pub encode_transfer : String → ℤ → Try String
  pub encode_deposit : Try String
  -- token in, token out, fee, recipient, amount out, greatest amount in, price limit
  pub encode_exact_output : String → String → ℤ → String → ℤ → ℤ → ℤ → Try String

pub record Collateral : Type 0 where
  pub otoken_amount : ℤ
  pub collateral : ℤ
  pub collateral_asset : String

-- `a ?? b`, and the value of a field that has been checked before.
abbrev pub or_default : {A : Type 0} → Option A → A → A
or_default none b = b
or_default (some a) b = a

-- `BigInt(text!)`: of `null` it throws a `TypeError`.
abbrev big_text : (String → Try ℤ) → Option String → Try ℤ
big_text parse none = throws (error "TypeError")
big_text parse (some s) = parse s

-- `ADDRESSES.mokb ?? ADDRESSES.weth`
abbrev pub okb_token : Addresses → String
okb_token at = or_default at.mokb at.weth

-- `BigInt(10) ** BigInt(decimals - 8)`
abbrev power_of_ten : ℕ → Try ℤ
power_of_ten decimals =
    if ltb decimals 8 then throws (error "RangeError") else ok (pos (10 ^ (decimals - 8)))

module _ {N : Type 0} ⦃js : JsNumber N⦄ where
  open js use {num, mul, div, pow10, floor, round, le, to_fixed, to_big, to_text, big_of_text}

  unfoldable pub compute_apr : N → N → N → N
  compute_apr premium strike expiry_days =
      if le strike (num 0) || le expiry_days (num 0)
      then num 0
      else mul (mul (div premium strike) (div (num 365) expiry_days)) (num 100)

  unfoldable pub compute_roi : N → N → N
  compute_roi premium strike =
      if le strike (num 0) then num 0 else mul (div premium strike) (num 100)

  unfoldable pub truncate : N → N → String
  truncate value decimals =
      let factor = pow10 decimals in to_fixed (div (floor (mul value factor)) factor) decimals

  abbrev decimals_of : Option (AssetConfig N) → ℕ
  decimals_of none = 18
  decimals_of (some config) = config.collateral_decimals

  module _ (viem : Viem) (at : Addresses) (lower : String → String) where
    unfoldable pub buy_collateral : N → N → Try Collateral
    unfolding truncate
    buy_collateral amount strike = do
      otoken_amount ← viem.parse_units (truncate (div amount strike) (num 8)) 8
      strike_price8 ← to_big (round (mul strike (num 100_000_000)))
      ok (record {
        otoken_amount = otoken_amount;
        collateral = quot_ℤ (otoken_amount *ℤ strike_price8) (10 ^ 10);
        collateral_asset = at.usdc;
      })

    unfoldable pub sell_collateral : N → String → Try Collateral
    unfolding truncate get_asset_config
    sell_collateral amount asset_slug = do
      otoken_amount ← viem.parse_units (truncate amount (num 8)) 8
      scale ← power_of_ten (decimals_of (get_asset_config {N = N} lower asset_slug))
      ok (record {
        otoken_amount = otoken_amount;
        collateral = otoken_amount *ℤ scale;
        collateral_asset =
            if str_eq asset_slug "btc"
            then at.wbtc
            else if str_eq asset_slug "okb"
            then okb_token at
            else at.weth;
      })

    unfoldable pub compute_collateral : Bool → N → N → String → Try Collateral
    unfolding buy_collateral sell_collateral
    compute_collateral true amount strike asset_slug = buy_collateral amount strike
    compute_collateral false amount strike asset_slug = sell_collateral amount asset_slug

    -- `BigInt(x!)`: of `null` it throws a `TypeError`.
    abbrev big : Option N → Try ℤ
    big none = throws (error "TypeError")
    big (some x) = to_big x

    unfoldable pub encode_execute_order : PriceQuote N → ℤ → ℤ → Try String
    encode_execute_order quote otoken_amount collateral = do
      bid_price ← big quote.bid_price_raw
      deadline ← big quote.deadline
      quote_id ← big_text big_of_text quote.quote_id
      max_amount ← big quote.max_amount_raw
      maker_nonce ← big quote.maker_nonce
      viem.encode_order
          (record {
            o_token = or_default quote.otoken_address "";
            bid_price = bid_price;
            deadline = deadline;
            quote_id = quote_id;
            max_amount = max_amount;
            maker_nonce = maker_nonce;
          })
          (or_default quote.signature "") otoken_amount collateral

  -- `now` is `Date.now()` and `now_iso` is `new Date().toISOString()`.
  unfoldable pub build_optimistic_position :
      (id : String) (now_iso : String)
      → PriceQuote N
      → N
      → Bool
      → String
      → String
      → Option String
      → Position N
  build_optimistic_position id now_iso quote amount is_buy address asset_slug group_id =
      let opt_otoken_amt =
        if is_buy
        then mul (div amount quote.strike) (num 100_000_000)
        else mul amount (num 100_000_000) in
      let call_decimals = if str_eq asset_slug "btc" then num 100_000_000 else num (10 ^ 18) in
      let opt_collateral =
        if is_buy then mul amount (num 1_000_000) else mul amount call_decimals in
      let opt_premium =
        if is_buy
        then to_text (mul (div (mul quote.premium amount) quote.strike) (num 1_000_000))
        else to_text (mul (mul quote.premium amount) (num 1_000_000)) in
      record {
        id = id;
        tx_hash = "";
        tx_url = none;
        explorer_url = none;
        block_number = num 0;
        user_address = address;
        otoken_address = or_default quote.otoken_address "";
        amount = opt_otoken_amt;
        premium = opt_premium;
        collateral = opt_collateral;
        vault_id = none;
        strike_price = number (mul quote.strike (num 100_000_000));
        strike_usd = absent;
        strike = absent;
        expiry = quote.expires_at;
        is_put = is_buy;
        is_settled = false;
        settled_at = none;
        settlement_tx_hash = none;
        settlement_tx_url = none;
        indexed_at = now_iso;
        settlement_type = none;
        delivered_asset = none;
        delivered_amount = none;
        delivery_tx_hash = none;
        delivery_tx_url = none;
        is_itm = none;
        expiry_price = absent;
        expiry_price_usd = absent;
        collateral_decimals = absent;
        gross_premium = opt_premium;
        net_premium = opt_premium;
        protocol_fee = "0";
        outcome = none;
        asset = none;
        group_id = group_id;
      }
