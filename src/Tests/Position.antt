-- ===== src/Tests/Position.antt =====
-- Prices of a position and look-ups of assets at concrete inputs.
use mathlib.Core.Option.{some-injective}
use b1nary_xlayer_hackathon.Prelude.{◌≡◌, refl, String, true, false, none, some}
use b1nary_xlayer_hackathon.Js.Fixed.{Fixed, fixed}
use b1nary_xlayer_hackathon.Api.{Position, absent, number, text}
use b1nary_xlayer_hackathon.PositionMath.{normalize_usd_price, get_position_strike}
use b1nary_xlayer_hackathon.Assets.{asset_at}

abbrev pub sample : Position Fixed
sample = record {
  id = "p1";
  tx_hash = "0x1";
  tx_url = none;
  explorer_url = none;
  block_number = fixed.num 1;
  user_address = "user";
  otoken_address = "token";
  amount = fixed.num 100_000_000;
  premium = "5000000";
  collateral = fixed.num 50_000_000;
  vault_id = some (fixed.num 1);
  strike_price = number (fixed.num 5_000_000_000);
  strike_usd = absent;
  strike = absent;
  expiry = fixed.num 1_775_001_600;
  is_put = true;
  is_settled = true;
  settled_at = none;
  settlement_tx_hash = none;
  settlement_tx_url = none;
  indexed_at = "1774000000";
  settlement_type = none;
  delivered_asset = none;
  delivered_amount = none;
  delivery_tx_hash = none;
  delivery_tx_url = none;
  is_itm = some false;
  expiry_price = text "5100000000";
  expiry_price_usd = absent;
  collateral_decimals = absent;
  gross_premium = "5000000";
  net_premium = "5000000";
  protocol_fee = "0";
  outcome = none;
  asset = none;
  group_id = none;
}

legacy_strike : get_position_strike sample ≡ fixed.num 50
unfolding get_position_strike normalize_usd_price
legacy_strike = refl

plain_price : normalize_usd_price (number (fixed.num 84)) ≡ fixed.num 84
unfolding normalize_usd_price
plain_price = refl

abbrev same_text : String → String
same_text s = s

unknown_asset : (a : String) → some "sol" ≡ some a → asset_at {N = Fixed} a ≡ none
unfolding asset_at
unknown_asset a e = rw (← some-injective _ _ e) refl
