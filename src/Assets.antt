-- ===== src/Assets.antt =====
-- frontend/src/lib/assets.ts: the registry of the assets that can be traded, and its look-ups.
-- `lower` is `String.prototype.toLowerCase`. A slug that is the name of a member of every object,
-- such as "constructor", is taken as not in the registry.
pub mod Lookup
use text.Mathlib.Text.{◌==◌ as str_eq}
use b1nary_xlayer_hackathon.Prelude.{
  ℕ, String, Bool, true, false, Option, none, some, List, [], ◌∷◌, if◌then◌else◌,
}
use b1nary_xlayer_hackathon.Js.Number.{JsNumber}
use b1nary_xlayer_hackathon.Api.{Unknown}
use b1nary_xlayer_hackathon.PositionMath.{normalize_usd_price}

pub record AssetConfig (N : Type 0) : Type 0 where
  pub slug : String
  pub symbol : String
  pub name : String
  pub wrapped_symbol : String
  pub stable_symbol : String
  pub max_amount : N
  pub max_amount_usd : N
  pub amount_placeholder : String
  pub display_decimals : N
  pub swap_fee_tier : Option N
  pub min_sell_amount : N
  pub min_buy_amount_usd : N
  -- a whole number in every entry of the registry
  pub collateral_decimals : ℕ

module _ {N : Type 0} ⦃js : JsNumber N⦄ where
  open js use {num, dec, lt}

  abbrev pub eth_config : AssetConfig N
  eth_config = record {
    slug = "eth";
    symbol = "ETH";
    name = "OKB";
    wrapped_symbol = "WETH";
    stable_symbol = "USDC";
    max_amount = num 1000;
    max_amount_usd = num 1_000_000;
    amount_placeholder = "0.5";
    display_decimals = num 4;
    swap_fee_tier = some (num 3000);
    min_sell_amount = dec 5 3;
    min_buy_amount_usd = num 10;
    collateral_decimals = 18;
  }

  abbrev pub okb_config : AssetConfig N
  okb_config = record {
    slug = "okb";
    symbol = "OKB";
    name = "OKB";
    wrapped_symbol = "MockOKB";
    stable_symbol = "USDC";
    max_amount = num 10_000;
    max_amount_usd = num 1_000_000;
    amount_placeholder = "10";
    display_decimals = num 4;
    swap_fee_tier = some (num 500);
    min_sell_amount = dec 1 1;
    min_buy_amount_usd = num 10;
    collateral_decimals = 18;
  }

  -- `ASSETS[slug]`
  unfoldable pub asset_at : String → Option (AssetConfig N)
  asset_at slug =
      if str_eq slug "eth"
      then some eth_config
      else if str_eq slug "okb"
      then some okb_config
      else none

  unfoldable pub get_asset_config : (String → String) → String → Option (AssetConfig N)
  unfolding asset_at
  get_asset_config lower slug = asset_at (lower slug)

  -- The look-up behind the first test: neither the asset nor its slug is known.
  unfoldable pub asset_by_strike : Option (Unknown N) → AssetConfig N
  asset_by_strike none = okb_config
  asset_by_strike (some strike) =
      if lt (num 10_000) (normalize_usd_price strike) then eth_config else eth_config

  -- An empty text counts as no asset.
  unfoldable pub resolve_position_asset :
      (String → String) → Option String → Option (Unknown N) → AssetConfig N
  unfolding asset_by_strike asset_at
  resolve_position_asset lower none strike = asset_by_strike strike
  resolve_position_asset lower (some asset) strike =
      if str_eq asset ""
      then asset_by_strike strike
      else elim (asset_at (lower asset)) [ some config ↦ config | none ↦ asset_by_strike strike ]
