-- ===== src/Assets/Lookup.antt =====
-- Which entry of the registry a position is shown under.
use text.Mathlib.Text.{◌==◌ as str_eq}
use text.Mathlib.TextEquality.{eq_iff}
use b1nary_xlayer_hackathon.Prelude.{
  ◌≡◌, inl, inr, refl, String, Option, none, some, Bool-cases, arith,
}
use b1nary_xlayer_hackathon.Js.Number.{JsNumber}
use b1nary_xlayer_hackathon.Api.{Unknown}
use b1nary_xlayer_hackathon.Assets.{
  AssetConfig, eth_config, okb_config, asset_at, get_asset_config, asset_by_strike,
  resolve_position_asset,
}

module _ {N : Type 0} ⦃js : JsNumber N⦄ (lower : String → String) where
  -- A configuration that `getAssetConfig` finds stands under its own slug, the slug asked for in
  -- small letters, and keeps its collateral with 18 decimals.
  pub get_asset_config-slug :
      (slug : String) (config : AssetConfig N)
      → get_asset_config lower slug ≡ some config
      → (config.slug ≡ lower slug) × (config.collateral_decimals ≡ 18)
  unfolding get_asset_config
  get_asset_config-slug slug config e =
      ground (arith, eq_iff (lower slug) "eth", eq_iff (lower slug) "okb")

  asset_by_strike-eth : (strike : Unknown N) → asset_by_strike (some strike) ≡ eth_config
  unfolding asset_by_strike
  asset_by_strike-eth strike = ground arith

  -- A position whose asset is not in the registry, but that has a strike, is shown as ETH whatever the
  -- strike is; without a strike it is shown as the default asset, OKB.
  pub resolve_position_asset-unknown :
      (asset : Option String)
      → ((a : String) → asset ≡ some a → asset_at {N = N} (lower a) ≡ none)
      → ((strike : Unknown N) → resolve_position_asset lower asset (some strike) ≡ eth_config)
        × (resolve_position_asset {N = N} lower asset none ≡ okb_config)
  unfolding resolve_position_asset
  resolve_position_asset-unknown none h = (λ s. asset_by_strike-eth s, refl)
  resolve_position_asset-unknown (some a) h =
      let e = h a refl in
      elim (Bool-cases (str_eq a "")) [
        | inl f ↦ (
          λ s. rw (f, resolve_position_asset) (asset_by_strike-eth s),
          rw (f, resolve_position_asset) refl,
        )
        | inr f ↦ (
          λ s. rw (f, e, resolve_position_asset) (asset_by_strike-eth s),
          rw (f, e, resolve_position_asset) refl,
        )
      ]
