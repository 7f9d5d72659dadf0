-- ===== src/Cards/Page.antt =====
-- The page of positions (frontend/src/app/positions/page.tsx): which of its four views it shows, and
-- what it hands to the cards and to the table.
use b1nary_xlayer_hackathon.Prelude.{
  String, Bool, true, false, not, ◌&&◌, Option, some, List, [], ◌∷◌, keep, if◌then◌else◌,
}
use b1nary_xlayer_hackathon.Js.Number.{JsNumber}
use b1nary_xlayer_hackathon.Js.Text.{begins, codes}
use b1nary_xlayer_hackathon.Api.{Position}
use b1nary_xlayer_hackathon.Assets.{AssetConfig, resolve_position_asset}
use b1nary_xlayer_hackathon.Portfolio.Grouping.{DisplayItem, group_positions}
use b1nary_xlayer_hackathon.Cards.Defs.{YieldMetric, YieldPosition}
use b1nary_xlayer_hackathon.Cards.One.{CardProps}
use b1nary_xlayer_hackathon.Cards.Two.{RangeProps}

-- The items of the active section and those of the table.
pub data PageView (N : Type 0) : Type 0 where
  connect_wallet no_positions skeleton : PageView N
  sections : (active history : List (DisplayItem N)) → PageView N

-- What the page knows besides the positions.
pub record PageProps (N : Type 0) : Type 0 where
  pub okb_spot : Option N
  pub yield_metric : YieldMetric
  pub yield_by_vault : List (YieldPosition N)
  pub aave_rate : String → Option N

abbrev pub is_empty : {A : Type 0} → List A → Bool
is_empty [] = true
is_empty (x ∷ xs) = false

-- `id.startsWith("opt-")`
unfoldable pub is_optimistic : {N : Type 0} → Position N → Bool
unfolding begins
is_optimistic p = begins (codes p.id) (codes "opt-")

module _ {N : Type 0} ⦃js : JsNumber N⦄ where
  unfoldable pub active_items : List (Position N) → List (DisplayItem N)
  unfolding group_positions
  active_items ps = group_positions (keep (λ p. not p.is_settled) ps)

  unfoldable pub history_items : List (Position N) → List (DisplayItem N)
  unfolding group_positions
  history_items ps = group_positions (keep (λ p. p.is_settled) ps)

  unfoldable pub page_view : (is_connected loading : Bool) → List (Position N) → PageView N
  unfolding active_items history_items
  page_view is_connected loading ps =
      if not is_connected
      then connect_wallet
      else if not loading && is_empty ps
      then no_positions
      else if loading
      then skeleton
      else sections (active_items ps) (history_items ps)

  module _ (lower : String → String) (page : PageProps N) where
    abbrev asset_of : Position N → AssetConfig N
    asset_of p = resolve_position_asset lower p.asset (some p.strike_price)

    unfoldable pub card_props : Position N → CardProps N
    unfolding resolve_position_asset is_optimistic
    card_props p = record {
      position = p;
      spot = page.okb_spot;
      optimistic = is_optimistic p;
      yield_metric = page.yield_metric;
      asset_slug = (asset_of p).slug;
      yield_by_vault = page.yield_by_vault;
      aave_rate = page.aave_rate;
    }

    -- The asset is that of the first leg.
    unfoldable pub range_props : Position N → List (Position N) → RangeProps N
    unfolding resolve_position_asset
    range_props p ps = record {
      positions = p ∷ ps;
      spot = page.okb_spot;
      yield_metric = page.yield_metric;
      asset_slug = (asset_of p).slug;
      yield_by_vault = page.yield_by_vault;
    }
