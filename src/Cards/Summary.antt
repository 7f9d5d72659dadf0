-- ===== src/Cards/Summary.antt =====
-- The sums above the positions (frontend/src/components/PortfolioSummary.tsx). The texts that are made
-- of them are left out.
use text.Mathlib.Text.{◌==◌ as str_eq}
use b1nary_xlayer_hackathon.Prelude.{
  String, not, Option, none, some, List, [], ◌∷◌, keep, if◌then◌else◌,
}
use b1nary_xlayer_hackathon.Js.Number.{JsNumber}
use b1nary_xlayer_hackathon.Api.{Position}
use b1nary_xlayer_hackathon.Assets.{resolve_position_asset}
use b1nary_xlayer_hackathon.PositionMath.{get_position_strike}
use b1nary_xlayer_hackathon.Execution.Order.{or_default}
use b1nary_xlayer_hackathon.Cards.Defs.{YieldMetric, yield_value}

-- An amount of an asset: an entry of `yieldPositionTotals` or `yieldAssets`.
abbrev pub AssetAmount : Type 0 → Type 0
AssetAmount N = N × String

module _ {N : Type 0} ⦃js : JsNumber N⦄ where
  open js use {num, add, sub, mul, div, pow10, floor, max, lt, parse, parse_date}

  -- `xs.reduce((sum, x) => sum + f(x), acc)`
  unfoldable pub sum_from : {A : Type 0} → (A → N) → N → List A → N
  sum_from f acc [] = acc
  sum_from f acc (x ∷ xs) = sum_from f (add acc (f x)) xs

  unfoldable pub to_usd : Option N → AssetAmount N → N
  to_usd okb_spot (amount, asset) =
      if str_eq asset "usdc" then amount else mul amount (or_default okb_spot (num 0))

  -- `accruingYieldUsd`, `deliveredYieldUsd`
  unfoldable pub yield_usd : Option N → Option (List (AssetAmount N)) → N
  unfolding sum_from to_usd
  yield_usd okb_spot none = num 0
  yield_usd okb_spot (some ts) = sum_from (to_usd okb_spot) (num 0) ts

  unfoldable pub premium_earned : List (Position N) → N
  unfolding sum_from
  premium_earned ps = sum_from (λ p. div (parse p.net_premium) (num 1_000_000)) (num 0) ps

  module _ (lower : String → String) where
    unfoldable pub call_decimals : Position N → N
    unfolding resolve_position_asset
    call_decimals p = pow10 (
        num
          (resolve_position_asset {N = N} lower p.asset (some p.strike_price)).collateral_decimals)

    unfoldable pub capital_usd : Position N → N
    unfolding call_decimals
    capital_usd p =
        if p.is_put
        then div p.collateral (num 1_000_000)
        else mul (div p.collateral (call_decimals p)) (get_position_strike p)

    unfoldable pub active_capital : List (Position N) → N
    unfolding capital_usd sum_from
    active_capital ps = sum_from capital_usd (num 0) (keep (λ p. not p.is_settled) ps)

    unfoldable pub total_capital : List (Position N) → N
    unfolding capital_usd sum_from
    total_capital ps = sum_from capital_usd (num 0) ps

    -- A position's rate times its capital.
    unfoldable pub weighted_apr : Position N → N
    unfolding capital_usd
    weighted_apr p =
        let capital = capital_usd p in
        let premium = div (parse p.net_premium) (num 1_000_000) in
        let days = max (num 1) (
          floor (div (sub (mul p.expiry (num 1000)) (parse_date p.indexed_at)) (num 86_400_000))) in
        mul
          (if lt (num 0) capital
            then mul (mul (div premium capital) (div (num 365) days)) (num 100)
            else num 0)
          capital

    unfoldable pub avg_apr : List (Position N) → N
    unfolding weighted_apr total_capital sum_from
    avg_apr ps =
        let capital = total_capital ps in
        if lt (num 0) capital then div (sum_from weighted_apr (num 0) ps) capital else num 0

    unfoldable pub avg_roi : List (Position N) → N
    unfolding premium_earned total_capital
    avg_roi ps =
        let capital = total_capital ps in
        if lt (num 0) capital then mul (div (premium_earned ps) capital) (num 100) else num 0

    -- `metricValue`
    unfoldable pub metric_value : YieldMetric → List (Position N) → N
    unfolding avg_apr avg_roi
    metric_value metric ps = yield_value metric (avg_apr ps) (avg_roi ps)
