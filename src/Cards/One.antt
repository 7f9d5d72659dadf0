-- ===== src/Cards/One.antt =====
-- The numbers on the card of one position (frontend/src/components/PositionCard.tsx). The texts that
-- are made of them are left out.
use text.Mathlib.Text.{◌==◌ as str_eq}
use b1nary_xlayer_hackathon.Prelude.{
  ℕ, String, Bool, false, not, Option, none, some, List, if◌then◌else◌,
}
use b1nary_xlayer_hackathon.Js.Number.{JsNumber}
use b1nary_xlayer_hackathon.Api.{Position}
use b1nary_xlayer_hackathon.Assets.{AssetConfig, get_asset_config}
use b1nary_xlayer_hackathon.PositionMath.{get_position_strike}
use b1nary_xlayer_hackathon.Execution.Order.{or_default}
use b1nary_xlayer_hackathon.Cards.Defs.{
  YieldMetric, YieldPosition, Calendar, yield_of, yield_value as chosen_metric,
}

-- The props of the card.
pub record CardProps (N : Type 0) : Type 0 where
  pub position : Position N
  pub spot : Option N
  pub optimistic : Bool
  pub yield_metric : YieldMetric
  pub asset_slug : String
  pub yield_by_vault : List (YieldPosition N)
  pub aave_rate : String → Option N

-- Which of its three parts the card shows.
pub data Part : Type 0 where
  active expired_worthless assigned : Part

-- What the card shows of a gain, if the spot price is known.
pub record Unrealized (N : Type 0) : Type 0 where
  pub each : N
  pub pct : Option N
  pub total : N

module _ {N : Type 0} ⦃js : JsNumber N⦄ where
  open js use {num, add, sub, mul, div, pow10, floor, ceil, round, max, lt, parse, parse_date}

  abbrev decimals_of : Option (AssetConfig N) → ℕ
  decimals_of none = 18
  decimals_of (some config) = config.collateral_decimals

  abbrev pub premium_usd : Position N → N
  premium_usd p = div (parse p.net_premium) (num 1_000_000)

  -- `returnPct`
  unfoldable pub return_pct : (committed premium : N) → N
  return_pct committed premium =
      if lt (num 0) committed then mul (div premium committed) (num 100) else num 0

  unfoldable pub total_days : Position N → N
  total_days p =
      max (num 1)
        (floor (div (sub (mul p.expiry (num 1000)) (parse_date p.indexed_at)) (num 86_400_000)))

  unfoldable pub expiry_days : Calendar N → Position N → N
  expiry_days c p = max (num 0) (
      ceil
        (div (sub (c.local_midnight (mul p.expiry (num 1000))) c.today_midnight) (num 86_400_000)))

  unfoldable pub apr : (committed premium days : N) → N
  apr committed premium days =
      if lt (num 0) committed
      then mul (mul (div premium committed) (div (num 365) days)) (num 100)
      else num 0

  abbrev pub amount_of : Position N → N
  amount_of p = div p.amount (num 100_000_000)

  -- `premiumPerEth`
  unfoldable pub premium_each : Position N → N
  premium_each p = if lt (num 0) (amount_of p) then div (premium_usd p) (amount_of p) else num 0

  unfoldable pub cost_basis : Position N → N
  unfolding premium_each
  cost_basis p =
      if p.is_put
      then sub (get_position_strike p) (premium_each p)
      else add (get_position_strike p) (premium_each p)

  abbrev pub gain_each : Bool → (spot basis : N) → N
  gain_each is_put spot basis = if is_put then sub spot basis else sub basis spot

  unfoldable pub unrealized : Option N → Position N → Option (Unrealized N)
  unfolding cost_basis
  unrealized none p = none
  unrealized (some spot) p =
      let each = gain_each p.is_put spot (cost_basis p) in
      some (record {
        each = each;
        pct =
            if lt (num 0) (cost_basis p)
            then some (mul (div each (cost_basis p)) (num 100))
            else none;
        total = mul each (amount_of p);
      })

  -- `collateralAsset`
  abbrev pub collateral_name : CardProps N → String
  collateral_name c = if c.position.is_put then "usdc" else c.asset_slug

  abbrev pub aave_apr : CardProps N → N
  aave_apr c = or_default (c.aave_rate (collateral_name c)) (num 0)

  unfoldable pub yield_days : Calendar N → CardProps N → Option N
  unfolding yield_of
  yield_days calendar c = elim (yield_of c.yield_by_vault c.position) [
    | none ↦ none
    | some y ↦
        some (
          max (num 1) (round (div (sub calendar.now (parse_date y.deposited_at)) (num 86_400_000))))
  ]

  -- `estYieldUsd`
  unfoldable pub estimated_usd : CardProps N → Option N
  unfolding yield_of
  estimated_usd c = elim (yield_of c.yield_by_vault c.position) [
    | none ↦ none
    | some y ↦ some (
        mul y.estimated_yield
          (if str_eq (collateral_name c) "usdc" then num 1 else or_default c.spot (num 0)))
  ]

  unfoldable pub part_of : Position N → Part
  part_of p =
      if not p.is_settled
      then active
      else if or_default p.is_itm false
      then assigned
      else expired_worthless

  -- `isItmNow`, in the active part.
  unfoldable pub is_itm_now : (spot : N) → Position N → Bool
  is_itm_now spot p =
      if p.is_put then lt spot (get_position_strike p) else lt (get_position_strike p) spot

  module _ (lower : String → String) where
    -- `callDec`
    unfoldable pub call_unit : String → N
    unfolding get_asset_config
    call_unit slug = pow10 (num (decimals_of (get_asset_config lower slug)))

    unfoldable pub committed_usd : String → Position N → N
    unfolding call_unit
    committed_usd slug p =
        if p.is_put
        then div p.collateral (num 1_000_000)
        else mul (div p.collateral (call_unit slug)) (get_position_strike p)

    -- `yieldValue`
    unfoldable pub yield_value : CardProps N → N
    unfolding committed_usd apr total_days return_pct
    yield_value c =
        let committed = committed_usd c.asset_slug c.position in
        let premium = premium_usd c.position in
        chosen_metric c.yield_metric (apr committed premium (total_days c.position))
          (return_pct committed premium)
