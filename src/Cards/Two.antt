-- ===== src/Cards/Two.antt =====
-- The numbers on the card of a range (frontend/src/components/RangePositionCard.tsx).
use b1nary_xlayer_hackathon.Prelude.{
  String, Bool, false, not, ◌&&◌, Option, none, some, List, find, if◌then◌else◌,
}
use b1nary_xlayer_hackathon.Js.Number.{JsNumber}
use b1nary_xlayer_hackathon.Api.{Position}
use b1nary_xlayer_hackathon.PositionMath.{get_position_strike}
use b1nary_xlayer_hackathon.Execution.Order.{or_default}
use b1nary_xlayer_hackathon.Accept.Props.{truthy}
use b1nary_xlayer_hackathon.Cards.Defs.{YieldMetric, YieldPosition, yield_of, yield_value}
use b1nary_xlayer_hackathon.Cards.One.{call_unit, return_pct, apr}

pub record RangeProps (N : Type 0) : Type 0 where
  pub positions : List (Position N)
  pub spot : Option N
  pub yield_metric : YieldMetric
  pub asset_slug : String
  pub yield_by_vault : List (YieldPosition N)

pub record RangeCard (N : Type 0) : Type 0 where
  pub put_strike : N
  pub call_strike : N
  pub is_active : Bool
  pub is_settled : Bool
  pub total_premium : N
  pub total_committed : N
  pub total_days : N
  pub return_pct : N
  pub apr : N
  pub yield_value : N
  pub put_itm : Bool
  pub call_itm : Bool
  pub put_dist_pct : Option N
  pub call_dist_pct : Option N

-- What an active range is said to do at the spot price.
pub data Outlook : Type 0 where
  selling buying keeping : Outlook

module _ {N : Type 0} ⦃js : JsNumber N⦄ where
  open js use {num, add, sub, mul, div, floor, max, lt, parse, parse_date}

  unfoldable pub combined_premium : (put_leg call_leg : Position N) → N
  combined_premium put_leg call_leg =
      add (div (parse put_leg.net_premium) (num 1_000_000))
        (div (parse call_leg.net_premium) (num 1_000_000))

  unfoldable pub range_days : Position N → N
  range_days put_leg = max (num 1) (
      floor (
        div (sub (mul put_leg.expiry (num 1000)) (parse_date put_leg.indexed_at)) (num 86_400_000)))

  -- `spot ? ((strike - spot) / spot) * 100 : null`
  unfoldable pub distance_pct : Option N → (strike : N) → Option N
  distance_pct none strike = none
  distance_pct (some spot) strike =
      if truthy spot then some (mul (div (sub strike spot) spot) (num 100)) else none

  unfoldable pub outlook : (spot : N) → RangeCard N → Outlook
  outlook spot card =
      if lt card.call_strike spot
      then selling
      else if lt spot card.put_strike
      then buying
      else keeping

  abbrev yield_amount : Option (YieldPosition N) → N
  yield_amount none = num 0
  yield_amount (some y) = y.estimated_yield

  -- `totalEstYield`, where a leg has a vault that is known.
  abbrev yield_sum : Option N → (put_yield call_yield : Option (YieldPosition N)) → Option N
  yield_sum spot none none = none
  yield_sum spot a b = some (add (yield_amount a) (mul (yield_amount b) (or_default spot (num 0))))

  unfoldable pub range_yield : RangeProps N → (put_leg call_leg : Position N) → Option N
  unfolding yield_of
  range_yield c put_leg call_leg =
      yield_sum c.spot (yield_of c.yield_by_vault put_leg) (yield_of c.yield_by_vault call_leg)

  module _ (lower : String → String) where
    unfoldable pub combined_usd : String → (put_leg call_leg : Position N) → N
    unfolding call_unit
    combined_usd slug put_leg call_leg =
        add (div put_leg.collateral (num 1_000_000))
          (mul (div call_leg.collateral (call_unit lower slug)) (get_position_strike call_leg))

    unfoldable pub card_of : RangeProps N → (put_leg call_leg : Position N) → RangeCard N
    unfolding combined_premium combined_usd range_days distance_pct return_pct apr
    card_of c put_leg call_leg =
        let premium = combined_premium put_leg call_leg in
        let committed = combined_usd c.asset_slug put_leg call_leg in
        let days = range_days put_leg in
        let yearly = apr committed premium days in
        let once = return_pct committed premium in
        record {
          put_strike = get_position_strike put_leg;
          call_strike = get_position_strike call_leg;
          is_active = not put_leg.is_settled && not call_leg.is_settled;
          is_settled = put_leg.is_settled && call_leg.is_settled;
          total_premium = premium;
          total_committed = committed;
          total_days = days;
          return_pct = once;
          apr = yearly;
          yield_value = yield_value c.yield_metric yearly once;
          put_itm = or_default put_leg.is_itm false;
          call_itm = or_default call_leg.is_itm false;
          put_dist_pct = distance_pct c.spot (get_position_strike put_leg);
          call_dist_pct = distance_pct c.spot (get_position_strike call_leg);
        }

    -- The card; without both legs there is none.
    unfoldable pub range_card : RangeProps N → Option (RangeCard N)
    unfolding card_of
    range_card c = elim (find (λ p. p.is_put) c.positions) [
      | none ↦ none
      | some put_leg ↦ elim (find (λ p. not p.is_put) c.positions) [
        | none ↦ none
        | some call_leg ↦ some (card_of c put_leg call_leg)
      ]
    ]
