-- ===== src/Landing/Slider.antt =====
-- `PriceSlider` of frontend/src/components/landing/PriceSlider.tsx: the strikes that a visitor can
-- choose, the premium that is shown for the choice, and the price of
-- frontend/src/components/landing/TickingPrice.tsx.
use b1nary_xlayer_hackathon.Prelude.{
  ℕ, zero, suc, Bool, true, false, ◌&&◌, ◌||◌, Option, none, some, List, [], ◌∷◌, keep,
  if◌then◌else◌,
}
use b1nary_xlayer_hackathon.Js.Number.{JsNumber}
use b1nary_xlayer_hackathon.Api.{OptionType, call, put, PriceQuote}
use b1nary_xlayer_hackathon.Earn.{same_type}
use b1nary_xlayer_hackathon.Execution.Order.{compute_apr}

pub data SliderSide : Type 0 where
  buying selling : SliderSide

-- The state of the component and its prop `spot`.
pub record Slider (N : Type 0) : Type 0 where
  pub spot : N
  pub side : SliderSide
  pub selected_strike : N
  -- `prevSideRef.current`
  pub prev_side : SliderSide

abbrev pub same_side : SliderSide → SliderSide → Bool
same_side buying buying = true
same_side selling selling = true
same_side _ _ = false

-- `side === "buy" ? "put" : "call"`
abbrev pub wanted_type : SliderSide → OptionType
wanted_type buying = put
wanted_type selling = call

module _ {N : Type 0} ⦃js : JsNumber N⦄ where
  open js use {num, dec, add, sub, mul, div, floor, ceil, round, abs, min, max, lt, le, same}

  -- `STRIKE_INTERVAL`
  abbrev pub interval : N
  interval = num 100

  -- `strikeRange`
  unfoldable pub range_low : N → SliderSide → N
  range_low spot buying = mul (ceil (div (mul spot (dec 8 1)) interval)) interval
  range_low spot selling = mul (ceil (div (mul spot (dec 102 2)) interval)) interval

  unfoldable pub range_high : N → SliderSide → N
  range_high spot buying = mul (floor (div (mul spot (dec 98 2)) interval)) interval
  range_high spot selling = mul (floor (div (mul spot (dec 12 1)) interval)) interval

  unfoldable pub default_strike_for : N → SliderSide → N
  default_strike_for spot buying = mul (round (div (mul spot (dec 9 1)) interval)) interval
  default_strike_for spot selling = mul (round (div (mul spot (dec 11 1)) interval)) interval

  -- The loop of `generateStrikes`, for at most so many strikes; none if these are not enough.
  unfoldable pub strikes_from : ℕ → N → N → Option (List N)
  strikes_from zero s high = none
  strikes_from (suc fuel) s high =
      let rest = strikes_from fuel (add s interval) high in
      if le s high then elim rest [ none ↦ none | some l ↦ some (s ∷ l) ] else some []

  -- `candidates`
  abbrev pub is_candidate : SliderSide → PriceQuote N → Bool
  is_candidate side q = same_type q.option_type (wanted_type side) && le q.expiry_days (num 8)

  -- The loop over the candidates.
  unfoldable pub closest : N → PriceQuote N → List (PriceQuote N) → PriceQuote N
  closest strike best [] = best
  closest strike best (q ∷ qs) =
      if lt (abs (sub q.strike strike)) (abs (sub best.strike strike))
      then closest strike q qs
      else closest strike best qs

  abbrev pub closest_of : N → List (PriceQuote N) → Option (PriceQuote N)
  closest_of strike [] = none
  closest_of strike (q ∷ qs) = some (closest strike q (q ∷ qs))

  unfoldable pub find_matching_quote : List (PriceQuote N) → N → SliderSide → Option (PriceQuote N)
  unfolding closest
  find_matching_quote prices strike side = closest_of strike (keep (is_candidate side) prices)

  -- `Math.max(low, Math.min(high, x))`
  abbrev pub clamp : N → N → N → N
  clamp low high x = max low (min high x)

  abbrev pub distance : N → N → SliderSide → N
  distance strike spot buying = div (sub spot strike) spot
  distance strike spot selling = div (sub strike spot) spot

  unfoldable pub weekly_pct : N → N → SliderSide → N
  weekly_pct strike spot side =
      let dist_pct = max (num 0) (min (distance strike spot side) (dec 25 2)) in
      add (dec 5 3) (mul (sub (dec 15 2) dist_pct) (dec 1 1))

  unfoldable pub estimate_premium : N → SliderSide → N → N
  unfolding weekly_pct
  estimate_premium strike side spot =
      if le spot (num 0) || le strike (num 0)
      then num 0
      else round (mul strike (max (dec 3 3) (min (weekly_pct strike spot side) (dec 2 2))))

  unfoldable pub shown_premium : List (PriceQuote N) → Slider N → N
  unfolding find_matching_quote estimate_premium
  shown_premium prices s = elim (find_matching_quote prices s.selected_strike s.side) [
    | some q ↦ round q.premium
    | none ↦ estimate_premium s.selected_strike s.side s.spot
  ]

  -- The parts of `SimulationResult` that show numbers.
  abbrev pub collateral_value : Slider N → N
  collateral_value s = elim s.side [ buying ↦ s.selected_strike | selling ↦ s.spot ]

  unfoldable pub week_apr : N → Slider N → N
  unfolding compute_apr
  week_apr earned s = round (compute_apr earned (collateral_value s) (num 7))

  abbrev pub low : Slider N → N
  low s = range_low s.spot s.side

  abbrev pub high : Slider N → N
  high s = range_high s.spot s.side

  -- Nothing is shown if `low >= high`.
  abbrev pub is_shown : Slider N → Bool
  is_shown s = elim (le (high s) (low s)) [ true ↦ false | false ↦ true ]

  -- The state when the component is mounted.
  unfoldable pub mount_slider : N → Slider N
  unfolding default_strike_for
  mount_slider spot = record {
    spot = spot;
    side = buying;
    selected_strike = default_strike_for spot buying;
    prev_side = buying;
  }

  -- The effect, which runs when the side or the price has changed.
  unfoldable pub run_clamp : Slider N → Slider N
  unfolding range_low range_high default_strike_for
  run_clamp s =
      if same_side s.prev_side s.side
      then record s { selected_strike = clamp (low s) (high s) s.selected_strike }
      else record s {
        prev_side = s.side;
        selected_strike = clamp (low s) (high s) (default_strike_for s.spot s.side);
      }

  -- `handleSliderChange`, of the slider and of the buttons.
  unfoldable pub slide : N → Slider N → Slider N
  slide value s = record s { selected_strike = value }

  -- `handleSideChange`, and a new price, each with the effect behind it.
  unfoldable pub turn_side : SliderSide → Slider N → Slider N
  unfolding run_clamp
  turn_side side s = if same_side side s.side then s else run_clamp (record s { side = side })

  unfoldable pub take_spot : N → Slider N → Slider N
  unfolding run_clamp
  take_spot spot s = if same spot s.spot then s else run_clamp (record s { spot = spot })

  -- The next price of `TickingPrice`, from a random number.
  unfoldable pub tick_price : N → N → N → N
  tick_price base random prev =
      let delta = mul (sub random (dec 5 1)) (num 3) in
      let revert = mul (sub base prev) (dec 2 2) in
      div (round (mul (add (add prev delta) revert) (num 100))) (num 100)
