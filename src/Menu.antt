-- ===== src/Menu.antt =====
-- frontend/src/components/v2/PriceMenuV2.tsx: the prices that are offered, the one that is selected,
-- and the amount.
pub mod Shop
pub mod Button
pub mod Choice
pub mod Shortcut
use Prim.Native.String.{compare}
use Prim.Native.Nat.{Ordering}
use text.Mathlib.Text.{◌==◌ as str_eq}
use b1nary_xlayer_hackathon.Prelude.{
  String, Bool, true, false, not, ◌&&◌, ◌||◌, Option, none, some, List, [], ◌∷◌, ◌++◌, any, find,
  keep, map, if◌then◌else◌,
}
use b1nary_xlayer_hackathon.Js.Number.{JsNumber}
use b1nary_xlayer_hackathon.Js.Sort.{sort}
use b1nary_xlayer_hackathon.Api.{
  OptionType, call, put, PriceQuote, Capacity, MarketStatus, active, degraded, full,
}
use b1nary_xlayer_hackathon.Assets.{AssetConfig}
use b1nary_xlayer_hackathon.Execution.Order.{compute_apr, or_default}
use b1nary_xlayer_hackathon.Accept.Props.{amount_of, truthy, truthy_number, truthy_text}
use b1nary_xlayer_hackathon.Earn.{same_type, same_text, pays}

pub data MenuSide : Type 0 where
  buy sell range : MenuSide

abbrev pub is_buy : MenuSide → Bool
is_buy buy = true
is_buy _ = false

abbrev pub is_range : MenuSide → Bool
is_range range = true
is_range _ = false

-- What the page shows from its hooks, and its state.
pub record Menu (N : Type 0) : Type 0 where
  pub asset : AssetConfig N
  pub prices : List (PriceQuote N)
  pub spot_endpoint : Option N
  pub capacity : Option (Capacity N)
  -- of `useBalances`
  pub usd : N
  pub eth : N
  pub weth : N
  pub wbtc : N
  pub okb : N
  pub side : MenuSide
  pub selected_quote : Option (PriceQuote N)
  pub selected_expiry : Option String
  pub amount_str : String

-- The texts once each, in the order of their first occurrence.
unfoldable pub distinct : List String → List String → List String
distinct seen [] = []
distinct seen (s ∷ ss) = elim (any (λ t. str_eq t s) seen) [
  | true ↦ distinct seen ss
  | false ↦ s ∷ distinct (s ∷ seen) ss
]

-- The order of texts of ASCII, in which the dates are written.
abbrev pub text_later : String → String → Bool
text_later a b = elim (compare a b) [ Ordering.gt ↦ true | _ ↦ false ]

abbrev pub is_full : MarketStatus → Bool
is_full full = true
is_full _ = false

abbrev first : {A : Type 0} → List A → Option A
first [] = none
first (x ∷ xs) = some x

module _ {N : Type 0} ⦃js : JsNumber N⦄ where
  open js use {
    num, dec, add, sub, mul, div, pow10, floor, min, lt, le, same, parse, to_text, infinity,
    minus_infinity,
  }

  abbrev first_spot : List (PriceQuote N) → Option N
  first_spot [] = none
  first_spot (p ∷ ps) = some p.spot

  abbrev pub spot : Menu N → Option N
  spot m = elim m.spot_endpoint [ none ↦ first_spot m.prices | some s ↦ some s ]

  unfoldable pub expiries : Menu N → List String
  unfolding distinct sort
  expiries m = sort text_later (distinct [] (map (λ p. p.expiry_date) m.prices))

  unfoldable pub active_expiry : Menu N → Option String
  unfolding expiries
  active_expiry m = elim m.selected_expiry [ none ↦ first (expiries m) | some d ↦ some d ]

  abbrev pub wallet_balance : Menu N → N
  wallet_balance m =
      if is_buy m.side
      then m.usd
      else if str_eq m.asset.slug "okb"
      then m.okb
      else if str_eq m.asset.slug "btc"
      then m.wbtc
      else add m.eth m.weth

  unfoldable pub market_closed : Menu N → Bool
  market_closed m = elim m.capacity [
    | none ↦ false
    | some c ↦ not c.market_open || is_full c.market_status
  ]

  abbrev pub max_position : Menu N → Option N
  max_position m = elim m.capacity [ none ↦ none | some c ↦ some c.max_position ]

  unfoldable pub cap_eth : Menu N → N
  cap_eth m = or_default (max_position m) m.asset.max_amount

  unfoldable pub cap_usd : Menu N → N
  unfolding cap_eth
  cap_usd m =
      if truthy_number (spot m)
      then min m.asset.max_amount_usd (mul (cap_eth m) (or_default (spot m) (num 0)))
      else m.asset.max_amount_usd

  -- The callback of `filter`.
  unfoldable pub is_offered : MenuSide → Option String → Option N → PriceQuote N → Bool
  unfolding compute_apr
  is_offered side expiry spot p =
      same_type p.option_type (if is_buy side then put else call)
      && same_text p.expiry_date expiry
      && (if is_buy side
          then lt p.strike (or_default spot infinity)
          else lt (or_default spot minus_infinity) p.strike)
      && pays p

  -- The comparison of `sort` gives a positive number.
  abbrev pub strike_later : MenuSide → PriceQuote N → PriceQuote N → Bool
  strike_later side a b =
      lt (num 0) (if is_buy side then sub b.strike a.strike else sub a.strike b.strike)

  unfoldable pub filtered_prices : Menu N → List (PriceQuote N)
  unfolding is_offered sort active_expiry
  filtered_prices m =
      sort (strike_later m.side) (keep (is_offered m.side (active_expiry m) (spot m)) m.prices)

  -- The match of the effect that runs when the filtered prices have changed.
  abbrev pub or_match : PriceQuote N → PriceQuote N → PriceQuote N
  or_match prev match =
      if not (same match.premium prev.premium) || not (same match.expiry_days prev.expiry_days)
      then match
      else prev

  unfoldable pub keep_selection :
      List (PriceQuote N) → Option (PriceQuote N) → Option (PriceQuote N)
  keep_selection filtered none = none
  keep_selection filtered (some prev) = elim (find (λ q. same q.strike prev.strike) filtered) [
    | none ↦ none
    | some match ↦ some (or_match prev match)
  ]

  unfoldable pub run_effect : Menu N → Menu N
  unfolding filtered_prices keep_selection
  run_effect m = record m { selected_quote = keep_selection (filtered_prices m) m.selected_quote }

  unfoldable pub selected_earnings : Menu N → N
  unfolding amount_of
  selected_earnings m = elim m.selected_quote [
    | none ↦ num 0
    | some q ↦
        if lt (num 0) (amount_of m.amount_str) && lt (num 0) q.strike
        then (if is_buy m.side
            then div (mul q.premium (amount_of m.amount_str)) q.strike
            else mul q.premium (amount_of m.amount_str))
        else num 0
  ]

  unfoldable pub can_accept : Menu N → Bool
  unfolding amount_of
  can_accept m = elim m.selected_quote [
    | none ↦ false
    | some q ↦ lt (num 0) (amount_of m.amount_str) && truthy_text q.otoken_address
  ]

  -- `StrikeCard` is a button.
  abbrev pub card_disabled : PriceQuote N → Bool
  card_disabled q = not (truthy_text q.otoken_address) || le q.available_amount (num 0)

  -- `floorTo` of frontend/src/lib/utils.ts
  unfoldable pub floor_to : N → N → N
  floor_to value decimals = div (floor (mul value (pow10 decimals))) (pow10 decimals)

  abbrev pub percent_part : Menu N → N → N
  percent_part m pct = mul (wallet_balance m) (div pct (num 100))

  unfoldable pub percent_amount : Menu N → N → N
  unfolding floor_to cap_eth cap_usd
  percent_amount m pct =
      if is_buy m.side
      then min (floor_to (percent_part m pct) (num 2)) (cap_usd m)
      else min (floor_to (percent_part m pct) m.asset.display_decimals) (cap_eth m)

  unfoldable pub handle_percent_shortcut : N → Menu N → Menu N
  unfolding percent_amount
  handle_percent_shortcut pct m = record m { amount_str = to_text (percent_amount m pct) }

  abbrev pub select : PriceQuote N → Menu N → Menu N
  select q m = record m { selected_quote = some q }

  unfoldable pub choose_side : MenuSide → Menu N → Menu N
  choose_side side m = record m { side = side; selected_quote = none }

  -- `Number(asset.amountPlaceholder) / 10 || 0.05`
  abbrev sell_pre_fill : Menu N → N
  sell_pre_fill m =
      let x = div (parse m.asset.amount_placeholder) (num 10) in if truthy x then x else dec 5 2

  abbrev pub first_or : Option (PriceQuote N) → List (PriceQuote N) → Option (PriceQuote N)
  first_or selected [] = selected
  first_or selected (q ∷ qs) = some q

  abbrev pub pre_filled : Menu N → Menu N
  pre_filled m = record m {
    amount_str = if is_buy m.side then "100" else to_text (sell_pre_fill m);
    selected_quote = first_or m.selected_quote (filtered_prices m);
  }

  -- `handleStartTutorial`, without the tour.
  unfoldable pub start_tutorial : Menu N → Menu N
  unfolding filtered_prices
  start_tutorial m = if is_range m.side then m else pre_filled m

  -- "Accept another price"
  unfoldable pub accept_another : Menu N → Menu N
  accept_another m = record m { selected_quote = none; amount_str = "" }
