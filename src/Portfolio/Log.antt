-- ===== src/Portfolio/Log.antt =====
-- frontend/src/components/TradeLog.tsx: the table of settled positions, and the row of a range.
use text.Mathlib.Text.{◌==◌ as str_eq}
use b1nary_xlayer_hackathon.Prelude.{
  String, Bool, true, false, not, ◌&&◌, ◌||◌, Option, none, some, List, [], ◌∷◌, any, find, keep, ℕ,
  zero, suc, if◌then◌else◌, length, ltb,
}
use b1nary_xlayer_hackathon.Js.Error.{Try, ok, throws, error}
use b1nary_xlayer_hackathon.Js.Number.{JsNumber}
use b1nary_xlayer_hackathon.Js.Sort.{sort}
use b1nary_xlayer_hackathon.Api.{Position}
use b1nary_xlayer_hackathon.PositionMath.{get_position_strike, get_position_expiry_price}
use b1nary_xlayer_hackathon.Portfolio.Grouping.{DisplayItem, single, range, time}

-- What the row of a range shows. `assigned` is the outcome "Assigned", else it is "Earned".
pub record RangeRow (N : Type 0) : Type 0 where
  pub put_strike : N
  pub call_strike : N
  pub total_premium : N
  pub expiry_days : N
  pub expiry_price_usd : Option N
  pub assigned : Bool

abbrev pub take : {A : Type 0} → ℕ → List A → List A
take zero xs = []
take (suc n) [] = []
take (suc n) (x ∷ xs) = x ∷ take n xs

-- The ids of the rows that are open.
unfoldable pub toggle : String → List String → List String
toggle id expanded =
    if any (λ e. str_eq e id) expanded
    then keep (λ e. not (str_eq e id)) expanded
    else id ∷ expanded

module _ {N : Type 0} where
  abbrev pub lacks_legs : DisplayItem N → Bool
  lacks_legs (single p) = false
  lacks_legs (range [] key) = true
  lacks_legs (range (p ∷ ps) key) = false

module _ {N : Type 0} ⦃js : JsNumber N⦄ where
  open js use {num, add, sub, mul, div, floor, max, lt, parse, minus_infinity}

  -- `getTime`; a range without legs throws before its time is used.
  abbrev pub log_time : DisplayItem N → N
  log_time (single p) = time p
  log_time (range [] key) = minus_infinity
  log_time (range (p ∷ ps) key) = time p

  -- With more than one item the comparison reads the first leg of every range.
  unfoldable pub sorted_items : List (DisplayItem N) → Try (List (DisplayItem N))
  unfolding sort
  sorted_items items =
      if any lacks_legs items && ltb 1 (length items)
      then throws (error "Cannot read properties of undefined")
      else ok (sort (λ a b. lt (num 0) (sub (log_time b) (log_time a))) items)

  abbrev pub shorten : Bool → List (DisplayItem N) → List (DisplayItem N)
  shorten show_all sorted = if show_all then sorted else take 5 sorted

  unfoldable pub visible_items : Bool → List (DisplayItem N) → Try (List (DisplayItem N))
  unfolding sorted_items
  visible_items show_all items = elim (sorted_items items) [
    | ok sorted ↦ ok (shorten show_all sorted)
    | throws e ↦ throws e
  ]

  abbrev pub premium_of : Position N → N
  premium_of p = div (parse p.net_premium) (num 1_000_000)

  abbrev pub days_of : Position N → N
  days_of p = max (num 1) (floor (div (sub (mul p.expiry (num 1000)) (time p)) (num 86_400_000)))

  abbrev pub is_itm_true : Position N → Bool
  is_itm_true p = elim p.is_itm [ none ↦ false | some b ↦ b ]

  abbrev pub row_of : Position N → Position N → RangeRow N
  row_of put_leg call_leg = record {
    put_strike = get_position_strike put_leg;
    call_strike = get_position_strike call_leg;
    total_premium = add (premium_of put_leg) (premium_of call_leg);
    expiry_days = days_of put_leg;
    expiry_price_usd = get_position_expiry_price put_leg;
    assigned = is_itm_true put_leg || is_itm_true call_leg;
  }

  -- `RangeTradeRow`, which shows nothing without both legs.
  unfoldable pub range_row : List (Position N) → Option (RangeRow N)
  unfolding get_position_strike get_position_expiry_price
  range_row positions = elim (find (λ p. p.is_put) positions) [
    | none ↦ none
    | some put_leg ↦ elim (find (λ p. not p.is_put) positions) [
      | none ↦ none
      | some call_leg ↦ some (row_of put_leg call_leg)
    ]
  ]
