-- ===== src/PositionMath.antt =====
-- frontend/src/lib/positionMath.ts: the dollar prices of a position, from raw and normalised fields.
pub mod Signs
use b1nary_xlayer_hackathon.Prelude.{Bool, true, false, ◌&&◌, Option, none, some, if◌then◌else◌}
use b1nary_xlayer_hackathon.Js.Number.{JsNumber}
use b1nary_xlayer_hackathon.Api.{Unknown, absent, text, number, other, Position}

module _ {N : Type 0} ⦃js : JsNumber N⦄ where
  open js use {num, div, lt, le, finite, parse}

  abbrev when_finite : N → Option N
  when_finite x = if finite x then some x else none

  unfoldable pub finite_number : Unknown N → Option N
  finite_number absent = none
  finite_number (text s) = when_finite (parse s)
  finite_number (number x) = when_finite x
  finite_number other = none

  -- The body of `normalizeUsdPrice` behind its first test.
  unfoldable pub normalize_raw : N → N
  normalize_raw raw =
      let legacy_eight_decimal = div raw (num 100_000_000) in
      if le (num 1) legacy_eight_decimal
      then legacy_eight_decimal
      else if le (num 1) raw && lt raw (num 1_000_000)
      then raw
      else legacy_eight_decimal

  unfoldable pub normalize_usd_price : Unknown N → N
  unfolding finite_number normalize_raw
  normalize_usd_price v = elim (finite_number v) [
    | none ↦ num 0
    | some raw ↦ if le raw (num 0) then num 0 else normalize_raw raw
  ]

  -- `a ?? b`
  abbrev or_else : Option N → Option N → Option N
  or_else none b = b
  or_else (some a) b = some a

  -- `x != null && x > 0`
  abbrev positive : Option N → Option N
  positive none = none
  positive (some x) = if lt (num 0) x then some x else none

  unfoldable pub get_position_strike : Position N → N
  unfolding finite_number
  get_position_strike p =
      elim (positive (or_else (finite_number p.strike_usd) (finite_number p.strike))) [
        | some normalized ↦ normalized
        | none ↦ normalize_usd_price p.strike_price
      ]

  abbrev is_absent : Unknown N → Bool
  is_absent absent = true
  is_absent _ = false

  unfoldable pub get_position_expiry_price : Position N → Option N
  unfolding finite_number
  get_position_expiry_price p = elim (positive (finite_number p.expiry_price_usd)) [
    | some normalized ↦ some normalized
    | none ↦
        if is_absent p.expiry_price
        then none
        else positive (some (normalize_usd_price p.expiry_price))
  ]

  unfoldable pub get_call_collateral_decimals : Position N → N
  unfolding finite_number
  get_call_collateral_decimals p = elim (finite_number p.collateral_decimals) [
    | none ↦ num 18
    | some decimals ↦ if le (num 0) decimals then decimals else num 18
  ]
