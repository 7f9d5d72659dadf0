-- ===== src/Earn.antt =====
-- frontend/src/components/v2/RangeEarn.tsx: the strikes that are offered for a range, the user's
-- choice of two of them, and the amounts and premiums of the legs.
pub mod Button
pub mod Choice
use text.Mathlib.Text.{◌==◌ as str_eq}
use b1nary_xlayer_hackathon.Prelude.{
  String, Bool, true, false, ◌&&◌, Option, none, some, List, [], ◌∷◌, find, keep, if◌then◌else◌,
}
use b1nary_xlayer_hackathon.Js.Number.{JsNumber}
use b1nary_xlayer_hackathon.Js.Sort.{sort}
use b1nary_xlayer_hackathon.Api.{OptionType, call, put, PriceQuote}
use b1nary_xlayer_hackathon.Execution.Order.{compute_apr, compute_roi, or_default}
use b1nary_xlayer_hackathon.Accept.Props.{truthy}

-- The props and the state of the component.
pub record Offer (N : Type 0) : Type 0 where
  pub prices : List (PriceQuote N)
  pub active_expiry : Option String
  pub spot : Option N
  pub put_quote : Option (PriceQuote N)
  pub call_quote : Option (PriceQuote N)

-- `p.option_type === type`
abbrev pub same_type : OptionType → OptionType → Bool
same_type put put = true
same_type call call = true
same_type _ _ = false

-- `text === value`, where the value may be `null`.
abbrev pub same_text : String → Option String → Bool
same_text s none = false
same_text s (some t) = str_eq s t

module _ {N : Type 0} ⦃js : JsNumber N⦄ where
  open js use {num, add, sub, mul, div, lt, le, infinity, minus_infinity, same}

  -- `computeAPR(...) >= MIN_DISPLAY_APR`
  abbrev pub pays : PriceQuote N → Bool
  pays p = le (num 3) (compute_apr p.premium p.strike p.expiry_days)

  unfoldable pub is_put_strike : Option String → Option N → PriceQuote N → Bool
  unfolding compute_apr
  is_put_strike active spot p =
      same_type p.option_type put
      && same_text p.expiry_date active
      && lt p.strike (or_default spot infinity)
      && pays p

  unfoldable pub is_call_strike : Option String → Option N → PriceQuote N → Bool
  unfolding compute_apr
  is_call_strike active spot p =
      same_type p.option_type call
      && same_text p.expiry_date active
      && lt (or_default spot minus_infinity) p.strike
      && pays p

  unfoldable pub put_strikes : Offer N → List (PriceQuote N)
  unfolding sort is_put_strike
  put_strikes s =
      sort (λ a b. lt (num 0) (sub b.strike a.strike))
        (keep (is_put_strike s.active_expiry s.spot) s.prices)

  unfoldable pub call_strikes : Offer N → List (PriceQuote N)
  unfolding sort is_call_strike
  call_strikes s =
      sort (λ a b. lt (num 0) (sub a.strike b.strike))
        (keep (is_call_strike s.active_expiry s.spot) s.prices)

  -- What a selection becomes when the strikes change.
  unfoldable pub reselect : List (PriceQuote N) → Option (PriceQuote N) → Option (PriceQuote N)
  reselect strikes none = none
  reselect strikes (some prev) = find (λ q. same q.strike prev.strike) strikes

  -- The effect that runs when the strikes have changed.
  unfoldable pub reset_selections : Offer N → Offer N
  unfolding put_strikes call_strikes reselect
  reset_selections s = record s {
    put_quote = reselect (put_strikes s) s.put_quote;
    call_quote = reselect (call_strikes s) s.call_quote;
  }

  abbrev pub put_amount_usd : N → N
  put_amount_usd amount = div amount (num 2)

  unfoldable pub call_amount_eth : N → Option N → N
  call_amount_eth amount none = num 0
  call_amount_eth amount (some spot) =
      if truthy spot && lt (num 0) spot then div (div amount (num 2)) spot else num 0

  unfoldable pub put_premium : Offer N → N → N
  put_premium s amount = elim s.put_quote [
    | none ↦ num 0
    | some q ↦
        if lt (num 0) (put_amount_usd amount)
        then div (mul q.premium (put_amount_usd amount)) q.strike
        else num 0
  ]

  unfoldable pub call_premium : Offer N → N → N
  unfolding call_amount_eth
  call_premium s amount = elim s.call_quote [
    | none ↦ num 0
    | some q ↦
        if lt (num 0) (call_amount_eth amount s.spot)
        then mul q.premium (call_amount_eth amount s.spot)
        else num 0
  ]

  unfoldable pub total_premium : Offer N → N → N
  unfolding put_premium call_premium
  total_premium s amount = add (put_premium s amount) (call_premium s amount)

  -- The mean of two yields, or the one that is there.
  unfoldable pub combined : (PriceQuote N → N) → Offer N → N
  combined yield s = elim s.put_quote [
    | none ↦ elim s.call_quote [ none ↦ num 0 | some c ↦ yield c ]
    | some p ↦ elim s.call_quote [ none ↦ yield p | some c ↦ div (add (yield p) (yield c)) (num 2) ]
  ]

  unfoldable pub combined_apr : Offer N → N
  unfolding combined compute_apr
  combined_apr = combined (λ q. compute_apr q.premium q.strike q.expiry_days)

  unfoldable pub combined_roi : Offer N → N
  unfolding combined compute_roi
  combined_roi = combined (λ q. compute_roi q.premium q.strike)
