-- ===== src/Earn/Button.antt =====
-- The button of frontend/src/components/v2/RangeEarn.tsx, and the numbers beside it.
use b1nary_xlayer_hackathon.Prelude.{
  ◌≡◌, ◌↔◌, refl, inl, inr, String, Bool, true, false, not, ◌&&◌, Bool-cases, Option, keep,
  if◌then◌else◌,
}
use b1nary_xlayer_hackathon.Js.Number.{JsNumber}
use b1nary_xlayer_hackathon.Api.{PriceQuote}
use b1nary_xlayer_hackathon.Accept.Props.{truthy}
use b1nary_xlayer_hackathon.Earn.{Offer, same_text, total_premium, combined_apr}
use b1nary_xlayer_hackathon.Menu.{floor_to}
use b1nary_xlayer_hackathon.Menu.Shop.{sum_counts, has_quote}

pub data RangeLabel (N : Type 0) : Type 0 where
  connect_first enter_first select_lower select_upper : RangeLabel N
  earn_both : N → RangeLabel N

-- What the page is told when both legs are bought.
pub record RangeAccepted (N : Type 0) : Type 0 where
  pub put_strike : N
  pub call_strike : N
  pub premium_of_both : N
  pub apr_of_both : N
  pub range_amount : N
  pub range_days : N
  pub hash_of_put : Option String
  pub hash_of_call : Option String

module _ {N : Type 0} ⦃js : JsNumber N⦄ where
  open js use {num, dec, mul, div, sub, lt, to_text}

  unfoldable pub total_range_positions : Offer N → N
  unfolding sum_counts
  total_range_positions s =
      sum_counts (num 0) (keep (λ p. same_text p.expiry_date s.active_expiry) s.prices)

  unfoldable pub range_can_accept : Offer N → N → Bool
  range_can_accept s amount = has_quote s.put_quote && (has_quote s.call_quote && lt (num 0) amount)

  -- The text that a shortcut writes, which keeps one per cent for the swap.
  unfoldable pub range_percent_text : N → N → String
  unfolding floor_to
  range_percent_text wallet_balance pct =
      let effective = div wallet_balance (dec 101 2) in
      to_text (floor_to (mul effective (div pct (num 100))) (num 2))

  -- The distance of a strike from the price, in per cent.
  abbrev pub strike_distance : N → PriceQuote N → N
  strike_distance price q = mul (div (sub q.strike price) price) (num 100)

  abbrev pub range_disabled : Bool → Offer N → N → Bool
  range_disabled connected s amount = not (range_can_accept s amount) && connected

  unfoldable pub range_label : Bool → Offer N → N → RangeLabel N
  unfolding total_premium
  range_label connected s amount =
      if not connected
      then connect_first
      else if not (truthy amount)
      then enter_first
      else if not (has_quote s.put_quote)
      then select_lower
      else if not (has_quote s.call_quote)
      then select_upper
      else earn_both (total_premium s amount)

  -- The argument of `onAccepted`.
  unfoldable pub range_accepted :
      Offer N
      → N
      → PriceQuote N
      → PriceQuote N
      → (put_hash call_hash : Option String) → RangeAccepted N
  unfolding total_premium combined_apr
  range_accepted s amount lower upper put_hash call_hash = record {
    put_strike = lower.strike;
    call_strike = upper.strike;
    premium_of_both = total_premium s amount;
    apr_of_both = combined_apr s;
    range_amount = amount;
    range_days = lower.expiry_days;
    hash_of_put = put_hash;
    hash_of_call = call_hash;
  }

  -- For a positive amount that is not 0, the button of a connected user is enabled exactly if it shows
  -- the earnings, which are those of the screen behind the dialog.
  pub range_label-earn :
      (s : Offer N) (amount : N) (lower upper : PriceQuote N) (put_hash call_hash : Option String)
      → lt (num 0) amount ≡ true
      → truthy amount ≡ true
      → (range_disabled true s amount ≡ false) ↔ (
          range_label true s amount
          ≡ earn_both (range_accepted s amount lower upper put_hash call_hash).premium_of_both)
  unfolding range_can_accept range_label range_accepted
  range_label-earn s amount lower upper put_hash call_hash paid given =
      elim (Bool-cases (has_quote s.put_quote)) [
        | inr p ↦ rw (p, given, range_can_accept, range_label) (λ h. cc, λ h. cc)
        | inl p ↦ elim (Bool-cases (has_quote s.call_quote)) [
          | inr c ↦ rw (p, c, given, range_can_accept, range_label) (λ h. cc, λ h. cc)
          | inl c ↦ rw (p, c, paid, given, range_can_accept, range_label) (λ h. refl, λ h. refl)
        ]
      ]
