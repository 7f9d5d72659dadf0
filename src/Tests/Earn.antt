-- ===== src/Tests/Earn.antt =====
-- The choice of a range at concrete inputs.
use b1nary_xlayer_hackathon.Prelude.{◌≡◌, refl, true, none, some, [], ◌∷◌}
use b1nary_xlayer_hackathon.Js.Fixed.{Fixed, fixed, Fixed-IsOrdered}
use b1nary_xlayer_hackathon.Js.Sort.{sort}
use b1nary_xlayer_hackathon.Api.{PriceQuote, call}
use b1nary_xlayer_hackathon.Execution.Order.{compute_apr}
use b1nary_xlayer_hackathon.Earn.{Offer, put_strikes, is_put_strike, is_call_strike}
use b1nary_xlayer_hackathon.Earn.Choice.{
  Reachable, pick_put, pick_call, start, after, chosen_strikes_lt,
}
use b1nary_xlayer_hackathon.Tests.Accept.{quote}

abbrev pub upper : PriceQuote Fixed
upper = record quote { option_type = call; strike = fixed.num 60 }

abbrev pub lower_put : PriceQuote Fixed
lower_put = record quote { strike = fixed.num 45 }

abbrev fresh : Offer Fixed
fresh = record {
  prices = lower_put ∷ upper ∷ quote ∷ [];
  active_expiry = some "2026-04-10";
  spot = some (fixed.num 55);
  put_quote = none;
  call_quote = none;
}

sorted_puts : put_strikes fresh ≡ quote ∷ lower_put ∷ []
unfolding put_strikes is_put_strike compute_apr sort
sorted_puts = refl

abbrev chosen : Offer Fixed
chosen = record fresh { put_quote = some quote; call_quote = some upper }

chosen-Reachable : Reachable chosen
unfolding is_put_strike is_call_strike compute_apr
chosen-Reachable =
    after _ _ (after _ _ (start fresh refl refl) (pick_put fresh quote refl))
      (pick_call (record fresh { put_quote = some quote }) upper refl)

chosen_strikes_lt_example :
    (fixed.lt quote.strike (fixed.num 55) ≡ true)
    × (fixed.lt (fixed.num 55) upper.strike ≡ true)
    × (fixed.lt quote.strike upper.strike ≡ true)
chosen_strikes_lt_example =
    chosen_strikes_lt Fixed-IsOrdered chosen quote upper (fixed.num 55) chosen-Reachable refl refl
      refl
