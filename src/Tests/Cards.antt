-- ===== src/Tests/Cards.antt =====
-- The cards of the positions page at concrete positions.
use b1nary_xlayer_hackathon.Prelude.{
  ◌≡◌, refl, true, false, not, All, some, none, List, [], ◌∷◌, keep,
}
use b1nary_xlayer_hackathon.Js.Fixed.{Fixed, fixed, Fixed-HasDistance}
use b1nary_xlayer_hackathon.Api.{Position}
use b1nary_xlayer_hackathon.Positions.Dedupe.{IsDistinct}
use b1nary_xlayer_hackathon.Portfolio.Conservation.{clashes}
use b1nary_xlayer_hackathon.Cards.Defs.{YieldMetric, TxKind, position_tx_url}
use b1nary_xlayer_hackathon.Cards.Two.{RangeProps}
use b1nary_xlayer_hackathon.Cards.Summary.{active_capital, metric_value}
use b1nary_xlayer_hackathon.Cards.Page.{PageProps, page_view, active_items}
use b1nary_xlayer_hackathon.Cards.Agreement.{card_total, card_mean, card_return, summary-cards}
use b1nary_xlayer_hackathon.Cards.Sections.{
  Places, page_view-Places, HasActiveCard, active_items-HasActiveCard,
}
use b1nary_xlayer_hackathon.Tests.Portfolio.{lower_leg, upper_leg, lone}

-- A range that is open, and a settled position.
abbrev mixed : List (Position Fixed)
mixed =
    record lower_leg { is_settled = false } ∷ lone ∷ record upper_leg { is_settled = false } ∷ []

mixed-IsDistinct : IsDistinct mixed
unfolding IsDistinct
mixed-IsDistinct = (refl, (refl, (refl, tt)))

open_clear : clashes (keep (λ p. not p.is_settled) mixed) ≡ false
unfolding clashes
open_clear = refl

settled_clear : clashes (keep (λ p. p.is_settled) mixed) ≡ false
unfolding clashes
settled_clear = refl

page_view-Places_example : Places true false mixed (λ p. p.is_put) (page_view true false mixed)
page_view-Places_example =
    page_view-Places Fixed-HasDistance true false mixed mixed-IsDistinct open_clear settled_clear
      (λ p. p.is_put)

abbrev page : PageProps Fixed
page = record {
  okb_spot = some (fixed.num 52);
  yield_metric = YieldMetric.apr;
  yield_by_vault = [];
  aave_rate = λ s. none;
}

active_items-HasActiveCard_example : All (HasActiveCard (λ s. s) page) (active_items mixed)
active_items-HasActiveCard_example = active_items-HasActiveCard (λ s. s) page mixed

summary-cards_example :
    (active_capital (λ s. s) mixed ≡ card_total (λ s. s) page (keep (λ p. not p.is_settled) mixed))
    × (metric_value (λ s. s) YieldMetric.apr mixed ≡ card_mean (λ s. s) page mixed)
    × (metric_value (λ s. s) YieldMetric.roi mixed ≡ card_return (λ s. s) page mixed)
summary-cards_example =
    summary-cards (λ s. s) page (record { eth_kept = refl; okb_kept = refl }) mixed

abbrev both : RangeProps Fixed
both = record {
  positions = lower_leg ∷ upper_leg ∷ [];
  spot = some (fixed.num 52);
  yield_metric = YieldMetric.apr;
  asset_slug = "okb";
  yield_by_vault = [];
}

-- A position without a link of its own gets the explorer's.
open_link :
    position_tx_url
      (some "https://x")
      TxKind.open_tx
      (record lone { tx_url = none; tx_hash = "0x1" })
    ≡ some "https://x/tx/0x1"
unfolding position_tx_url
open_link = refl
