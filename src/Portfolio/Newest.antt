-- ===== src/Portfolio/Newest.antt =====
-- The order of the items that `groupPositions` shows.
use b1nary_xlayer_hackathon.Prelude.{
  ◌≡◌, refl, ◌∙◌, Bool, true, false, not, List, [], ◌∷◌, tally, All, arith,
}
use b1nary_xlayer_hackathon.Js.Number.{JsNumber, HasDifference, HasDistance, IsOrdered}
use b1nary_xlayer_hackathon.Js.Sort.{IsOrderly}
use b1nary_xlayer_hackathon.Js.Sort.ByNumber.{sort-by_difference}
use b1nary_xlayer_hackathon.Api.{Position}
use b1nary_xlayer_hackathon.Positions.Dedupe.{IsDistinct}
use b1nary_xlayer_hackathon.Portfolio.Grouping.{
  DisplayItem, single, range, time, latest, item_time, all_items, group_positions,
}
use b1nary_xlayer_hackathon.Portfolio.Shown.{positions_of, shown}
use b1nary_xlayer_hackathon.Portfolio.Conservation.{clashes, tally-all_items}

module _ {N : Type 0} ⦃js : JsNumber N⦄ where
  -- A date that can be read.
  abbrev pub dated : Position N → Bool
  dated p = js.le (time p) (time p)

  abbrev pub older : DisplayItem N → DisplayItem N → Bool
  older a b = js.lt (item_time a) (item_time b)

  tally_zero-All :
      (ps : List (Position N)) → tally (λ p. not (dated p)) ps ≡ 0 → All (λ p. dated p ≡ true) ps
  tally_zero-All [] h = tt
  tally_zero-All (p ∷ ps) h = (ground arith, tally_zero-All ps (ground arith))

  All-tally_zero :
      (ps : List (Position N)) → All (λ p. dated p ≡ true) ps → tally (λ p. not (dated p)) ps ≡ 0
  All-tally_zero [] _ = refl
  All-tally_zero (p ∷ ps) (d, ds) = let rest = All-tally_zero ps ds in ground (arith, rest)

  module _ (ordered : IsOrdered N) (signs : HasDifference N) where
    latest_le :
        (ps : List (Position N))
        → All (λ p. dated p ≡ true) ps
        → js.le (latest ps) (latest ps) ≡ true
    latest_le [] _ = signs.minus_infinity_le
    latest_le (p ∷ ps) (d, ds) =
        (ordered.refl_of_le _ _ (ordered.le_max (time p) (latest ps) d (latest_le ps ds)).0).1

    abbrev IsDated : DisplayItem N → Type 0
    IsDated i = js.le (item_time i) (item_time i) ≡ true

    item_time-IsDated :
        (i : DisplayItem N) → tally (λ p. not (dated p)) (positions_of i) ≡ 0 → IsDated i
    item_time-IsDated (single p) h = (tally_zero-All (p ∷ []) h).0
    item_time-IsDated (range ps key) h = latest_le ps (tally_zero-All ps h)

    shown_zero-IsDated :
        (is : List (DisplayItem N)) → shown (λ p. not (dated p)) is ≡ 0 → All IsDated is
    shown_zero-IsDated [] h = tt
    shown_zero-IsDated (i ∷ is) h =
        (item_time-IsDated i (omega arith), shown_zero-IsDated is (omega arith))

    -- With numbers that satisfy these laws, positions of distinct ids and readable dates, and no two
    -- pairs of them under one key, `groupPositions` shows the items from the newest to the oldest: no
    -- item is older than one behind it, where a range is as new as its newest leg.
    pub group_positions-IsOrderly :
        HasDistance N
        → (ps : List (Position N)) → IsDistinct ps
        → clashes ps ≡ false
        → All (λ p. dated p ≡ true) ps
        → IsOrderly older (group_positions ps)
    unfolding group_positions
    group_positions-IsOrderly laws ps distinct clear dates =
        sort-by_difference true item_time ordered signs (all_items ps) (
          shown_zero-IsDated (all_items ps)
            (tally-all_items laws ps distinct clear (λ p. not (dated p)) ∙ All-tally_zero ps dates))
