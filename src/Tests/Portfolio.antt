-- ===== src/Tests/Portfolio.antt =====
-- The page of positions at concrete inputs.
use b1nary_xlayer_hackathon.Prelude.{◌≡◌, refl, true, false, some, none, List, [], ◌∷◌}
use b1nary_xlayer_hackathon.Js.Fixed.{Fixed, fixed}
use b1nary_xlayer_hackathon.Api.{Position}
use b1nary_xlayer_hackathon.Positions.Dedupe.{IsDistinct}
use b1nary_xlayer_hackathon.Portfolio.Conservation.{clashes}
use b1nary_xlayer_hackathon.Tests.Position.{sample}

abbrev pub lower_leg : Position Fixed
lower_leg = record sample {
  id = "1";
  is_put = true;
  indexed_at = "1000";
  asset = some "okb";
  group_id = none;
}

abbrev pub upper_leg : Position Fixed
upper_leg = record lower_leg { id = "2"; is_put = false; indexed_at = "1500" }

abbrev pub lone : Position Fixed
lone = record lower_leg { id = "3"; indexed_at = "2000" }

abbrev two_legs : List (Position Fixed)
two_legs = lower_leg ∷ lone ∷ upper_leg ∷ []

two_legs-IsDistinct : IsDistinct two_legs
unfolding IsDistinct
two_legs-IsDistinct = (refl, (refl, (refl, tt)))

two_legs-clashes : clashes two_legs ≡ false
unfolding clashes
two_legs-clashes = refl
