-- ===== src/Portfolio/Chart.antt =====
-- `buildChartData` and the period filter of frontend/src/components/EarningsChart.tsx.
use b1nary_xlayer_hackathon.Prelude.{
  ◌≡◌, Bool, false, Option, none, some, List, [], ◌∷◌, keep, All, All-keep, inl, inr, Bool-cases,
  if◌then◌else◌,
}
use b1nary_xlayer_hackathon.Js.Number.{JsNumber, IsOrdered, HasDifference}
use b1nary_xlayer_hackathon.Js.Sort.{sort, IsOrderly}
use b1nary_xlayer_hackathon.Js.Sort.ByNumber.{by_difference, behind, HasKey, sort-by_difference}
use b1nary_xlayer_hackathon.Api.{Position}
use b1nary_xlayer_hackathon.Feeds.Prices.{is_empty}
use b1nary_xlayer_hackathon.Portfolio.Grouping.{time}
use b1nary_xlayer_hackathon.Portfolio.Log.{premium_of, is_itm_true}

-- `ChartPoint`, without its label; a date is its number of milliseconds.
pub record ChartPoint (N : Type 0) : Type 0 where
  pub date : N
  pub cumulative : N
  pub delta : N
  pub is_assignment : Bool

module _ {N : Type 0} ⦃js : JsNumber N⦄ where
  open js use {num, add, le, lt}

  abbrev point : N → Position N → ChartPoint N
  point cumulative pos = record {
    date = time pos;
    cumulative = cumulative;
    delta = premium_of pos;
    is_assignment = is_itm_true pos;
  }

  -- The loop, from the sum so far.
  unfoldable pub add_points : N → List (Position N) → List (ChartPoint N)
  add_points sum [] = []
  add_points sum (p ∷ ps) = let next = add sum (premium_of p) in point next p ∷ add_points next ps

  unfoldable pub build_chart_data : List (Position N) → List (ChartPoint N)
  unfolding add_points sort
  build_chart_data positions = add_points (num 0) (sort (by_difference false time) positions)

  -- `filtered`; the period "ALL" has no cutoff.
  unfoldable pub filter_points : Option N → List (ChartPoint N) → List (ChartPoint N)
  filter_points none points = points
  filter_points (some cutoff) points =
      let subset = keep (λ p. le cutoff p.date) points in if is_empty subset then points else subset

  -- The first is later than the second.
  abbrev pub later_point : ChartPoint N → ChartPoint N → Bool
  later_point a b = lt b.date a.date

  add_points-All :
      (x : N) (sum : N) (ps : List (Position N))
      → All (λ p. lt (time p) x ≡ false) ps
      → All (λ (q : ChartPoint N). lt q.date x ≡ false) (add_points sum ps)
  unfolding add_points
  add_points-All x sum [] _ = tt
  add_points-All x sum (p ∷ ps) (h, hs) = (h, add_points-All x (add sum (premium_of p)) ps hs)

  add_points-IsOrderly :
      (sum : N) (ps : List (Position N))
      → IsOrderly (behind false time) ps
      → IsOrderly later_point (add_points sum ps)
  unfolding add_points
  add_points-IsOrderly sum [] _ = tt
  add_points-IsOrderly sum (p ∷ ps) (o, os) =
      let next = add sum (premium_of p) in
      (add_points-All (time p) next ps o, add_points-IsOrderly next ps os)

  keep-IsOrderly :
      (f : ChartPoint N → Bool) (ps : List (ChartPoint N))
      → IsOrderly later_point ps
      → IsOrderly later_point (keep f ps)
  keep-IsOrderly f [] _ = tt
  keep-IsOrderly f (p ∷ ps) (o, os) =
      let rest = keep-IsOrderly f ps os in
      elim (Bool-cases (f p)) [
        | inl e ↦ rw (e, keep, IsOrderly) (All-keep _ _ f ps (λ q h. h) o, rest)
        | inr e ↦ rw (e, keep) rest
      ]

  filter_points-IsOrderly :
      (cutoff : Option N) (ps : List (ChartPoint N))
      → IsOrderly later_point ps
      → IsOrderly later_point (filter_points cutoff ps)
  unfolding filter_points
  filter_points-IsOrderly none ps o = o
  filter_points-IsOrderly (some cutoff) ps o =
      elim (Bool-cases (is_empty (keep (λ p. le cutoff p.date) ps))) [
        | inl e ↦ rw (e, filter_points) o
        | inr e ↦ rw (e, filter_points) (keep-IsOrderly _ ps o)
      ]

  -- With numbers that satisfy these laws and readable dates, the points of the chart stand from the
  -- oldest to the newest, whatever period is chosen.
  pub build_chart_data-IsOrderly :
      IsOrdered N
      → HasDifference N
      → (cutoff : Option N) (ps : List (Position N)) → All (HasKey time) ps
      → IsOrderly later_point (filter_points cutoff (build_chart_data ps))
  unfolding build_chart_data
  build_chart_data-IsOrderly order signs cutoff ps dates =
      filter_points-IsOrderly cutoff (build_chart_data ps) (
        add_points-IsOrderly (num 0) (sort (by_difference false time) ps)
          (sort-by_difference false time order signs ps dates))
