-- ===== src/Landing/Nearest.antt =====
-- The quote that `findMatchingQuote` of frontend/src/components/landing/PriceSlider.tsx finds.
use b1nary_xlayer_hackathon.Prelude.{
  ◌≡◌, inl, inr, refl, subst, true, Bool-cases, Option, none, some, List, [], ◌∷◌, keep, All,
}
use mathlib.Core.List.{Memᴰ}
use b1nary_xlayer_hackathon.Js.Number.{JsNumber, IsOrdered}
use b1nary_xlayer_hackathon.Api.{PriceQuote}
use b1nary_xlayer_hackathon.Landing.Slider.{
  SliderSide, is_candidate, closest, closest_of, find_matching_quote,
}

module _ {N : Type 0} ⦃js : JsNumber N⦄ where
  open js use {abs, sub, le, lt}

  -- How far the strike of a quote is from one that was chosen.
  abbrev pub apart : N → PriceQuote N → N
  apart strike q = abs (sub q.strike strike)

  abbrev pub IsComparable : N → List (PriceQuote N) → Type 0
  IsComparable strike qs = All (λ c. le (apart strike c) (apart strike c) ≡ true) qs

  -- `q` is the one of these quotes whose strike is nearest; there is none only if there are no quotes.
  abbrev pub IsNearest : N → List (PriceQuote N) → PriceQuote N → Type 0
  IsNearest strike qs q = All (λ c. le (apart strike q) (apart strike c) ≡ true) qs

  abbrev pub IsMatch : N → List (PriceQuote N) → Option (PriceQuote N) → Type 0
  IsMatch strike qs none = qs ≡ []
  IsMatch strike qs (some q) = Memᴰ q qs × IsNearest strike qs q

  closest-mem :
      (strike : N) (all : List (PriceQuote N)) (best : PriceQuote N) (qs : List (PriceQuote N))
      → Memᴰ best all
      → ((c : PriceQuote N) → Memᴰ c qs → Memᴰ c all)
      → Memᴰ (closest strike best qs) all
  unfolding closest
  closest-mem strike all best [] m sub_all = m
  closest-mem strike all best (q ∷ qs) m sub_all =
      let deeper : (c : PriceQuote N) → Memᴰ c qs → Memᴰ c all = λ c k. sub_all c (Memᴰ.tail k) in
      elim (Bool-cases (lt (apart strike q) (apart strike best))) [
        | inl e ↦ rw (e, closest) (closest-mem strike all q qs (sub_all q (Memᴰ.head refl)) deeper)
        | inr e ↦ rw (e, closest) (closest-mem strike all best qs m deeper)
      ]

  module _ (order : IsOrdered N) (strike : N) where
    closest-IsNearest :
        (best : PriceQuote N) (qs : List (PriceQuote N))
        → le (apart strike best) (apart strike best) ≡ true
        → IsComparable strike qs
        → IsNearest strike (best ∷ qs) (closest strike best qs)
    unfolding closest
    closest-IsNearest best [] b _ = (b, tt)
    closest-IsNearest best (q ∷ qs) b (n, ns) =
        elim (Bool-cases (lt (apart strike q) (apart strike best))) [
          | inl e ↦
              let (h, hs) = closest-IsNearest q qs n ns in
              let turns : closest strike q qs ≡ closest strike best (q ∷ qs) =
                rw (e, closest) refl in
              subst (IsNearest strike (best ∷ q ∷ qs)) turns
                (order.le_trans _ _ _ h (order.le_of_lt _ _ e), (h, hs))
          | inr e ↦
              let (h, hs) = closest-IsNearest best qs b ns in
              let stays : closest strike best qs ≡ closest strike best (q ∷ qs) =
                rw (e, closest) refl in
              subst (IsNearest strike (best ∷ q ∷ qs)) stays
                (h, (order.le_trans _ _ _ h (order.le_of_not_lt _ _ n b e), hs))
        ]

    closest_of-IsMatch :
        (qs : List (PriceQuote N))
        → IsComparable strike qs
        → IsMatch strike qs (closest_of strike qs)
    closest_of-IsMatch [] _ = refl
    closest_of-IsMatch (q ∷ qs) (n, ns) = (
      closest-mem strike (q ∷ qs) q (q ∷ qs) (Memᴰ.head refl) (λ c k. k),
      (closest-IsNearest q (q ∷ qs) n (n, ns)).1,
    )

    -- With numbers that satisfy these laws and strikes of which none is NaN: the quote that
    -- findMatchingQuote finds is one of the candidates, and no candidate is nearer to the chosen
    -- strike; it finds none only if there is no candidate.
    pub find_matching_quote-IsMatch :
        (prices : List (PriceQuote N)) (side : SliderSide)
        → IsComparable strike (keep (is_candidate side) prices)
        → IsMatch strike (keep (is_candidate side) prices) (find_matching_quote prices strike side)
    unfolding find_matching_quote
    find_matching_quote-IsMatch prices side h =
        closest_of-IsMatch (keep (is_candidate side) prices) h
