-- ===== src/Menu/Choice.antt =====
-- The quote that is selected, whatever the hooks bring and wherever the user clicks.
use b1nary_xlayer_hackathon.Prelude.{
  ◌≡◌, String, Bool, true, false, ◌&&◌, ◌||◌, Option, none, some, List, [], ◌∷◌, find, All, All-map,
  All-kept, find-All, find-passes, inl, inr, Bool-cases, Option-cases, arith, refl, if◌then◌else◌,
}
use b1nary_xlayer_hackathon.Js.Number.{JsNumber, HasSame}
use b1nary_xlayer_hackathon.Js.Sort.{All-sort}
use b1nary_xlayer_hackathon.Api.{PriceQuote, put, call}
use b1nary_xlayer_hackathon.Execution.Order.{or_default}
use b1nary_xlayer_hackathon.Earn.{same_type, same_text, pays}
use b1nary_xlayer_hackathon.Menu.{
  MenuSide, range, is_buy, is_range, first_or, Menu, spot, active_expiry, is_offered,
  filtered_prices, or_match, keep_selection, run_effect, card_disabled, handle_percent_shortcut,
  select, choose_side, start_tutorial, accept_another,
}

drop_two : (a b c d : Bool) → (a && b && c && d) ≡ true → (a && c) ≡ true
drop_two a b c d h = ground arith

module _ {N : Type 0} ⦃js : JsNumber N⦄ where
  open js use {lt, same, infinity, minus_infinity}

  abbrev pub type_fits : MenuSide → PriceQuote N → Bool
  type_fits side q = same_type q.option_type (if is_buy side then put else call)

  -- The strike is below the spot price for a purchase and above it for a sale.
  abbrev pub strike_fits : MenuSide → Option N → PriceQuote N → Bool
  strike_fits side spot q =
      if is_buy side
      then lt q.strike (or_default spot infinity)
      else lt (or_default spot minus_infinity) q.strike

  abbrev pub fits : MenuSide → Option N → PriceQuote N → Bool
  fits side spot q = type_fits side q && strike_fits side spot q

  abbrev chosen_fits : MenuSide → Option N → Option (PriceQuote N) → Bool
  chosen_fits side spot none = true
  chosen_fits side spot (some q) = fits side spot q

  abbrev chosen_type : MenuSide → Option (PriceQuote N) → Bool
  chosen_type side none = true
  chosen_type side (some q) = type_fits side q

  abbrev IsCurrent : Menu N → Type 0
  IsCurrent m = (is_range m.side || chosen_fits m.side (spot m) m.selected_quote) ≡ true

  -- What can happen: a click on a card, a side, an expiry or a shortcut, a text in the input, the
  -- tutorial, the buttons behind a trade, and news of the hooks. The effect runs when the filtered
  -- prices have changed.
  pub data Step (m : Menu N) : Menu N → Type 0 where
    picks :
        (q : PriceQuote N)
        → is_offered m.side (active_expiry m) (spot m) q ≡ true
        → card_disabled q ≡ false
        → Step m (select q m)
    turns : (side : MenuSide) → Step m (run_effect (choose_side side m))
    dates : (expiry : String) → Step m (run_effect (record m { selected_expiry = some expiry }))
    learns :
        (prices : List (PriceQuote N)) (spot_endpoint : Option N)
        → Step m (run_effect (record m { prices = prices; spot_endpoint = spot_endpoint }))
    types : (text : String) → Step m (record m { amount_str = text })
    shortens : (pct : N) → Step m (handle_percent_shortcut pct m)
    tours : Step m (start_tutorial m)
    repeats : Step m (accept_another m)
    repeats_range : Step m (run_effect (record m { side = range }))

  pub data Reachable : Menu N → Type 0 where
    start : {m : Menu N} → m.selected_quote ≡ none → Reachable m
    after : (m n : Menu N) → Reachable m → Step m n → Reachable n

  is_offered-fits :
      (side : MenuSide) (expiry : Option String) (spot : Option N) (q : PriceQuote N)
      → is_offered side expiry spot q ≡ true
      → fits side spot q ≡ true
  unfolding is_offered
  is_offered-fits side expiry spot q h =
      drop_two (type_fits side q) (same_text q.expiry_date expiry) (strike_fits side spot q)
        (pays q) h

  filtered_prices-fits : (m : Menu N) → All (λ q. fits m.side (spot m) q ≡ true) (filtered_prices m)
  unfolding filtered_prices
  filtered_prices-fits m =
      All-map _ _ (filtered_prices m) (λ q h. is_offered-fits m.side (active_expiry m) (spot m) q h)
        (All-sort _ _ _ (All-kept (is_offered m.side (active_expiry m) (spot m)) m.prices))

  module _ (laws : HasSame N) where
    -- What is selected still has the strike of a price that is offered.
    keep_selection-fits :
        (side : MenuSide) (spot : Option N) (qs : List (PriceQuote N)) (prev : PriceQuote N)
        → All (λ q. fits side spot q ≡ true) qs
        → type_fits side prev ≡ true
        → chosen_fits side spot (keep_selection qs (some prev)) ≡ true
    unfolding keep_selection
    keep_selection-fits side spot qs prev all t =
        elim (Option-cases (find (λ q. same q.strike prev.strike) qs)) [
          | inl e ↦ rw (e, keep_selection) refl
          | inr (match, e) ↦ rw (e, keep_selection) (kept match e)
        ]
      where
        kept :
            (match : PriceQuote N)
            → find (λ q. same q.strike prev.strike) qs ≡ some match
            → fits side spot (or_match prev match) ≡ true
        kept match e =
            let good = find-All (λ q. fits side spot q ≡ true) _ qs match all e in
            let eq = find-passes (λ q. same q.strike prev.strike) qs match e in
            let below = laws.same-lt match.strike prev.strike (or_default spot infinity) eq in
            let above = laws.lt-same match.strike prev.strike (or_default spot minus_infinity) eq in
            ground (arith, good, below, above)

    renewed :
        (side : MenuSide) (spot : Option N) (qs : List (PriceQuote N)) (o : Option (PriceQuote N))
        → (is_range side || chosen_type side o) ≡ true
        → All (λ q. fits side spot q ≡ true) qs
        → (is_range side || chosen_fits side spot (keep_selection qs o)) ≡ true
    unfolding keep_selection
    renewed side spot qs none h all = ground arith
    renewed side spot qs (some prev) h all =
        let kept = keep_selection-fits side spot qs prev all in ground (arith, kept)

    run_effect-IsCurrent :
        (m : Menu N)
        → (is_range m.side || chosen_type m.side m.selected_quote) ≡ true
        → IsCurrent (run_effect m)
    unfolding run_effect
    run_effect-IsCurrent m h =
        renewed m.side (spot m) (filtered_prices m) m.selected_quote h (filtered_prices-fits m)

    weaken :
        (side : MenuSide) (spot : Option N) (o : Option (PriceQuote N))
        → (is_range side || chosen_fits side spot o) ≡ true
        → (is_range side || chosen_type side o) ≡ true
    weaken side spot none h = h
    weaken side spot (some q) h = ground arith

    first_or-fits :
        (side : MenuSide) (spot : Option N) (qs : List (PriceQuote N)) (o : Option (PriceQuote N))
        → (is_range side || chosen_fits side spot o) ≡ true
        → All (λ q. fits side spot q ≡ true) qs
        → (is_range side || chosen_fits side spot (first_or o qs)) ≡ true
    first_or-fits side spot [] o h all = h
    first_or-fits side spot (q ∷ qs) o h (good, all) = ground arith

    start_tutorial-IsCurrent : (m : Menu N) → IsCurrent m → IsCurrent (start_tutorial m)
    unfolding start_tutorial
    start_tutorial-IsCurrent m h = elim (Bool-cases (is_range m.side)) [
      | inl e ↦ rw (e, start_tutorial) h
      | inr e ↦
          rw (e, start_tutorial)
            (first_or-fits m.side (spot m) (filtered_prices m) m.selected_quote h
              (filtered_prices-fits m))
    ]

    Step-IsCurrent : (m n : Menu N) → Step m n → IsCurrent m → IsCurrent n
    unfolding handle_percent_shortcut choose_side accept_another
    Step-IsCurrent m _ (picks q o d) h =
        let f = is_offered-fits m.side (active_expiry m) (spot m) q o in ground (arith, f)
    Step-IsCurrent m _ (turns side) h = run_effect-IsCurrent (choose_side side m) (ground arith)
    Step-IsCurrent m _ (dates expiry) h =
        run_effect-IsCurrent (record m { selected_expiry = some expiry })
          (weaken m.side (spot m) m.selected_quote h)
    Step-IsCurrent m _ (learns prices spot_endpoint) h =
        run_effect-IsCurrent (record m { prices = prices; spot_endpoint = spot_endpoint })
          (weaken m.side (spot m) m.selected_quote h)
    Step-IsCurrent m _ (types text) h = h
    Step-IsCurrent m _ (shortens pct) h = h
    Step-IsCurrent m _ tours h = start_tutorial-IsCurrent m h
    Step-IsCurrent m _ repeats h = ground arith
    Step-IsCurrent m _ repeats_range h = run_effect-IsCurrent (record m { side = range }) refl

    Reachable-IsCurrent : (m : Menu N) → Reachable m → IsCurrent m
    Reachable-IsCurrent m (start e) = rw (e, chosen_fits) (ground arith)
    Reachable-IsCurrent m (after n _ r st) = Step-IsCurrent n m st (Reachable-IsCurrent n r)

    -- In every state that can be reached, a quote that is selected for a purchase is a put whose strike is
    -- below the spot price, and one that is selected for a sale is a call whose strike is above it, where
    -- a missing spot price is taken as infinite.
    pub selected_quote-fits :
        (m : Menu N) (q : PriceQuote N)
        → Reachable m
        → is_range m.side ≡ false
        → m.selected_quote ≡ some q
        → fits m.side (spot m) q ≡ true
    selected_quote-fits m q r side e = let h = Reachable-IsCurrent m r in ground (arith, h, e)
