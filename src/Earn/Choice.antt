-- ===== src/Earn/Choice.antt =====
-- The two strikes that the user has chosen, whatever happens to prices and spot.
use b1nary_xlayer_hackathon.Prelude.{
  ◌≡◌, String, Bool, true, ◌&&◌, Option, none, some, List, All, All-kept, find-All, arith,
}
use b1nary_xlayer_hackathon.Js.Number.{JsNumber, IsOrdered}
use b1nary_xlayer_hackathon.Js.Sort.{All-sort}
use b1nary_xlayer_hackathon.Api.{PriceQuote, put, call}
use b1nary_xlayer_hackathon.Earn.{
  Offer, is_put_strike, is_call_strike, put_strikes, call_strikes, reselect, reset_selections,
  same_type, same_text, pays,
}

third : (a b c d : Bool) → (a && b && c && d) ≡ true → c ≡ true
third a b c d h = ground arith

module _ {N : Type 0} ⦃js : JsNumber N⦄ where
  open js use {lt}

  -- What can happen: a click on a strike that is offered, or new prices, another expiry or another spot
  -- price, behind which the effect runs.
  pub data Step : Offer N → Offer N → Type 0 where
    pick_put :
        (s : Offer N) (q : PriceQuote N)
        → is_put_strike s.active_expiry s.spot q ≡ true
        → Step s (record s { put_quote = some q })
    pick_call :
        (s : Offer N) (q : PriceQuote N)
        → is_call_strike s.active_expiry s.spot q ≡ true
        → Step s (record s { call_quote = some q })
    change :
        (s : Offer N) (prices : List (PriceQuote N)) (active : Option String) (spot : Option N)
        → Step s
            (reset_selections (record s { prices = prices; active_expiry = active; spot = spot }))

  pub data Reachable : Offer N → Type 0 where
    start : (s : Offer N) → s.put_quote ≡ none → s.call_quote ≡ none → Reachable s
    after : (s t : Offer N) → Reachable s → Step s t → Reachable t

  -- The chosen quotes are among those that are offered now.
  abbrev Current : Offer N → Type 0
  Current s =
      ((q : PriceQuote N) → s.put_quote ≡ some q → is_put_strike s.active_expiry s.spot q ≡ true)
      × ((q : PriceQuote N)
          → s.call_quote ≡ some q
          → is_call_strike s.active_expiry s.spot q ≡ true)

  reselect-passes :
      (p : PriceQuote N → Bool) (strikes : List (PriceQuote N)) (prev : Option (PriceQuote N))
      (q : PriceQuote N)
      → All (λ r. p r ≡ true) strikes
      → reselect strikes prev ≡ some q
      → p q ≡ true
  unfolding reselect
  reselect-passes p strikes none q g e = cc
  reselect-passes p strikes (some prev) q g e = find-All (λ r. p r ≡ true) _ strikes q g e

  reset_selections-Current : (s : Offer N) → Current (reset_selections s)
  unfolding reset_selections put_strikes call_strikes
  reset_selections-Current s = (
    λ q e.
        reselect-passes (is_put_strike s.active_expiry s.spot) (put_strikes s) s.put_quote q
          (All-sort _ _ _ (All-kept _ s.prices)) e,
    λ q e.
        reselect-passes (is_call_strike s.active_expiry s.spot) (call_strikes s) s.call_quote q
          (All-sort _ _ _ (All-kept _ s.prices)) e,
  )

  Step-Current : (s t : Offer N) → Step s t → Current s → Current t
  Step-Current s _ (pick_put _ q h) (p, c) = (λ r e. ground (arith, h), c)
  Step-Current s _ (pick_call _ q h) (p, c) = (p, λ r e. ground (arith, h))
  Step-Current s _ (change _ prices active spot) (p, c) =
      reset_selections-Current (record s { prices = prices; active_expiry = active; spot = spot })

  Reachable-Current : (s : Offer N) → Reachable s → Current s
  Reachable-Current s (start _ a b) = (λ q e. cc, λ q e. cc)
  Reachable-Current s (after r _ h st) = Step-Current r s st (Reachable-Current r h)

  put_below :
      (active : Option String) (spot : N) (p : PriceQuote N)
      → is_put_strike active (some spot) p ≡ true
      → lt p.strike spot ≡ true
  unfolding is_put_strike
  put_below active spot p h =
      third (same_type p.option_type put) (same_text p.expiry_date active) _ (pays p) h

  call_above :
      (active : Option String) (spot : N) (c : PriceQuote N)
      → is_call_strike active (some spot) c ≡ true
      → lt spot c.strike ≡ true
  unfolding is_call_strike
  call_above active spot c h =
      third (same_type c.option_type call) (same_text c.expiry_date active) _ (pays c) h

  -- In every state that can be reached, once the effect has run: if both quotes are chosen and the spot
  -- price is known, the strike of the put is below the spot price and below the strike of the call.
  pub chosen_strikes_lt :
      (order : IsOrdered N) (s : Offer N) (p c : PriceQuote N) (spot : N)
      → Reachable s
      → s.put_quote ≡ some p
      → s.call_quote ≡ some c
      → s.spot ≡ some spot
      → (lt p.strike spot ≡ true) × (lt spot c.strike ≡ true) × (lt p.strike c.strike ≡ true)
  chosen_strikes_lt order s p c spot r e f g =
      let (is_put, is_call) = Reachable-Current s r in
      let below = put_below s.active_expiry spot p (rw g at is_put p e) in
      let above = call_above s.active_expiry spot c (rw g at is_call c f) in
      (below, above, order.lt_trans p.strike spot c.strike below above)
