-- ===== src/Menu/Shortcut.antt =====
-- The menu together with the dialog that it opens, with the page of ranges in it, and with its order.
use b1nary_xlayer_hackathon.Prelude.{
  ◌≡◌, refl, Bool, true, false, none, some, All, All-keep, keep, if◌then◌else◌, arith,
}
use b1nary_xlayer_hackathon.Js.Number.{JsNumber, IsOrdered, HasMin, HasDifference}
use b1nary_xlayer_hackathon.Js.Sort.{sort, IsOrderly}
use b1nary_xlayer_hackathon.Js.Sort.ByNumber.{behind, HasKey, sort-by_difference}
use b1nary_xlayer_hackathon.Api.{PriceQuote}
use b1nary_xlayer_hackathon.Accept.Props.{AcceptProps, max_amount, amount_of}
use b1nary_xlayer_hackathon.Earn.{Offer, put_strikes, call_strikes, is_put_strike, is_call_strike}
use b1nary_xlayer_hackathon.Menu.{
  buy, sell, range, is_buy, Menu, spot, active_expiry, is_offered, filtered_prices, strike_later,
  cap_eth, max_position, floor_to, percent_amount, percent_part, handle_percent_shortcut,
}

module _ {N : Type 0} ⦃js : JsNumber N⦄ where
  open js use {num, mul, div, min, lt, le, parse, to_text}

  -- The offer that the page of ranges is opened with.
  abbrev pub range_offer : Menu N → Offer N
  range_offer m = record {
    prices = m.prices;
    active_expiry = active_expiry m;
    spot = spot m;
    put_quote = none;
    call_quote = none;
  }

  -- The dialog that a click on the button opens.
  abbrev pub dialog_props : Menu N → PriceQuote N → AcceptProps N
  dialog_props m q = record {
    quote = q;
    is_buy = is_buy m.side;
    max_position_eth = max_position m;
    asset_slug = m.asset.slug;
    amount_str = m.amount_str;
  }

  abbrev pub strike_of : PriceQuote N → N
  strike_of q = q.strike

  abbrev offered : Menu N → PriceQuote N → Bool
  offered m = is_offered m.side (active_expiry m) (spot m)

  -- The prices of a purchase are the lower strikes of a range, and those of a sale the upper strikes, in
  -- the same order.
  pub filtered_prices_of_range :
      (m : Menu N)
      → filtered_prices m
        ≡ (if is_buy m.side then put_strikes (range_offer m) else call_strikes (range_offer m))
  unfolding filtered_prices put_strikes call_strikes is_offered is_put_strike is_call_strike
  filtered_prices_of_range m =
      elim m.side
        as (λ side.
          sort (strike_later side) (keep (is_offered side (active_expiry m) (spot m)) m.prices)
          ≡ (if is_buy side then put_strikes (range_offer m) else call_strikes (range_offer m))) [
            | buy ↦ refl
            | sell ↦ refl
            | range ↦ refl
          ]

  -- If no strike is NaN, the prices are shown from the highest strike downwards for a purchase and from
  -- the lowest upwards for a sale.
  pub filtered_prices-IsOrderly :
      IsOrdered N
      → HasDifference N
      → (m : Menu N) → All (HasKey strike_of) m.prices
      → IsOrderly (behind (is_buy m.side) strike_of) (filtered_prices m)
  unfolding filtered_prices
  filtered_prices-IsOrderly order signs m strikes =
      sort-by_difference (is_buy m.side) strike_of order signs (keep (offered m) m.prices)
        (All-keep _ _ (offered m) m.prices (λ q h. h) strikes)

  -- What a shortcut writes is what the dialog reads: the amount, if it is not 0.
  amount_of-text :
      (order : IsOrdered N) (x : N)
      → parse (to_text x) ≡ x
      → lt (num 0) (amount_of (to_text x)) ≡ true
      → amount_of (to_text x) ≡ x
  unfolding amount_of
  amount_of-text order x e h = let i = order.lt_irrefl (num 0) in ground (arith, i, e)

  -- With numbers that satisfy these laws and a known capacity that is not above what the quote has: the
  -- amount that a shortcut writes for a sale, where its text is read back as it was, and the button is
  -- enabled by it, is not above the maximum of the dialog.
  pub percent_shortcut-le-max :
      IsOrdered N
      → HasMin N
      → (m : Menu N) (q : PriceQuote N) (pct limit : N) → m.side ≡ sell
      → max_position m ≡ some limit
      → le limit q.available_amount ≡ true
      → (let raw = floor_to (percent_part m pct) m.asset.display_decimals in le raw raw ≡ true)
      → parse (to_text (percent_amount m pct)) ≡ percent_amount m pct
      → lt (num 0) (amount_of (handle_percent_shortcut pct m).amount_str) ≡ true
      → let m' = handle_percent_shortcut pct m in
        lt (max_amount (dialog_props m' q)) (amount_of m'.amount_str) ≡ false
  unfolding handle_percent_shortcut max_amount percent_amount cap_eth
  percent_shortcut-le-max order mins m q pct limit s c h r t a =
      let read = amount_of-text order (percent_amount m pct) t a in
      let (below, under) = order.min_le raw limit r (order.refl_of_le limit _ h).0 in
      let least = mins.le_min q.available_amount limit _ (order.le_trans _ limit _ under h) under in
      let back =
        order.le-lt_trans (min raw limit) (min q.available_amount limit) (min raw limit) least in
      let i = order.lt_irrefl (min raw limit) in rw (read, part, top) (ground (arith, back, i))
    where
      raw : N
      raw = floor_to (percent_part m pct) m.asset.display_decimals

      part : percent_amount m pct ≡ min raw limit
      part = rw (percent_amount, s, cap_eth, c) refl

      top :
          max_amount (dialog_props (handle_percent_shortcut pct m) q) ≡ min q.available_amount limit
      top = rw (max_amount, s, c) refl
