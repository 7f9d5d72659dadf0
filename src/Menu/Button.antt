-- ===== src/Menu/Button.antt =====
-- When the button of the price menu opens the trade dialog.
use text.Mathlib.Text.{◌==◌ as str_eq}
use text.Mathlib.TextEquality.{eq_iff}
use b1nary_xlayer_hackathon.Prelude.{
  ◌≡◌, ◌≢◌, ◌↔◌, refl, inl, inr, Option-cases, Bool-cases, String, Bool, true, false, not, ◌||◌,
  some, arith,
}
use b1nary_xlayer_hackathon.Js.Number.{JsNumber}
use b1nary_xlayer_hackathon.Api.{PriceQuote, Capacity, MarketStatus, active, degraded, full}
use b1nary_xlayer_hackathon.Accept.Props.{amount_of}
use b1nary_xlayer_hackathon.Menu.{Menu, is_full, market_closed, can_accept}
use b1nary_xlayer_hackathon.Menu.Shop.{Shop, dialog_open, has_quote, click_accept, accept_disabled}

module _ {N : Type 0} ⦃js : JsNumber N⦄ where
  open js use {num, lt}

  -- The market is open: the backend has said nothing of its capacity, or that it is open and not full.
  abbrev pub IsOpen : Menu N → Type 0
  IsOpen m =
      (c : Capacity N) → m.capacity ≡ some c → (c.market_open ≡ true) × (c.market_status ≢ full)

  -- A quote with an option token is selected, and the amount is positive.
  pub record Buyable (m : Menu N) : Type 0 where
    pub quote : PriceQuote N
    pub token : String
    pub chosen : m.selected_quote ≡ some quote
    pub issued : quote.otoken_address ≡ some token
    pub named : token ≢ ""
    pub paid : lt (num 0) (amount_of m.amount_str) ≡ true

  market_closed-IsOpen : (m : Menu N) → market_closed m ≡ false → IsOpen m
  unfolding market_closed
  market_closed-IsOpen m h c e =
      let h' = rw (e, market_closed) at h in open_status c.market_open c.market_status h'
    where
      open_status :
          (o : Bool) (s : MarketStatus) → (not o || is_full s) ≡ false → (o ≡ true) × (s ≢ full)
      open_status true active k = (refl, λ x. cc)
      open_status true degraded k = (refl, λ x. cc)
      open_status true full k = cc
      open_status false s k = cc

  IsOpen-market_closed : (m : Menu N) → IsOpen m → market_closed m ≡ false
  unfolding market_closed
  IsOpen-market_closed m h = elim (Option-cases m.capacity) [
    | inl e ↦ rw (e, market_closed) refl
    | inr (c, e) ↦
        rw (e, market_closed) (status_of c.market_open c.market_status (h c e).0 (h c e).1)
  ]
    where
      status_of : (o : Bool) (s : MarketStatus) → o ≡ true → s ≢ full → (not o || is_full s) ≡ false
      status_of true active k n = refl
      status_of true degraded k n = refl
      status_of true full k n = absurd (n refl)
      status_of false s k n = cc

  can_accept-Buyable : (m : Menu N) → can_accept m ≡ true → Buyable m
  unfolding can_accept
  can_accept-Buyable m h = elim (Option-cases m.selected_quote) [
    | inl e ↦ let never : false ≡ true = rw (e, can_accept) at h in cc
    | inr (q, e) ↦ elim (Option-cases q.otoken_address) [
      | inl t ↦ let g = rw (e, can_accept) at h in let k = rw t at g in ground arith
      | inr (a, t) ↦
          let g = rw (e, can_accept) at h in
          let k = rw t at g in
          record {
            quote = q;
            token = a;
            chosen = e;
            issued = t;
            named = λ empty. ground (arith, eq_iff a "");
            paid = ground arith;
          }
    ]
  ]

  Buyable-can_accept : (m : Menu N) → Buyable m → can_accept m ≡ true
  unfolding can_accept
  Buyable-can_accept m b = elim (Bool-cases (str_eq b.token "")) [
    | inl e ↦ absurd (b.named ((eq_iff b.token "").0 e))
    | inr e ↦ rw (b.chosen, b.paid, b.issued, e, can_accept) refl
  ]

  dialog_open-chosen : (s : Shop N) → Buyable s.menu → has_quote s.menu.selected_quote ≡ true
  dialog_open-chosen s b = rw b.chosen refl

  -- A click of a connected user on the button, while the dialog is shut, opens the dialog exactly if the
  -- backend has not said that the market is closed or full, a quote with an option token is selected and
  -- the amount is positive.
  pub click_accept-opens :
      (s : Shop N)
      → s.is_connected ≡ true
      → s.confirming ≡ false
      → (dialog_open (click_accept s) ≡ true) ↔ (IsOpen s.menu × Buyable s.menu)
  unfolding click_accept accept_disabled
  click_accept-opens s c o = elim (Bool-cases (market_closed s.menu)) [
    | inl m ↦
        rw (m, click_accept, accept_disabled)
          (rw o (λ h. cc, λ (is_open, _). let shut = IsOpen-market_closed s.menu is_open in cc))
    | inr m ↦ elim (Bool-cases (can_accept s.menu)) [
      | inl a ↦
          let b = can_accept-Buyable s.menu a in
          rw (m, a, click_accept, accept_disabled)
            (rw (dialog_open-chosen s b) (λ h. (market_closed-IsOpen s.menu m, b), λ h. refl))
      | inr a ↦
          rw (m, a, c, click_accept, accept_disabled)
            (rw o (λ h. cc, λ (_, b). let can = Buyable-can_accept s.menu b in cc))
    ]
  ]
