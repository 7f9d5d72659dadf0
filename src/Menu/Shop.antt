-- ===== src/Menu/Shop.antt =====
-- The button of the price menu, the dialog that it opens and the screen behind it, with the numbers
-- that frontend/src/components/v2/PriceMenuV2.tsx and frontend/src/components/AcceptModal.tsx show.
use b1nary_xlayer_hackathon.Prelude.{
  ◌≡◌, refl, sym, subst, String, Bool, true, false, not, ◌&&◌, ◌||◌, Option, none, some, List, [],
  ◌∷◌, keep, if◌then◌else◌,
}
use b1nary_xlayer_hackathon.Js.Number.{JsNumber}
use b1nary_xlayer_hackathon.Api.{PriceQuote, put, call}
use b1nary_xlayer_hackathon.Assets.{AssetConfig}
use b1nary_xlayer_hackathon.Accept.Props.{AcceptProps, max_amount, amount_of, truthy}
use b1nary_xlayer_hackathon.Accept.Handler.{TxStep, idle, executing, confirmed}
use b1nary_xlayer_hackathon.Execution.Order.{compute_apr, compute_roi}
use b1nary_xlayer_hackathon.Earn.{same_type, same_text}
use b1nary_xlayer_hackathon.Menu.{
  Menu, is_buy, active_expiry, market_closed, can_accept, selected_earnings, floor_to,
}
use b1nary_xlayer_hackathon.Menu.Shortcut.{dialog_props}

-- The state `accepted`.
pub record Accepted (N : Type 0) : Type 0 where
  pub quote : PriceQuote N
  pub was_buy : Bool
  pub committed : N
  pub tx_hash : Option String

-- The menu with what stands around it.
pub record Shop (N : Type 0) : Type 0 where
  pub menu : Menu N
  pub is_connected : Bool
  pub confirming : Bool
  pub accepted : Option (Accepted N)

pub data MenuLabel (N : Type 0) : Type 0 where
  closed_label connect_label enter_amount select_strike : MenuLabel N
  earn : N → MenuLabel N

pub data DialogLabel : Type 0 where
  executing_order finished_label connect_wallet_label accept_label : DialogLabel

-- `buttonLabel`
abbrev pub dialog_label : TxStep → Bool → DialogLabel
dialog_label executing connected = executing_order
dialog_label confirmed connected = finished_label
dialog_label idle false = connect_wallet_label
dialog_label idle true = accept_label

abbrev pub has_quote : {A : Type 0} → Option A → Bool
has_quote none = false
has_quote (some q) = true

module _ {N : Type 0} ⦃js : JsNumber N⦄ where
  open js use {num, add, sub, mul, div, min, lt, to_text}

  -- The parts of `StrikeCard`.
  unfoldable pub card_earnings : Bool → N → PriceQuote N → N
  card_earnings is_purchase amount q =
      if lt (num 0) amount
      then (if is_purchase then div (mul q.premium amount) q.strike else mul q.premium amount)
      else num 0

  unfoldable pub card_distance : Option N → PriceQuote N → Option N
  card_distance none q = none
  card_distance (some price) q =
      if truthy price && lt (num 0) price
      then some (mul (div (sub q.strike price) price) (num 100))
      else none

  -- `reduce((sum, p) => sum + p.position_count, 0)`
  unfoldable pub sum_counts : N → List (PriceQuote N) → N
  sum_counts sum [] = sum
  sum_counts sum (p ∷ ps) = sum_counts (add sum p.position_count) ps

  unfoldable pub total_positions_for_expiry : Menu N → N
  unfolding sum_counts active_expiry
  total_positions_for_expiry m = sum_counts (num 0) (
      keep
        (λ p.
          same_text p.expiry_date (active_expiry m)
          && same_type p.option_type (if is_buy m.side then put else call))
        m.prices)

  unfoldable pub selected_apr : Menu N → N
  unfolding compute_apr
  selected_apr m = elim m.selected_quote [
    | none ↦ num 0
    | some q ↦ compute_apr q.premium q.strike q.expiry_days
  ]

  -- The numbers of the dialog.
  unfoldable pub scaled_premium : AcceptProps N → N → N
  scaled_premium p amount =
      if p.is_buy
      then div (mul p.quote.premium amount) p.quote.strike
      else mul p.quote.premium amount

  unfoldable pub dialog_apr : AcceptProps N → N
  unfolding compute_apr
  dialog_apr p = compute_apr p.quote.premium p.quote.strike p.quote.expiry_days

  unfoldable pub dialog_roi : AcceptProps N → N
  unfolding compute_roi
  dialog_roi p = compute_roi p.quote.premium p.quote.strike

  abbrev pub max_input_amount : N → AcceptProps N → N
  max_input_amount wallet_balance p = min wallet_balance (max_amount p)

  -- `assetConfig?.displayDecimals ?? 4`
  abbrev percent_decimals : Option (AssetConfig N) → N
  percent_decimals none = num 4
  percent_decimals (some config) = config.display_decimals

  -- `handlePercent`
  unfoldable pub percent_text : Option (AssetConfig N) → N → N → AcceptProps N → String
  unfolding floor_to max_amount
  percent_text config wallet_balance pct p =
      let raw = mul (max_input_amount wallet_balance p) (div pct (num 100)) in
      to_text (floor_to raw (if p.is_buy then num 2 else percent_decimals config))

  -- The button of the menu.
  unfoldable pub accept_disabled : Shop N → Bool
  unfolding market_closed can_accept
  accept_disabled s = market_closed s.menu || (not (can_accept s.menu) && s.is_connected)

  unfoldable pub menu_label : Shop N → MenuLabel N
  unfolding market_closed selected_earnings amount_of
  menu_label s =
      if market_closed s.menu
      then closed_label
      else if not s.is_connected
      then connect_label
      else if not (truthy (amount_of {N = N} s.menu.amount_str))
      then enter_amount
      else if not (has_quote s.menu.selected_quote)
      then select_strike
      else earn (selected_earnings s.menu)

  -- A disabled button does not answer to a click.
  unfoldable pub click_accept : Shop N → Shop N
  unfolding accept_disabled
  click_accept s = if accept_disabled s then s else record s { confirming = true }

  -- `confirming && selectedQuote`
  abbrev pub dialog_open : Shop N → Bool
  dialog_open s = s.confirming && has_quote s.menu.selected_quote

  abbrev pub close_dialog : Shop N → Shop N
  close_dialog s = record s { confirming = false }

  -- `onAccepted` of the dialog that was opened with this quote.
  unfoldable pub take_accepted : PriceQuote N → N → Option String → Shop N → Shop N
  take_accepted q amount hash s = record s {
    confirming = false;
    accepted =
        some
          (record { quote = q; was_buy = is_buy s.menu.side; committed = amount; tx_hash = hash });
  }

  -- "earned. Yours to keep."
  unfoldable pub earned : Accepted N → N
  earned a =
      if a.was_buy
      then div (mul a.quote.premium a.committed) a.quote.strike
      else mul a.quote.premium a.committed

  -- The four places in which the price of a trade is shown.
  pub record Agrees (s : Shop N) (q : PriceQuote N) (hash : Option String) : Type 0 where
    pub by_card :
        card_earnings (is_buy s.menu.side) (amount_of s.menu.amount_str) q
        ≡ selected_earnings s.menu
    pub by_dialog :
        scaled_premium (dialog_props s.menu q) (amount_of s.menu.amount_str)
        ≡ selected_earnings s.menu
    pub by_screen :
        (a : Accepted N)
        → (take_accepted q (amount_of s.menu.amount_str) hash s).accepted ≡ some a
        → earned a ≡ selected_earnings s.menu

  -- For a positive amount and a selected quote with a positive strike, the card of the quote, the
  -- button, the dialog and the screen behind it all show the same earnings.
  pub earnings-Agrees :
      (s : Shop N) (q : PriceQuote N) (hash : Option String)
      → s.menu.selected_quote ≡ some q
      → lt (num 0) (amount_of s.menu.amount_str) ≡ true
      → lt (num 0) q.strike ≡ true
      → Agrees s q hash
  unfolding card_earnings selected_earnings scaled_premium take_accepted earned
  earnings-Agrees s q hash chosen paid priced =
      let amount = amount_of s.menu.amount_str in
      let shown : selected_earnings s.menu ≡ (
          if is_buy s.menu.side
          then div (mul q.premium amount) q.strike
          else mul q.premium amount) =
        rw (chosen, paid, priced, selected_earnings) refl in
      record {
        by_card = rw (paid, card_earnings) (sym shown);
        by_dialog = sym shown;
        by_screen = λ a e.
            let behind : record {
              quote = q;
              was_buy = is_buy s.menu.side;
              committed = amount;
              tx_hash = hash;
            }
                ≡ a =
              cc in
            subst (λ x. earned x ≡ selected_earnings s.menu) behind (sym shown);
      }
