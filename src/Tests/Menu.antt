-- ===== src/Tests/Menu.antt =====
-- The menu of prices at concrete inputs.
use b1nary_xlayer_hackathon.Prelude.{◌≡◌, ◌↔◌, refl, true, false, some, none, [], ◌∷◌, arith}
use b1nary_xlayer_hackathon.Js.Number.{HasSame, HasMin}
use b1nary_xlayer_hackathon.Js.Fixed.{Fixed, fixed}
use b1nary_xlayer_hackathon.Js.Sort.{sort}
use b1nary_xlayer_hackathon.Api.{PriceQuote, active}
use b1nary_xlayer_hackathon.Assets.{okb_config}
use b1nary_xlayer_hackathon.Execution.Order.{compute_apr}
use b1nary_xlayer_hackathon.Accept.Props.{amount_of}
use b1nary_xlayer_hackathon.Menu.{
  buy, sell, Menu, is_offered, filtered_prices, select, run_effect, active_expiry, market_closed,
  can_accept, keep_selection,
}
use b1nary_xlayer_hackathon.Menu.Choice.{
  Reachable, start, after, picks, learns, fits, selected_quote-fits,
}
use b1nary_xlayer_hackathon.Menu.Shop.{
  Shop, Agrees, earnings-Agrees, dialog_open, click_accept, accept_disabled, menu_label,
  connect_label,
}
use b1nary_xlayer_hackathon.Menu.Button.{IsOpen, Buyable, click_accept-opens}
use b1nary_xlayer_hackathon.Tests.Accept.{quote}
use b1nary_xlayer_hackathon.Tests.Earn.{upper, lower_put}

Fixed-HasSame : HasSame Fixed
Fixed-HasSame = record { same-lt = ground arith; lt-same = ground arith }

Fixed-HasMin : HasMin Fixed
Fixed-HasMin = record { le_min = ground arith }

abbrev menu : Menu Fixed
menu = record {
  asset = okb_config;
  prices = lower_put ∷ upper ∷ quote ∷ [];
  spot_endpoint = some (fixed.num 55);
  capacity = none;
  usd = fixed.num 1000;
  eth = fixed.num 0;
  weth = fixed.num 0;
  wbtc = fixed.num 0;
  okb = fixed.num 62;
  side = buy;
  selected_quote = none;
  selected_expiry = some "2026-04-10";
  amount_str = "";
}

abbrev picked : Menu Fixed
picked = select quote menu

abbrev risen : Menu Fixed
risen =
    run_effect (record picked { prices = quote ∷ upper ∷ []; spot_endpoint = some (fixed.num 54) })

risen-Reachable : Reachable risen
unfolding is_offered compute_apr active_expiry
risen-Reachable =
    after _ _ (after _ _ (start {m = menu} refl) (picks quote refl refl))
      (learns (quote ∷ upper ∷ []) (some (fixed.num 54)))

selected_quote-fits_example : fits buy (some (fixed.num 54)) quote ≡ true
unfolding run_effect keep_selection filtered_prices is_offered compute_apr active_expiry sort
selected_quote-fits_example =
    selected_quote-fits Fixed-HasSame risen quote risen-Reachable refl refl

abbrev selling : Menu Fixed
selling = record menu {
  side = sell;
  capacity = some (record {
    capacity = fixed.num 100;
    capacity_usd = fixed.num 5000;
    market_open = true;
    market_status = active;
    max_position = fixed.num 80;
    mm_count = fixed.num 1;
    updated_at = "";
  });
}

abbrev large : PriceQuote Fixed
large = record upper { available_amount = fixed.num 90 }

abbrev shop : Shop Fixed
shop = record {
  menu = record picked { amount_str = "100" };
  is_connected = true;
  confirming = false;
  accepted = none;
}

earnings-Agrees_example : Agrees shop quote (some "hash")
unfolding amount_of
earnings-Agrees_example = earnings-Agrees shop quote (some "hash") refl refl refl

click_accept-opens_example :
    (dialog_open (click_accept shop) ≡ true) ↔ (IsOpen shop.menu × Buyable shop.menu)
click_accept-opens_example = click_accept-opens shop refl refl

shop_opens : dialog_open (click_accept shop) ≡ true
unfolding click_accept accept_disabled market_closed can_accept amount_of
shop_opens = refl

-- Without a wallet and without a selected quote, a click opens nothing, and a selection opens the
-- dialog then.
abbrev visitor : Shop Fixed
visitor = record shop { menu = menu; is_connected = false }

late_opening :
    (menu_label visitor ≡ connect_label)
    × (dialog_open (click_accept visitor) ≡ false)
    × (let s = click_accept visitor in dialog_open (record s { menu = select quote s.menu }) ≡ true)
unfolding click_accept accept_disabled market_closed can_accept amount_of menu_label
late_opening = (refl, refl, refl)
