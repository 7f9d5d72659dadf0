-- ===== src/Tests/Backend.antt =====
-- Answers of the backend and the hooks that take them, at concrete inputs.
use b1nary_xlayer_hackathon.Prelude.{
  ◌≡◌, refl, inr, ℕ, true, false, Option, none, some, List, [], ◌∷◌,
}
use b1nary_xlayer_hackathon.Js.Error.{Try, ok, throws, error}
use b1nary_xlayer_hackathon.Js.Text.{includes}
use b1nary_xlayer_hackathon.Js.Fixed.{Fixed, fixed}
use b1nary_xlayer_hackathon.Api.{Capacity, active}
use b1nary_xlayer_hackathon.Execution.Race.{resolved}
use b1nary_xlayer_hackathon.Range.Tagging.{IsConflict}
use b1nary_xlayer_hackathon.Backend.{Response, fetch_api, fetch_api-IsConflict}
use b1nary_xlayer_hackathon.Feeds.Yield.{
  Arrival, Yields, no_data, refresh_yield, opened, take_board,
}
use b1nary_xlayer_hackathon.Feeds.Faucet.{Reply, Faucet, mint}

-- A refusal that has the digits in its body.
abbrev unlucky : Response (Unit {0})
unlucky = record {
  is_ok = false;
  status = "422";
  text = ok "unknown transaction 0x4091";
  json = throws (error "");
}

fetch_api-IsConflict_example : IsConflict "" (λ i. fetch_api (ok unlucky)) 0
unfolding includes
fetch_api-IsConflict_example =
    fetch_api-IsConflict "" (λ i. ok unlucky) 0 unlucky refl refl (inr refl)

abbrev some_capacity : Capacity Fixed
some_capacity = record {
  capacity = fixed.num 5;
  capacity_usd = fixed.num 250;
  market_open = true;
  market_status = active;
  max_position = fixed.num 1;
  mm_count = fixed.num 1;
  updated_at = "2026-04-03";
}

abbrev answers : List (Try (Capacity Fixed))
answers = ok some_capacity ∷ throws (error "down") ∷ []

abbrev ticks : List (ℕ × Option ℕ)
ticks = (0, some 50) ∷ (1, none) ∷ (2, some 51) ∷ (3, some 52) ∷ []

abbrev ready : Faucet
ready = record { minting = false; notified = false; error = none; refetched = false }

abbrev busy : Reply
busy = record { is_ok = false; status = "429"; detail = ok none }

mint_refused :
    (mint "" (some "user") (ok busy) (resolved tt) ready).1.error ≡ some "Faucet error (429)"
unfolding mint
mint_refused = refl

abbrev four_answers : List (Arrival ℕ)
four_answers =
    Arrival.stats (ok 4)
    ∷ Arrival.summary (ok 1)
    ∷ Arrival.history (ok 3)
    ∷ Arrival.positions (ok 2)
    ∷ []

abbrev blank : Yields ℕ
blank = record { shown = no_data; loading = true; error = none }

-- The last of the four answers makes the data known.
yield_known : refresh_yield "" (some "user") four_answers blank ≡ record {
  shown = record {
    summary_data = some 1;
    positions_data = some 2;
    history_data = some 3;
    stats_data = some 4;
  };
  loading = false;
  error = none;
}
unfolding refresh_yield
yield_known = refl

-- One exception, and the answers before it are not shown.
yield_refused :
    refresh_yield "failed"
      (some "user")
      (Arrival.summary (ok 1) ∷ Arrival.history (throws (error "down")) ∷ four_answers)
      blank
    ≡ record { shown = no_data; loading = false; error = some "down" }
unfolding refresh_yield
yield_refused = refl

-- The answer that comes after the page was left changes nothing.
board_left : take_board {A = ℕ} true (ok 7) opened ≡ opened
unfolding take_board
board_left = refl
