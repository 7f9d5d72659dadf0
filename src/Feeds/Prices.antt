-- ===== src/Feeds/Prices.antt =====
-- `usePrices` of frontend/src/hooks/usePrices.ts. Its timers start refreshes, which may overlap; a
-- refresh changes the state when its answer comes.
use b1nary_xlayer_hackathon.Prelude.{
  ◌≡◌, refl, String, Bool, true, false, not, ◌&&◌, ◌||◌, Option, none, some, List, [], ◌∷◌,
  if◌then◌else◌, arith,
}
use b1nary_xlayer_hackathon.Js.Error.{Try, ok, throws, message}
use b1nary_xlayer_hackathon.Api.{PriceQuote}

-- The state of the hook with its references. `retry` says that the refresh before has set the timer
-- of two seconds.
pub record Prices (N : Type 0) : Type 0 where
  pub prices : List (PriceQuote N)
  pub loading : Bool
  pub error : Option String
  pub has_data : Bool
  pub retry : Bool

abbrev pub is_empty : {A : Type 0} → List A → Bool
is_empty [] = true
is_empty (x ∷ xs) = false

module _ {N : Type 0} (text : String) where
  abbrev pub no_prices : Prices N
  no_prices = record { prices = []; loading = true; error = none; has_data = false; retry = false }

  unfoldable pub refresh_prices : Try (List (PriceQuote N)) → Prices N → Prices N
  refresh_prices (ok found) s = record {
    prices = if is_empty found && not (is_empty s.prices) then s.prices else found;
    loading = false;
    error = none;
    has_data = s.has_data || not (is_empty found);
    retry = is_empty found && not (s.has_data || not (is_empty found));
  }
  refresh_prices (throws e) s = record s {
    loading = false;
    error = some (message text e);
    retry = false;
  }

  -- All answers, the newest first.
  unfoldable pub refreshed : List (Try (List (PriceQuote N))) → Prices N
  unfolding refresh_prices
  refreshed [] = no_prices
  refreshed (r ∷ rs) = refresh_prices r (refreshed rs)

  -- What the hook is for: the newest answer that has prices.
  unfoldable pub newest_prices : List (Try (List (PriceQuote N))) → List (PriceQuote N)
  newest_prices [] = []
  newest_prices (ok [] ∷ rs) = newest_prices rs
  newest_prices (ok (p ∷ ps) ∷ rs) = p ∷ ps
  newest_prices (throws e ∷ rs) = newest_prices rs

  abbrev newest_error : List (Try (List (PriceQuote N))) → Option String
  newest_error [] = none
  newest_error (ok found ∷ rs) = none
  newest_error (throws e ∷ rs) = some (message text e)

  -- The newest answer has no prices, and none before it had.
  abbrev still_nothing : List (Try (List (PriceQuote N))) → Bool
  still_nothing [] = false
  still_nothing (ok found ∷ rs) = is_empty (newest_prices (ok found ∷ rs))
  still_nothing (throws e ∷ rs) = false

  -- What the hook shows after any sequence of answers.
  pub record IsShown (rs : List (Try (List (PriceQuote N)))) (s : Prices N) : Type 0 where
    prices_shown : s.prices ≡ newest_prices rs
    data_seen : s.has_data ≡ not (is_empty (newest_prices rs))
    error_shown : s.error ≡ newest_error rs
    loaded : s.loading ≡ is_empty rs
    retried : s.retry ≡ still_nothing rs

  -- After any answers, in any order of success and failure: the hook shows the prices of the newest
  -- answer that has any, and has none only if no answer had; the error is that of the newest answer;
  -- the loading ends with the first answer; and the short timer is set exactly if the newest answer
  -- was read, and no answer so far had prices.
  pub refreshed-IsShown : (rs : List (Try (List (PriceQuote N)))) → IsShown rs (refreshed rs)
  unfolding refreshed newest_prices
  refreshed-IsShown [] = record {
    prices_shown = refl;
    data_seen = refl;
    error_shown = refl;
    loaded = refl;
    retried = refl;
  }
  refreshed-IsShown (ok [] ∷ rs) =
      let before = refreshed-IsShown rs in
      record {
        prices_shown = kept (refreshed rs).prices (newest_prices rs) before.prices_shown;
        data_seen = ground (arith, before.data_seen);
        error_shown = refl;
        loaded = refl;
        retried = ground (arith, before.data_seen);
      }
    where
      kept :
          (qs ps : List (PriceQuote N))
          → qs ≡ ps
          → ◌≡◌ {A = List (PriceQuote N)} (if not (is_empty qs) then qs else []) ps
      kept [] ps e = e
      kept (q ∷ qs) ps e = e
  refreshed-IsShown (ok (p ∷ ps) ∷ rs) =
      let before = refreshed-IsShown rs in
      record {
        prices_shown = refl;
        data_seen = ground (arith);
        error_shown = refl;
        loaded = refl;
        retried = ground (arith);
      }
  refreshed-IsShown (throws e ∷ rs) =
      let before = refreshed-IsShown rs in
      record {
        prices_shown = before.prices_shown;
        data_seen = before.data_seen;
        error_shown = refl;
        loaded = refl;
        retried = refl;
      }
