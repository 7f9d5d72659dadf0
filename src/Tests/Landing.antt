-- ===== src/Tests/Landing.antt =====
-- The landing page's slider, analytics and waitlist at concrete inputs.
use b1nary_xlayer_hackathon.Prelude.{
  ◌≡◌, ◌*◌, refl, true, false, All, none, some, List, [], ◌∷◌, keep, arith, ℕ,
}
use b1nary_xlayer_hackathon.Js.Error.{ok, throws, error}
use b1nary_xlayer_hackathon.Js.Fixed.{
  Fixed, fixed, Fixed-IsOrdered, Fixed-HasSigns, Fixed-HasMax, Fixed-HasExactSums,
}
use b1nary_xlayer_hackathon.Api.{PriceQuote}
use b1nary_xlayer_hackathon.Landing.Slider.{
  Slider, SliderSide, buying, selling, range_low, range_high, default_strike_for, low, high,
  mount_slider, run_clamp, slide, turn_side, take_spot, is_candidate, find_matching_quote,
  strikes_from,
}
use b1nary_xlayer_hackathon.Landing.Clamp.{
  Reachable, IsFair, InRange, mounts, after, slides, turns, ticks, shown-InRange,
}
use b1nary_xlayer_hackathon.Landing.Nearest.{IsMatch, find_matching_quote-IsMatch}
use b1nary_xlayer_hackathon.Landing.Strikes.{hundreds, strikes_from-hundreds}
use b1nary_xlayer_hackathon.Landing.Analytics.{
  Access, Fresh, Moment, get_session_id, session_ids, session_ids-same, sends,
}
use b1nary_xlayer_hackathon.Landing.Signup.{
  IsOrderlySignup, join_waitlist, take_join, no_signup, Reachable-IsOrderlySignup,
}
use b1nary_xlayer_hackathon.Landing.Signup as Signup
use b1nary_xlayer_hackathon.Landing.Story.{
  Turn, Frame, story, take_turn, next_frame, build_loop_frames, frames_of, frame_at, money_back,
  offer_to_sell,
}
use b1nary_xlayer_hackathon.Yields.{Distribution, visible, filtered, more_button, asset_usd}
use b1nary_xlayer_hackathon.Tests.Accept.{quote}

abbrev base : Fixed
base = fixed.num 2621

base-IsFair : IsFair base
unfolding range_low range_high default_strike_for
base-IsFair = record {
  low_IsNumber = ground arith;
  high_IsNumber = ground arith;
  default_IsNumber = ground arith;
}

-- The visitor turns to the other side and moves the slider, and the price falls.
abbrev moved : Slider Fixed
moved =
    take_spot (fixed.num 2300)
      (slide (fixed.num 3100) (turn_side selling (run_clamp (mount_slider base))))

fallen-IsFair : IsFair (fixed.num 2300)
unfolding range_low range_high default_strike_for
fallen-IsFair = record {
  low_IsNumber = ground arith;
  high_IsNumber = ground arith;
  default_IsNumber = ground arith;
}

moved-Reachable : Reachable moved
unfolding range_low range_high default_strike_for mount_slider run_clamp turn_side slide take_spot
moved-Reachable =
    after
      (after (after (mounts base base-IsFair) (turns selling))
        (slides (fixed.num 3100) (refl, refl)))
      (ticks (fixed.num 2300) fallen-IsFair)

shown-InRange_example : InRange (low moved) (high moved) moved.selected_strike
unfolding range_low range_high default_strike_for mount_slider run_clamp turn_side slide take_spot
shown-InRange_example = shown-InRange Fixed-IsOrdered Fixed-HasMax {s = moved} moved-Reachable refl

-- The strike stays at the upper limit, which is now 2700.
moved_strike : moved.selected_strike ≡ fixed.num 2700
unfolding range_low range_high default_strike_for mount_slider run_clamp turn_side slide take_spot
moved_strike = refl

abbrev offers : List (PriceQuote Fixed)
offers = quote ∷ record quote { strike = fixed.num 2500 } ∷ []

find_matching_quote-IsMatch_example :
    IsMatch
      (fixed.num 2400)
      (keep (is_candidate buying) offers)
      (find_matching_quote offers (fixed.num 2400) buying)
find_matching_quote-IsMatch_example =
    find_matching_quote-IsMatch Fixed-IsOrdered (fixed.num 2400) offers buying (refl, (refl, tt))

strikes_of_a_range :
    strikes_from 5 (fixed.num (21 * 100)) (fixed.num (23 * 100)) ≡ some (hundreds 3 21)
strikes_of_a_range =
    strikes_from-hundreds Fixed-IsOrdered Fixed-HasSigns Fixed-HasExactSums 5 21 23 (omega arith)
      (omega arith) (omega arith)

-- No storage, as in a private window.
abbrev locked : Access
locked = record { reads = false; writes = false }

abbrev uuid : Fresh
uuid = record { first_id = "a"; second_id = "b" }

session_ids-same_example :
    All
      (λ id. id ≡ (get_session_id locked uuid (record { item = none; fallback = none })).0)
      (session_ids locked
        (uuid ∷ record { first_id = "c"; second_id = "d" } ∷ [])
        (record { item = none; fallback = none }))
session_ids-same_example =
    session_ids-same locked uuid (record { first_id = "c"; second_id = "d" } ∷ [])
      (record { item = none; fallback = none }) (refl, refl)

abbrev moments : List (Moment ℕ)
moments = Moment.tracks 1 ∷ Moment.tracks 2 ∷ Moment.rings ∷ Moment.rings ∷ Moment.tracks 3 ∷ []

sends_rested : sends none moments ≡ 2 ∷ []
unfolding sends
sends_rested = refl

abbrev signed : Signup.Signup
signed =
    take_join (ok true)
      (join_waitlist "a@b.c" (take_join (throws (error "down")) (join_waitlist "a@b.c" no_signup)))

signed-Reachable : Signup.Reachable signed
unfolding join_waitlist take_join
signed-Reachable =
    Signup.after
      (Signup.after
        (Signup.after (Signup.after Signup.opens (Signup.submits "a@b.c"))
          (Signup.joins (throws (error "down")) (omega arith)))
        (Signup.submits "a@b.c"))
      (Signup.joins (ok true) (omega arith))

signed-IsOrderlySignup : IsOrderlySignup signed
signed-IsOrderlySignup = Reachable-IsOrderlySignup signed-Reachable

-- The story of a buyer, behind two timers, and of a seller behind a choice.
abbrev tale : SliderSide → List (Frame ℕ)
tale = frames_of 78 92 2 1

told :
    (let (side, i) = story tale (Turn.timer ∷ Turn.timer ∷ []) (buying, 0) in
      frame_at (tale side) i ≡ some (money_back 78))
    × (let (side, i) = story tale (Turn.timer ∷ Turn.chooses selling ∷ []) (buying, 0) in
        frame_at (tale side) i ≡ some (offer_to_sell 92))
unfolding story take_turn next_frame build_loop_frames
told = (refl, refl)

abbrev paid_okb : Distribution Fixed
paid_okb = record { asset = "okb"; amount = fixed.num 2; airdrop_hash = none }

abbrev paid_usdc : Distribution Fixed
paid_usdc = record { asset = "usdc"; amount = fixed.num 5; airdrop_hash = some "0x1" }

seen :
    (visible (record { filter_slug = some "usdc"; show_all = false }) (paid_okb ∷ paid_usdc ∷ [])
      ≡ paid_usdc ∷ [])
    × (more_button (record { filter_slug = none; show_all = false }) (paid_okb ∷ paid_usdc ∷ [])
        ≡ false)
unfolding visible filtered more_button
seen = (refl, refl)

-- An amount of another asset is taken at the price of OKB.
valued :
    (asset_usd (fixed.num 2) "eth" (some (fixed.num 85)) ≡ fixed.num 170)
    × (asset_usd (fixed.num 2) "usdc" (some (fixed.num 85)) ≡ fixed.num 2)
unfolding asset_usd
valued = (refl, refl)
