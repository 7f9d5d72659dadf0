-- ===== src/Landing/Story.antt =====
-- frontend/src/components/landing/LandingPage.tsx: the price, the strikes and the premiums of the
-- examples, and the loop of its story.
use b1nary_xlayer_hackathon.Prelude.{
  ◌≡◌, ◌≢◌, refl, inl, inr, Bool-cases, ℕ, zero, suc, ◌+◌, ◌%◌, ◌<◌, Bool, true, false, not, ◌&&◌,
  ◌||◌, Option, none, some, List, [], ◌∷◌, length, if◌then◌else◌, arith,
}
use b1nary_xlayer_hackathon.Js.Number.{JsNumber}
use b1nary_xlayer_hackathon.Accept.Props.{truthy_number}
use b1nary_xlayer_hackathon.Execution.Order.{or_default}
use b1nary_xlayer_hackathon.Landing.Slider.{SliderSide, buying, selling, same_side}

-- A frame of the story, by its text.
pub data Frame (N : Type 0) : Type 0 where
  offer_to_buy offer_to_sell : N → Frame N
  earns : N → Frame N
  money_back bought sold : N → Frame N
  token_back earn_again has_token has_dollars : Frame N

abbrev pub is_earning : {N : Type 0} → Frame N → Bool
is_earning (earns p) = true
is_earning _ = false

-- "Price hit" and "Price didn't hit".
abbrev pub is_outcome : {N : Type 0} → Frame N → Bool
is_outcome (money_back s) = true
is_outcome (bought s) = true
is_outcome (sold s) = true
is_outcome token_back = true
is_outcome _ = false

-- "You now have", which stays for longer.
abbrev pub is_slow : {N : Type 0} → Frame N → Bool
is_slow has_token = true
is_slow has_dollars = true
is_slow _ = false

module _ {N : Type 0} ⦃js : JsNumber N⦄ where
  open js use {num, dec, add, sub, mul, div, round, max, finite, same}

  -- `spot`, from the price of `useSpot` and that of the first quote.
  unfoldable pub shown_spot : Option N → Option N → N
  shown_spot live quoted =
      if truthy_number live
      then round (or_default live (num 0))
      else if truthy_number quoted
      then round (or_default quoted (num 0))
      else num 85

  -- `priceReady`
  abbrev pub price_ready : N → Bool → Bool → Bool
  price_ready spot price_loading spot_loading =
      not (same spot (num 85)) || (not price_loading && not spot_loading)

  unfoldable pub buy_strike : N → N
  buy_strike spot = round (mul spot (dec 92 2))

  unfoldable pub sell_strike : N → N
  sell_strike spot = round (mul spot (dec 108 2))

  abbrev base_premium_buy : N → N
  base_premium_buy strike = round (mul strike (dec 25 3))

  abbrev base_premium_sell : N → N
  base_premium_sell strike = round (mul strike (dec 15 3))

  unfoldable pub derive_premium : N → SliderSide → N → N → N
  derive_premium spot buying lower upper =
      if finite spot
      then (let dist = max (num 0) (div (sub spot lower) spot) in
          round (max (num 1) (mul (base_premium_buy lower) (add (num 1) dist))))
      else base_premium_buy lower
  derive_premium spot selling lower upper =
      if finite spot
      then (let dist = max (num 0) (div (sub upper spot) spot) in
          round (max (num 1) (mul (base_premium_sell upper) (add (num 1) dist))))
      else base_premium_sell upper

module _ {N : Type 0} where
  unfoldable pub build_loop_frames : SliderSide → N → N → N → N → List (Frame N)
  build_loop_frames buying lower upper buy_premium sell_premium =
      offer_to_buy lower
      ∷ earns buy_premium
      ∷ money_back lower
      ∷ earn_again
      ∷ offer_to_buy lower
      ∷ earns buy_premium
      ∷ bought lower
      ∷ has_token
      ∷ offer_to_sell upper
      ∷ earns sell_premium
      ∷ earn_again
      ∷ []
  build_loop_frames selling lower upper buy_premium sell_premium =
      offer_to_sell upper
      ∷ earns sell_premium
      ∷ token_back
      ∷ earn_again
      ∷ offer_to_sell upper
      ∷ earns sell_premium
      ∷ sold upper
      ∷ has_dollars
      ∷ offer_to_buy lower
      ∷ earns buy_premium
      ∷ earn_again
      ∷ []

  abbrev pub frame_at : List (Frame N) → ℕ → Option (Frame N)
  frame_at [] i = none
  frame_at (f ∷ fs) zero = some f
  frame_at (f ∷ fs) (suc i) = frame_at fs i

  -- Every outcome of the frames stands behind a frame that earns.
  abbrev pub EveryOutcomeEarns : Bool → List (Frame N) → Type 0
  EveryOutcomeEarns earned [] = Unit
  EveryOutcomeEarns earned (f ∷ fs) =
      (is_outcome f ≡ true → earned ≡ true) × EveryOutcomeEarns (is_earning f) fs

-- The index of the frame, when a timer rings and when the side changes.
unfoldable pub next_frame : ℕ → ℕ → ℕ
next_frame count i = (i + 1) % count

-- What happens to the story.
pub data Turn : Type 0 where
  timer : Turn
  chooses : SliderSide → Turn

module _ {N : Type 0} (frames : SliderSide → List (Frame N)) where
  -- The side and the index; the effect sets the index back only if the side is another.
  unfoldable pub take_turn : Turn → SliderSide × ℕ → SliderSide × ℕ
  unfolding next_frame
  take_turn timer (side, i) = (side, next_frame (length (frames side)) i)
  take_turn (chooses next) (side, i) = if same_side next side then (side, i) else (next, 0)

  unfoldable pub story : List Turn → SliderSide × ℕ → SliderSide × ℕ
  unfolding take_turn
  story [] s = s
  story (t ∷ ts) s = story ts (take_turn t s)

frame_at-known : {N : Type 0} (l : List (Frame N)) (i : ℕ) → i < length l → frame_at l i ≢ none
frame_at-known [] i h = absurd (omega arith)
frame_at-known (f ∷ fs) zero h = λ e. cc
frame_at-known (f ∷ fs) (suc i) h = frame_at-known fs i (omega arith)

module _ {N : Type 0} (lower upper buy_premium sell_premium : N) where
  abbrev pub frames_of : SliderSide → List (Frame N)
  frames_of side = build_loop_frames side lower upper buy_premium sell_premium

  frames_of-earn : (side : SliderSide) → EveryOutcomeEarns false (frames_of side)
  unfolding build_loop_frames
  frames_of-earn buying = ground arith
  frames_of-earn selling = ground arith

  length-frames_of : (side : SliderSide) → length (frames_of side) ≡ 11
  unfolding build_loop_frames
  length-frames_of buying = refl
  length-frames_of selling = refl

  story-lt : (ts : List Turn) (s : SliderSide × ℕ) → s.1 < 11 → (story frames_of ts s).1 < 11
  unfolding story take_turn next_frame
  story-lt [] s h = h
  story-lt (timer ∷ ts) (side, i) h =
      let count = length-frames_of side in
      story-lt ts (take_turn frames_of timer (side, i))
        (rw (count, take_turn, next_frame) (omega arith))
  story-lt (chooses next ∷ ts) (side, i) h =
      story-lt ts (take_turn frames_of (chooses next) (side, i))
        (elim (Bool-cases (same_side next side)) [
          | inl e ↦ rw (e, take_turn) h
          | inr e ↦ rw (e, take_turn) (omega arith)
        ])

  -- Whatever timers ring and sides are chosen, the story has a frame to show, and in the frames of
  -- both sides every outcome stands behind a frame that earns.
  pub story-shows :
      (ts : List Turn) (side : SliderSide)
      → (let (shown, i) = story frames_of ts (side, 0) in frame_at (frames_of shown) i ≢ none)
        × ((chosen : SliderSide) → EveryOutcomeEarns false (frames_of chosen))
  story-shows ts side =
      let (shown, i) = story frames_of ts (side, 0) in
      let count = length-frames_of shown in
      (
        frame_at-known (frames_of shown) i (rw count (story-lt ts (side, 0) (omega arith))),
        frames_of-earn,
      )
