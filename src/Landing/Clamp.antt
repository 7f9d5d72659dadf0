-- ===== src/Landing/Clamp.antt =====
-- What happens to the slider of frontend/src/components/landing/PriceSlider.tsx, and its limits.
use b1nary_xlayer_hackathon.Prelude.{◌≡◌, inl, inr, true, false, Bool-cases, arith}
use b1nary_xlayer_hackathon.Js.Number.{JsNumber, IsOrdered, HasMax}
use b1nary_xlayer_hackathon.Landing.Slider.{
  Slider, SliderSide, buying, same_side, clamp, range_low, range_high, default_strike_for, low,
  high, is_shown, mount_slider, run_clamp, slide, turn_side, take_spot,
}

module _ {N : Type 0} ⦃js : JsNumber N⦄ where
  open js use {le, same}

  abbrev pub IsNumber : N → Type 0
  IsNumber x = le x x ≡ true

  -- A price from which no NaN is computed.
  pub record IsFair (spot : N) : Type 0 where
    pub low_IsNumber : (side : SliderSide) → IsNumber (range_low spot side)
    pub high_IsNumber : (side : SliderSide) → IsNumber (range_high spot side)
    pub default_IsNumber : (side : SliderSide) → IsNumber (default_strike_for spot side)

  abbrev pub InRange : N → N → N → Type 0
  InRange low high x = (le low x ≡ true) × (le x high ≡ true)

  -- What happens to the slider: the browser keeps the value of an input between its limits, and the
  -- buttons are those limits and what lies between them.
  pub data Step (s : Slider N) : Slider N → Type 0 where
    slides : (x : N) → InRange (low s) (high s) x → Step s (slide x s)
    turns : (side : SliderSide) → Step s (turn_side side s)
    ticks : (spot : N) → IsFair spot → Step s (take_spot spot s)

  pub data Reachable : Slider N → Type 0 where
    mounts : (spot : N) → IsFair spot → Reachable (run_clamp (mount_slider spot))
    after : {s t : Slider N} → Reachable s → Step s t → Reachable t

  pub record IsSound (s : Slider N) : Type 0 where
    pub fair : IsFair s.spot
    pub number : IsNumber s.selected_strike
    pub kept : le (low s) (high s) ≡ true → InRange (low s) (high s) s.selected_strike

  module _ (order : IsOrdered N) (largest : HasMax N) where
    clamp-IsNumber : (l h x : N) → IsNumber l → IsNumber h → IsNumber x → IsNumber (clamp l h x)
    clamp-IsNumber l h x nl nh nx =
        let m = (order.refl_of_le _ _ (order.min_le h x nh nx).0).0 in
        (order.refl_of_le _ _ (order.le_max l (js.min h x) nl m).0).1

    clamp-InRange : (l h x : N) → IsNumber x → le l h ≡ true → InRange l h (clamp l h x)
    clamp-InRange l h x nx b =
        let (nl, nh) = order.refl_of_le l h b in
        let (under, _) = order.min_le h x nh nx in
        let m = (order.refl_of_le _ _ under).0 in
        ((order.le_max l (js.min h x) nl m).0, largest.max_le l (js.min h x) h b under)

    clamped-IsSound :
        (s : Slider N) (x : N)
        → IsFair s.spot
        → IsNumber x
        → IsSound (record s { selected_strike = clamp (low s) (high s) x })
    clamped-IsSound s x f n = record {
      fair = f;
      number = clamp-IsNumber (low s) (high s) x (f.low_IsNumber s.side) (f.high_IsNumber s.side) n;
      kept = clamp-InRange (low s) (high s) x n;
    }

    run_clamp-IsSound :
        (s : Slider N) → IsFair s.spot → IsNumber s.selected_strike → IsSound (run_clamp s)
    unfolding run_clamp
    run_clamp-IsSound s f n = elim (Bool-cases (same_side s.prev_side s.side)) [
      | inl e ↦ rw (e, run_clamp) (clamped-IsSound s s.selected_strike f n)
      | inr e ↦
          rw (e, run_clamp)
            (clamped-IsSound (record s { prev_side = s.side }) _ f (f.default_IsNumber s.side))
    ]

    Step-IsSound : {s t : Slider N} → Step s t → IsSound s → IsSound t
    unfolding slide turn_side take_spot
    Step-IsSound {s} (slides x r) h = record {
      fair = h.fair;
      number = (order.refl_of_le _ _ r.0).1;
      kept = λ b. r;
    }
    Step-IsSound {s} (turns side) h = elim (Bool-cases (same_side side s.side)) [
      | inl e ↦ rw (e, turn_side) h
      | inr e ↦ rw (e, turn_side) (run_clamp-IsSound (record s { side = side }) h.fair h.number)
    ]
    Step-IsSound {s} (ticks spot f) h = elim (Bool-cases (same spot s.spot)) [
      | inl e ↦ rw (e, take_spot) h
      | inr e ↦ rw (e, take_spot) (run_clamp-IsSound (record s { spot = spot }) f h.number)
    ]

    Reachable-IsSound : {s : Slider N} → Reachable s → IsSound s
    unfolding mount_slider
    Reachable-IsSound (mounts spot f) =
        run_clamp-IsSound (mount_slider spot) f (f.default_IsNumber buying)
    Reachable-IsSound (after r st) = Step-IsSound st (Reachable-IsSound r)

    -- With numbers that satisfy these laws: whatever the visitor and the price do, as long as no NaN
    -- comes of the price, a slider that is shown shows a strike between its limits.
    pub shown-InRange :
        {s : Slider N}
        → Reachable s
        → is_shown s ≡ true
        → InRange (low s) (high s) s.selected_strike
    shown-InRange {s} r e =
        let sound = Reachable-IsSound r in
        let l = sound.fair.low_IsNumber s.side in
        let h = sound.fair.high_IsNumber s.side in
        let above : le (high s) (low s) ≡ false = ground arith in
        let below = order.lt_of_not_le (high s) (low s) h l above in
        sound.kept (order.le_of_lt (low s) (high s) below)
