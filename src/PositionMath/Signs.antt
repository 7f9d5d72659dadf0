-- ===== src/PositionMath/Signs.antt =====
-- The prices of a position are never negative and never NaN.
use mathlib.Core.Option.{some-injective}
use b1nary_xlayer_hackathon.Prelude.{
  ◌≡◌, ◌≤◌, ◌<◌, ◌^◌, refl, true, false, Option, none, some, arith, inl, inr, Bool-cases,
  Option-cases, ℕ,
}
use b1nary_xlayer_hackathon.Js.Number.{JsNumber, IsOrdered, HasSigns}
use b1nary_xlayer_hackathon.Api.{Unknown, absent, text, number, other, Position}
use b1nary_xlayer_hackathon.PositionMath.{
  finite_number, normalize_raw, normalize_usd_price, get_position_strike, get_position_expiry_price,
  positive, or_else, is_absent,
}

-- A dollar price that is shown: not negative and not NaN.
abbrev pub IsPrice : {N : Type 0} ⦃js : JsNumber N⦄ → N → Type 0
IsPrice ⦃js⦄ x = js.le (js.num 0) x ≡ true

module _ {N : Type 0} ⦃js : JsNumber N⦄ (order : IsOrdered N) (signs : HasSigns N) where
  open js use {num, lt, le, finite, div}
  open order use {le_of_lt, lt_of_not_le}
  open signs use {num_lt, num_finite, not_nan_of_finite, div_nonneg}

  finite_number-finite : (v : Unknown N) (x : N) → finite_number v ≡ some x → finite x ≡ true
  unfolding finite_number
  finite_number-finite absent x e = cc
  finite_number-finite (text s) x e = ground arith
  finite_number-finite (number y) x e = ground arith
  finite_number-finite other x e = cc

  num_le : (m n : ℕ) → m < n → n ≤ 2 ^ 53 → le (num m) (num n) ≡ true
  num_le m n h k = le_of_lt _ _ (num_lt m n h k)

  zero-IsPrice : IsPrice (num 0)
  zero-IsPrice = not_nan_of_finite _ (num_finite 0 (omega arith))

  lt_of_positive : (x : N) → finite x ≡ true → le x (num 0) ≡ false → lt (num 0) x ≡ true
  lt_of_positive x f h = lt_of_not_le x (num 0) (not_nan_of_finite x f) zero-IsPrice h

  normalize_raw-IsPrice : (raw : N) → finite raw ≡ true → IsPrice raw → IsPrice (normalize_raw raw)
  unfolding normalize_raw
  normalize_raw-IsPrice raw f p =
      let quotient : IsPrice (div raw (num 100_000_000)) =
        div_nonneg _ _ f (num_finite _ (omega arith)) p (num_lt 0 _ (omega arith) (omega arith)) in
      ground arith

  -- `normalizeUsdPrice` returns a price for whatever value it is given.
  normalize_usd_price-IsPrice : (v : Unknown N) → IsPrice (normalize_usd_price v)
  unfolding normalize_usd_price
  normalize_usd_price-IsPrice v = elim (Option-cases (finite_number v)) [
    | inl e ↦ rw (e, normalize_usd_price) zero-IsPrice
    | inr (raw, e) ↦ elim (Bool-cases (le raw (num 0))) [
      | inl low ↦ rw (e, normalize_usd_price, low) zero-IsPrice
      | inr high ↦
          let f = finite_number-finite v raw e in
          rw (e, normalize_usd_price, high)
            (normalize_raw-IsPrice raw f (le_of_lt _ _ (lt_of_positive raw f high)))
    ]
  ]

  positive_lt : (o : Option N) (x : N) → positive o ≡ some x → lt (num 0) x ≡ true
  positive_lt none x e = cc
  positive_lt (some y) x e = ground arith

  -- The strike that is shown for a position is not negative and not NaN, whatever the fields hold.
  pub get_position_strike-IsPrice : (p : Position N) → IsPrice (get_position_strike p)
  unfolding get_position_strike
  get_position_strike-IsPrice p =
      elim (Option-cases
        (positive (or_else (finite_number p.strike_usd) (finite_number p.strike)))) [
          | inl e ↦ rw (e, get_position_strike) (normalize_usd_price-IsPrice p.strike_price)
          | inr (x, e) ↦ rw (e, get_position_strike) (le_of_lt _ _ (positive_lt _ x e))
        ]

  -- A settlement price that is shown is greater than 0.
  pub get_position_expiry_price-positive :
      (p : Position N) (x : N) → get_position_expiry_price p ≡ some x → lt (num 0) x ≡ true
  unfolding get_position_expiry_price
  get_position_expiry_price-positive p x e =
      elim (Option-cases (positive (finite_number p.expiry_price_usd))) [
        | inl f ↦ elim (Bool-cases (is_absent p.expiry_price)) [
          | inl none_given ↦
              let none_found : get_position_expiry_price p ≡ none =
                rw (f, get_position_expiry_price, none_given) refl in
              cc
          | inr given ↦
              positive_lt (some (normalize_usd_price p.expiry_price)) x
                (rw (f, get_position_expiry_price, given) at e)
        ]
        | inr (y, f) ↦
            let same : y ≡ x = some-injective _ _ (rw (f, get_position_expiry_price) at e) in
            rw (← same) (positive_lt _ y f)
      ]
