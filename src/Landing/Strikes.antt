-- ===== src/Landing/Strikes.antt =====
-- The fuel that the loop of `generateStrikes` needs, and its strikes.
use b1nary_xlayer_hackathon.Prelude.{
  ℕ, zero, suc, ◌+◌, ◌-◌, ◌*◌, ◌^◌, ◌≤◌, ◌<◌, ◌≡◌, refl, true, false, inl, inr, Bool-cases, ltb,
  ltb→lt, some, List, [], ◌∷◌, arith,
}
use b1nary_xlayer_hackathon.Js.Number.{JsNumber, IsOrdered, HasSigns, HasExactSums}
use b1nary_xlayer_hackathon.Landing.Slider.{strikes_from}

module _ {N : Type 0} ⦃js : JsNumber N⦄ where
  open js use {num, le, add}

  -- So many multiples of 100, from the `a`-th on.
  abbrev pub hundreds : (count a : ℕ) → List N
  hundreds zero a = []
  hundreds (suc n) a = num (a * 100) ∷ hundreds n (suc a)

  module _ (order : IsOrdered N) (signs : HasSigns N) (sums : HasExactSums N) where
    num-le : (m n : ℕ) → m ≤ n → n ≤ 2 ^ 53 → le (num m) (num n) ≡ true
    num-le m n h b = elim (Bool-cases (ltb m n)) [
      | inl l ↦ order.le_of_lt _ _ (signs.num_lt m n (ltb→lt m n l) b)
      | inr l ↦
          let same : m ≡ n = ground arith in
          rw same (signs.not_nan_of_finite _ (signs.num_finite n b))
    ]

    num-not_le : (m n : ℕ) → n < m → m ≤ 2 ^ 53 → le (num m) (num n) ≡ false
    num-not_le m n h b = elim (Bool-cases (le (num m) (num n))) [
      | inl e ↦
          let turned = order.le-lt_trans _ _ _ e (signs.num_lt n m h b) in
          let never = order.lt_irrefl (num m) in cc
      | inr e ↦ e
    ]

    -- With numbers that satisfy these laws: for limits that are multiples of 100 up to 2 ^ 53, the loop
    -- of generateStrikes ends, with the multiples of 100 from the lower to the upper limit, each once and
    -- in order; it needs one turn more than there are strikes.
    pub strikes_from-hundreds :
        (fuel a b : ℕ)
        → suc b - a < fuel
        → a * 100 ≤ 2 ^ 53
        → suc b * 100 ≤ 2 ^ 53
        → strikes_from fuel (num (a * 100)) (num (b * 100)) ≡ some (hundreds (suc b - a) a)
    unfolding strikes_from
    strikes_from-hundreds zero a b f h k = absurd (omega arith)
    strikes_from-hundreds (suc fuel) a b f h k = elim (Bool-cases (ltb b a)) [
      | inl l ↦
          let over = num-not_le (a * 100) (b * 100) (ground arith) h in
          let empty : suc b - a ≡ 0 = ground arith in rw (over, empty, strikes_from, hundreds) refl
      | inr l ↦
          let under = num-le (a * 100) (b * 100) (ground arith) (ground arith) in
          let next = sums.add_exact (a * 100) 100 (ground arith) in
          let turn : a * 100 + 100 ≡ suc a * 100 = omega arith in
          let rest = strikes_from-hundreds fuel (suc a) b (ground arith) (ground arith) k in
          let count : suc b - a ≡ suc (suc b - suc a) = ground arith in
          rw (under, count, strikes_from, hundreds, next, turn, rest) refl
    ]
