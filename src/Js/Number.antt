-- ===== src/Js/Number.antt =====
-- JavaScript's `number`, an IEEE double, as an interface: the operations that the program calls,
-- and the laws of its comparisons. `NaN` is the value that is not `<=` itself.
use b1nary_xlayer_hackathon.Prelude.{ℕ, ◌+◌, ◌^◌, ◌≤◌, ◌<◌, String, Bool, true, false, ◌≡◌}
use b1nary_xlayer_hackathon.Prelude.Int.{ℤ}
use b1nary_xlayer_hackathon.Js.Error.{Try}

pub record JsNumber (N : Type 0) : Type 0 where
  -- the literal `n`, and the literal of `m` with its last `k` digits behind the point
  pub num : ℕ → N
  pub dec : ℕ → ℕ → N
  pub add : N → N → N
  pub sub : N → N → N
  pub mul : N → N → N
  pub div : N → N → N
  -- `10 ** x`
  pub pow10 : N → N
  pub floor : N → N
  pub ceil : N → N
  pub round : N → N
  pub abs : N → N
  pub lt : N → N → Bool
  pub le : N → N → Bool
  -- `Math.min(x, y)` and `Math.max(x, y)`
  pub min : N → N → N
  pub max : N → N → N
  -- `===`
  pub same : N → N → Bool
  pub finite : N → Bool
  -- `Number(text)`
  pub parse : String → N
  -- `String(x)`
  pub to_text : N → String
  -- `new Date(text).getTime()`
  pub parse_date : String → N
  -- `x.toFixed(digits)`
  pub to_fixed : N → N → String
  -- `BigInt(x)`, and `BigInt(text)`
  pub to_big : N → Try ℤ
  pub big_of_text : String → Try ℤ
  -- `Number(n)` of a bigint
  pub of_big : ℤ → N
  pub infinity : N
  pub minus_infinity : N

-- What IEEE 754 says of `<` and `<=`.
pub record IsOrdered (N : Type 0) ⦃js : JsNumber N⦄ : Type 0 where
  pub lt_trans : (x y z : N) → js.lt x y ≡ true → js.lt y z ≡ true → js.lt x z ≡ true
  pub lt-le_trans : (x y z : N) → js.lt x y ≡ true → js.le y z ≡ true → js.lt x z ≡ true
  pub le-lt_trans : (x y z : N) → js.le x y ≡ true → js.lt y z ≡ true → js.lt x z ≡ true
  pub le_trans : (x y z : N) → js.le x y ≡ true → js.le y z ≡ true → js.le x z ≡ true
  pub lt_irrefl : (x : N) → js.lt x x ≡ false
  pub le_of_lt : (x y : N) → js.lt x y ≡ true → js.le x y ≡ true
  pub refl_of_le : (x y : N) → js.le x y ≡ true → (js.le x x ≡ true) × (js.le y y ≡ true)
  pub le_of_not_lt :
      (x y : N) → js.le x x ≡ true → js.le y y ≡ true → js.lt x y ≡ false → js.le y x ≡ true
  pub lt_of_not_le :
      (x y : N) → js.le x x ≡ true → js.le y y ≡ true → js.le x y ≡ false → js.lt y x ≡ true
  pub min_le :
      (x y : N)
      → js.le x x ≡ true
      → js.le y y ≡ true
      → (js.le (js.min x y) x ≡ true) × (js.le (js.min x y) y ≡ true)
  pub le_max :
      (x y : N)
      → js.le x x ≡ true
      → js.le y y ≡ true
      → (js.le x (js.max x y) ≡ true) × (js.le y (js.max x y) ≡ true)

-- What IEEE 754 says of the sign of a quotient and of a product of finite numbers, and that both are
-- monotone, since they are correctly rounded.
pub record HasSigns (N : Type 0) ⦃js : JsNumber N⦄ : Type 0 where
  pub num_lt : (m n : ℕ) → m < n → n ≤ 2 ^ 53 → js.lt (js.num m) (js.num n) ≡ true
  pub num_finite : (n : ℕ) → n ≤ 2 ^ 53 → js.finite (js.num n) ≡ true
  pub not_nan_of_finite : (x : N) → js.finite x ≡ true → js.le x x ≡ true
  pub div_nonneg :
      (x y : N)
      → js.finite x ≡ true
      → js.finite y ≡ true
      → js.le (js.num 0) x ≡ true
      → js.lt (js.num 0) y ≡ true
      → js.le (js.num 0) (js.div x y) ≡ true
  pub div_mono :
      (x y z : N)
      → js.finite x ≡ true
      → js.finite y ≡ true
      → js.finite z ≡ true
      → js.lt (js.num 0) z ≡ true
      → js.le x y ≡ true
      → js.le (js.div x z) (js.div y z) ≡ true
  pub mul_mono :
      (x y z : N)
      → js.finite x ≡ true
      → js.finite y ≡ true
      → js.finite z ≡ true
      → js.lt (js.num 0) z ≡ true
      → js.le x y ≡ true
      → js.le (js.mul x z) (js.mul y z) ≡ true

-- What IEEE 754 says of `===` and of the distance of two numbers.
pub record HasDistance (N : Type 0) ⦃js : JsNumber N⦄ : Type 0 where
  pub same_comm : (x y : N) → js.same x y ≡ js.same y x
  pub abs-sub_comm : (x y : N) → js.abs (js.sub x y) ≡ js.abs (js.sub y x)

-- What IEEE 754 says of the sign of a difference, and of minus infinity.
pub record HasDifference (N : Type 0) ⦃js : JsNumber N⦄ : Type 0 where
  pub lt-sub :
      (x y : N) → js.le x x ≡ true → js.le y y ≡ true → js.lt (js.num 0) (js.sub x y) ≡ js.lt y x
  pub minus_infinity_le : js.le js.minus_infinity js.minus_infinity ≡ true

-- `===` and `<` agree on equal numbers, as IEEE 754 says.
pub record HasSame (N : Type 0) ⦃js : JsNumber N⦄ : Type 0 where
  pub same-lt : (x y z : N) → js.same x y ≡ true → js.lt x z ≡ js.lt y z
  pub lt-same : (x y z : N) → js.same x y ≡ true → js.lt z x ≡ js.lt z y

-- `Math.min` is the greatest lower bound of numbers that are not NaN.
pub record HasMin (N : Type 0) ⦃js : JsNumber N⦄ : Type 0 where
  pub le_min : (x y z : N) → js.le z x ≡ true → js.le z y ≡ true → js.le z (js.min x y) ≡ true

-- `Math.max` is the least upper bound of numbers that are not NaN.
pub record HasMax (N : Type 0) ⦃js : JsNumber N⦄ : Type 0 where
  pub max_le : (x y z : N) → js.le x z ≡ true → js.le y z ≡ true → js.le (js.max x y) z ≡ true

-- Sums of small whole numbers are exact, as IEEE 754 says.
pub record HasExactSums (N : Type 0) ⦃js : JsNumber N⦄ : Type 0 where
  pub add_exact : (m n : ℕ) → m + n ≤ 2 ^ 53 → js.add (js.num m) (js.num n) ≡ js.num (m + n)
