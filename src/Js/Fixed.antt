-- ===== src/Js/Fixed.antt =====
-- Numbers in which the laws of `Js.Number` can be met and run: four decimal places, with NaN and the
-- two infinities.
use native.Mathlib.Nat.{le-div_iff_mul-le, div-mul-le_self, le_trans, mul-le-mul_right}
use b1nary_xlayer_hackathon.Prelude.{
  ℕ, zero, suc, ◌+◌, ◌-◌, ◌*◌, ◌/◌, ◌^◌, ◌≤◌, ◌<◌, ◌≡◌, refl, Bool, true, false, ◌&&◌, arith,
  if◌then◌else◌, List, [], ◌∷◌,
}
use b1nary_xlayer_hackathon.Prelude.Int.{
  ℤ, pos, negsuc, pos_part, neg_part, sub_ℕ, ◌+ℤ◌, ◌-ℤ◌, ◌*ℤ◌, quot_ℤ, ltb_ℤ, leb_ℤ,
}
use b1nary_xlayer_hackathon.Js.Number.{
  JsNumber, IsOrdered, HasSigns, HasDistance, HasDifference, HasMax, HasExactSums,
}
use b1nary_xlayer_hackathon.Js.Error.{Try, ok, throws, error}
use b1nary_xlayer_hackathon.Js.Text.{codes}

pub data Fixed : Type 0 where
  nan plus_inf minus_inf : Fixed
  fin : ℤ → Fixed

abbrev pub scale : ℕ
scale = 10000

abbrev pub lift : (ℤ → ℤ → Fixed) → Fixed → Fixed → Fixed
lift f (fin a) (fin b) = f a b
lift f _ _ = nan

abbrev pub lift_one : (ℤ → Fixed) → Fixed → Fixed
lift_one f (fin a) = f a
lift_one f _ = nan

abbrev minus : Fixed → Fixed → Fixed
minus (fin a) (fin b) = fin (a -ℤ b)
minus plus_inf (fin b) = plus_inf
minus plus_inf minus_inf = plus_inf
minus minus_inf (fin b) = minus_inf
minus minus_inf plus_inf = minus_inf
minus (fin a) plus_inf = minus_inf
minus (fin a) minus_inf = plus_inf
minus _ _ = nan

abbrev absolute : Fixed → Fixed
absolute (fin a) = fin (pos (pos_part a + neg_part a))
absolute nan = nan
absolute _ = plus_inf

abbrev pub lt : Fixed → Fixed → Bool
lt (fin a) (fin b) = ltb_ℤ a b
lt (fin a) plus_inf = true
lt minus_inf (fin b) = true
lt minus_inf plus_inf = true
lt _ _ = false

abbrev pub le : Fixed → Fixed → Bool
le (fin a) (fin b) = leb_ℤ a b
le (fin a) plus_inf = true
le minus_inf (fin b) = true
le minus_inf plus_inf = true
le minus_inf minus_inf = true
le plus_inf plus_inf = true
le _ _ = false

abbrev pub same : Fixed → Fixed → Bool
same a b = le a b && le b a

abbrev pub smaller : Fixed → Fixed → Fixed
smaller a b = if le a b then a else if le b a then b else nan

abbrev pub larger : Fixed → Fixed → Fixed
larger a b = if le a b then b else if le b a then a else nan

-- The value rounded down and up to a whole number.
abbrev pub floor_ℤ : ℤ → ℤ
floor_ℤ (pos n) = pos (n / scale * scale)
floor_ℤ (negsuc n) = sub_ℕ 0 ((n / scale + 1) * scale)

abbrev pub ceil_ℤ : ℤ → ℤ
ceil_ℤ (pos n) = pos ((n + scale - 1) / scale * scale)
ceil_ℤ (negsuc n) = sub_ℕ 0 (suc n / scale * scale)

abbrev pub div_ℤ : ℤ → ℤ → Fixed
div_ℤ a (pos zero) = nan
div_ℤ a (pos (suc n)) = fin (quot_ℤ (a *ℤ pos scale) (suc n))
div_ℤ a (negsuc n) = fin (quot_ℤ (pos 0 -ℤ a *ℤ pos scale) (suc n))

abbrev pub pow_ℤ : ℤ → Fixed
pow_ℤ (pos n) = fin (pos (10 ^ (n / scale) * scale))
pow_ℤ (negsuc n) = fin (pos (scale / 10 ^ (suc n / scale)))

abbrev pub is_fin : Fixed → Bool
is_fin (fin a) = true
is_fin _ = false

-- The decimal digits of a text, read until its end.
abbrev pub digits_from : ℕ → List ℕ → ℕ
digits_from n [] = n
digits_from n (c ∷ cs) = digits_from (n * 10 + (c - b'0')) cs

abbrev pub big_of : Fixed → Try ℤ
big_of (fin a) = ok (quot_ℤ a scale)
big_of _ = throws (error "RangeError")

instance abbrev pub fixed : JsNumber Fixed
fixed = record {
  num = λ n. fin (pos (n * scale));
  dec = λ m k. fin (pos (m * scale / 10 ^ k));
  add = lift λ a b. fin (a +ℤ b);
  sub = minus;
  mul = lift λ a b. fin (quot_ℤ (a *ℤ b) scale);
  div = lift div_ℤ;
  pow10 = lift_one pow_ℤ;
  floor = lift_one λ a. fin (floor_ℤ a);
  ceil = lift_one λ a. fin (ceil_ℤ a);
  round = lift_one λ a. fin (floor_ℤ (a +ℤ pos 5000));
  abs = absolute;
  lt = lt;
  le = le;
  min = smaller;
  max = larger;
  same = same;
  finite = is_fin;
  parse = λ t. fin (pos (digits_from 0 (codes t) * scale));
  to_text = λ x. "n";
  parse_date = λ t. fin (pos (digits_from 0 (codes t) * scale));
  to_fixed = λ x d. "n";
  to_big = big_of;
  big_of_text = λ t. ok (pos (digits_from 0 (codes t)));
  of_big = λ a. fin (a *ℤ pos scale);
  infinity = plus_inf;
  minus_infinity = minus_inf;
}

pub Fixed-IsOrdered : IsOrdered Fixed
Fixed-IsOrdered = record {
  lt_trans = ground arith;
  lt-le_trans = ground arith;
  le-lt_trans = ground arith;
  le_trans = ground arith;
  lt_irrefl = ground arith;
  le_of_lt = ground arith;
  refl_of_le = ground arith;
  le_of_not_lt = ground arith;
  lt_of_not_le = ground arith;
  min_le = ground arith;
  le_max = ground arith;
}

Fixed-num_lt : (m n : ℕ) → m < n → n ≤ 2 ^ 53 → fixed.lt (fixed.num m) (fixed.num n) ≡ true
Fixed-num_lt m n h _ = ground arith

Fixed-div_nonneg :
    (x y : Fixed)
    → is_fin x ≡ true
    → is_fin y ≡ true
    → le (fin (pos 0)) x ≡ true
    → lt (fin (pos 0)) y ≡ true
    → le (fin (pos 0)) (fixed.div x y) ≡ true
Fixed-div_nonneg (fin (pos a)) (fin (pos (suc b))) _ _ _ _ = ground arith
Fixed-div_nonneg (fin (pos a)) (fin (pos zero)) _ _ _ h = ground arith
Fixed-div_nonneg x y f g h k = ground arith

div_mono : (a b d : ℕ) → a ≤ b → a / suc d ≤ b / suc d
div_mono a b d h = (le-div_iff_mul-le (omega arith)).1 (le_trans (div-mul-le_self a (suc d)) h)

quot_ℤ_mono :
    (a b : ℤ) (d : ℕ) → leb_ℤ a b ≡ true → leb_ℤ (quot_ℤ a (suc d)) (quot_ℤ b (suc d)) ≡ true
quot_ℤ_mono (pos a) (pos b) d h = ground (arith, div_mono a b d)
quot_ℤ_mono (pos a) (negsuc b) d h = ground arith
quot_ℤ_mono (negsuc a) (pos b) d h = ground arith
quot_ℤ_mono (negsuc a) (negsuc b) d h = ground (arith, div_mono (suc b) (suc a) d)

Fixed-div_mono :
    (x y z : Fixed)
    → is_fin x ≡ true
    → is_fin y ≡ true
    → is_fin z ≡ true
    → lt (fin (pos 0)) z ≡ true
    → le x y ≡ true
    → le (fixed.div x z) (fixed.div y z) ≡ true
Fixed-div_mono (fin a) (fin b) (fin (pos (suc d))) f g h k l =
    quot_ℤ_mono (a *ℤ pos scale) (b *ℤ pos scale) d (ground arith)
Fixed-div_mono (fin a) (fin b) (fin (pos zero)) f g h k l = ground arith
Fixed-div_mono x y z f g h k l = ground arith

mul_ℤ_mono : (a b : ℤ) (d : ℕ) → leb_ℤ a b ≡ true → leb_ℤ (a *ℤ pos d) (b *ℤ pos d) ≡ true
mul_ℤ_mono (pos a) (pos b) d h =
    let m : a * d ≤ b * d = mul-le-mul_right d (ground arith) in ground arith
mul_ℤ_mono (negsuc a) (negsuc b) d h =
    let m : suc b * d ≤ suc a * d = mul-le-mul_right d (ground arith) in ground arith
mul_ℤ_mono (pos a) (negsuc b) d h = ground arith
mul_ℤ_mono (negsuc a) (pos b) d h = ground arith

Fixed-mul_mono :
    (x y z : Fixed)
    → is_fin x ≡ true
    → is_fin y ≡ true
    → is_fin z ≡ true
    → lt (fin (pos 0)) z ≡ true
    → le x y ≡ true
    → le (fixed.mul x z) (fixed.mul y z) ≡ true
Fixed-mul_mono (fin a) (fin b) (fin (pos d)) f g h k l =
    quot_ℤ_mono (a *ℤ pos d) (b *ℤ pos d) 9999 (mul_ℤ_mono a b d l)
Fixed-mul_mono x y z f g h k l = ground arith

pub Fixed-HasSigns : HasSigns Fixed
Fixed-HasSigns = record {
  num_lt = Fixed-num_lt;
  num_finite = λ n h. refl;
  not_nan_of_finite = ground arith;
  div_nonneg = Fixed-div_nonneg;
  div_mono = Fixed-div_mono;
  mul_mono = Fixed-mul_mono;
}

pub Fixed-HasDistance : HasDistance Fixed
Fixed-HasDistance = record { same_comm = ground arith; abs-sub_comm = ground arith }

pub Fixed-HasDifference : HasDifference Fixed
Fixed-HasDifference = record { lt-sub = ground arith; minus_infinity_le = refl }

pub Fixed-HasMax : HasMax Fixed
Fixed-HasMax = record { max_le = ground arith }

pub Fixed-HasExactSums : HasExactSums Fixed
Fixed-HasExactSums = record { add_exact = λ m n h. ground arith }
