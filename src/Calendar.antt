-- ===== src/Calendar.antt =====
-- The dates of `buildCalendarUrl` of frontend/src/lib/utils.ts, with a text of digits as the list of
-- its digits. The fields of the UTC calendar are those of JavaScript's `Date`.
use b1nary_xlayer_hackathon.Prelude.{
  ℕ, zero, suc, ◌+◌, ◌*◌, ◌/◌, ◌%◌, ◌≤◌, ◌<◌, ◌≡◌, refl, ◌∙◌, inl, inr, true, false, Bool-cases,
  List, [], ◌∷◌, ◌++◌, length, ltb, ltb→lt, if◌then◌else◌, arith,
}

-- `getUTCFullYear()`, `getUTCMonth()` and `getUTCDate()`; the first month is 0.
pub record UtcDate : Type 0 where
  pub year : ℕ
  pub month : ℕ
  pub day : ℕ

-- The `dates` of an event: a day, and the hours at which the event begins and ends on it.
pub record EventDates : Type 0 where
  pub day_digits : List ℕ
  pub begins : ℕ
  pub ends : ℕ

-- `String(n)`; a number has no more digits than it says.
unfoldable pub digits_of : (fuel n : ℕ) → List ℕ
digits_of zero n = n ∷ []
digits_of (suc fuel) n = if ltb n 10 then n ∷ [] else digits_of fuel (n / 10) ++ (n % 10 ∷ [])

-- `String(n).padStart(2, "0")`
unfoldable pub pad : ℕ → List ℕ
unfolding digits_of
pad n = let text = digits_of n n in if ltb (length text) 2 then 0 ∷ text else text

unfoldable pub day_text : UtcDate → List ℕ
unfolding digits_of pad
day_text d = digits_of d.year d.year ++ (pad (d.month + 1) ++ pad d.day)

abbrev pub event_dates : UtcDate → EventDates
event_dates d = record { day_digits = day_text d; begins = 8; ends = 9 }

-- The number that digits write.
abbrev pub number_of : ℕ → List ℕ → ℕ
number_of n [] = n
number_of n (d ∷ ds) = number_of (n * 10 + d) ds

-- A day as a calendar reads it: the last two digits are the day, the two before them the month.
abbrev pub read_day : List ℕ → ℕ × (ℕ × ℕ)
read_day text = let n = number_of 0 text in (n / 10000, (n / 100 % 100, n % 100))

number_of-append : (n : ℕ) (xs ys : List ℕ) → number_of n (xs ++ ys) ≡ number_of (number_of n xs) ys
number_of-append n [] ys = refl
number_of-append n (x ∷ xs) ys = number_of-append (n * 10 + x) xs ys

digits_of-number_of : (fuel n : ℕ) → n ≤ fuel → number_of 0 (digits_of fuel n) ≡ n
unfolding digits_of
digits_of-number_of zero n h = omega arith
digits_of-number_of (suc fuel) n h = elim (Bool-cases (ltb n 10)) [
  | inl e ↦ rw (e, digits_of) (omega arith)
  | inr e ↦
      let shorter = digits_of-number_of fuel (n / 10) (ground arith) in
      let last = number_of-append 0 (digits_of fuel (n / 10)) (n % 10 ∷ []) in
      rw (e, digits_of, last, shorter) (omega arith)
]

one_digit : (fuel n : ℕ) → n < 10 → digits_of fuel n ≡ n ∷ []
unfolding digits_of
one_digit zero n h = refl
one_digit (suc fuel) n h = let small : ltb n 10 ≡ true = ground arith in rw (small, digits_of) refl

two_digits : (fuel n : ℕ) → 10 ≤ n → n < 100 → digits_of (suc fuel) n ≡ n / 10 ∷ n % 10 ∷ []
unfolding digits_of
two_digits fuel n low high =
    let large : ltb n 10 ≡ false = ground arith in
    let first = one_digit fuel (n / 10) (omega arith) in rw (large, digits_of, first) refl

pad-two : (n : ℕ) → n < 100 → pad n ≡ n / 10 ∷ n % 10 ∷ []
unfolding pad
pad-two zero h = refl
pad-two (suc k) h = elim (Bool-cases (ltb (suc k) 10)) [
  | inl e ↦
      let alone = one_digit (suc k) (suc k) (ltb→lt (suc k) 10 e) in
      let none_before : suc k / 10 ≡ 0 = ground arith in
      let itself : suc k % 10 ≡ suc k = ground arith in rw (pad, alone, none_before, itself) refl
  | inr e ↦ let both = two_digits k (suc k) (ground arith) h in rw (pad, both) refl
]

day_text-number_of :
    (d : UtcDate)
    → d.month < 12
    → d.day < 32
    → number_of 0 (day_text d) ≡ d.year * 10000 + (d.month + 1) * 100 + d.day
unfolding day_text
day_text-number_of d m h =
    let year = digits_of-number_of d.year d.year (omega arith) in
    let months = pad-two (d.month + 1) (omega arith) in
    let days = pad-two d.day (omega arith) in
    let behind = number_of-append 0 (digits_of d.year d.year) (pad (d.month + 1) ++ pad d.day) in
    behind ∙ rw (year, months, days) (omega arith)

-- The day of an event is read as the day of the date, whatever its year; the month counts from 1.
pub event_dates-read :
    (d : UtcDate)
    → d.month < 12
    → d.day < 32
    → read_day (event_dates d).day_digits ≡ (d.year, (d.month + 1, d.day))
event_dates-read d m h =
    let number = day_text-number_of d m h in
    let years : (d.year * 10000 + (d.month + 1) * 100 + d.day) / 10000 ≡ d.year = omega arith in
    let months : (d.year * 10000 + (d.month + 1) * 100 + d.day) / 100 % 100 ≡ d.month + 1 =
      omega arith in
    let days : (d.year * 10000 + (d.month + 1) * 100 + d.day) % 100 ≡ d.day = omega arith in
    rw (number, years, months, days) refl
