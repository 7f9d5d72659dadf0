-- ===== src/Tests/Clock.antt =====
-- Labels and countdowns at concrete times.
use b1nary_xlayer_hackathon.Prelude.{◌-◌, ◌≤◌, ◌<◌, ◌≡◌, refl, some, none, [], ◌∷◌, arith}
use b1nary_xlayer_hackathon.Calendar.{
  UtcDate, event_dates, read_day, event_dates-read, day_text, digits_of, pad,
}
use b1nary_xlayer_hackathon.Clock.{days_left, expired, time_left, expiry_ms, label, next_monday}
use b1nary_xlayer_hackathon.Clock.Exact.{Tells, label-Tells}

label-Tells_example :
    Tells (1000 - 1000) (label (some 1000) 1000)
    × (1000 ≤ 1000 → label (some 1000) 1000 ≡ expired)
    × (1000 < 1000 → label (some 1000) 1000 ≡ time_left (1000 - 1000))
label-Tells_example = label-Tells 1000 1000

the_13th : next_monday 1_775_606_400_000 ≡ 1_776_038_400_000
unfolding next_monday
the_13th = refl

label_of_stamp : label (expiry_ms (some 1_775_779_200) none none) 1_775_606_400_000 ≡ days_left 2 0
unfolding label expiry_ms
label_of_stamp = refl

-- The settlement of 19 April 2026.
abbrev settlement : UtcDate
settlement = record { year = 2026; month = 3; day = 19 }

event_dates-read_example : read_day (event_dates settlement).day_digits ≡ (2026, (4, 19))
event_dates-read_example = event_dates-read settlement (omega arith) (omega arith)

settlement_day : (event_dates settlement).day_digits ≡ 2 ∷ 0 ∷ 2 ∷ 6 ∷ 0 ∷ 4 ∷ 1 ∷ 9 ∷ []
unfolding day_text digits_of pad
settlement_day = refl
