-- ===== src/Clock/Exact.antt =====
-- The times that are shown are those that remain, but for what the labels leave out.
use b1nary_xlayer_hackathon.Prelude.{
  ℕ, ◌+◌, ◌-◌, ◌*◌, ◌/◌, ◌%◌, ◌≤◌, ◌<◌, ◌≡◌, refl, some, leb, ltb, ◌==◌, Bool-cases, inl, inr,
  arith,
}
use b1nary_xlayer_hackathon.Clock.{
  Label, unknown, expired, days_left, hours_left, time_left, label, Countdown, ended, in_days,
  in_hours, count_secs, countdown, days_until, week_day, next_monday,
}

-- A label for a time that remains: days and hours, with less than an hour left out, or hours and
-- minutes, with less than a minute left out, if less than a day remains.
abbrev pub Tells : ℕ → Label → Type 0
Tells remaining unknown = ⊥
Tells remaining expired = remaining ≡ 0
Tells remaining (days_left d h) =
    (1 ≤ d)
    × (h < 24)
    × (d * 86_400_000 + h * 3_600_000 ≤ remaining)
    × (remaining < d * 86_400_000 + (h + 1) * 3_600_000)
Tells remaining (hours_left h m) =
    (h < 24)
    × (m < 60)
    × (h * 3_600_000 + m * 60_000 ≤ remaining)
    × (remaining < h * 3_600_000 + (m + 1) * 60_000)

time_left-Tells : (n : ℕ) → Tells n (time_left n)
unfolding time_left
time_left-Tells n = elim (Bool-cases (ltb 0 (n / 86_400_000))) [
  | inl e ↦ rw (e, time_left) (ground arith, omega arith, omega arith, omega arith)
  | inr e ↦
      let none_left : n / 86_400_000 ≡ 0 = ground arith in
      rw (e, time_left) (omega arith, omega arith, omega arith, omega arith)
]

-- At every time the label of a known expiry tells what remains until then, down to the hour or to the
-- minute; it says "Expired" exactly from the expiry on.
pub label-Tells :
    (expiry now : ℕ)
    → Tells (expiry - now) (label (some expiry) now)
      × (expiry ≤ now → label (some expiry) now ≡ expired)
      × (now < expiry → label (some expiry) now ≡ time_left (expiry - now))
unfolding label
label-Tells expiry now = elim (Bool-cases (leb expiry now)) [
  | inl e ↦ (rw (e, label) (ground arith), λ h. rw (e, label) refl, λ h. absurd (ground arith))
  | inr e ↦ (
    rw (e, label) (time_left-Tells (expiry - now)),
    λ h. absurd (ground arith),
    λ h. rw (e, label) refl,
  )
]

-- The milliseconds that a countdown shows, and what it leaves out: seconds, where it shows days.
abbrev pub Counts : ℕ → Countdown → Type 0
Counts remaining ended = remaining ≡ 0
Counts remaining (in_days d h m) =
    (1 ≤ d)
    × (h < 24)
    × (m < 60)
    × (((d * 24 + h) * 60 + m) * 60_000 ≤ remaining)
    × (remaining < ((d * 24 + h) * 60 + m + 1) * 60_000)
Counts remaining (in_hours h m s) =
    (h < 24)
    × (m < 60)
    × (s < 60)
    × (((h * 60 + m) * 60 + s) * 1000 ≤ remaining)
    × (remaining < ((h * 60 + m) * 60 + s + 1) * 1000)

count_secs-Counts : (n : ℕ) → Counts n (count_secs (n / 1000))
unfolding count_secs
count_secs-Counts n = elim (Bool-cases (ltb 0 (n / 1000 / 86_400))) [
  | inl e ↦ rw (e, count_secs) (ground arith, omega arith, omega arith, omega arith, omega arith)
  | inr e ↦
      let none_left : n / 1000 / 86_400 ≡ 0 = ground arith in
      rw (e, count_secs) (omega arith, omega arith, omega arith, omega arith, omega arith)
]

-- At every time the countdown tells what remains until its target, down to the second, or to the minute
-- while a day or more remains.
pub countdown-Counts : (target now : ℕ) → Counts (target - now) (countdown target now)
unfolding countdown
countdown-Counts target now = elim (Bool-cases (leb target now)) [
  | inl e ↦ rw (e, countdown) (ground arith)
  | inr e ↦ rw (e, countdown) (count_secs-Counts (target - now))
]

-- `getNextMonday` is a midnight that begins a Monday, later than now and at most seven days later, so
-- that it is the first Monday to begin after now.
pub next_monday-first :
    (now : ℕ)
    → (week_day (next_monday now) ≡ 1)
      × (next_monday now % 86_400_000 ≡ 0)
      × (now < next_monday now)
      × (next_monday now ≤ now + 7 * 86_400_000)
unfolding next_monday days_until
next_monday-first now = elim (Bool-cases (week_day now == 0)) [
  | inl e ↦
      let sunday : week_day now ≡ 0 = ground arith in
      rw (e, next_monday, days_until) (omega arith, omega arith, omega arith, omega arith)
  | inr e ↦
      let other : 1 ≤ week_day now = ground arith in
      rw (e, next_monday, days_until) (omega arith, omega arith, omega arith, omega arith)
]
