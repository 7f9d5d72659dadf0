-- ===== src/Clock.antt =====
-- Times on the page: the label of frontend/src/components/ExpiryCountdown.tsx, `useCountdown` of
-- frontend/src/components/EarningsChallenge.tsx, and `getNextMonday` of frontend/src/lib/utils.ts. Times
-- are whole numbers of milliseconds since 1970, as `Date.now()` gives them.
pub mod Exact
use b1nary_xlayer_hackathon.Prelude.{
  ℕ, zero, suc, ◌+◌, ◌-◌, ◌*◌, ◌/◌, ◌%◌, Option, none, some, ◌==◌, ltb, leb, if◌then◌else◌,
}

pub data Label : Type 0 where
  unknown expired : Label
  days_left : (days hours : ℕ) → Label
  hours_left : (hours mins : ℕ) → Label

-- `tick`, behind the test `remaining <= 0`.
unfoldable pub time_left : ℕ → Label
time_left remaining =
    let days = remaining / 86_400_000 in
    let hours = remaining % 86_400_000 / 3_600_000 in
    if ltb 0 days then days_left days hours else hours_left hours (remaining % 3_600_000 / 60_000)

-- A prop that is not given counts as 0, which is falsy.
abbrev pub filled : Option ℕ → ℕ
filled none = 0
filled (some n) = n

-- `expiryMs`; `created` is the time of `createdAt`, if it is given and can be read.
unfoldable pub expiry_ms : (timestamp created expiry_days : Option ℕ) → Option ℕ
expiry_ms timestamp none expiry_days =
    if ltb 0 (filled timestamp) then some (filled timestamp * 1000) else none
expiry_ms timestamp (some created) expiry_days =
    if ltb 0 (filled timestamp)
    then some (filled timestamp * 1000)
    else if ltb 0 (filled expiry_days)
    then some (created + filled expiry_days * 86_400_000)
    else none

-- The label at a time.
unfoldable pub label : (expiry : Option ℕ) → (now : ℕ) → Label
unfolding time_left
label none now = unknown
label (some expiry) now = if leb expiry now then expired else time_left (expiry - now)

pub data Countdown : Type 0 where
  ended : Countdown
  in_days : (days hours mins : ℕ) → Countdown
  in_hours : (hours mins secs : ℕ) → Countdown

-- `useCountdown`, behind its test.
unfoldable pub count_secs : ℕ → Countdown
count_secs total =
    let d = total / 86_400 in
    let h = total % 86_400 / 3600 in
    let m = total % 3600 / 60 in
    let s = total % 60 in if ltb 0 d then in_days d h m else in_hours h m s

unfoldable pub countdown : (target now : ℕ) → Countdown
unfolding count_secs
countdown target now = if leb target now then ended else count_secs ((target - now) / 1000)

-- `daysUntil`, by the day of the week in UTC, where 0 is Sunday.
unfoldable pub days_until : ℕ → ℕ
days_until day = if day == 0 then 1 else 8 - day

-- The midnight in UTC that begins a day, and the day of the week; 1970 began on a Thursday.
abbrev pub midnight : ℕ → ℕ
midnight now = now / 86_400_000 * 86_400_000

abbrev pub week_day : ℕ → ℕ
week_day now = (now / 86_400_000 + 4) % 7

-- `getNextMonday`
unfoldable pub next_monday : ℕ → ℕ
unfolding days_until
next_monday now = midnight now + days_until (week_day now) * 86_400_000
