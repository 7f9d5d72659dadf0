-- ===== src/Landing/Signup.antt =====
-- The waitlist of frontend/src/components/landing/SimulationResult.tsx: the form for an address
-- (`EmailCapture`), the number of people on the list, and its request, which all who ask share.
use text.Mathlib.Text.{◌==◌ as str_eq}
use b1nary_xlayer_hackathon.Prelude.{
  ℕ, suc, inl, inr, Bool-cases, ◌-◌, ◌≤◌, ◌≡◌, refl, String, Bool, true, false, ◌||◌, Option, none,
  some, arith, if◌then◌else◌,
}
use b1nary_xlayer_hackathon.Js.Error.{Try, ok, throws}

pub data SignupStatus : Type 0 where
  idle submitting done failed : SignupStatus

abbrev pub is_submitting : SignupStatus → Bool
is_submitting submitting = true
is_submitting _ = false

abbrev pub has_joined : SignupStatus → Bool
has_joined done = true
has_joined _ = false

-- The state of the form and of `SimulationResult`, with how many requests have no answer yet, and how
-- many answers have put a new address on the list.
pub record Signup : Type 0 where
  pub status : SignupStatus
  pub in_flight : ℕ
  pub joined : ℕ
  pub waitlist_count : Option ℕ

abbrev pub no_signup : Signup
no_signup = record { status = idle; in_flight = 0; joined = 0; waitlist_count = none }

-- `incrementCount`
abbrev pub increment : Option ℕ → Option ℕ
increment none = some 1
increment (some n) = some (suc n)

-- `handleSubmit` until its request is sent.
unfoldable pub join_waitlist : String → Signup → Signup
join_waitlist email s =
    if str_eq email "" || is_submitting s.status || has_joined s.status
    then s
    else record s { status = submitting; in_flight = suc s.in_flight }

-- The callbacks of the request; the answer says whether the address is new.
unfoldable pub take_join : Try Bool → Signup → Signup
take_join (ok true) s = record s {
  status = done;
  in_flight = s.in_flight - 1;
  joined = suc s.joined;
  waitlist_count = increment s.waitlist_count;
}
take_join (ok false) s = record s { status = done; in_flight = s.in_flight - 1 }
take_join (throws e) s = record s { status = failed; in_flight = s.in_flight - 1 }

-- The number that `fetchWaitlistCount` gives.
unfoldable pub take_count : ℕ → Signup → Signup
take_count n s = record s { waitlist_count = some n }

pub data Step (s : Signup) : Signup → Type 0 where
  submits : (email : String) → Step s (join_waitlist email s)
  joins : (answer : Try Bool) → 1 ≤ s.in_flight → Step s (take_join answer s)
  counts : (n : ℕ) → Step s (take_count n s)

pub data Reachable : Signup → Type 0 where
  opens : Reachable no_signup
  after : {s t : Signup} → Reachable s → Step s t → Reachable t

-- A request is out exactly while the form says that it submits; who has joined is done.
abbrev pub IsOrderlySignup : Signup → Type 0
IsOrderlySignup s =
    (s.in_flight ≡ (if is_submitting s.status then 1 else 0))
    × (s.joined ≤ (if has_joined s.status then 1 else 0))

Step-IsOrderlySignup : {s t : Signup} → Step s t → IsOrderlySignup s → IsOrderlySignup t
unfolding join_waitlist take_join take_count
Step-IsOrderlySignup {s} (submits email) h =
    elim (Bool-cases (str_eq email "" || is_submitting s.status || has_joined s.status)) [
      | inl e ↦ rw (e, join_waitlist) h
      | inr e ↦ rw (e, join_waitlist) (ground arith)
    ]
Step-IsOrderlySignup {s} (joins (ok true) n) h = ground arith
Step-IsOrderlySignup {s} (joins (ok false) n) h = ground arith
Step-IsOrderlySignup {s} (joins (throws e) n) h = ground arith
Step-IsOrderlySignup {s} (counts n) h = h

-- Whatever is clicked and answered: a request is out exactly while the form says that it submits, and
-- then only one; an address is put on the list at most once, and not again behind an answer.
pub Reachable-IsOrderlySignup : {s : Signup} → Reachable s → IsOrderlySignup s
Reachable-IsOrderlySignup opens = (refl, omega arith)
Reachable-IsOrderlySignup (after r st) = Step-IsOrderlySignup st (Reachable-IsOrderlySignup r)
