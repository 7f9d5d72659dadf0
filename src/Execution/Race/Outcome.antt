-- ===== src/Execution/Race/Outcome.antt =====
-- When `fireAndPoll` succeeds, when it fails, and what hash it returns.
use b1nary_xlayer_hackathon.Prelude.{
  ℕ, ◌≤◌, ◌≡◌, ◌↔◌, ◌⊎◌, inl, inr, refl, String, Option, none, some, leb, if◌then◌else◌, arith,
}
use b1nary_xlayer_hackathon.Js.Error.{JsError, error, aggregate, ok, throws}
use b1nary_xlayer_hackathon.Execution.Poll.{PollEnd, confirmed, lost, timed_out, poll_error}
use b1nary_xlayer_hackathon.Execution.Race.{resolved, rejected, Fired, fire_and_poll}

abbrev pub IsConfirmed : PollEnd → Type 0
IsConfirmed end = (i : ℕ) × (end ≡ confirmed i)

abbrev pub Sent : Fired → Type 0
Sent fire = (t : ℕ) × (hash : String) × (fire ≡ some (t, ok hash))

abbrev pub SendFailed : Fired → JsError → Type 0
SendFailed fire e = (t : ℕ) × (fire ≡ some (t, throws e))

resolves :
    {fire : Fired} {end : PollEnd} {hash : Option String}
    → fire_and_poll fire end ≡ resolved hash
    → Sent fire ⊎ IsConfirmed end
unfolding fire_and_poll
resolves {fire = none} {end = confirmed i} e = inr (i, refl)
resolves {fire = some (t, ok h)} {end = end} e = inl (t, h, refl)
resolves {fire = some (t, throws x)} {end = confirmed i} e = inr (i, refl)
resolves {fire = some (t, throws x)} {end = lost i} e = cc
resolves {fire = some (t, throws x)} {end = timed_out} e = cc
resolves {fire = none} {end = lost i} e = cc
resolves {fire = none} {end = timed_out} e = cc

pub resolves_if :
    (fire : Fired) (end : PollEnd)
    → Sent fire ⊎ IsConfirmed end
    → (hash : Option String) × (fire_and_poll fire end ≡ resolved hash)
unfolding fire_and_poll
resolves_if none (confirmed i) h = (none, refl)
resolves_if none (lost i) (inl (t, h, e)) = cc
resolves_if none (lost i) (inr (k, e)) = cc
resolves_if none timed_out (inl (t, h, e)) = cc
resolves_if none timed_out (inr (k, e)) = cc
resolves_if (some (t, ok h)) (confirmed i) _ = (if leb t i then some h else none, ground arith)
resolves_if (some (t, ok h)) (lost i) _ = (some h, refl)
resolves_if (some (t, ok h)) timed_out _ = (some h, refl)
resolves_if (some (t, throws x)) (confirmed i) _ = (none, refl)
resolves_if (some (t, throws x)) (lost i) (inl (k, h, e)) = ground arith
resolves_if (some (t, throws x)) (lost i) (inr (k, e)) = cc
resolves_if (some (t, throws x)) timed_out (inl (k, h, e)) = ground arith
resolves_if (some (t, throws x)) timed_out (inr (k, e)) = cc

-- `fireAndPoll` returns exactly when the wallet accepts the transaction or the poll confirms it,
-- whatever becomes of the other one.
pub fire_and_poll-resolved_iff :
    (fire : Fired) (end : PollEnd)
    → ((hash : Option String) × (fire_and_poll fire end ≡ resolved hash))
      ↔ (Sent fire ⊎ IsConfirmed end)
fire_and_poll-resolved_iff fire end = (λ (hash, e). resolves e, resolves_if fire end)

-- What `fireAndPoll` throws is never the poll's own error: it fails exactly when the wallet refuses
-- the transaction and the poll throws too, and then with an `AggregateError` of the two.
pub fire_and_poll-rejected_iff :
    (fire : Fired) (end : PollEnd) (e : JsError)
    → (fire_and_poll fire end ≡ rejected e) ↔ (
        (t : ℕ) × (x : JsError) × (y : JsError) × (fire ≡ some (t, throws x))
        × (poll_error end ≡ throws y)
        × (e ≡ aggregate x y))
unfolding fire_and_poll
fire_and_poll-rejected_iff none (confirmed i) e = (λ h. cc, λ (t, x, y, f, p, q). cc)
fire_and_poll-rejected_iff none (lost i) e = (λ h. cc, λ (t, x, y, f, p, q). cc)
fire_and_poll-rejected_iff none timed_out e = (λ h. cc, λ (t, x, y, f, p, q). cc)
fire_and_poll-rejected_iff (some (t, ok h)) (confirmed i) e = ground arith
fire_and_poll-rejected_iff (some (t, ok h)) (lost i) e = ground arith
fire_and_poll-rejected_iff (some (t, ok h)) timed_out e = ground arith
fire_and_poll-rejected_iff (some (t, throws x)) (confirmed i) e = ground arith
fire_and_poll-rejected_iff (some (t, throws x)) (lost i) e =
    (λ h. (t, x, error _, refl, refl, ground arith), ground arith)
fire_and_poll-rejected_iff (some (t, throws x)) timed_out e =
    (λ h. (t, x, error _, refl, refl, ground arith), ground arith)

-- A hash that `fireAndPoll` returns is the one that the wallet gave, and the wallet had given it when
-- the poll confirmed the transaction, if the poll did.
pub fire_and_poll-hash :
    (fire : Fired) (end : PollEnd) (hash : String)
    → fire_and_poll fire end ≡ resolved (some hash)
    → (t : ℕ) × (fire ≡ some (t, ok hash)) × ((i : ℕ) → end ≡ confirmed i → t ≤ i)
unfolding fire_and_poll
fire_and_poll-hash none (confirmed i) h e = ground arith
fire_and_poll-hash none (lost i) h e = ground arith
fire_and_poll-hash none timed_out h e = ground arith
fire_and_poll-hash (some (t, ok g)) (confirmed i) h e = (t, ground arith, λ k q. ground arith)
fire_and_poll-hash (some (t, ok g)) (lost i) h e = (t, ground arith, λ k q. ground arith)
fire_and_poll-hash (some (t, ok g)) timed_out h e = (t, ground arith, λ k q. ground arith)
fire_and_poll-hash (some (t, throws x)) (confirmed i) h e = ground arith
fire_and_poll-hash (some (t, throws x)) (lost i) h e = ground arith
fire_and_poll-hash (some (t, throws x)) timed_out h e = ground arith
