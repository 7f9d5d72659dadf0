-- ===== src/Execution/Race.antt =====
-- `fireAndPoll` of frontend/src/lib/execution.ts: a transaction is sent, and the chain is polled for
-- its effect at the same time. The first of the two that succeeds counts.
pub mod Outcome
use b1nary_xlayer_hackathon.Prelude.{ℕ, String, Option, none, some, leb, if◌then◌else◌}
use b1nary_xlayer_hackathon.Js.Error.{JsError, error, aggregate, Try, ok, throws}
use b1nary_xlayer_hackathon.Execution.Poll.{
  PollEnd, confirmed, lost, timed_out, lost_message, timed_out_message,
}

-- What becomes of a promise that is awaited.
pub data Settled (A : Type 0) : Type 0 where
  resolved : A → Settled A
  rejected : JsError → Settled A
  pending : Settled A

-- A promise that settles with this result at some time, or never.
abbrev pub settling : {A : Type 0} → Option ℕ → Try A → Settled A
settling none r = pending
settling (some t) (ok a) = resolved a
settling (some t) (throws e) = rejected e

-- The promise of `fire`, if it ever settles: `(t, r)` says that it has settled with `r` when the
-- answer of the poll's attempt number `t` is in, and not when that of an earlier one is.
abbrev pub Fired : Type 0
Fired = Option (ℕ × Try String)

-- `Promise.any([txP, pollP])`, and the hash as it stands at that moment.
unfoldable pub fire_and_poll : Fired → PollEnd → Settled (Option String)
fire_and_poll none (confirmed i) = resolved none
fire_and_poll none end = pending
fire_and_poll (some (t, ok hash)) (confirmed i) =
    if leb t i then resolved (some hash) else resolved none
fire_and_poll (some (t, ok hash)) end = resolved (some hash)
fire_and_poll (some (t, throws e)) (confirmed i) = resolved none
fire_and_poll (some (t, throws e)) (lost i) = rejected (aggregate e (error lost_message))
fire_and_poll (some (t, throws e)) timed_out = rejected (aggregate e (error timed_out_message))
