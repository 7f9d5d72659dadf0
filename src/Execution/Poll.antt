-- ===== src/Execution/Poll.antt =====
-- `pollUntil` of frontend/src/lib/execution.ts: the wait for a transaction to show on chain.
pub mod Ends
use b1nary_xlayer_hackathon.Prelude.{
  ℕ, zero, suc, ◌+◌, Bool, true, false, String, leb, if◌then◌else◌,
}
use b1nary_xlayer_hackathon.Js.Error.{error, Try, ok, throws}

-- How the loop ends: it returns at an attempt, or it throws, at an attempt or behind the last one.
pub data PollEnd : Type 0 where
  confirmed : ℕ → PollEnd
  lost : ℕ → PollEnd
  timed_out : PollEnd

abbrev pub lost_message : String
lost_message =
    "Lost connection while waiting for confirmation. Your transaction may still be processing — check your balance before retrying."

abbrev pub timed_out_message : String
timed_out_message =
    "Timed out waiting for confirmation. Your transaction may still be processing — check your balance before retrying."

-- The default of `maxAttempts`.
abbrev pub max_attempts : ℕ
max_attempts = 60

module _ (check : ℕ → Try Bool) where
  -- The loop, with the attempts left, the attempt's number and `consecutiveErrors`.
  unfoldable pub poll_from : (left i errors : ℕ) → PollEnd
  poll_from zero i errors = timed_out
  poll_from (suc left) i errors = elim (check i) [
    | ok true ↦ confirmed i
    | ok false ↦ poll_from left (suc i) 0
    | throws e ↦
        let rest = poll_from left (suc i) (errors + 1) in
        if leb 5 (errors + 1) then lost i else rest
  ]

  unfoldable pub poll_until : ℕ → PollEnd
  unfolding poll_from
  poll_until attempts = poll_from attempts 0 0

-- What the loop throws.
abbrev pub poll_error : PollEnd → Try (Unit {0})
poll_error (confirmed i) = ok tt
poll_error (lost i) = throws (error lost_message)
poll_error timed_out = throws (error timed_out_message)
