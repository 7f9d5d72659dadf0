-- ===== src/Range/Session.antt =====
-- What the user can do with the range dialog while its handler runs, and where its handlers can be.
-- The button is shut by the steps that count as loading and by the last one; "Upper side failed" is a
-- button that starts the handler again.
use b1nary_xlayer_hackathon.Prelude.{ℕ, ◌+◌, ◌-◌, ◌≤◌, ◌≡◌, Bool, true, false, if◌then◌else◌, ltb}
use b1nary_xlayer_hackathon.Range.Handler.{
  RangeStep, idle, swapping, executing_put, executing_call, confirmed, partial_put_only,
}

-- The step of one dialog, and how many handlers are where: reading the chain or wrapping, before the
-- first `updateStep`; swapping; at the lower leg; at the upper leg. `puts` and `calls` legs have been
-- bought. `abandoned` handlers have bought the lower leg and not the upper one, and are at their end.
-- `lost` ones ended by a time-out or a lost connection. `slips` counts the clicks that came while
-- another handler was at work.
pub record Session : Type 0 where
  pub step : RangeStep
  pub reading : ℕ
  pub at_swap : ℕ
  pub at_put : ℕ
  pub at_call : ℕ
  pub puts : ℕ
  pub calls : ℕ
  pub abandoned : ℕ
  pub lost : ℕ
  pub slips : ℕ

abbrev pub fresh : Session
fresh = record {
  step = idle;
  reading = 0;
  at_swap = 0;
  at_put = 0;
  at_call = 0;
  puts = 0;
  calls = 0;
  abandoned = 0;
  lost = 0;
  slips = 0;
}

abbrev pub at_work : Session → ℕ
at_work s = s.reading + s.at_swap + s.at_put + s.at_call

abbrev pub is_loading : RangeStep → Bool
is_loading swapping = true
is_loading executing_put = true
is_loading executing_call = true
is_loading _ = false

abbrev pub is_done : RangeStep → Bool
is_done confirmed = true
is_done _ = false

unfoldable pub click : Session → Session
click s = record s {
  reading = s.reading + 1;
  slips = if ltb 0 (at_work s) then s.slips + 1 else s.slips;
}

-- A return that asks for a deposit or shows why.
unfoldable pub decline : Session → Session
decline s = record s { reading = s.reading - 1 }

unfoldable pub begin_swap : Session → Session
begin_swap s = record s { reading = s.reading - 1; at_swap = s.at_swap + 1; step = swapping }

unfoldable pub begin_put : Session → Session
begin_put s = record s { reading = s.reading - 1; at_put = s.at_put + 1; step = executing_put }

unfoldable pub put_behind_swap : Session → Session
put_behind_swap s = record s {
  at_swap = s.at_swap - 1;
  at_put = s.at_put + 1;
  step = executing_put;
}

unfoldable pub begin_call : Session → Session
begin_call s = record s {
  at_put = s.at_put - 1;
  at_call = s.at_call + 1;
  puts = s.puts + 1;
  step = executing_call;
}

-- The lower leg is bought, and the quote of the upper one has expired.
unfoldable pub expire : Session → Session
expire s = record s {
  at_put = s.at_put - 1;
  puts = s.puts + 1;
  abandoned = s.abandoned + 1;
  step = partial_put_only;
}

unfoldable pub finish : Session → Session
finish s = record s { at_call = s.at_call - 1; calls = s.calls + 1; step = confirmed }

-- The `catch` block before the upper leg, but for a time-out.
unfoldable pub fail_reading : Session → Session
fail_reading s = record s { reading = s.reading - 1; step = idle }

unfoldable pub fail_swap : Session → Session
fail_swap s = record s { at_swap = s.at_swap - 1; step = idle }

unfoldable pub fail_put : Session → Session
fail_put s = record s { at_put = s.at_put - 1; step = idle }

-- The `catch` block at the upper leg, as a cancellation or not.
unfoldable pub fail_call : Bool → Session → Session
fail_call is_cancelled s = record s {
  at_call = s.at_call - 1;
  abandoned = s.abandoned + 1;
  step = if is_cancelled then idle else partial_put_only;
}

-- The `catch` block behind an exception whose message says "Timed out" or "Lost connection": the step
-- stays as it is. What a leg's batch throws says so only if the engine's message does.
unfoldable pub lose_reading : Session → Session
lose_reading s = record s { reading = s.reading - 1; lost = s.lost + 1 }

unfoldable pub lose_swap : Session → Session
lose_swap s = record s { at_swap = s.at_swap - 1; lost = s.lost + 1 }

unfoldable pub lose_put : Session → Session
lose_put s = record s { at_put = s.at_put - 1; lost = s.lost + 1 }

unfoldable pub lose_call : Session → Session
lose_call s = record s { at_call = s.at_call - 1; abandoned = s.abandoned + 1; lost = s.lost + 1 }

pub data Step (s : Session) : Session → Type 0 where
  clicks : is_loading s.step ≡ false → is_done s.step ≡ false → Step s (click s)
  declines : 1 ≤ s.reading → Step s (decline s)
  swaps : 1 ≤ s.reading → Step s (begin_swap s)
  puts : 1 ≤ s.reading → Step s (begin_put s)
  puts_on : 1 ≤ s.at_swap → Step s (put_behind_swap s)
  calls : 1 ≤ s.at_put → Step s (begin_call s)
  expires : 1 ≤ s.at_put → Step s (expire s)
  finishes : 1 ≤ s.at_call → Step s (finish s)
  fails_reading : 1 ≤ s.reading → Step s (fail_reading s)
  fails_swap : 1 ≤ s.at_swap → Step s (fail_swap s)
  fails_put : 1 ≤ s.at_put → Step s (fail_put s)
  fails_call : (is_cancelled : Bool) → 1 ≤ s.at_call → Step s (fail_call is_cancelled s)
  loses_reading : 1 ≤ s.reading → Step s (lose_reading s)
  loses_swap : 1 ≤ s.at_swap → Step s (lose_swap s)
  loses_put : 1 ≤ s.at_put → Step s (lose_put s)
  loses_call : 1 ≤ s.at_call → Step s (lose_call s)

pub data Reachable : Session → Type 0 where
  start : Reachable fresh
  after : {s t : Session} → Reachable s → Step s t → Reachable t
