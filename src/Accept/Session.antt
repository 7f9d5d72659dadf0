-- ===== src/Accept/Session.antt =====
-- What the user can do with the trade dialog while its handler runs. The button is shut by the step,
-- and the step is set only behind the reads of the chain.
use b1nary_xlayer_hackathon.Prelude.{
  ℕ, ◌+◌, ◌-◌, ◌≤◌, ◌≡◌, Bool, true, false, if◌then◌else◌, ltb, arith,
}
use b1nary_xlayer_hackathon.Accept.Handler.{TxStep, idle, executing, confirmed}

-- The step of one dialog. `reading` handlers have been started and have not yet come to
-- `updateStep("executing")`; `sending` ones have, and are not at their end; `bought` ones have bought.
-- `slips` counts the clicks that came while another handler was reading.
pub record Session : Type 0 where
  pub step : TxStep
  pub reading : ℕ
  pub sending : ℕ
  pub bought : ℕ
  pub slips : ℕ

abbrev pub fresh : Session
fresh = record { step = idle; reading = 0; sending = 0; bought = 0; slips = 0 }

-- `loading`
abbrev pub is_loading : TxStep → Bool
is_loading idle = false
is_loading executing = true
is_loading confirmed = true

unfoldable pub click : Session → Session
click s = record s {
  reading = s.reading + 1;
  slips = if ltb 0 s.reading then s.slips + 1 else s.slips;
}

-- A return that asks for a deposit or shows a limit.
unfoldable pub decline : Session → Session
decline s = record s { reading = s.reading - 1 }

-- The `catch` block of a handler that was reading.
unfoldable pub break_off : Session → Session
break_off s = record s { reading = s.reading - 1; step = idle }

unfoldable pub start_sending : Session → Session
start_sending s = record s { reading = s.reading - 1; sending = s.sending + 1; step = executing }

unfoldable pub buy : Session → Session
buy s = record s { sending = s.sending - 1; bought = s.bought + 1; step = confirmed }

-- The `catch` block of a handler that was sending.
unfoldable pub fail : Session → Session
fail s = record s { sending = s.sending - 1; step = idle }

pub data Step (s : Session) : Session → Type 0 where
  clicks : is_loading s.step ≡ false → Step s (click s)
  declines : 1 ≤ s.reading → Step s (decline s)
  breaks : 1 ≤ s.reading → Step s (break_off s)
  executes : 1 ≤ s.reading → Step s (start_sending s)
  buys : 1 ≤ s.sending → Step s (buy s)
  fails : 1 ≤ s.sending → Step s (fail s)

pub data Steps (s : Session) : Session → Type 0 where
  stay : Steps s s
  after : {t u : Session} → Steps s t → Step t u → Steps s u

abbrev pub Reachable : Session → Type 0
Reachable s = Steps fresh s

-- While the button can be clicked, a handler beside those that slipped is reading.
record IsBounded (s : Session) : Type 0 where
  idle_few :
      is_loading s.step ≡ false
      → s.bought + s.reading + s.sending ≤ s.slips + (if ltb 0 s.reading then 1 else 0)
  few : s.bought + s.reading + s.sending ≤ 1 + s.slips

Step-IsBounded : {s t : Session} → Step s t → IsBounded s → IsBounded t
unfolding click decline break_off start_sending buy fail
Step-IsBounded (clicks p) b =
    let h = b.idle_few p in record { idle_few = λ _. ground arith; few = ground arith }
Step-IsBounded (declines n) b = record {
  idle_few = λ p. let h = b.idle_few p in ground arith;
  few = ground arith;
}
Step-IsBounded (breaks n) b = record { idle_few = λ _. ground arith; few = ground arith }
Step-IsBounded (executes n) b = record { idle_few = λ p. cc; few = ground arith }
Step-IsBounded (buys n) b = record { idle_few = λ p. cc; few = ground arith }
Step-IsBounded (fails n) b = record { idle_few = λ _. ground arith; few = ground arith }

Steps-IsBounded : {s : Session} → Reachable s → IsBounded s
Steps-IsBounded stay = record { idle_few = λ _. omega arith; few = omega arith }
Steps-IsBounded (after r st) = Step-IsBounded st (Steps-IsBounded r)

-- In every reachable state of the trade dialog, the orders that it has bought and the handlers that
-- may still buy one are together no more than one and one more for each click that came while another
-- handler was reading the chain.
pub bought-le-slips : {s : Session} → Reachable s → s.bought + s.reading + s.sending ≤ 1 + s.slips
bought-le-slips r = (Steps-IsBounded r).few

Step-IsWorking :
    {s t : Session}
    → Step s t
    → (s.step ≡ executing → 1 ≤ s.sending)
    → t.step ≡ executing
    → 1 ≤ t.sending
unfolding click decline break_off start_sending buy fail
Step-IsWorking (clicks p) h e = h e
Step-IsWorking (declines n) h e = h e
Step-IsWorking (breaks n) h e = cc
Step-IsWorking (executes n) h e = omega arith
Step-IsWorking (buys n) h e = cc
Step-IsWorking (fails n) h e = cc

-- The trade dialog says that it executes only while a handler has set that step and is not at its end:
-- every end of a handler leads to a dialog that can be used again, or to one that is confirmed.
pub executing-sends : {s : Session} → Reachable s → s.step ≡ executing → 1 ≤ s.sending
executing-sends stay e = cc
executing-sends (after r st) e = Step-IsWorking st (executing-sends r) e
