-- ===== src/Range/Bounds.antt =====
-- How often a range dialog can buy, and when it cannot be used any more.
use b1nary_xlayer_hackathon.Prelude.{◌+◌, ◌≤◌, ◌≡◌, true, false, if◌then◌else◌, ltb, arith}
use b1nary_xlayer_hackathon.Range.Session.{
  Session, Step, Reachable, start, after, clicks, declines, swaps, puts, puts_on, calls, expires,
  finishes, fails_reading, fails_swap, fails_put, fails_call, loses_reading, loses_swap, loses_put,
  loses_call, at_work, is_loading, is_done, click, decline, begin_swap, begin_put, put_behind_swap,
  begin_call, expire, finish, fail_reading, fail_swap, fail_put, fail_call, lose_reading, lose_swap,
  lose_put, lose_call,
}

-- Every lower leg that was bought belongs to an upper leg that was bought, to one at work, or to an
-- abandoned one. While the button can be clicked, a handler beside those that slipped is at work.
record IsBounded (s : Session) : Type 0 where
  accounted : s.puts ≡ s.calls + s.at_call + s.abandoned
  few : s.calls + at_work s ≤ 1 + s.slips
  idle_few :
      is_loading s.step ≡ false
      → is_done s.step ≡ false
      → s.calls + at_work s ≤ s.slips + (if ltb 0 (at_work s) then 1 else 0)

Step-IsBounded : {s t : Session} → Step s t → IsBounded s → IsBounded t
unfolding click decline begin_swap begin_put put_behind_swap begin_call expire finish fail_reading
    fail_swap fail_put fail_call lose_reading lose_swap lose_put lose_call
Step-IsBounded (clicks p q) b =
    let h = b.idle_few p q in
    record { accounted = b.accounted; few = ground arith; idle_few = λ _ _. ground arith }
Step-IsBounded (declines n) b = record {
  accounted = b.accounted;
  few = ground arith;
  idle_few = λ p q. let h = b.idle_few p q in ground arith;
}
Step-IsBounded (swaps n) b = record {
  accounted = b.accounted;
  few = ground arith;
  idle_few = λ p q. cc;
}
Step-IsBounded (puts n) b = record {
  accounted = b.accounted;
  few = ground arith;
  idle_few = λ p q. cc;
}
Step-IsBounded (puts_on n) b = record {
  accounted = b.accounted;
  few = ground arith;
  idle_few = λ p q. cc;
}
Step-IsBounded (calls n) b = record {
  accounted = ground arith;
  few = ground arith;
  idle_few = λ p q. cc;
}
Step-IsBounded (expires n) b = record {
  accounted = ground arith;
  few = ground arith;
  idle_few = λ p q. ground arith;
}
Step-IsBounded (finishes n) b = record {
  accounted = ground arith;
  few = ground arith;
  idle_few = λ p q. cc;
}
Step-IsBounded (fails_reading n) b = record {
  accounted = b.accounted;
  few = ground arith;
  idle_few = λ p q. ground arith;
}
Step-IsBounded (fails_swap n) b = record {
  accounted = b.accounted;
  few = ground arith;
  idle_few = λ p q. ground arith;
}
Step-IsBounded (fails_put n) b = record {
  accounted = b.accounted;
  few = ground arith;
  idle_few = λ p q. ground arith;
}
Step-IsBounded (fails_call c n) b = record {
  accounted = ground arith;
  few = ground arith;
  idle_few = λ p q. ground arith;
}
Step-IsBounded (loses_reading n) b = record {
  accounted = b.accounted;
  few = ground arith;
  idle_few = λ p q. ground arith;
}
Step-IsBounded (loses_swap n) b = record {
  accounted = b.accounted;
  few = ground arith;
  idle_few = λ p q. ground arith;
}
Step-IsBounded (loses_put n) b = record {
  accounted = b.accounted;
  few = ground arith;
  idle_few = λ p q. ground arith;
}
Step-IsBounded (loses_call n) b = record {
  accounted = ground arith;
  few = ground arith;
  idle_few = λ p q. ground arith;
}

Reachable-IsBounded : {s : Session} → Reachable s → IsBounded s
Reachable-IsBounded start = record {
  accounted = omega arith;
  few = omega arith;
  idle_few = λ _ _. omega arith;
}
Reachable-IsBounded (after r st) = Step-IsBounded st (Reachable-IsBounded r)

-- In every reachable state of the range dialog it has bought no more upper legs than one and one more
-- for each click that came while another handler was at work, the handlers at work counted with them;
-- and no more lower legs than that and one more for each handler that was left with its lower leg
-- alone.
pub legs-le-slips :
    {s : Session}
    → Reachable s
    → (s.calls + at_work s ≤ 1 + s.slips) × (s.puts ≤ 1 + s.slips + s.abandoned)
legs-le-slips r = let b = Reachable-IsBounded r in (b.few, ground arith)

Step-IsWorking :
    {s t : Session}
    → Step s t
    → (is_loading s.step ≡ true → 1 ≤ s.at_swap + s.at_put + s.at_call + s.lost)
    → is_loading t.step ≡ true
    → 1 ≤ t.at_swap + t.at_put + t.at_call + t.lost
unfolding click decline begin_swap begin_put put_behind_swap begin_call expire finish fail_reading
    fail_swap fail_put fail_call lose_reading lose_swap lose_put lose_call
Step-IsWorking (clicks p q) h e = h e
Step-IsWorking (declines n) h e = h e
Step-IsWorking (swaps n) h e = omega arith
Step-IsWorking (puts n) h e = omega arith
Step-IsWorking (puts_on n) h e = omega arith
Step-IsWorking (calls n) h e = omega arith
Step-IsWorking (expires n) h e = cc
Step-IsWorking (finishes n) h e = cc
Step-IsWorking (fails_reading n) h e = cc
Step-IsWorking (fails_swap n) h e = cc
Step-IsWorking (fails_put n) h e = cc
Step-IsWorking (fails_call true n) h e = cc
Step-IsWorking (fails_call false n) h e = cc
Step-IsWorking (loses_reading n) h e = omega arith
Step-IsWorking (loses_swap n) h e = omega arith
Step-IsWorking (loses_put n) h e = omega arith
Step-IsWorking (loses_call n) h e = omega arith

-- The range dialog is loading, so that it can be neither closed nor used, only while a handler is at
-- its swap or at one of its legs, unless a handler has ended by a time-out or a lost connection.
pub loading-works :
    {s : Session}
    → Reachable s
    → is_loading s.step ≡ true
    → 1 ≤ s.at_swap + s.at_put + s.at_call + s.lost
loading-works start e = cc
loading-works (after r st) e = Step-IsWorking st (loading-works r) e
