-- ===== src/Tests/Sessions.antt =====
-- The sessions of the trade dialog and of the range dialog at concrete clicks.
use b1nary_xlayer_hackathon.Prelude.{◌+◌, ◌≤◌, ◌≡◌, refl, true, false, arith}
use b1nary_xlayer_hackathon.Js.Fixed.{fixed}
use b1nary_xlayer_hackathon.Accept.Session.{
  Session, Reachable, stay, after, clicks, executes, buys, fresh, click, start_sending, buy,
  bought-le-slips, executing-sends,
}
use b1nary_xlayer_hackathon.Range.Session as Range
use b1nary_xlayer_hackathon.Range.Bounds.{legs-le-slips, loading-works}

-- Two clicks, both while the chain is read.
abbrev twice : Session
twice = buy (buy (start_sending (start_sending (click (click fresh)))))

twice-Reachable : Reachable twice
unfolding click start_sending buy
twice-Reachable =
    after
      (after
        (after (after (after (after stay (clicks refl)) (clicks refl)) (executes (omega arith)))
          (executes (omega arith)))
        (buys (omega arith)))
      (buys (omega arith))

bought_twice : (twice.bought ≡ 2) × (twice.slips ≡ 1)
unfolding click start_sending buy
bought_twice = (refl, refl)

bought-le-slips_example : twice.bought + twice.reading + twice.sending ≤ 1 + twice.slips
bought-le-slips_example = bought-le-slips twice-Reachable

abbrev under_way : Session
under_way = start_sending (click fresh)

executing-sends_example : 1 ≤ under_way.sending
unfolding click start_sending
executing-sends_example =
    executing-sends {s = under_way} (after (after stay (clicks refl)) (executes (omega arith))) refl

-- The upper leg fails, and the button "Upper side failed" is clicked.
abbrev again : Range.Session
again = Range.begin_call (
    Range.begin_put (
      Range.click
        (Range.fail_call false (Range.begin_call (Range.begin_put (Range.click Range.fresh))))))

again-Reachable : Range.Reachable again
unfolding Range.click Range.begin_put Range.begin_call Range.fail_call
again-Reachable =
    let failed_once =
      Range.Reachable.after
        (Range.Reachable.after
          (Range.Reachable.after
            (Range.Reachable.after Range.Reachable.start (Range.Step.clicks refl refl))
            (Range.Step.puts (omega arith)))
          (Range.Step.calls (omega arith)))
        (Range.Step.fails_call false (omega arith)) in
    Range.Reachable.after
      (Range.Reachable.after (Range.Reachable.after failed_once (Range.Step.clicks refl refl))
        (Range.Step.puts (omega arith)))
      (Range.Step.calls (omega arith))

two_lower_legs : (again.puts ≡ 2) × (again.slips ≡ 0)
unfolding Range.click Range.begin_put Range.begin_call Range.fail_call
two_lower_legs = (refl, refl)

legs-le-slips_example :
    (again.calls + Range.at_work again ≤ 1 + again.slips)
    × (again.puts ≤ 1 + again.slips + again.abandoned)
legs-le-slips_example = legs-le-slips again-Reachable

-- The wait for the receipt of the swap times out.
abbrev stuck : Range.Session
stuck = Range.lose_swap (Range.begin_swap (Range.click Range.fresh))

stuck-Reachable : Range.Reachable stuck
unfolding Range.click Range.begin_swap Range.lose_swap
stuck-Reachable =
    Range.Reachable.after
      (Range.Reachable.after
        (Range.Reachable.after Range.Reachable.start (Range.Step.clicks refl refl))
        (Range.Step.swaps (omega arith)))
      (Range.Step.loses_swap (omega arith))

stuck_alone : (Range.is_loading stuck.step ≡ true) × (Range.at_work stuck ≡ 0)
unfolding Range.click Range.begin_swap Range.lose_swap
stuck_alone = (refl, refl)

loading-works_example : 1 ≤ stuck.at_swap + stuck.at_put + stuck.at_call + stuck.lost
unfolding Range.click Range.begin_swap Range.lose_swap
loading-works_example = loading-works {s = stuck} stuck-Reachable refl
