-- ===== src/Range/Safety.antt =====
-- Every end of the whole handler of the range dialog.
use b1nary_xlayer_hackathon.Prelude.{◌≡◌, String}
use b1nary_xlayer_hackathon.Js.Error.{JsError}
use b1nary_xlayer_hackathon.Js.Number.{JsNumber}
use b1nary_xlayer_hackathon.Flow.{Exit, done, returned, waiting, Flow, recover}
use b1nary_xlayer_hackathon.Execution.Order.{Collateral}
use b1nary_xlayer_hackathon.Range.Handler.{RangeProps, Range, RangeSetting}
use b1nary_xlayer_hackathon.Range.Funds.{Covered, ToppedUp}
use b1nary_xlayer_hackathon.Range.Legs.{on_error}
use b1nary_xlayer_hackathon.Range.Ends.{LegsEnd}
use b1nary_xlayer_hackathon.Range.Prepare.{Early}
use b1nary_xlayer_hackathon.Range.Reasons.{Guarded, Declines, Fails}

module _ {N : Type 0} ⦃js : JsNumber N⦄ (setting : RangeSetting N) (props : RangeProps N) where
  -- The handler declines, and nothing has been sent; it throws before a leg has begun; it waits for
  -- ever for the wallet to answer to the swap or to the wrapping; or the legs have begun, in the state
  -- `d2`, behind all guards and with the balances that they spend. What it throws is shown by
  -- `on_error`.
  pub data RangeEnd (d : Range N) : Exit (Unit {0}) × Range N → Type 0 where
    declined :
        (d' : Range N)
        → d'.sent ≡ d.sent
        → d'.step ≡ d.step
        → Declines setting props d d'
        → RangeEnd d (returned, d')
    unprepared :
        (e : JsError) (d' : Range N)
        → Early setting props d.step d'
        → Fails setting props d e d'
        → RangeEnd d (done tt, on_error setting props d.did_swap e d')
    stalled :
        (account : String) (put_col call_col : Collateral) (d' : Range N)
        → Guarded setting props d account put_col call_col
        → Early setting props d.step d'
        → RangeEnd d (waiting, d')
    legs :
        (account : String) (put_col call_col : Collateral) (d1 d2 : Range N)
        (r : Exit (Unit {0}) × Range N)
        → Guarded setting props d account put_col call_col
        → Covered setting props account put_col call_col d.sent d1
        → ToppedUp setting props account call_col d1.sent d2
        → Early setting props d.step d2
        → LegsEnd setting props account put_col call_col d2 r
        → RangeEnd d (recover (on_error setting props d.did_swap) r)
