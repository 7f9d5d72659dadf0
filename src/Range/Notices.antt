-- ===== src/Range/Notices.antt =====
-- What the range dialog says when a part of it fails.
use b1nary_xlayer_hackathon.Prelude.{◌≡◌, refl, String, Bool, true, some, List}
use b1nary_xlayer_hackathon.Prelude.Int.{ℤ}
use b1nary_xlayer_hackathon.Js.Error.{JsError, aggregate}
use b1nary_xlayer_hackathon.Js.Text.{includes_any_case}
use b1nary_xlayer_hackathon.Js.Number.{JsNumber}
use b1nary_xlayer_hackathon.Execution.Race.{rejected}
use b1nary_xlayer_hackathon.Execution.Race.Outcome.{fire_and_poll-rejected_iff}
use b1nary_xlayer_hackathon.Execution.Wallet.{BatchCall}
use b1nary_xlayer_hackathon.Execution.Chain.{fire_batch}
use b1nary_xlayer_hackathon.Range.Handler.{RangeProps, Range, RangeSetting, idle, cancelled}
use b1nary_xlayer_hackathon.Range.Legs.{on_error}

module _ {N : Type 0} ⦃js : JsNumber N⦄ (setting : RangeSetting N) (props : RangeProps N) where
  cancelled_if :
      (swapped : Bool) (x y : JsError) (d : Range N)
      → includes_any_case setting.base.aggregate_text "reject" ≡ true
      → let d' = on_error setting props swapped (aggregate x y) d in
        (d'.error ≡ some cancelled) × (d'.step ≡ idle)
  unfolding on_error
  cancelled_if swapped x y d h = rw h (refl, refl)

  -- If the engine's message of an `AggregateError` has "reject" in it, as that of V8 has ("All promises
  -- were rejected"), then every batch that is fired and fails is reported as "Transaction cancelled",
  -- and the dialog returns to its first step, whatever the step was.
  pub failed_leg_cancelled :
      (token account : String) (balance : ℤ) (calls before : List BatchCall) (e : JsError)
      (swapped : Bool) (d : Range N)
      → includes_any_case setting.base.aggregate_text "reject" ≡ true
      → (fire_batch setting.base.chain token account balance calls before).0 ≡ rejected e
      → let d' = on_error setting props swapped e d in
        (d'.error ≡ some cancelled) × (d'.step ≡ idle)
  unfolding fire_batch
  failed_leg_cancelled token account balance calls before e swapped d h f =
      let (k, x, y, _, _, same) = (fire_and_poll-rejected_iff _ _ e).0 f in
      rw same (cancelled_if swapped x y d h)
