-- ===== src/Accept/Failed.antt =====
-- What the trade dialog says of a batch that fails.
use b1nary_xlayer_hackathon.Prelude.{
  ◌≡◌, ap, refl, String, Bool, true, false, not, ◌&&◌, none, some, List,
}
use b1nary_xlayer_hackathon.Prelude.Int.{ltb_ℤ}
use b1nary_xlayer_hackathon.Js.Error.{JsError, aggregate}
use b1nary_xlayer_hackathon.Js.Text.{includes}
use b1nary_xlayer_hackathon.Js.Number.{JsNumber}
use b1nary_xlayer_hackathon.Flow.{Exit, done, thrown, recover}
use b1nary_xlayer_hackathon.Execution.Race.{rejected}
use b1nary_xlayer_hackathon.Execution.Race.Outcome.{fire_and_poll-rejected_iff}
use b1nary_xlayer_hackathon.Execution.Wallet.{BatchCall}
use b1nary_xlayer_hackathon.Execution.Chain.{fire_batch}
use b1nary_xlayer_hackathon.Accept.Props.{AcceptProps}
use b1nary_xlayer_hackathon.Accept.Handler.{
  Dialog, Setting, executing, idle, trade, start_trade, handle_accept, on_error, failed,
}
use b1nary_xlayer_hackathon.Accept.Outcomes.{Fired}
use b1nary_xlayer_hackathon.Accept.Reports.{Guarded}

module _ {N : Type 0} ⦃js : JsNumber N⦄ (env : Setting) (props : AcceptProps N) where
  -- The dialog reports that the transaction failed.
  pub record ReportsFailure (after : List BatchCall) (r : Exit (Unit {0}) × Dialog N) : Type 0 where
    pub ended : r.0 ≡ done tt
    pub error_shown : r.1.error ≡ some failed
    pub step_left : r.1.step ≡ idle
    pub sent_then : r.1.sent ≡ after

  on_error-aggregate :
      (x y : JsError) (d : Dialog N)
      → includes env.aggregate_text "Timed out" ≡ false
      → includes env.aggregate_text "Lost connection" ≡ false
      → includes env.aggregate_text "collateral vault is not initialized" ≡ false
      → d.current ≡ executing
      → (on_error env props (aggregate x y) d).error ≡ some failed
  unfolding on_error
  on_error-aggregate x y d t l v c = rw (t, l, v, c)

  sale_covered :
      (buys : Bool) (short : Bool) → (buys ≡ false → short ≡ false) → (not buys && short) ≡ false
  sale_covered true short h = refl
  sale_covered false short h = h refl

  trade-thrown :
      (account : String) (after : List BatchCall) (e : JsError) (d : Dialog N)
      → Fired env props account d.sent after (rejected e)
      → trade env props account d
        ≡ (thrown e, record d { current = executing; step = executing; sent = after })
  unfolding trade
  trade-thrown account after e d f =
      let enough = sale_covered props.is_buy (ltb_ℤ f.okb_balance f.col.collateral) f.covered in
      rw
        (
          f.computed, f.balance_read, enough, f.encoded, f.allowance_read, f.collateral_read,
          f.approved, f.fired, trade,
        )
        refl

  handle_accept-recover :
      (account : String) (d : Dialog N)
      → Guarded env props account
      → handle_accept env props d
        ≡ recover
            (on_error env props)
            (trade env props account (record d { error = none; current = idle }))
  unfolding handle_accept start_trade
  handle_accept-recover account d g =
      rw (g.connected, g.valid, g.enough, g.within, g.account_known, handle_accept, start_trade)
        refl

  -- If the engine's message of an `AggregateError` has none of the phrases "Timed out", "Lost
  -- connection" and "collateral vault is not initialized", then a run of `handleAccept` that passes the
  -- guards and whose batch is fired and fails ends with the notice "Transaction failed" and an idle
  -- dialog, whatever the wallet and the poll have thrown and whatever part of the batch was sent.
  pub failed_batch_notice :
      (account : String) (after : List BatchCall) (e : JsError) (d : Dialog N)
      → includes env.aggregate_text "Timed out" ≡ false
      → includes env.aggregate_text "Lost connection" ≡ false
      → includes env.aggregate_text "collateral vault is not initialized" ≡ false
      → Guarded env props account
      → Fired env props account d.sent after (rejected e)
      → ReportsFailure after (handle_accept env props d)
  unfolding fire_batch on_error
  failed_batch_notice account after e d t l v g f =
      let (k, x, y, _, _, same) = (fire_and_poll-rejected_iff _ _ e).0 (ap (λ r. r.0) f.fired) in
      let begun : Dialog N = record d { error = none; current = idle } in
      let late : Dialog N = record begun { current = executing; step = executing; sent = after } in
      rw (handle_accept-recover account d g, trade-thrown account after e begun f)
        (record {
          ended = refl;
          error_shown = rw same (on_error-aggregate x y late t l v refl);
          step_left = refl;
          sent_then = refl;
        })
