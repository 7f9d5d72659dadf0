-- ===== src/Range/Prepare.antt =====
-- What the range dialog does before its legs: the swap, and the wrapping of the native balance.
use b1nary_xlayer_hackathon.Prelude.{◌≡◌, ◌⊎◌, refl, String, true, some, List, [], ◌∷◌}
use b1nary_xlayer_hackathon.Prelude.Int.{ℤ, ltb_ℤ, ◌-ℤ◌}
use b1nary_xlayer_hackathon.Js.Error.{JsError, ok}
use b1nary_xlayer_hackathon.Js.Number.{JsNumber}
use b1nary_xlayer_hackathon.Flow.{Exit, done, thrown, waiting}
use b1nary_xlayer_hackathon.Flow.Rules.{try_rule, settling_rule, try_end, when_end}
use b1nary_xlayer_hackathon.Execution.Wallet.{BatchCall, send_batch_tx}
use b1nary_xlayer_hackathon.Execution.Order.{Collateral}
use b1nary_xlayer_hackathon.Range.Handler.{
  RangeStep, idle, swapping, RangeProps, Range, RangeSetting, wrap, top_up, send_swap,
}
use b1nary_xlayer_hackathon.Range.Breaks.{
  Unmined, refused, no_receipt, TopUpFails, unread, no_payload, wrap_failed,
}
use b1nary_xlayer_hackathon.Range.Funds.{Mined, ToppedUp, held, wrapped}

module _ {N : Type 0} ⦃js : JsNumber N⦄ (setting : RangeSetting N) (props : RangeProps N) where
  open js use {num, dec, mul, div, pow10, ceil, to_big, of_big}

  -- A state in which no leg has begun, of a handler that was started at the step `from`: the dialog
  -- is still at it, or it is swapping.
  abbrev pub Early : RangeStep → Range N → Type 0
  Early from d = ((d.last ≡ idle) × (d.step ≡ from)) ⊎ ((d.last ≡ swapping) × (d.step ≡ swapping))

  module _ (from : RangeStep) (R : Exit (Unit {0}) × Range N → Type 0)
      (hangs : (d : Range N) → Early from d → R (waiting, d)) where
    wrap_rule :
        (account : String) (call_col : Collateral) (bal : ℤ) (s : Range N)
        → ((d : Range N)
            → Early from d
            → ToppedUp setting props account call_col s.sent d
            → R (done tt, d))
        → ((e : JsError) (d : Range N)
            → Early from d
            → TopUpFails setting props account call_col s.sent e d.sent
            → R (thrown e, d))
        → Early from s
        → setting.base.chain.balance_of s.sent call_col.collateral_asset account ≡ ok bal
        → ltb_ℤ bal call_col.collateral ≡ true
        → R (wrap setting props (call_col.collateral -ℤ bal) s)
    unfolding wrap
    wrap_rule account call_col bal s ready broke h read short =
        try_rule R setting.base.viem.encode_deposit s _
          (λ payload p.
            let run = send_batch_tx setting.base.chain.wallet s.sent (
              record {
                to = setting.base.at.weth;
                payload = payload;
                value = some (call_col.collateral -ℤ bal);
              }
              ∷ []) in
            settling_rule R (setting.base.chain.settles run.1) run.0 (record s { sent = run.1 }) _
              (λ hash gone.
                try_end R (setting.base.chain.receipt run.1 hash) (record s { sent = run.1 })
                  (λ _ came.
                    ready (record s { sent = run.1 }) h
                      (wrapped bal payload read short p
                        (record { hash = hash; gone = λ i. (gone i, run.1); came = came })))
                  (λ e x.
                    broke e (record s { sent = run.1 }) h
                      (wrap_failed bal payload run.1 read short p
                        (no_receipt hash (λ i. (gone i, run.1)) x))))
              (λ e x.
                broke e (record s { sent = run.1 }) h
                  (wrap_failed bal payload run.1 read short p (refused (λ i. (x i, run.1)))))
              (λ _. hangs (record s { sent = run.1 }) h))
          (λ e x. broke e s h (no_payload x))

    pub top_up_rule :
        (account : String) (call_col : Collateral) (s : Range N)
        → ((d : Range N)
            → Early from d
            → ToppedUp setting props account call_col s.sent d
            → R (done tt, d))
        → ((e : JsError) (d : Range N)
            → Early from d
            → TopUpFails setting props account call_col s.sent e d.sent
            → R (thrown e, d))
        → Early from s
        → R (top_up setting props account call_col s)
    unfolding top_up
    top_up_rule account call_col s ready broke h =
        try_rule R (setting.base.chain.balance_of s.sent call_col.collateral_asset account) s _
          (λ bal read.
            when_end R (ltb_ℤ bal call_col.collateral)
              (wrap setting props (call_col.collateral -ℤ bal)) s
              (λ short. wrap_rule account call_col bal s ready broke h read short)
              (λ held_all. ready s h (held bal read held_all refl)))
          (λ e x. broke e s h (unread x))

    pub send_swap_rule :
        (calls : List BatchCall) (s : Range N)
        → ((d : Range N)
            → Early from d
            → Mined setting props calls s.sent d.sent
            → d.did_swap ≡ true
            → R (done tt, d))
        → ((e : JsError) (d : Range N)
            → Early from d
            → Unmined setting props calls s.sent e d.sent
            → R (thrown e, d))
        → Early from s
        → R (send_swap setting props calls s)
    unfolding send_swap
    send_swap_rule calls s ready broke h =
        let run = send_batch_tx setting.base.chain.wallet s.sent calls in
        settling_rule R (setting.base.chain.settles run.1) run.0 (record s { sent = run.1 }) _
          (λ hash gone.
            try_rule R (setting.base.chain.receipt run.1 hash) (record s { sent = run.1 }) _
              (λ _ came.
                ready (record s { sent = run.1; did_swap = true }) h
                  (record { hash = hash; gone = λ i. (gone i, run.1); came = came }) refl)
              (λ e x.
                broke e (record s { sent = run.1 }) h (no_receipt hash (λ i. (gone i, run.1)) x)))
          (λ e x. broke e (record s { sent = run.1 }) h (refused (λ i. (x i, run.1))))
          (λ _. hangs (record s { sent = run.1 }) h)
