-- ===== src/Range/Order.antt =====
-- The order of what the range dialog sends.
use b1nary_xlayer_hackathon.Prelude.{◌≡◌, ◌⊎◌, inl, inr, refl, String, Option, List, [], ◌∷◌, ◌++◌}
use b1nary_xlayer_hackathon.Prelude.Int.{ℤ}
use b1nary_xlayer_hackathon.Js.Error.{JsError, ok}
use b1nary_xlayer_hackathon.Js.Number.{JsNumber}
use b1nary_xlayer_hackathon.Api.{PriceQuote}
use b1nary_xlayer_hackathon.Flow.{Exit, done, thrown, waiting}
use b1nary_xlayer_hackathon.Flow.Rules.{try_rule, await_end}
use b1nary_xlayer_hackathon.Execution.Wallet.{BatchCall}
use b1nary_xlayer_hackathon.Execution.Race.{Settled, resolved, rejected, pending}
use b1nary_xlayer_hackathon.Execution.Order.{Collateral, encode_execute_order}
use b1nary_xlayer_hackathon.Execution.Chain.{fire_batch, approvals, plain_call}
use b1nary_xlayer_hackathon.Range.Handler.{RangeProps, Range, RangeSetting}
use b1nary_xlayer_hackathon.Range.Legs.{leg}

module _ {N : Type 0} ⦃js : JsNumber N⦄ (setting : RangeSetting N) (props : RangeProps N) where
  -- A leg that has been fired in a state where `before` had been sent: the approval, if the allowance
  -- is short, and the order. `settled` is what became of it, and `after` is all that was sent.
  pub record Leg (account : String) (quote : PriceQuote N) (col : Collateral)
      (before after : List BatchCall) (settled : Settled (Option String)) : Type 0 where
    pub allowance : ℤ
    pub balance : ℤ
    pub first : List BatchCall
    pub payload : String
    pub encoded :
        encode_execute_order setting.base.viem setting.base.at setting.base.lower quote
          col.otoken_amount col.collateral
        ≡ ok payload
    pub allowance_read :
        setting.base.chain.allowance before col.collateral_asset account setting.base.at.margin_pool
        ≡ ok allowance
    pub balance_read :
        setting.base.chain.balance_of before col.collateral_asset account ≡ ok balance
    pub approved :
        approvals setting.base.viem col.collateral_asset setting.base.at.margin_pool allowance
          col.collateral
        ≡ ok first
    pub fired :
        fire_batch setting.base.chain col.collateral_asset account balance
          (first ++ (plain_call setting.base.at.batch_settler payload ∷ []))
          before
        ≡ (settled, after)

  assemble :
      (account : String) (quote : PriceQuote N) (col : Collateral) (before : List BatchCall)
      (allowance balance : ℤ) (first : List BatchCall) (payload : String)
      (settled : Settled (Option String))
      → encode_execute_order setting.base.viem setting.base.at setting.base.lower quote
          col.otoken_amount col.collateral
        ≡ ok payload
      → setting.base.chain.allowance before col.collateral_asset account setting.base.at.margin_pool
        ≡ ok allowance
      → setting.base.chain.balance_of before col.collateral_asset account ≡ ok balance
      → approvals setting.base.viem col.collateral_asset setting.base.at.margin_pool allowance
          col.collateral
        ≡ ok first
      → let run =
          fire_batch setting.base.chain col.collateral_asset account balance
            (first ++ (plain_call setting.base.at.batch_settler payload ∷ []))
            before in
        run.0 ≡ settled → Leg account quote col before run.1 settled
  assemble account quote col before allowance balance first payload settled p a b f h = record {
    allowance = allowance;
    balance = balance;
    first = first;
    payload = payload;
    encoded = p;
    allowance_read = a;
    balance_read = b;
    approved = f;
    fired = λ i. (
      h i,
      (fire_batch setting.base.chain col.collateral_asset account balance
          (first ++ (plain_call setting.base.at.batch_settler payload ∷ [])) before).1,
    );
  }

  pub leg_end :
      (R : Exit (Option String) × Range N → Type 0) (account : String) (quote : PriceQuote N)
      (col : Collateral) (s : Range N)
      → ((hash : Option String) (after : List BatchCall)
          → Leg account quote col s.sent after (resolved hash)
          → R (done hash, record s { sent = after }))
      → ((e : JsError) (after : List BatchCall)
          → (after ≡ s.sent) ⊎ Leg account quote col s.sent after (rejected e)
          → R (thrown e, record s { sent = after }))
      → ((after : List BatchCall)
          → Leg account quote col s.sent after pending
          → R (waiting, record s { sent = after }))
      → R (leg setting props account quote col s)
  unfolding leg
  leg_end R account quote col s good bad never =
      try_rule R
        (encode_execute_order setting.base.viem setting.base.at setting.base.lower quote
          col.otoken_amount col.collateral)
        s _
        (λ payload p.
          try_rule R
            (setting.base.chain.allowance s.sent col.collateral_asset account
              setting.base.at.margin_pool)
            s _
            (λ allowance a.
              try_rule R (setting.base.chain.balance_of s.sent col.collateral_asset account) s _
                (λ balance b.
                  try_rule R
                    (approvals setting.base.viem col.collateral_asset setting.base.at.margin_pool
                      allowance col.collateral)
                    s _
                    (λ first f.
                      let calls =
                        first ++ (plain_call setting.base.at.batch_settler payload ∷ []) in
                      let run =
                        fire_batch setting.base.chain col.collateral_asset account balance calls
                          s.sent in
                      let gone = λ (r : Settled (Option String)) (h : run.0 ≡ r).
                        assemble account quote col s.sent allowance balance first payload r p a b f
                          h in
                      await_end R run.0 (record s { sent = run.1 })
                        (λ hash h. good hash run.1 (gone _ h)) (λ e h. bad e run.1 (inr (gone _ h)))
                        (λ h. never run.1 (gone _ h)))
                    (λ e _. bad e s.sent (inl refl)))
                (λ e _. bad e s.sent (inl refl)))
            (λ e _. bad e s.sent (inl refl)))
        (λ e _. bad e s.sent (inl refl))
