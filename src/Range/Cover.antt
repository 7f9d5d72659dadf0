-- ===== src/Range/Cover.antt =====
-- What the range dialog asks of the balances before its legs, and the swap.
use b1nary_xlayer_hackathon.Prelude.{
  ◌≡◌, inr, refl, String, Bool, true, false, Option, none, some, List, [], ◌∷◌, ◌++◌,
}
use b1nary_xlayer_hackathon.Prelude.Int.{ℤ, pos, ltb_ℤ, ◌+ℤ◌, ◌-ℤ◌}
use b1nary_xlayer_hackathon.Js.Error.{JsError, ok}
use b1nary_xlayer_hackathon.Js.Number.{JsNumber}
use b1nary_xlayer_hackathon.Assets.{get_asset_config}
use b1nary_xlayer_hackathon.Flow.{Exit, done, returned, thrown, waiting}
use b1nary_xlayer_hackathon.Flow.Rules.{try_rule, leave_if_rule, leave_if_end}
use b1nary_xlayer_hackathon.Execution.Wallet.{BatchCall}
use b1nary_xlayer_hackathon.Execution.Order.{Collateral}
use b1nary_xlayer_hackathon.Execution.Chain.{approvals, plain_call}
use b1nary_xlayer_hackathon.Accept.Handler.{DepositToken}
use b1nary_xlayer_hackathon.Range.Handler.{
  RangeStep, swapping, RangeProps, Range, RangeSetting, update_step, fee_of, swap, cover_by, cover,
}
use b1nary_xlayer_hackathon.Range.Prepare.{Early, send_swap_rule}
use b1nary_xlayer_hackathon.Range.Breaks.{
  CoverFails, usdc_unread, token_unread, native_unread, not_priced, allowance_unread, not_approved,
  no_fee, not_encoded, swap_failed,
}
use b1nary_xlayer_hackathon.Range.Funds.{
  Swap, Lacks, no_usdc, no_router, no_usdc_to_swap, Read, Covered, enough, swapped, swap_price,
}

module _ {N : Type 0} ⦃js : JsNumber N⦄ (setting : RangeSetting N) (props : RangeProps N) where
  open js use {to_big}

  -- The user is asked for a deposit of the token, and nothing has been sent behind the state `s`.
  abbrev pub Asked : DepositToken → Range N → Range N → Type 0
  Asked token s d =
      (d.sent ≡ s.sent) × (d.step ≡ s.step) × (d.show_deposit ≡ true) × (d.deposit_token ≡ token)

  module _ (from : RangeStep) (R : Exit (Unit {0}) × Range N → Type 0)
      (hangs : (d : Range N) → Early setting props from d → R (waiting, d)) where
    module _ (s : Range N) (account : String) (put_col call_col : Collateral)
        (asked : (token : DepositToken) (d : Range N)
          → Lacks setting props account put_col call_col s.sent token
          → Asked token s d
          → R (returned, d))
        (ready : (d : Range N)
          → Early setting props from d
          → Covered setting props account put_col call_col s.sent d
          → R (done tt, d))
        (broke : (e : JsError) (d : Range N)
          → Early setting props from d
          → CoverFails setting props account put_col call_col s.sent e d.sent
          → R (thrown e, d))
        (h : Early setting props from s) where
      the_swap :
          (read : Read setting props account call_col s.sent) (router : String)
          (amount allowance : ℤ) (first : List BatchCall) (fee : ℤ) (payload : String)
          → setting.base.at.swap_router ≡ some router
          → ltb_ℤ (read.token_bal +ℤ read.native_bal) call_col.collateral ≡ true
          → swap_price setting props (call_col.collateral -ℤ (read.token_bal +ℤ read.native_bal))
            ≡ ok amount
          → ltb_ℤ read.usdc_bal (put_col.collateral +ℤ amount) ≡ false
          → setting.base.chain.allowance s.sent setting.base.at.usdc account router ≡ ok allowance
          → approvals setting.base.viem setting.base.at.usdc router allowance amount ≡ ok first
          → setting.base.viem.encode_exact_output setting.base.at.usdc call_col.collateral_asset fee
              account
              (call_col.collateral -ℤ (read.token_bal +ℤ read.native_bal))
              amount
              (pos 0)
            ≡ ok payload
          → Swap setting props account put_col call_col s.sent read
      the_swap read router amount allowance first fee payload routed short priced affordable a f p =
          record {
            router = router;
            amount = amount;
            allowance = allowance;
            first = first;
            fee = fee;
            payload = payload;
            routed = routed;
            short = short;
            priced = priced;
            affordable = affordable;
            allowance_read = a;
            approved = f;
            encoded = p;
          }

      swap_rule :
          (router : String) (read : Read setting props account call_col s.sent)
          → setting.base.at.swap_router ≡ some router
          → ltb_ℤ (read.token_bal +ℤ read.native_bal) call_col.collateral ≡ true
          → R (
              swap setting props account router read.usdc_bal
                (call_col.collateral -ℤ (read.token_bal +ℤ read.native_bal))
                put_col
                call_col
                s)
      unfolding swap the_swap
      swap_rule router read routed short =
          let shortfall = call_col.collateral -ℤ (read.token_bal +ℤ read.native_bal) in
          let s1 = update_step setting props swapping s in
          let stop =
            λ (e : JsError)
                (why : CoverFails setting props account put_col call_col s.sent e s.sent).
              broke e s1 (inr (refl, refl)) why in
          try_rule R (swap_price setting props shortfall) s _
            (λ amount priced.
              leave_if_rule R (ltb_ℤ read.usdc_bal (put_col.collateral +ℤ amount)) _ s _
                (λ dear.
                  asked _ _ (no_usdc_to_swap read router amount short routed priced dear)
                    (refl, refl, refl, refl))
                (λ affordable.
                  try_rule R
                    (setting.base.chain.allowance s.sent setting.base.at.usdc account router) s1 _
                    (λ allowance a.
                      try_rule R
                        (approvals setting.base.viem setting.base.at.usdc router allowance amount)
                        s1 _
                        (λ first f.
                          try_rule R
                            (to_big (
                              fee_of setting props
                                (get_asset_config setting.base.lower props.asset_slug)))
                            s1 _
                            (λ fee _.
                              try_rule R
                                (setting.base.viem.encode_exact_output setting.base.at.usdc
                                  call_col.collateral_asset fee account shortfall amount (pos 0))
                                s1 _
                                (λ payload p.
                                  send_swap_rule setting props from R hangs
                                    (first ++ (plain_call router payload ∷ [])) s1
                                    (λ d early mined did. ready d early (
                                      swapped read
                                        (the_swap read router amount allowance first fee payload
                                          routed short priced affordable a f p)
                                        mined did))
                                    (λ e d early x. broke e d early (
                                      swap_failed read
                                        (the_swap read router amount allowance first fee payload
                                          routed short priced affordable a f p)
                                        d.sent x))
                                    (inr (refl, refl)))
                                (λ e x. stop e (not_encoded read fee amount x)))
                            (λ e x. stop e (no_fee x)))
                        (λ e x. stop e (not_approved router allowance amount routed a x)))
                    (λ e x. stop e (allowance_unread router routed x))))
            (λ e x. broke e s h (not_priced read short x))

      cover_by_rule :
          (router : Option String) (short : Bool)
          (read : Read setting props account call_col s.sent)
          → setting.base.at.swap_router ≡ router
          → ltb_ℤ (read.token_bal +ℤ read.native_bal) call_col.collateral ≡ short
          → R (
              cover_by setting props router short account read.usdc_bal
                (read.token_bal +ℤ read.native_bal)
                put_col
                call_col
                s)
      unfolding cover_by
      cover_by_rule router false read e short =
          leave_if_end R (ltb_ℤ read.usdc_bal put_col.collateral) _ s
            (λ poor. asked _ _ (no_usdc read short poor) (refl, refl, refl, refl))
            (λ funded. ready s h (enough read short funded refl))
      cover_by_rule none true read e short =
          asked _ _ (no_router read short e) (refl, refl, refl, refl)
      cover_by_rule (some router) true read e short = swap_rule router read e short

      pub cover_rule : R (cover setting props account put_col call_col s)
      unfolding cover
      cover_rule =
          try_rule R (setting.base.chain.balance_of s.sent setting.base.at.usdc account) s _
            (λ usdc_bal u.
              try_rule R (setting.base.chain.balance_of s.sent call_col.collateral_asset account) s
                _
                (λ token_bal t.
                  try_rule R (setting.base.chain.native_balance s.sent account) s _
                    (λ native_bal n.
                      cover_by_rule setting.base.at.swap_router
                        (ltb_ℤ (token_bal +ℤ native_bal) call_col.collateral)
                        (record {
                          usdc_bal = usdc_bal;
                          token_bal = token_bal;
                          native_bal = native_bal;
                          usdc_read = u;
                          token_read = t;
                          native_read = n;
                        })
                        refl refl)
                    (λ e x. broke e s h (native_unread x)))
                (λ e x. broke e s h (token_unread x)))
            (λ e x. broke e s h (usdc_unread x))
