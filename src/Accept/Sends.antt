-- ===== src/Accept/Sends.antt =====
-- What the dialog sends, and when.
use b1nary_xlayer_hackathon.Prelude.{
  ◌≡◌, inl, inr, refl, sym, subst, String, Bool, true, false, not, ◌&&◌, Option, none, some, List,
  [], ◌∷◌, ◌++◌, Bool-cases,
}
use b1nary_xlayer_hackathon.Prelude.Int.{ℤ, ltb_ℤ}
use b1nary_xlayer_hackathon.Js.Error.{JsError, ok}
use b1nary_xlayer_hackathon.Js.Number.{JsNumber}
use b1nary_xlayer_hackathon.Flow.{Exit, done, thrown}
use b1nary_xlayer_hackathon.Flow.Rules.{try_rule, await_rule, leave_if_rule}
use b1nary_xlayer_hackathon.Execution.Wallet.{BatchCall}
use b1nary_xlayer_hackathon.Execution.Race.{Settled, resolved}
use b1nary_xlayer_hackathon.Execution.Order.{
  Collateral, okb_token, compute_collateral, encode_execute_order,
}
use b1nary_xlayer_hackathon.Execution.Chain.{fire_batch, approvals, plain_call}
use b1nary_xlayer_hackathon.Accept.Props.{AcceptProps}
use b1nary_xlayer_hackathon.Accept.Handler.{
  Dialog, Setting, idle, executing, confirmed, amount, trade, finish,
}
use b1nary_xlayer_hackathon.Accept.Outcomes.{
  Fired, Uncovered, Breaks, not_computed, balance_unread, not_encoded, allowance_unread,
  collateral_unread, not_approved, TradeEnd, asked, unread, refused, hung, traded,
}

module _ {N : Type 0} ⦃js : JsNumber N⦄ (env : Setting) (props : AcceptProps N) where
  open js use {lt}

  finish-fields :
      (account : String) (hash : Option String) (d : Dialog N)
      → let r = finish env props account hash d in
        (r.0 ≡ done tt)
        × (r.1.sent ≡ d.sent)
        × (r.1.step ≡ confirmed)
        × (r.1.accepted ≡ some (amount env props, hash))
  unfolding finish
  finish-fields account none d = elim (Bool-cases env.can_store) [
    | inl e ↦ rw e (refl, refl, refl, refl)
    | inr e ↦ rw e (refl, refl, refl, refl)
  ]
  finish-fields account (some hash) d = elim (Bool-cases env.can_store) [
    | inl e ↦ rw e (refl, refl, refl, refl)
    | inr e ↦ rw e (refl, refl, refl, refl)
  ]

  fired_with :
      (account : String) (d : Dialog N) (col : Collateral) (okb_bal allowance balance : ℤ)
      (first : List BatchCall) (payload : String) (settled : Settled (Option String))
      → compute_collateral env.viem env.at env.lower props.is_buy
          (amount env props)
          props.quote.strike
          props.asset_slug
        ≡ ok col
      → env.chain.balance_of d.sent (okb_token env.at) account ≡ ok okb_bal
      → (not props.is_buy && ltb_ℤ okb_bal col.collateral) ≡ false
      → env.chain.allowance d.sent col.collateral_asset account env.at.margin_pool ≡ ok allowance
      → env.chain.balance_of d.sent col.collateral_asset account ≡ ok balance
      → approvals env.viem col.collateral_asset env.at.margin_pool allowance col.collateral
        ≡ ok first
      → encode_execute_order env.viem env.at env.lower props.quote col.otoken_amount col.collateral
        ≡ ok payload
      → let run =
          fire_batch env.chain col.collateral_asset account balance
            (first ++ (plain_call env.at.batch_settler payload ∷ []))
            d.sent in
        run.0 ≡ settled → Fired env props account d.sent run.1 settled
  fired_with account d col okb_bal allowance balance first payload settled c b enough a r f p h =
      record {
        col = col;
        okb_balance = okb_bal;
        allowance = allowance;
        balance = balance;
        first = first;
        payload = payload;
        computed = c;
        balance_read = b;
        covered = λ sale. rw sale at enough;
        allowance_read = a;
        collateral_read = r;
        approved = f;
        encoded = p;
        fired = λ i. (
          h i,
          (fire_batch env.chain col.collateral_asset account balance
              (first ++ (plain_call env.at.batch_settler payload ∷ [])) d.sent).1,
        );
      }

  sale_short : (b c : Bool) → (not b && c) ≡ true → (b ≡ false) × (c ≡ true)
  sale_short true c h = cc
  sale_short false c h = (refl, h)

  uncovered :
      (account : String) (before : List BatchCall) (col : Collateral) (okb_bal : ℤ)
      → compute_collateral env.viem env.at env.lower props.is_buy
          (amount env props)
          props.quote.strike
          props.asset_slug
        ≡ ok col
      → env.chain.balance_of before (okb_token env.at) account ≡ ok okb_bal
      → (not props.is_buy && ltb_ℤ okb_bal col.collateral) ≡ true
      → Uncovered env props account before
  uncovered account before col okb_bal c b poor =
      let (sale, short) = sale_short _ _ poor in
      record {
        col = col;
        okb_balance = okb_bal;
        sale = sale;
        computed = c;
        balance_read = b;
        short = short;
      }

  traded_as :
      (account : String) (d d' : Dialog N) (hash : Option String) (x : Exit (Unit {0}))
      → Fired env props account d.sent d'.sent (resolved hash)
      → d'.step ≡ confirmed
      → d'.accepted ≡ some (amount env props, hash)
      → x ≡ done tt
      → TradeEnd env props account d (x, d')
  traded_as account d d' hash x f s a e = rw e (traded hash d' f s a)

  finished :
      (account : String) (d : Dialog N) (hash : Option String) (d' : Dialog N)
      → Fired env props account d.sent d'.sent (resolved hash)
      → TradeEnd env props account d (finish env props account hash d')
  finished account d hash d' f =
      let (x, sent, step, accepted) = finish-fields account hash d' in
      let f' : Fired env props account d.sent (finish env props account hash d').1.sent
          (resolved hash) =
        rw sent f in
      traded_as account d (finish env props account hash d').1 hash _ f' step accepted x

  at_start :
      (account : String) (d : Dialog N) (e : JsError)
      → d.current ≡ idle
      → Breaks env props account d.sent e idle
      → TradeEnd env props account d (thrown e, d)
  at_start account d e i why =
      unread e d refl (subst (Breaks env props account d.sent e) (sym i) why)

  pub trade-TradeEnd :
      (account : String) (d : Dialog N)
      → d.current ≡ idle
      → TradeEnd env props account d (trade env props account d)
  unfolding trade
  trade-TradeEnd account d i =
      let R = TradeEnd env props account d in
      try_rule R
        (compute_collateral env.viem env.at env.lower props.is_buy (amount env props)
          props.quote.strike props.asset_slug)
        d _
        (λ col c.
          try_rule R (env.chain.balance_of d.sent (okb_token env.at) account) d _
            (λ okb_bal b.
              leave_if_rule R (not props.is_buy && ltb_ℤ okb_bal col.collateral) _ d _
                (λ poor.
                  asked _ refl refl refl refl (uncovered account d.sent col okb_bal c b poor))
                (λ enough.
                  try_rule R
                    (encode_execute_order env.viem env.at env.lower props.quote col.otoken_amount
                      col.collateral)
                    d _
                    (λ payload p.
                      try_rule R
                        (env.chain.allowance d.sent col.collateral_asset account env.at.margin_pool)
                        d _
                        (λ allowance a.
                          try_rule R (env.chain.balance_of d.sent col.collateral_asset account)
                            (record d { current = executing; step = executing }) _
                            (λ balance r.
                              try_rule R
                                (approvals env.viem col.collateral_asset env.at.margin_pool
                                  allowance col.collateral)
                                (record d { current = executing; step = executing }) _
                                (λ first f.
                                  let calls =
                                    first ++ (plain_call env.at.batch_settler payload ∷ []) in
                                  let run =
                                    fire_batch env.chain col.collateral_asset account balance calls
                                      d.sent in
                                  let gone = λ (s : Settled (Option String)) (h : run.0 ≡ s).
                                    fired_with account d col okb_bal allowance balance first payload
                                      s c b enough a r f p h in
                                  await_rule R run.0
                                    (record d {
                                      current = executing;
                                      step = executing;
                                      sent = run.1;
                                    })
                                    _
                                    (λ hash h.
                                      finished account d hash
                                        (record d {
                                          current = executing;
                                          step = executing;
                                          sent = run.1;
                                        })
                                        (gone _ h))
                                    (λ e h. refused e _ (gone _ h) refl)
                                    (λ h. hung _ (gone _ h) refl))
                                (λ e x. unread e _ refl (not_approved col allowance c a x)))
                            (λ e x. unread e _ refl (collateral_unread col c x)))
                        (λ e x. at_start account d e i (allowance_unread col c x)))
                    (λ e x. at_start account d e i (not_encoded col c x))))
            (λ e x. at_start account d e i (balance_unread x)))
        (λ e x. at_start account d e i (not_computed x))
