-- ===== src/Accept/Ends.antt =====
-- Every end that `handleAccept` can come to.
use b1nary_xlayer_hackathon.Prelude.{
  ◌≡◌, ◌⊎◌, Bool-cases, ◌∙◌, inl, inr, refl, String, true, false, not, Option, none, some, List,
  arith,
}
use b1nary_xlayer_hackathon.Js.Error.{JsError, message}
use b1nary_xlayer_hackathon.Js.Text.{includes}
use b1nary_xlayer_hackathon.Js.Number.{JsNumber}
use b1nary_xlayer_hackathon.Flow.{Exit, recover}
use b1nary_xlayer_hackathon.Flow.Rules.{leave_if_rule}
use b1nary_xlayer_hackathon.Execution.Wallet.{BatchCall}
use b1nary_xlayer_hackathon.Accept.Props.{AcceptProps, quote_is_valid, max_amount, min_amount}
use b1nary_xlayer_hackathon.Accept.Handler.{
  Dialog, Setting, TxStep, executing, idle, amount, start_trade, handle_accept, on_error,
}
use b1nary_xlayer_hackathon.Accept.Outcomes.{
  Breaks, not_computed, balance_unread, not_encoded, allowance_unread, collateral_unread,
  not_approved, TradeEnd, asked, unread, refused, hung, traded,
}
use b1nary_xlayer_hackathon.Accept.Sends.{trade-TradeEnd}
use b1nary_xlayer_hackathon.Accept.Reports.{
  Guarded, no_wallet, invalid, too_small, too_large, uncovered, Telling, Explains, by_message,
  not_read, not_done, AcceptEnd, declined, broken, failed_batch, hanging, sold,
}

module _ {N : Type 0} ⦃js : JsNumber N⦄ (env : Setting) (props : AcceptProps N) where
  open js use {lt}

  -- The three tests of the message.
  untold :
      (msg : String)
      → includes msg "Timed out" ≡ false
      → includes msg "Lost connection" ≡ false
      → includes msg "collateral vault is not initialized" ≡ false
      → ¬ Telling env props msg
  untold msg a b c (inl h) = cc
  untold msg a b c (inr (inl h)) = cc
  untold msg a b c (inr (inr h)) = cc

  on_error-Explains :
      (e : JsError) (begun : TxStep) (d : Dialog N)
      → d.current ≡ begun
      → (begun ≡ idle) ⊎ (begun ≡ executing)
      → Explains env props e begun (on_error env props e d).error
  unfolding on_error
  on_error-Explains e begun d c which =
      let msg = message env.aggregate_text e in
      elim (Bool-cases (includes msg "Timed out")) [
        | inl t ↦ rw (t, on_error) (by_message begun (inl t))
        | inr t ↦ elim (Bool-cases (includes msg "Lost connection")) [
          | inl l ↦ rw (t, l, on_error) (by_message begun (inr (inl l)))
          | inr l ↦ elim (Bool-cases (includes msg "collateral vault is not initialized")) [
            | inl v ↦ rw (t, l, v, on_error) (by_message begun (inr (inr v)))
            | inr v ↦ elim which [
              | inl i ↦ rw (t, l, v, c, i, on_error) (not_read (untold msg t l v))
              | inr x ↦ rw (t, l, v, c, x, on_error) (not_done (untold msg t l v))
            ]
          ]
        ]
      ]

  begun_early :
      (account : String) (before : List BatchCall) (e : JsError) (begun : TxStep)
      → Breaks env props account before e begun
      → (begun ≡ idle) ⊎ (begun ≡ executing)
  begun_early account before e begun (not_computed x) = inl refl
  begun_early account before e begun (balance_unread x) = inl refl
  begun_early account before e begun (not_encoded col c x) = inl refl
  begun_early account before e begun (allowance_unread col c x) = inl refl
  begun_early account before e begun (collateral_unread col c x) = inr refl
  begun_early account before e begun (not_approved col allowance c a x) = inr refl

  on_error-fields :
      (e : JsError) (d : Dialog N)
      → let d' = on_error env props e d in (d'.sent ≡ d.sent) × (d'.step ≡ idle)
  unfolding on_error
  on_error-fields e d = (refl, refl)

  -- What the dialog looks like when the `try` block begins.
  abbrev opened : Dialog N → Dialog N
  opened d = record d { error = none; current = idle }

  recovered :
      (account : String) (d : Dialog N) (r : Exit (Unit {0}) × Dialog N)
      → Guarded env props account
      → TradeEnd env props account (opened d) r
      → AcceptEnd env props d (recover (on_error env props) r)
  recovered account d r g (asked d' s t h k u) = declined d' s t (uncovered account g u h k)
  recovered account d r g (unread e d' s why) =
      let (same, step) = on_error-fields e d' in
      broken account e d'.current (on_error env props e d') g why
        (on_error-Explains e d'.current d' refl (begun_early account d.sent e d'.current why))
        (same ∙ s) step
  recovered account d r g (refused e d' f c) =
      let (same, step) = on_error-fields e d' in
      failed_batch account e (on_error env props e d') g (rw same f)
        (on_error-Explains e executing d' c (inr refl)) step
  recovered account d r g (hung d' f s) = hanging account d' g f s
  recovered account d r g (traded hash d' f s a) = sold account hash d' g f s a

  started :
      (address : Option String) (d : Dialog N)
      → env.address ≡ address
      → env.connected ≡ true
      → quote_is_valid props.quote ≡ true
      → lt (amount env props) (min_amount env.lower props) ≡ false
      → lt (max_amount props) (amount env props) ≡ false
      → AcceptEnd env props d
          (recover (on_error env props) (start_trade env props address (opened d)))
  unfolding start_trade
  started none d e c v lo hi = declined _ refl refl (no_wallet (inr e) refl refl)
  started (some account) d e c v lo hi =
      let guarded : Guarded env props account = record {
        connected = c;
        valid = v;
        enough = lo;
        within = hi;
        account_known = e;
      } in
      recovered account d _ guarded (trade-TradeEnd env props account (opened d) refl)

  -- `handleAccept` comes to one of these ends from every state of the dialog and whatever the chain
  -- and the wallet answer, and it never throws. It declines with the deposit dialog or the notice that
  -- belongs to the reason, and has sent nothing; a computation or a read of the chain throws behind the
  -- guards and before the batch is fired, or the fired batch fails, and the dialog is idle again with
  -- the message of the exception, if that has one of the three phrases, and otherwise with "Could not
  -- read on-chain data" before the order has begun and "Transaction failed" from then on; the batch is
  -- fired and never settles, and the dialog stays executing; or it succeeds, and the dialog is
  -- confirmed with the amount and the hash.
  pub handle_accept-AcceptEnd : (d : Dialog N) → AcceptEnd env props d (handle_accept env props d)
  unfolding handle_accept
  handle_accept-AcceptEnd d =
      let R = AcceptEnd env props d in
      leave_if_rule R (not env.connected) _ d _
        (λ c. declined _ refl refl (no_wallet (inl (ground arith)) refl refl))
        (λ c'.
          let c : env.connected ≡ true = ground arith in
          leave_if_rule R (not (quote_is_valid props.quote)) _ d _
            (λ v. declined _ refl refl (invalid c (ground arith) refl))
            (λ v'.
              let v : quote_is_valid props.quote ≡ true = ground arith in
              leave_if_rule R (lt (amount env props) (min_amount env.lower props)) _ d _
                (λ lo. declined _ refl refl (too_small c v lo refl))
                (λ lo.
                  leave_if_rule R (lt (max_amount props) (amount env props)) _ d _
                    (λ hi. declined _ refl refl (too_large c v lo hi refl))
                    (λ hi. started env.address d refl c v lo hi))))
