-- ===== src/Accept/Reports.antt =====
-- What the trade dialog reports of every end of its handler.
use b1nary_xlayer_hackathon.Prelude.{
  ◌≡◌, ◌⊎◌, if◌then◌else◌, String, true, false, Option, none, some,
}
use b1nary_xlayer_hackathon.Js.Error.{JsError, message}
use b1nary_xlayer_hackathon.Js.Text.{includes}
use b1nary_xlayer_hackathon.Js.Number.{JsNumber}
use b1nary_xlayer_hackathon.Flow.{Exit, done, returned, waiting}
use b1nary_xlayer_hackathon.Execution.Race.{resolved, rejected, pending}
use b1nary_xlayer_hackathon.Accept.Props.{AcceptProps, quote_is_valid, max_amount, min_amount}
use b1nary_xlayer_hackathon.Accept.Handler.{
  Dialog, Setting, Notice, TxStep, executing, confirmed, idle, usdc, okb, amount, failed,
  unreadable, not_available, below_minimum, above_maximum, because,
}
use b1nary_xlayer_hackathon.Accept.Outcomes.{Fired, Uncovered, Breaks}

module _ {N : Type 0} ⦃js : JsNumber N⦄ (env : Setting) (props : AcceptProps N) where
  open js use {lt}

  -- All that `handleAccept` asks for before it reads the chain.
  pub record Guarded (account : String) : Type 0 where
    pub connected : env.connected ≡ true
    pub valid : quote_is_valid props.quote ≡ true
    pub enough : lt (amount env props) (min_amount env.lower props) ≡ false
    pub within : lt (max_amount props) (amount env props) ≡ false
    pub account_known : env.address ≡ some account

  -- Why the handler declines, and what the user is shown then.
  pub data Declines (d d' : Dialog N) : Type 0 where
    no_wallet :
        (env.connected ≡ false) ⊎ (env.address ≡ none)
        → d'.show_deposit ≡ true
        → d'.deposit_token ≡ (if props.is_buy then usdc else okb)
        → Declines d d'
    invalid :
        env.connected ≡ true
        → quote_is_valid props.quote ≡ false
        → d'.error ≡ some not_available
        → Declines d d'
    too_small :
        env.connected ≡ true
        → quote_is_valid props.quote ≡ true
        → lt (amount env props) (min_amount env.lower props) ≡ true
        → d'.error ≡ some below_minimum
        → Declines d d'
    too_large :
        env.connected ≡ true
        → quote_is_valid props.quote ≡ true
        → lt (amount env props) (min_amount env.lower props) ≡ false
        → lt (max_amount props) (amount env props) ≡ true
        → d'.error ≡ some above_maximum
        → Declines d d'
    uncovered :
        (account : String)
        → Guarded account
        → Uncovered env props account d.sent
        → d'.show_deposit ≡ true
        → d'.deposit_token ≡ okb
        → Declines d d'

  -- The message of the exception has one of the three phrases that the dialog shows as they are.
  abbrev pub Telling : String → Type 0
  Telling msg =
      (includes msg "Timed out" ≡ true)
      ⊎ ((includes msg "Lost connection" ≡ true)
          ⊎ (includes msg "collateral vault is not initialized" ≡ true))

  -- The notice that belongs to an exception: its message, if it is telling; otherwise that the data
  -- could not be read, if the order had not begun, or that the transaction failed, if it had.
  pub data Explains (e : JsError) : TxStep → Option Notice → Type 0 where
    by_message :
        (begun : TxStep)
        → Telling (message env.aggregate_text e)
        → Explains e begun (some (because (message env.aggregate_text e)))
    not_read : ¬ Telling (message env.aggregate_text e) → Explains e idle (some unreadable)
    not_done : ¬ Telling (message env.aggregate_text e) → Explains e executing (some failed)

  -- The ends of `handleAccept`: it declines; something throws before the batch is fired; the batch was
  -- fired and failed; it was fired and its promise never settles; it was fired and succeeded. Only in
  -- the last three anything may have been sent.
  pub data AcceptEnd (d : Dialog N) : Exit (Unit {0}) × Dialog N → Type 0 where
    declined :
        (d' : Dialog N)
        → d'.sent ≡ d.sent
        → d'.step ≡ d.step
        → Declines d d'
        → AcceptEnd d (returned, d')
    broken :
        (account : String) (e : JsError) (begun : TxStep) (d' : Dialog N)
        → Guarded account
        → Breaks env props account d.sent e begun
        → Explains e begun d'.error
        → d'.sent ≡ d.sent
        → d'.step ≡ idle
        → AcceptEnd d (done tt, d')
    failed_batch :
        (account : String) (e : JsError) (d' : Dialog N)
        → Guarded account
        → Fired env props account d.sent d'.sent (rejected e)
        → Explains e executing d'.error
        → d'.step ≡ idle
        → AcceptEnd d (done tt, d')
    hanging :
        (account : String) (d' : Dialog N)
        → Guarded account
        → Fired env props account d.sent d'.sent pending
        → d'.step ≡ executing
        → AcceptEnd d (waiting, d')
    sold :
        (account : String) (hash : Option String) (d' : Dialog N)
        → Guarded account
        → Fired env props account d.sent d'.sent (resolved hash)
        → d'.step ≡ confirmed
        → d'.accepted ≡ some (amount env props, hash)
        → AcceptEnd d (done tt, d')
