-- ===== src/Banner.antt =====
-- frontend/src/components/NotificationBanner.tsx: the reminders by email, as a state machine.
pub mod Confirmed
use text.Mathlib.Text.{◌==◌ as str_eq}
use b1nary_xlayer_hackathon.Prelude.{
  String, Bool, true, false, not, ◌&&◌, ◌||◌, Option, none, some, List, [], ◌∷◌, if◌then◌else◌,
}
use b1nary_xlayer_hackathon.Js.Error.{Try, ok, throws, JsError, message}
use b1nary_xlayer_hackathon.Feeds.Notices.{NoticeStatus}

-- `BannerState`
pub data View : Type 0 where
  idle email_form code_verify verified manage_open : View

pub record Banner : Type 0 where
  pub view : View
  pub initialized : Bool
  pub email : String
  pub code : String
  pub submitting : Bool
  pub error_msg : Option String

-- News of the status hook, clicks, texts that are typed, and answers of the backend. An answer may come
-- at any time, also behind clicks that have left the view it was asked for in.
pub data BannerEvent : Type 0 where
  learned : NoticeStatus → BannerEvent
  set_up : String → BannerEvent
  cancel_form : NoticeStatus → BannerEvent
  typed_email : String → BannerEvent
  send_code : BannerEvent
  code_sent : Try Unit → BannerEvent
  typed_code : String → BannerEvent
  cancel_code : BannerEvent
  verify : BannerEvent
  code_checked : Try Unit → BannerEvent
  resend : BannerEvent
  code_resent : Try Unit → BannerEvent
  manage : Bool → BannerEvent
  change_email : BannerEvent
  turn_off : BannerEvent
  turned_off : Try Unit → BannerEvent

abbrev pub is_view : View → View → Bool
is_view idle idle = true
is_view email_form email_form = true
is_view code_verify code_verify = true
is_view verified verified = true
is_view manage_open manage_open = true
is_view _ _ = false

-- "Notifications on" is shown.
abbrev pub is_on : View → Bool
is_on v = is_view v verified || is_view v manage_open

abbrev pub is_subscribed : NoticeStatus → Bool
is_subscribed s = s.verified && not s.unsubscribed

-- `cancelTarget`, and the first view.
abbrev pub target : NoticeStatus → View
target s = if is_subscribed s then verified else idle

abbrev pub mounted_banner : String → Banner
mounted_banner privy_email = record {
  view = idle;
  initialized = false;
  email = privy_email;
  code = "";
  submitting = false;
  error_msg = none;
}

-- The effect.
unfoldable pub initialize : NoticeStatus → Banner → Banner
initialize status b =
    if not b.initialized && not status.loading && not status.error
    then record b { view = target status; initialized = true }
    else b

-- The first two lines of the handlers.
abbrev pub begin_submit : Banner → Banner
begin_submit b = record b { error_msg = none; submitting = true }

abbrev pub failed : String → JsError → Banner → Banner
failed text e b = record b { error_msg = some (message text e); submitting = false }

-- `handleSendCode`, `handleVerify` and `handleUnsubscribe` behind the `await`, and `handleResend`.
unfoldable pub end_send : String → Try Unit → Banner → Banner
end_send text (ok _) b = record b { code = ""; view = code_verify; submitting = false }
end_send text (throws e) b = failed text e b

unfoldable pub end_verify : String → Try Unit → Banner → Banner
end_verify text (ok _) b = record b { view = verified; submitting = false }
end_verify text (throws e) b = failed text e b

unfoldable pub end_unsubscribe : String → Try Unit → Banner → Banner
end_unsubscribe text (ok _) b = record b { view = idle; submitting = false }
end_unsubscribe text (throws e) b = failed text e b

unfoldable pub begin_resend : Banner → Banner
begin_resend b = record b { error_msg = none; code = "" }

unfoldable pub end_resend : String → Try Unit → Banner → Banner
end_resend text (ok _) b = b
end_resend text (throws e) b = record b { error_msg = some (message text e) }

-- What a click does where the button is shown.
abbrev pub shown_in : View → (Banner → Banner) → Banner → Banner
shown_in v click b = if is_view b.view v then click b else b

abbrev pub unless_submitting : (Banner → Banner) → Banner → Banner
unless_submitting click b = if b.submitting then b else click b

-- The buttons.
abbrev pub start_set_up : String → Banner → Banner
start_set_up privy_email =
    shown_in idle (λ c. record c { email = privy_email; error_msg = none; view = email_form })

abbrev pub leave_form : NoticeStatus → Banner → Banner
leave_form status = shown_in email_form (λ c. record c { view = target status })

abbrev pub press_send : Banner → Banner
press_send =
    shown_in email_form (unless_submitting (λ c. if str_eq c.email "" then c else begin_submit c))

abbrev pub leave_code : Banner → Banner
leave_code = shown_in code_verify (λ c. record c { view = email_form })

abbrev pub open_manage : Bool → Banner → Banner
open_manage opened b =
    if is_on b.view then record b { view = if opened then manage_open else verified } else b

abbrev pub press_change : Banner → Banner
press_change =
    shown_in manage_open (λ c. record c { code = ""; error_msg = none; view = email_form })

abbrev pub press_turn_off : Banner → Banner
press_turn_off = shown_in manage_open (unless_submitting begin_submit)

-- One event. `text` is the engine's message of an `AggregateError`. The six digits of the code start
-- `handleVerify` too, whether or not the form is submitting.
unfoldable pub banner_step : String → BannerEvent → Banner → Banner
unfolding initialize end_send end_verify end_unsubscribe begin_resend end_resend
banner_step text (learned status) b = initialize status b
banner_step text (set_up privy_email) b = start_set_up privy_email b
banner_step text (cancel_form status) b = leave_form status b
banner_step text (typed_email s) b = shown_in email_form (λ c. record c { email = s }) b
banner_step text send_code b = press_send b
banner_step text (code_sent r) b = end_send text r b
banner_step text (typed_code s) b = shown_in code_verify (λ c. record c { code = s }) b
banner_step text cancel_code b = leave_code b
banner_step text verify b = shown_in code_verify begin_submit b
banner_step text (code_checked r) b = end_verify text r b
banner_step text resend b = shown_in code_verify begin_resend b
banner_step text (code_resent r) b = end_resend text r b
banner_step text (manage opened) b = open_manage opened b
banner_step text change_email b = press_change b
banner_step text turn_off b = press_turn_off b
banner_step text (turned_off r) b = end_unsubscribe text r b

-- All events, the newest first.
unfoldable pub banner_after : String → String → List BannerEvent → Banner
unfolding banner_step
banner_after text privy_email [] = mounted_banner privy_email
banner_after text privy_email (e ∷ es) = banner_step text e (banner_after text privy_email es)
