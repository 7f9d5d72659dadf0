-- ===== src/Banner/Confirmed.antt =====
-- When the banner says that notifications are on.
use b1nary_xlayer_hackathon.Prelude.{
  ◌≡◌, refl, String, Bool, true, false, ◌||◌, List, [], ◌∷◌, any, arith,
}
use b1nary_xlayer_hackathon.Js.Error.{ok, throws}
use b1nary_xlayer_hackathon.Banner.{
  BannerEvent, learned, cancel_form, code_checked, set_up, typed_email, send_code, code_sent,
  typed_code, cancel_code, verify, resend, code_resent, manage, change_email, turn_off, turned_off,
  Banner, is_on, is_subscribed, banner_step, banner_after, initialize, end_send, end_verify,
  end_unsubscribe, begin_resend, end_resend,
}

-- The backend has said that reminders are on: the status hook, or the answer to a code.
abbrev pub confirms : BannerEvent → Bool
confirms (learned status) = is_subscribed status
confirms (cancel_form status) = is_subscribed status
confirms (code_checked (ok _)) = true
confirms _ = false

banner_step-confirms :
    (text : String) (e : BannerEvent) (b : Banner)
    → is_on (banner_step text e b).view ≡ true
    → (confirms e || is_on b.view) ≡ true
unfolding banner_step initialize end_send end_verify end_unsubscribe begin_resend end_resend
banner_step-confirms text (learned status) b h = ground arith
banner_step-confirms text (set_up privy_email) b h = ground arith
banner_step-confirms text (cancel_form status) b h = ground arith
banner_step-confirms text (typed_email s) b h = ground arith
banner_step-confirms text send_code b h = ground arith
banner_step-confirms text (code_sent (ok x)) b h = ground arith
banner_step-confirms text (code_sent (throws e)) b h = ground arith
banner_step-confirms text (typed_code s) b h = ground arith
banner_step-confirms text cancel_code b h = ground arith
banner_step-confirms text verify b h = ground arith
banner_step-confirms text (code_checked (ok x)) b h = refl
banner_step-confirms text (code_checked (throws e)) b h = ground arith
banner_step-confirms text resend b h = ground arith
banner_step-confirms text (code_resent (ok x)) b h = ground arith
banner_step-confirms text (code_resent (throws e)) b h = ground arith
banner_step-confirms text (manage opened) b h = ground arith
banner_step-confirms text change_email b h = ground arith
banner_step-confirms text turn_off b h = ground arith
banner_step-confirms text (turned_off (ok x)) b h = ground arith
banner_step-confirms text (turned_off (throws e)) b h = ground arith

-- Whatever is clicked and typed, and whatever the backend answers in whatever order: the banner says
-- that notifications are on only if the status hook has said so in an effect or behind a cancelled
-- form, or the backend has accepted a code.
pub banner_on-confirms :
    (text privy_email : String) (es : List BannerEvent)
    → is_on (banner_after text privy_email es).view ≡ true
    → any confirms es ≡ true
unfolding banner_after
banner_on-confirms text privy_email [] h = ground arith
banner_on-confirms text privy_email (e ∷ es) h =
    let now = banner_step-confirms text e (banner_after text privy_email es) h in
    let before = banner_on-confirms text privy_email es in ground (arith, now, before)
