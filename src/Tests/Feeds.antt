-- ===== src/Tests/Feeds.antt =====
-- The hooks that fetch and the banner of reminders at concrete inputs.
use b1nary_xlayer_hackathon.Prelude.{◌≡◌, refl, true, false, some, List, [], ◌∷◌, any, arith}
use b1nary_xlayer_hackathon.Js.Error.{Try, ok, throws, error}
use b1nary_xlayer_hackathon.Js.Fixed.{Fixed}
use b1nary_xlayer_hackathon.Api.{PriceQuote}
use b1nary_xlayer_hackathon.Feeds.Prices.{refreshed, refresh_prices}
use b1nary_xlayer_hackathon.Feeds.Notices.{
  NoticeStatus, Subscription, StatusEvent, renewed, answered, status_after, status_step,
  run_status_effect, take_answer,
}
use b1nary_xlayer_hackathon.Feeds.Latest.{IsAnswerable, latest_after, status_after-latest}
use b1nary_xlayer_hackathon.Banner.{
  BannerEvent, learned, set_up, typed_email, send_code, code_sent, verify, code_checked, is_on,
  banner_after,
}
use b1nary_xlayer_hackathon.Banner.Confirmed.{confirms, banner_on-confirms}
use b1nary_xlayer_hackathon.Tests.Accept.{quote}

-- Nothing, then a failure, then prices, then nothing again.
abbrev answers : List (Try (List (PriceQuote Fixed)))
answers = ok [] ∷ ok (quote ∷ []) ∷ throws (error "API 500: ") ∷ ok [] ∷ []

prices_stay : (refreshed "" answers).prices ≡ quote ∷ []
unfolding refreshed refresh_prices
prices_stay = refl

abbrev subscribed : Subscription
subscribed = record { has_email = true; verified = true; unsubscribed = false }

-- The wallet changes while the first answer is on its way, and that answer comes last.
abbrev crossing : List StatusEvent
crossing =
    answered 0 (ok subscribed)
    ∷ answered 1 (throws (error "API 404: "))
    ∷ renewed (some "b")
    ∷ renewed (some "a")
    ∷ []

crossing-IsAnswerable : IsAnswerable crossing
unfolding status_after status_step run_status_effect take_answer
crossing-IsAnswerable = (ground arith, (ground arith, tt))

stale_answer_ignored : (status_after crossing).shown.verified ≡ false
unfolding status_after
stale_answer_ignored = refl

status_after-latest_example : (status_after crossing).shown ≡ (latest_after crossing).view
status_after-latest_example = status_after-latest crossing crossing-IsAnswerable

abbrev off : NoticeStatus
off = record {
  has_email = false;
  verified = false;
  unsubscribed = false;
  loading = false;
  error = false;
}

abbrev subscribing : List BannerEvent
subscribing =
    code_checked (ok tt)
    ∷ verify
    ∷ code_sent (ok tt)
    ∷ send_code
    ∷ typed_email "me@example.com"
    ∷ set_up ""
    ∷ learned off
    ∷ []

-- The banner of one wallet stays on when another wallet is connected.
abbrev on : NoticeStatus
on = record off { has_email = true; verified = true }

on_for_another_wallet : is_on (banner_after "" "" (learned off ∷ learned on ∷ [])).view ≡ true
unfolding banner_after
on_for_another_wallet = refl

banner_on-confirms_example : any confirms subscribing ≡ true
unfolding banner_after
banner_on-confirms_example = banner_on-confirms "" "" subscribing refl
