-- ===== src/Feeds/Notices.antt =====
-- `useNotificationStatus` of frontend/src/hooks/useNotificationStatus.ts: answers that come in any
-- order, also after the wallet has changed.
use b1nary_xlayer_hackathon.Prelude.{
  ℕ, suc, String, Bool, true, false, Option, none, some, List, [], ◌∷◌, any, if◌then◌else◌, ◌==◌,
}
use b1nary_xlayer_hackathon.Js.Error.{Try, ok, throws}
use b1nary_xlayer_hackathon.Positions.{account}

-- What the hook returns.
pub record NoticeStatus : Type 0 where
  pub has_email : Bool
  pub verified : Bool
  pub unsubscribed : Bool
  pub loading : Bool
  pub error : Bool

-- The backend's answer.
pub record Subscription : Type 0 where
  pub has_email : Bool
  pub verified : Bool
  pub unsubscribed : Bool

-- The effects' requests are numbered. `live` is the request of the last effect, whose cleanup has not
-- run, and `cancelled` are the requests whose cleanup has.
pub record StatusHook : Type 0 where
  pub shown : NoticeStatus
  pub issued : ℕ
  pub live : Option ℕ
  pub cancelled : List ℕ

-- The wallet or `tick` changes, or the answer to a request comes.
pub data StatusEvent : Type 0 where
  renewed : Option String → StatusEvent
  answered : ℕ → Try Subscription → StatusEvent

abbrev pub nothing_known : NoticeStatus
nothing_known = record {
  has_email = false;
  verified = false;
  unsubscribed = false;
  loading = false;
  error = false;
}

abbrev pub mounted : StatusHook
mounted = record { shown = nothing_known; issued = 0; live = none; cancelled = [] }

-- The cleanup of the last effect.
abbrev pub clean_up : StatusHook → StatusHook
clean_up s = elim s.live [
  | none ↦ s
  | some i ↦ record s { live = none; cancelled = i ∷ s.cancelled }
]

abbrev pub begin_loading : NoticeStatus → NoticeStatus
begin_loading n = record n { loading = true; error = false }

unfoldable pub run_status_effect : Option String → StatusHook → StatusHook
run_status_effect wallet s =
    let c = clean_up s in
    elim (account wallet) [
      | none ↦ c
      | some w ↦ record {
        shown = begin_loading c.shown;
        issued = suc c.issued;
        live = some c.issued;
        cancelled = c.cancelled;
      }
    ]

abbrev pub show_answer : Try Subscription → NoticeStatus → NoticeStatus
show_answer (ok a) n = record {
  has_email = a.has_email;
  verified = a.verified;
  unsubscribed = a.unsubscribed;
  loading = false;
  error = n.error;
}
show_answer (throws e) n = record n { error = true; loading = false }

-- `then` and `catch`.
unfoldable pub take_answer : ℕ → Try Subscription → StatusHook → StatusHook
take_answer i r s =
    if any (λ j. j == i) s.cancelled then s else record s { shown = show_answer r s.shown }

unfoldable pub status_step : StatusEvent → StatusHook → StatusHook
unfolding run_status_effect take_answer
status_step (renewed wallet) s = run_status_effect wallet s
status_step (answered i r) s = take_answer i r s

unfoldable pub status_after : List StatusEvent → StatusHook
unfolding status_step
status_after [] = mounted
status_after (e ∷ es) = status_step e (status_after es)
