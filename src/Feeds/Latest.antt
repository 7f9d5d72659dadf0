-- ===== src/Feeds/Latest.antt =====
-- What `useNotificationStatus` promises, and that it keeps it whatever the order of the answers.
use b1nary_xlayer_hackathon.Prelude.{
  ℕ, suc, ◌<◌, ◌≡◌, refl, String, Bool, true, false, not, Option, none, some, List, [], ◌∷◌, any,
  if◌then◌else◌, ◌==◌, arith, ap, inl, inr, Bool-cases, Option-cases,
}
use b1nary_xlayer_hackathon.Js.Error.{Try}
use b1nary_xlayer_hackathon.Positions.{account}
use b1nary_xlayer_hackathon.Feeds.Notices.{
  NoticeStatus, Subscription, StatusHook, StatusEvent, renewed, answered, nothing_known, clean_up,
  begin_loading, run_status_effect, show_answer, take_answer, status_step, status_after,
}

-- What the hook promises: it waits for one request at most, the newest, and shows no answer to
-- another.
pub record Latest : Type 0 where
  pub view : NoticeStatus
  pub count : ℕ
  pub current : Option ℕ

abbrev is_current : Option ℕ → ℕ → Bool
is_current none i = false
is_current (some j) i = j == i

abbrev latest_step : StatusEvent → Latest → Latest
latest_step (renewed wallet) l = elim (account wallet) [
  | none ↦ record l { current = none }
  | some w ↦ record { view = begin_loading l.view; count = suc l.count; current = some l.count }
]
latest_step (answered i r) l =
    if is_current l.current i then record l { view = show_answer r l.view } else l

abbrev pub latest_after : List StatusEvent → Latest
latest_after [] = record { view = nothing_known; count = 0; current = none }
latest_after (e ∷ es) = latest_step e (latest_after es)

-- Only requests that have been sent are answered.
abbrev pub IsAnswerable : List StatusEvent → Type 0
IsAnswerable [] = Unit
IsAnswerable (renewed wallet ∷ es) = IsAnswerable es
IsAnswerable (answered i r ∷ es) = (i < (status_after es).issued) × IsAnswerable es

abbrev is_cancelled : StatusHook → ℕ → Bool
is_cancelled s i = any (λ j. j == i) s.cancelled

record IsRefined (s : StatusHook) (l : Latest) : Type 0 where
  same_view : s.shown ≡ l.view
  same_count : s.issued ≡ l.count
  same_live : s.live ≡ l.current
  sent : (i : ℕ) → s.live ≡ some i → i < s.issued
  few : (i : ℕ) → is_cancelled s i ≡ true → i < s.issued
  open_only : (i : ℕ) → i < s.issued → is_cancelled s i ≡ not (is_current l.current i)

abbrev waits_for : Option ℕ → Latest → Latest
waits_for current l = record l { current = current }

clean_up-IsRefined :
    (s : StatusHook) (l : Latest) → IsRefined s l → IsRefined (clean_up s) (waits_for none l)
clean_up-IsRefined s l h = elim (Option-cases s.live) [
  | inl e ↦
      rw (e, clean_up)
        (record {
          same_view = h.same_view;
          same_count = h.same_count;
          same_live = e;
          sent = h.sent;
          few = h.few;
          open_only =
              λ i n. let o = h.open_only i n in let c = h.same_live in ground (arith, o, c, e);
        })
  | inr (j, e) ↦
      rw (e, clean_up)
        (record {
          same_view = h.same_view;
          same_count = h.same_count;
          same_live = refl;
          sent = λ i f. ground arith;
          few = λ i f. let a = h.few i in let b = h.sent j e in ground (arith, a, b);
          open_only =
              λ i n. let o = h.open_only i n in let c = h.same_live in ground (arith, o, c, e);
        })
]

request-IsRefined :
    (s : StatusHook) (l : Latest)
    → IsRefined s (waits_for none l)
    → IsRefined
        (record {
          shown = begin_loading s.shown;
          issued = suc s.issued;
          live = some s.issued;
          cancelled = s.cancelled;
        })
        (record { view = begin_loading l.view; count = suc l.count; current = some l.count })
request-IsRefined s l h = record {
  same_view = ap begin_loading h.same_view;
  same_count = ap suc h.same_count;
  same_live = ap some h.same_count;
  sent = λ i f. ground arith;
  few = λ i f. let a = h.few i f in omega (arith, a);
  open_only = λ i n.
      let o = h.open_only i in
      let f = h.few i in let c = h.same_count in ground (arith, o, f, c, n);
}

run_status_effect-IsRefined :
    (wallet : Option String) (s : StatusHook) (l : Latest)
    → IsRefined s l
    → IsRefined (run_status_effect wallet s) (latest_step (renewed wallet) l)
unfolding run_status_effect
run_status_effect-IsRefined wallet s l h =
    let clean = clean_up-IsRefined s l h in
    elim (Option-cases (account wallet)) [
      | inl e ↦ rw (e, run_status_effect, latest_step) clean
      | inr (w, e) ↦ rw (e, run_status_effect, latest_step) (request-IsRefined (clean_up s) l clean)
    ]

take_answer-IsRefined :
    (i : ℕ) (r : Try Subscription) (s : StatusHook) (l : Latest)
    → i < s.issued
    → IsRefined s l
    → IsRefined (take_answer i r s) (latest_step (answered i r) l)
unfolding take_answer
take_answer-IsRefined i r s l n h =
    let o = h.open_only i n in
    elim (Bool-cases (is_current l.current i)) [
      | inl e ↦
          let c : is_cancelled s i ≡ false = ground (arith, o, e) in
          rw (e, c, take_answer)
            (record {
              same_view = ap (show_answer r) h.same_view;
              same_count = h.same_count;
              same_live = h.same_live;
              sent = h.sent;
              few = h.few;
              open_only = h.open_only;
            })
      | inr e ↦ let c : is_cancelled s i ≡ true = ground (arith, o, e) in rw (e, c, take_answer) h
    ]

status_after-IsRefined :
    (es : List StatusEvent) → IsAnswerable es → IsRefined (status_after es) (latest_after es)
unfolding status_after status_step
status_after-IsRefined [] _ = record {
  same_view = refl;
  same_count = refl;
  same_live = refl;
  sent = λ i h. ground arith;
  few = λ i h. ground arith;
  open_only = λ i h. ground arith;
}
status_after-IsRefined (renewed wallet ∷ es) h =
    run_status_effect-IsRefined wallet _ _ (status_after-IsRefined es h)
status_after-IsRefined (answered i r ∷ es) (n, h) =
    take_answer-IsRefined i r _ _ n (status_after-IsRefined es h)

-- After any changes of the wallet and any answers to requests that have been sent, in any order, the
-- hook shows what a hook would show that remembers only the newest request and heeds no other answer.
pub status_after-latest :
    (es : List StatusEvent) → IsAnswerable es → (status_after es).shown ≡ (latest_after es).view
status_after-latest es h = (status_after-IsRefined es h).same_view
