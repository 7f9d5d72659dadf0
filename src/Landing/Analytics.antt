-- ===== src/Landing/Analytics.antt =====
-- frontend/src/hooks/useSliderAnalytics.ts: the id of a visitor's session, and the events that are held
-- back until the slider rests.
use b1nary_xlayer_hackathon.Prelude.{
  ◌≡◌, inl, inr, refl, sym, subst, ◌∙◌, ap, String, Bool, true, false, Bool-cases, Option, none,
  some, List, [], ◌∷◌, All, if◌then◌else◌,
}
use b1nary_xlayer_hackathon.Accept.Props.{truthy_text}
use b1nary_xlayer_hackathon.Execution.Order.{or_default}

-- The item in the session storage, and `fallbackSessionId`.
pub record Visit : Type 0 where
  pub item : Option String
  pub fallback : Option String

-- Whether `getItem` and `setItem` of the session storage return.
pub record Access : Type 0 where
  pub reads : Bool
  pub writes : Bool

-- The answers of `crypto.randomUUID()`, in the `try` and in the `catch` block.
pub record Fresh : Type 0 where
  pub first_id : String
  pub second_id : String

-- The `catch` block.
unfoldable fall_back : Fresh → Visit → String × Visit
fall_back f v =
    if truthy_text v.fallback
    then (or_default v.fallback "", v)
    else (f.second_id, record v { fallback = some f.second_id })

unfoldable pub get_session_id : Access → Fresh → Visit → String × Visit
unfolding fall_back
get_session_id a f v =
    if a.reads
    then if truthy_text v.item
      then (or_default v.item "", v)
      else if a.writes
      then (f.first_id, record v { item = some f.first_id })
      else fall_back f v
    else fall_back f v

-- The ids of a session in which so many events are sent.
unfoldable pub session_ids : Access → List Fresh → Visit → List String
unfolding get_session_id
session_ids a [] v = []
session_ids a (f ∷ fs) v = let (id, v') = get_session_id a f v in id ∷ session_ids a fs v'

-- `randomUUID` never gives an empty text.
abbrev pub IsId : Fresh → Type 0
IsId f = (truthy_text (some f.first_id) ≡ true) × (truthy_text (some f.second_id) ≡ true)

fall_back-again : (f g : Fresh) (v : Visit) → IsId f → fall_back g (fall_back f v).1 ≡ fall_back f v
unfolding fall_back
fall_back-again f g v (p, q) = elim (Bool-cases (truthy_text v.fallback)) [
  | inl e ↦ rw (e, fall_back) (rw e refl)
  | inr e ↦ rw (e, fall_back, q) refl
]

fall_back-item : (f : Fresh) (v : Visit) → (fall_back f v).1.item ≡ v.item
unfolding fall_back
fall_back-item f v = elim (Bool-cases (truthy_text v.fallback)) [
  | inl e ↦ rw (e, fall_back) refl
  | inr e ↦ rw (e, fall_back) refl
]

get_session_id-fall_back :
    (a : Access) (f : Fresh) (v : Visit)
    → a.reads ≡ true
    → truthy_text v.item ≡ false
    → a.writes ≡ false
    → get_session_id a f v ≡ fall_back f v
unfolding get_session_id
get_session_id-fall_back a f v r e w = rw (r, e, w, get_session_id) refl

-- A second call gives what the first one gave, and changes nothing.
get_session_id-again :
    (a : Access) (f g : Fresh) (v : Visit)
    → IsId f
    → get_session_id a g (get_session_id a f v).1 ≡ get_session_id a f v
unfolding get_session_id
get_session_id-again a f g v (p, q) = elim (Bool-cases a.reads) [
  | inr r ↦ rw (r, get_session_id) (fall_back-again f g v (p, q))
  | inl r ↦ elim (Bool-cases (truthy_text v.item)) [
    | inl e ↦ rw (r, e, get_session_id) (rw e refl)
    | inr e ↦ elim (Bool-cases a.writes) [
      | inl w ↦ rw (r, e, w, get_session_id, p) refl
      | inr w ↦
          let first = get_session_id-fall_back a f v r e w in
          let kept : truthy_text (fall_back f v).1.item ≡ false = rw (fall_back-item f v) e in
          let second = get_session_id-fall_back a g (fall_back f v).1 r kept w in
          subst (λ x. get_session_id a g x.1 ≡ x) (sym first)
            (second ∙ fall_back-again f g v (p, q))
    ]
  ]
]

settled_ids :
    (a : Access) (f : Fresh) (gs : List Fresh) (v : Visit)
    → IsId f
    → let (id, v') = get_session_id a f v in All (λ x. x ≡ id) (session_ids a gs v')
unfolding session_ids
settled_ids a f [] v i = tt
settled_ids a f (g ∷ gs) v i =
    let same = get_session_id-again a f g v i in
    rw (same, session_ids) (refl, settled_ids a f gs v i)

-- If the session storage does not change its behaviour, every event of a visit has the id of the
-- first one, also if the storage cannot be read or written.
pub session_ids-same :
    (a : Access) (f : Fresh) (fs : List Fresh) (v : Visit)
    → IsId f
    → All (λ id. id ≡ (get_session_id a f v).0) (session_ids a (f ∷ fs) v)
unfolding session_ids
session_ids-same a f fs v i = (refl, settled_ids a f fs v i)

-- What a tracked event and the timer do to the event that is held back; the timer may ring at any time
-- after the last event, and an event resets it.
pub data Moment (E : Type 0) : Type 0 where
  tracks : E → Moment E
  rings : Moment E

module _ {E : Type 0} where
  abbrev or_send : Option E → List E → List E
  or_send none l = l
  or_send (some e) l = e ∷ l

  -- What `track` sends, from the event that is held back.
  unfoldable pub sends : Option E → List (Moment E) → List E
  sends held [] = []
  sends held (tracks e ∷ ms) = sends (some e) ms
  sends held (rings ∷ ms) = or_send held (sends none ms)

  -- The events behind which the timer rings before another event is tracked.
  abbrev pub rested : List (Moment E) → List E
  rested [] = []
  rested (tracks e ∷ rings ∷ ms) = e ∷ rested ms
  rested (m ∷ ms) = rested ms

  held_back : Option E → List (Moment E) → List (Moment E)
  held_back none ms = ms
  held_back (some e) ms = tracks e ∷ ms

  sends-held_back :
      (held : Option E) (ms : List (Moment E)) → sends held ms ≡ rested (held_back held ms)
  unfolding sends held_back
  sends-held_back none [] = refl
  sends-held_back none (tracks e ∷ ms) = sends-held_back (some e) ms
  sends-held_back none (rings ∷ ms) = sends-held_back none ms
  sends-held_back (some e) [] = refl
  sends-held_back (some e) (tracks d ∷ ms) = sends-held_back (some d) ms
  sends-held_back (some e) (rings ∷ ms) = ap (λ l. e ∷ l) (sends-held_back none ms)

  -- However the visitor moves the slider, the events that are sent are those behind which the slider
  -- rested until the timer rang, each once and in order.
  pub sends-rested : (ms : List (Moment E)) → sends none ms ≡ rested ms
  unfolding held_back
  sends-rested ms = sends-held_back none ms
