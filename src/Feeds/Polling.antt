-- ===== src/Feeds/Polling.antt =====
-- Hooks that fetch again and again: `useCapacity` (frontend/src/hooks/useCapacity.ts), `useSpot`
-- (frontend/src/hooks/useSpot.ts) and `useActivity` (frontend/src/hooks/useActivity.ts). A refresh
-- changes the state when its answer comes, whichever asset or account it has asked for.
use b1nary_xlayer_hackathon.Prelude.{
  ◌≡◌, ◌↔◌, ◌≢◌, refl, String, Bool, true, false, Option, none, some, List, [], ◌∷◌, ◌++◌, All, ap,
}
use b1nary_xlayer_hackathon.Js.Error.{JsError, Try, ok, throws, message}
use b1nary_xlayer_hackathon.Api.{Capacity}
use b1nary_xlayer_hackathon.Positions.{account}

-- A value that may be missing, and `loading`.
pub record Polled (A : Type 0) : Type 0 where
  pub value : Option A
  pub loading : Bool

abbrev pub mounted : {A : Type 0} → Polled A
mounted = record { value = none; loading = true }

-- `refresh` of `useCapacity`, by its answer.
unfoldable pub refresh_capacity :
    {N : Type 0} → Try (Capacity N) → Polled (Capacity N) → Polled (Capacity N)
refresh_capacity (ok found) s = record { value = some found; loading = false }
refresh_capacity (throws e) s = record s { loading = false }

-- `refresh` of `useSpot`; the answer is that of `data.spot`.
unfoldable pub refresh_spot : {N : Type 0} → Try N → Polled N → Polled N
refresh_spot (ok spot) s = record { value = some spot; loading = false }
refresh_spot (throws e) s = record s { loading = false }

-- The answers in the order in which they come.
unfoldable pub capacity_after :
    {N : Type 0} → List (Try (Capacity N)) → Polled (Capacity N) → Polled (Capacity N)
unfolding refresh_capacity
capacity_after [] s = s
capacity_after (r ∷ rs) s = capacity_after rs (refresh_capacity r s)

unfoldable pub spot_after : {N : Type 0} → List (Try N) → Polled N → Polled N
unfolding refresh_spot
spot_after [] s = s
spot_after (r ∷ rs) s = spot_after rs (refresh_spot r s)

-- The activity of an account, and what the hook says of it.
pub record Shown (A : Type 0) : Type 0 where
  pub activity : Option A
  pub loading : Bool
  pub error : Option String

-- `refresh` of `useActivity`: without an account nothing is asked.
unfoldable pub refresh_activity : {A : Type 0} → String → Option String → Try A → Shown A → Shown A
refresh_activity text address answer s = elim (account address) [
  | none ↦ record s { activity = none; loading = false }
  | some a ↦ elim answer [
    | ok found ↦ record { activity = some found; loading = false; error = none }
    | throws e ↦ record s { loading = false; error = some (message text e) }
  ]
]

module _ {A : Type 0} where
  abbrev Failed : Try A → Type 0
  Failed r = (v : A) → r ≢ ok v

  -- What is known after some answers: the value of the last of them that has one, or, if none has, what
  -- was known before.
  pub data LastKnown (before : Option A) (rs : List (Try A)) : Option A → Type 0 where
    unchanged : All Failed rs → LastKnown before rs before
    known :
        (first rest : List (Try A)) (v : A)
        → rs ≡ first ++ (ok v ∷ rest)
        → All Failed rest
        → LastKnown before rs (some v)

  behind_value :
      (x : A) {v : Option A} {rs : List (Try A)} {w : Option A}
      → LastKnown (some x) rs w
      → LastKnown v (ok x ∷ rs) w
  behind_value x {rs = rs} (unchanged h) = known [] rs x refl h
  behind_value x (known first rest y e h) = known (ok x ∷ first) rest y (ap (λ l. ok x ∷ l) e) h

  behind_failure :
      {v : Option A} {rs : List (Try A)} {w : Option A} (e : JsError)
      → LastKnown v rs w
      → LastKnown v (throws e ∷ rs) w
  behind_failure e (unchanged h) = unchanged ((λ v h. cc), h)
  behind_failure e (known first rest y same h) =
      known (throws e ∷ first) rest y (ap (λ l. throws e ∷ l) same) h

module _ {N : Type 0} where
  -- After any answers, in the order in which they come, `useCapacity` holds the capacity of the last
  -- one that has one, and if none has, it holds what it held before: a failure never takes a capacity
  -- away. It is loading only before the first answer.
  pub capacity_after-LastKnown :
      (rs : List (Try (Capacity N)))
      → LastKnown none rs (capacity_after rs mounted).value
        × (((capacity_after rs mounted).loading ≡ true) ↔ (rs ≡ []))
  unfolding capacity_after
  capacity_after-LastKnown rs = (value rs mounted, loads rs)
    where
      value :
          (rs : List (Try (Capacity N))) (s : Polled (Capacity N))
          → LastKnown s.value rs (capacity_after rs s).value
      value [] s = unchanged tt
      value (ok v ∷ rs) s = behind_value v (value rs (refresh_capacity (ok v) s))
      value (throws e ∷ rs) s = behind_failure e (value rs (refresh_capacity (throws e) s))

      ready :
          (rs : List (Try (Capacity N))) (s : Polled (Capacity N))
          → s.loading ≡ false
          → (capacity_after rs s).loading ≡ false
      ready [] s h = h
      ready (ok v ∷ rs) s h = ready rs (refresh_capacity (ok v) s) refl
      ready (throws e ∷ rs) s h = ready rs (refresh_capacity (throws e) s) refl

      loads :
          (rs : List (Try (Capacity N))) → ((capacity_after rs mounted).loading ≡ true) ↔ (rs ≡ [])
      loads [] = (λ h. refl, λ h. refl)
      loads (ok v ∷ rs) =
          let done = ready rs (refresh_capacity (ok v) mounted) refl in (λ h. cc, λ h. cc)
      loads (throws e ∷ rs) =
          let done = ready rs (refresh_capacity (throws e) mounted) refl in (λ h. cc, λ h. cc)
