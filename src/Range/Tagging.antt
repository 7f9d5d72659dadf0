-- ===== src/Range/Tagging.antt =====
-- `tagGroup` of frontend/src/components/v2/RangeAcceptModal.tsx, which tells the backend that two
-- positions belong together. The backend answers 409 until it has indexed both.
use b1nary_xlayer_hackathon.Prelude.{
  ◌≡◌, refl, ◌⊎◌, inl, inr, ℕ, zero, suc, ◌+◌, ◌-◌, ◌<◌, String, Bool, true, false, ◌&&◌, ltb,
  ltb→lt, if◌then◌else◌, Bool-cases, below_suc, arith,
}
use b1nary_xlayer_hackathon.Js.Error.{JsError, Try, ok, throws, message, Try-cases}
use b1nary_xlayer_hackathon.Js.Text.{includes}

-- How the loop ends, and at which attempt; `ran_out` is its end without a `return`.
pub data TagEnd : Type 0 where
  grouped : ℕ → TagEnd
  gave_up : ℕ → TagEnd
  ran_out : TagEnd

-- `retries`, by default.
abbrev pub retries : ℕ
retries = 5

both_true : {a b : Bool} → (a && b) ≡ true → (a ≡ true) × (b ≡ true)
both_true {a = true} {b = b} h = (refl, h)
both_true {a = false} {b = b} h = cc

module _ (aggregate_text : String) (respond : ℕ → Try (Unit {0})) where
  abbrev is_conflict : JsError → Bool
  is_conflict e = includes (message aggregate_text e) "409"

  -- The loop, with the attempts left and the attempt's number.
  unfoldable pub tag_from : (left i : ℕ) → TagEnd
  tag_from zero i = ran_out
  tag_from (suc left) i = elim (respond i) [
    | ok _ ↦ grouped i
    | throws e ↦
        let rest = tag_from left (suc i) in
        if is_conflict e && ltb i (retries - 1) then rest else gave_up i
  ]

  unfoldable pub tag_group : TagEnd
  unfolding tag_from
  tag_group = tag_from retries 0

  -- An answer of 409.
  abbrev pub IsConflict : ℕ → Type 0
  IsConflict j = (e : JsError) × (respond j ≡ throws e) × (is_conflict e ≡ true)

  -- The backend accepted the group at an attempt, or it refused it for another reason than 409 or at
  -- the fifth attempt; at all earlier attempts it answered 409.
  pub data TagRight : TagEnd → Type 0 where
    accepted_at :
        (i : ℕ)
        → i < retries
        → ((j : ℕ) → j < i → IsConflict j)
        → respond i ≡ ok tt
        → TagRight (grouped i)
    refused_at :
        (i : ℕ) (e : JsError)
        → i < retries
        → ((j : ℕ) → j < i → IsConflict j)
        → respond i ≡ throws e
        → (is_conflict e ≡ false) ⊎ (i ≡ retries - 1)
        → TagRight (gave_up i)

  last_or_other :
      (e : JsError) (i : ℕ)
      → i < retries
      → (is_conflict e && ltb i (retries - 1)) ≡ false
      → (is_conflict e ≡ false) ⊎ (i ≡ retries - 1)
  last_or_other e i l h = elim (Bool-cases (is_conflict e)) [
    | inl c ↦ inr (ground arith)
    | inr c ↦ inl c
  ]

  this_attempt :
      (left i : ℕ)
      → i < retries
      → ((j : ℕ) → j < i → IsConflict j)
      → (IsConflict i → i < retries - 1 → TagRight (tag_from left (suc i)))
      → TagRight (tag_from (suc left) i)
  unfolding tag_from
  this_attempt left i l before again = elim (Try-cases (respond i)) [
    | inl (u, e) ↦ rw (e, tag_from) (accepted_at i l before e)
    | inr (x, e) ↦ elim (Bool-cases (is_conflict x && ltb i (retries - 1))) [
      | inl c ↦
          let (conflict, early) = both_true c in
          rw (e, c, tag_from) (again (x, e, conflict) (ltb→lt i (retries - 1) early))
      | inr c ↦ rw (e, c, tag_from) (refused_at i x l before e (last_or_other x i l c))
    ]
  ]

  tag_from-TagRight :
      (left i : ℕ)
      → suc left + i ≡ retries
      → ((j : ℕ) → j < i → IsConflict j)
      → TagRight (tag_from (suc left) i)
  tag_from-TagRight zero i n before =
      this_attempt zero i (omega (arith, n)) before (λ _ early. absurd (omega (arith, n, early)))
  tag_from-TagRight (suc left) i n before =
      this_attempt (suc left) i (omega (arith, n)) before (λ conflict _.
        tag_from-TagRight left (suc i) (omega (arith, n)) (below_suc IsConflict i before conflict))

  -- `tagGroup` always ends by a `return`, within five attempts, and rightly so.
  pub tag_group-TagRight : TagRight tag_group
  unfolding tag_group
  tag_group-TagRight = tag_from-TagRight 4 0 refl (λ j l. absurd (omega (arith, l)))
