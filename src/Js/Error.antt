-- ===== src/Js/Error.antt =====
-- Thrown values and the outcome of an awaited call.
use b1nary_xlayer_hackathon.Prelude.{String, Bool, true, false, ◌≡◌, refl, ◌⊎◌, inl, inr}

-- `new Error(message)`, and the `AggregateError` of `Promise.any` with its two reasons.
pub data JsError : Type 0 where
  error : String → JsError
  aggregate : JsError → JsError → JsError

-- How `await e` ends: with a value, or by throwing.
pub data Try (A : Type 0) : Type 0 where
  ok : A → Try A
  throws : JsError → Try A

abbrev pub threw : {A : Type 0} → Try A → Bool
threw (ok a) = false
threw (throws e) = true

pub Try-cases : {A : Type 0} (t : Try A) → ((a : A) × (t ≡ ok a)) ⊎ ((e : JsError) × (t ≡ throws e))
Try-cases (ok a) = inl (a, refl)
Try-cases (throws e) = inr (e, refl)

-- `err.message`; the text of an `AggregateError` is the engine's.
abbrev pub message : String → JsError → String
message aggregate_text (error s) = s
message aggregate_text (aggregate x y) = aggregate_text
