-- ===== src/Backend.antt =====
-- `fetchAPI` of frontend/src/lib/api.ts, by which every request to the backend goes, and the message of
-- its error, which the retries of `tagGroup` read.
use Prim.Native.String.{◌++◌ as append}
use Prim.Native.Char.{code}
use text.Mathlib.TextLemmas.{nil-append, cons-append}
use b1nary_xlayer_hackathon.Prelude.{
  ◌≡◌, ◌⊎◌, ◌∙◌, inl, inr, refl, ap, ℕ, String, Bool, true, false, List, [], ◌∷◌, ◌++◌, arith,
}
use b1nary_xlayer_hackathon.Js.Error.{JsError, error, Try, ok, throws}
use b1nary_xlayer_hackathon.Range.Tagging.{IsConflict}
use b1nary_xlayer_hackathon.Js.Text.{codes, begins, contains, includes}

-- The answer to a request: whether it is in the 200s, its status as a text, and what reading its body
-- as a text or as JSON gives.
pub record Response (A : Type 0) : Type 0 where
  pub is_ok : Bool
  pub status : String
  pub text : Try String
  pub json : Try A

-- `res.text().catch(() => "")`
abbrev pub body_of : Try String → String
body_of (ok body) = body
body_of (throws e) = ""

abbrev pub api_error : (status body : String) → JsError
api_error status body = error (append "API " (append status (append ": " body)))

-- The answer of `fetch` may be an exception itself.
unfoldable pub fetch_api : {A : Type 0} → Try (Response A) → Try A
fetch_api (throws e) = throws e
fetch_api (ok res) = elim res.is_ok [
  | true ↦ res.json
  | false ↦ throws (api_error res.status (body_of res.text))
]

codes-append : (s t : String) → codes (append s t) ≡ codes s ++ codes t
codes-append String.[] t = ap codes (nil-append t)
codes-append (String.◌∷◌ c s) t =
    ap codes (cons-append c s t) ∙ ap (λ l. code c ∷ l) (codes-append s t)

begins-append : (s t p : List ℕ) → begins s p ≡ true → begins (s ++ t) p ≡ true
unfolding begins
begins-append s t [] h = refl
begins-append [] t (c ∷ p) h = cc
begins-append (d ∷ s) t (c ∷ p) h = let rest = begins-append s t p in ground arith

-- What a text has in it is in every text that the first is a part of.
contains-front : (s t p : List ℕ) → contains s p ≡ true → contains (s ++ t) p ≡ true
unfolding contains
contains-front [] [] p h = h
contains-front [] (c ∷ t) p h = let e = begins-append [] (c ∷ t) p h in ground (arith, e)
contains-front (c ∷ s) t p h =
    let e = begins-append (c ∷ s) t p in let rest = contains-front s t p in ground (arith, e, rest)

contains-behind : (s t p : List ℕ) → contains t p ≡ true → contains (s ++ t) p ≡ true
unfolding contains
contains-behind [] t p h = h
contains-behind (c ∷ s) t p h = let rest = contains-behind s t p h in ground (arith, rest)

part_of_error :
    (status body p : String)
    → (includes status p ≡ true) ⊎ (includes body p ≡ true)
    → includes (append "API " (append status (append ": " body))) p ≡ true
unfolding includes
part_of_error status body p h =
    rw
      (
        codes-append "API " (append status (append ": " body)),
        codes-append status (append ": " body),
        codes-append ": " body,
      )
      (contains-behind (codes "API ") _ (codes p) (inside h))
  where
    inside :
        (includes status p ≡ true) ⊎ (includes body p ≡ true)
        → contains (codes status ++ (codes ": " ++ codes body)) (codes p) ≡ true
    inside (inl h) = contains-front (codes status) _ (codes p) h
    inside (inr h) =
        contains-behind (codes status) _ (codes p)
          (contains-behind (codes ": ") (codes body) (codes p) h)

digits : includes "409" "409" ≡ true
unfolding includes
digits = refl

-- An answer that is not ok counts for `tagGroup` as the backend's 409 if its status is 409, and just so
-- if its body has the digits 409 anywhere, whatever its status is.
pub fetch_api-IsConflict :
    (text : String) (answer : ℕ → Try (Response (Unit {0}))) (j : ℕ) (res : Response (Unit {0}))
    → answer j ≡ ok res
    → res.is_ok ≡ false
    → (res.status ≡ "409") ⊎ (includes (body_of res.text) "409" ≡ true)
    → IsConflict text (λ i. fetch_api (answer i)) j
unfolding fetch_api
fetch_api-IsConflict text answer j res e not_ok h =
    let found = part_of_error res.status (body_of res.text) "409" (either h) in
    (api_error res.status (body_of res.text), rw (e, not_ok, fetch_api) refl, found)
  where
    either :
        (res.status ≡ "409") ⊎ (includes (body_of res.text) "409" ≡ true)
        → (includes res.status "409" ≡ true) ⊎ (includes (body_of res.text) "409" ≡ true)
    either (inl s) = inl (ap (λ t. includes t "409") s ∙ digits)
    either (inr b) = inr b
