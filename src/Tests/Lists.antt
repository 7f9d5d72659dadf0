-- ===== src/Tests/Lists.antt =====
-- The lists of positions at concrete inputs.
use text.Mathlib.Text.{◌==◌ as str_eq}
use b1nary_xlayer_hackathon.Prelude.{◌≡◌, String, true, none, List, [], ◌∷◌, find, if◌then◌else◌}
use b1nary_xlayer_hackathon.Js.Error.{Try, ok}
use b1nary_xlayer_hackathon.Js.Fixed.{Fixed, fixed}
use b1nary_xlayer_hackathon.Api.{Position}
use b1nary_xlayer_hackathon.Execution.Order.{build_optimistic_position}
use b1nary_xlayer_hackathon.Optimistic.{Storage}
use b1nary_xlayer_hackathon.Positions.{Loaded, dedupe}
use b1nary_xlayer_hackathon.Positions.Dedupe.{has_id, IsDistinct, dedupe-IsDistinct-find}
use b1nary_xlayer_hackathon.Tests.Accept.{quote}

abbrev lower : String → String
lower s = s

abbrev opt : Position Fixed
opt = build_optimistic_position "opt-1" "now" quote (fixed.num 100) true "user" "okb" none

abbrev real : Position Fixed
real = record opt { id = "7" }

-- A storage that writes lists of at most one position.
abbrev write : List (Position Fixed) → String
write [] = "[]"
write (p ∷ ps) = "[p]"

abbrev storage : Storage Fixed
storage = record {
  stringify = write;
  parse_list = λ s. if str_eq s "[]" then ok [] else ok (opt ∷ []);
  has_room = λ s. true;
}

dedupe-IsDistinct-find_example :
    IsDistinct (dedupe [] (real ∷ opt ∷ real ∷ []))
    × ((id : String)
        → find (has_id id) (dedupe [] (real ∷ opt ∷ real ∷ []))
          ≡ find (has_id id) (real ∷ opt ∷ real ∷ []))
dedupe-IsDistinct-find_example = dedupe-IsDistinct-find (real ∷ opt ∷ real ∷ [])

abbrev get : String → Try (List (Position Fixed))
get account = ok (real ∷ opt ∷ real ∷ [])

abbrev nothing_loaded : Loaded Fixed
nothing_loaded = record { positions = []; loading = true; error = none }
