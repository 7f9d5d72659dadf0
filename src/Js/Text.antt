-- ===== src/Js/Text.antt =====
-- Texts as their code points, and the tests that the program makes on error messages.
use Prim.Native.Char.{code}
use b1nary_xlayer_hackathon.Prelude.{
  ℕ, ◌+◌, String, Bool, true, false, ◌&&◌, ◌||◌, ◌≡◌, refl, List, [], ◌∷◌, map, leb, ◌==◌,
  if◌then◌else◌,
}

abbrev pub codes : String → List ℕ
codes String.[] = []
codes (String.◌∷◌ c s) = code c ∷ codes s

-- Whether the first list begins with the second.
unfoldable pub begins : List ℕ → List ℕ → Bool
begins s [] = true
begins [] (p ∷ ps) = false
begins (c ∷ s) (p ∷ ps) = c == p && begins s ps

-- `String.prototype.includes`, on code points.
unfoldable pub contains : List ℕ → List ℕ → Bool
unfolding begins
contains [] p = begins [] p
contains (c ∷ s) p = begins (c ∷ s) p || contains s p

unfoldable pub includes : String → String → Bool
unfolding contains
includes s p = contains (codes s) (codes p)

-- A letter of a regular expression under the flag `i`: the letters A to Z count as a to z.
abbrev pub fold_case : ℕ → ℕ
fold_case c = if leb b'A' c && leb c b'Z' then c + 32 else c

-- `s.match(/p/i)`, for a pattern `p` of small letters.
unfoldable pub includes_any_case : String → String → Bool
unfolding contains
includes_any_case s p = contains (map fold_case (codes s)) (codes p)

finds_inside : includes "Error: Timed out waiting" "Timed out" ≡ true
unfolding includes
finds_inside = refl

finds_any_case : includes_any_case "User Rejected" "reject" ≡ true
unfolding includes_any_case
finds_any_case = refl
