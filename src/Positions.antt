-- ===== src/Positions.antt =====
-- `usePositions` of frontend/src/hooks/usePositions.ts: the positions of the accounts, each once.
pub mod Dedupe
use text.Mathlib.Text.{◌==◌ as str_eq}
use b1nary_xlayer_hackathon.Prelude.{
  String, Bool, true, false, not, ◌&&◌, Option, none, some, List, [], ◌∷◌, ◌++◌, any, if◌then◌else◌,
}
use b1nary_xlayer_hackathon.Js.Error.{JsError, Try, ok, throws, message}
use b1nary_xlayer_hackathon.Api.{Position}

-- The state of the hook.
pub record Loaded (N : Type 0) : Type 0 where
  pub positions : List (Position N)
  pub loading : Bool
  pub error : Option String

abbrev pub contains : List String → String → Bool
contains seen id = any (λ s. str_eq s id) seen

-- An account that is neither missing nor empty.
abbrev pub account : Option String → Option String
account none = none
account (some a) = if str_eq a "" then none else some a

module _ {N : Type 0} where
  -- The filter with its set of ids that have been seen.
  unfoldable pub dedupe : List String → List (Position N) → List (Position N)
  dedupe seen [] = []
  dedupe seen (p ∷ ps) = elim (contains seen p.id) [
    | true ↦ dedupe seen ps
    | false ↦ p ∷ dedupe (p.id ∷ seen) ps
  ]

  -- `Promise.all` of two queries, and `flat`. If both fail, the error is that of the one that fails
  -- first.
  unfoldable pub all_of_two :
      Bool → Try (List (Position N)) → Try (List (Position N)) → Try (List (Position N))
  all_of_two second_first (ok xs) (ok ys) = ok (xs ++ ys)
  all_of_two second_first (ok xs) (throws f) = throws f
  all_of_two second_first (throws e) (ok ys) = throws e
  all_of_two second_first (throws e) (throws f) = throws (if second_first then f else e)

  -- The `try` block behind its queries, the `catch` block, and `finally`.
  unfoldable pub settle : String → Try (List (Position N)) → Loaded N → Loaded N
  unfolding dedupe
  settle aggregate_text (ok merged) s = record {
    positions = dedupe [] merged;
    loading = false;
    error = none;
  }
  settle aggregate_text (throws e) s = record s {
    loading = false;
    error = some (message aggregate_text e);
  }

  module _ (get_positions : String → Try (List (Position N))) (second_first : Bool) where
    -- What the queries bring.
    unfoldable pub fetched : Option String → Option String → Try (List (Position N))
    unfolding all_of_two
    fetched none none = ok []
    fetched none (some b) = get_positions b
    fetched (some a) none = get_positions a
    fetched (some a) (some b) =
        if str_eq b a
        then get_positions a
        else all_of_two second_first (get_positions a) (get_positions b)

    unfoldable pub refresh_accounts : String → Option String → Option String → Loaded N → Loaded N
    unfolding fetched settle
    refresh_accounts aggregate_text none none s = record s { positions = []; loading = false }
    refresh_accounts aggregate_text none (some b) s =
        settle aggregate_text (fetched none (some b)) s
    refresh_accounts aggregate_text (some a) b s = settle aggregate_text (fetched (some a) b) s

    unfoldable pub refresh : String → Option String → Option String → Loaded N → Loaded N
    unfolding refresh_accounts
    refresh aggregate_text address funding_address s =
        refresh_accounts aggregate_text (account address) (account funding_address) s
