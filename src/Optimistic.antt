-- ===== src/Optimistic.antt =====
-- The positions that are shown before the backend has indexed them: the session storage of
-- frontend/src/lib/optimisticPositions.ts, and the hook of
-- frontend/src/hooks/useOptimisticPositions.ts. `JSON` and `toLowerCase` are parameters.
pub mod Reconcile
use text.Mathlib.Text.{◌==◌ as str_eq}
use b1nary_xlayer_hackathon.Prelude.{
  String, Bool, true, false, not, ◌&&◌, Option, none, some, List, [], ◌∷◌, ◌++◌, any, keep,
  if◌then◌else◌,
}
use b1nary_xlayer_hackathon.Js.Error.{error, Try, ok, throws}
use b1nary_xlayer_hackathon.Js.Number.{JsNumber}
use b1nary_xlayer_hackathon.Api.{Position}

-- `JSON.stringify` and `JSON.parse` on lists of positions, and whether `setItem` has room for a text.
pub record Storage (N : Type 0) : Type 0 where
  pub stringify : List (Position N) → String
  pub parse_list : String → Try (List (Position N))
  pub has_room : String → Bool

-- The item under the key.
abbrev pub Item : Type 0
Item = Option String

module _ {N : Type 0} where
  unfoldable pub get_all_optimistic : Storage N → Item → List (Position N)
  get_all_optimistic st none = []
  get_all_optimistic st (some raw) =
      if str_eq raw "" then [] else elim (st.parse_list raw) [ ok ps ↦ ps | throws e ↦ [] ]

  unfoldable pub set_item : Storage N → List (Position N) → Item → Try (Unit {0}) × Item
  set_item st ps item =
      if st.has_room (st.stringify ps)
      then (ok tt, some (st.stringify ps))
      else (throws (error "QuotaExceededError"), item)

  unfoldable pub save_optimistic : Storage N → Position N → Item → Try (Unit {0}) × Item
  unfolding get_all_optimistic set_item
  save_optimistic st pos item = set_item st (get_all_optimistic st item ++ (pos ∷ [])) item

  unfoldable pub remove_optimistic : Storage N → String → Item → Try (Unit {0}) × Item
  unfolding get_all_optimistic set_item
  remove_optimistic st id item =
      set_item st (keep (λ p. not (str_eq p.id id)) (get_all_optimistic st item)) item

module _ {N : Type 0} ⦃js : JsNumber N⦄ (lower : String → String) where
  open js use {num, dec, sub, div, abs, max, lt}

  -- The same option, sold or bought by the same user.
  abbrev pub same_option : Position N → Position N → Bool
  same_option real opt =
      str_eq (lower real.otoken_address) (lower opt.otoken_address)
      && str_eq (lower real.user_address) (lower opt.user_address)

  abbrev pub close_amount : Position N → Position N → Bool
  close_amount real opt =
      lt (div (abs (sub real.amount opt.amount)) (max opt.amount (num 1))) (dec 1 2)

  -- The callback of `filter` in `removeMatchingOptimistic`.
  abbrev pub unmatched : List (Position N) → Position N → Bool
  unmatched reals opt = not (any (λ real. same_option real opt && close_amount real opt) reals)

  unfoldable pub remove_matching_optimistic :
      Storage N → List (Position N) → Item → Try (Unit {0}) × Item
  unfolding get_all_optimistic set_item
  remove_matching_optimistic st reals item =
      set_item st (keep (unmatched reals) (get_all_optimistic st item)) item

  -- The callback of `filter` in the hook.
  abbrev pub unhidden : List (Position N) → Position N → Bool
  unhidden reals opt = not (any (λ real. same_option real opt) reals)

  -- What `useOptimisticPositions` returns.
  unfoldable pub merged : List (Position N) → List (Position N) → List (Position N)
  merged optimistic reals = keep (unhidden reals) optimistic ++ reals

  abbrev is_empty : List (Position N) → Bool
  is_empty [] = true
  is_empty (p ∷ ps) = false

  abbrev after_removal :
      Storage N → List (Position N) → Try (Unit {0}) × Item → List (Position N) × Item
  after_removal st optimistic (ok _, item) = (get_all_optimistic st item, item)
  after_removal st optimistic (throws _, item) = (optimistic, item)

  -- The second effect of the hook, on its state and the item. If `setItem` throws, the state stays.
  unfoldable pub reconcile :
      Storage N → List (Position N) → List (Position N) × Item → List (Position N) × Item
  unfolding remove_matching_optimistic
  reconcile st reals (optimistic, item) =
      if not (is_empty reals) && not (is_empty optimistic)
      then after_removal st optimistic (remove_matching_optimistic st reals item)
      else (optimistic, item)
