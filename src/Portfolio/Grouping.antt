-- ===== src/Portfolio/Grouping.antt =====
-- `groupPositions` of frontend/src/app/positions/page.tsx: the legs of a range are shown as one item.
use Prim.Native.String.{◌++◌ as append}
use text.Mathlib.Text.{◌==◌ as str_eq}
use b1nary_xlayer_hackathon.Prelude.{
  String, Bool, true, false, not, ◌&&◌, Option, none, some, List, [], ◌∷◌, ◌++◌, any, find, map,
  if◌then◌else◌,
}
use b1nary_xlayer_hackathon.Js.Number.{JsNumber}
use b1nary_xlayer_hackathon.Js.Sort.{sort}
use b1nary_xlayer_hackathon.Api.{Position}
use b1nary_xlayer_hackathon.PositionMath.{get_position_strike}
use b1nary_xlayer_hackathon.Positions.{contains}

pub data DisplayItem (N : Type 0) : Type 0 where
  single : Position N → DisplayItem N
  range : List (Position N) → String → DisplayItem N

-- `Map<string, Position[]>`, in the order of insertion.
abbrev pub Groups : Type 0 → Type 0
Groups N = List (String × List (Position N))

-- What the loop that pairs positions changes.
pub record Pairing (N : Type 0) : Type 0 where
  pub grouped : Groups N
  pub remaining : List (Position N)
  pub used : List String

abbrev pub negated : Bool → Bool → Bool
negated true b = not b
negated false b = b

abbrev pub synthetic_id : String → String → String
synthetic_id a b = append "heuristic-" (append a (append "-" b))

module _ {N : Type 0} where
  -- `grouped.set(key, [...(grouped.get(key) || []), pos])`
  unfoldable pub add_to_group : String → Position N → Groups N → Groups N
  add_to_group key pos [] = (key, pos ∷ []) ∷ []
  add_to_group key pos ((k, ps) ∷ m) =
      let rest = add_to_group key pos m in
      if str_eq k key then (k, ps ++ (pos ∷ [])) ∷ m else (k, ps) ∷ rest

  -- `grouped.set(key, ps)`
  unfoldable pub set_group : String → List (Position N) → Groups N → Groups N
  set_group key new [] = (key, new) ∷ []
  set_group key new ((k, ps) ∷ m) =
      let rest = set_group key new m in if str_eq k key then (k, new) ∷ m else (k, ps) ∷ rest

  -- A group id that is neither missing nor empty.
  abbrev pub group_of : Position N → Option String
  group_of p = elim p.group_id [ none ↦ none | some g ↦ if str_eq g "" then none else some g ]

  -- One turn of the first loop, by the position's group.
  abbrev pub place :
      Position N → Option String → Groups N × List (Position N) → Groups N × List (Position N)
  place p none (grouped, ungrouped) = (grouped, ungrouped ++ (p ∷ []))
  place p (some g) (grouped, ungrouped) = (add_to_group g p grouped, ungrouped)

  unfoldable pub split_groups :
      List (Position N) → Groups N × List (Position N) → Groups N × List (Position N)
  unfolding add_to_group
  split_groups [] s = s
  split_groups (p ∷ ps) s = split_groups ps (place p (group_of p) s)

  abbrev singles : List (Position N) → List (DisplayItem N)
  singles ps = map single ps

  -- The items of a group: one range, if it has both sides.
  unfoldable pub items_of_group : String × List (Position N) → List (DisplayItem N)
  items_of_group (key, group) =
      if any (λ p. p.is_put) group && any (λ p. not p.is_put) group
      then range group key ∷ []
      else singles group

  unfoldable pub items_of : Groups N → List (DisplayItem N)
  unfolding items_of_group
  items_of [] = []
  items_of (g ∷ m) = items_of_group g ++ items_of m

module _ {N : Type 0} ⦃js : JsNumber N⦄ where
  open js use {num, sub, abs, lt, le, max, same, parse_date, minus_infinity}

  abbrev pub time : Position N → N
  time p = parse_date p.indexed_at

  unfoldable pub infer_asset : Position N → String
  infer_asset p =
      let by_strike =
        if lt (num 10_000) (get_position_strike p)
        then "btc"
        else if lt (get_position_strike p) (num 500)
        then "sol"
        else "eth" in
      elim p.asset [ none ↦ by_strike | some a ↦ if str_eq a "" then by_strike else a ]

  -- Two legs of a range: the other sides of one expiry and asset, indexed within a minute.
  unfoldable pub alike : Position N → Position N → Bool
  unfolding infer_asset
  alike pos other =
      negated other.is_put pos.is_put
      && same other.expiry pos.expiry
      && str_eq (infer_asset other) (infer_asset pos)
      && le (abs (sub (time other) (time pos))) (num 60_000)

  -- The callback of `find`.
  abbrev pub candidate : List String → Position N → Position N → Bool
  candidate used pos other =
      not (str_eq other.id pos.id) && not (contains used other.id) && alike pos other

  abbrev pub paired : Position N → Option (Position N) → Pairing N → Pairing N
  paired pos (some match) s = record {
    grouped = set_group (synthetic_id pos.id match.id) (pos ∷ match ∷ []) s.grouped;
    remaining = s.remaining;
    used = match.id ∷ pos.id ∷ s.used;
  }
  paired pos none s = record s { remaining = s.remaining ++ (pos ∷ []) }

  -- One turn of the second loop.
  unfoldable pub pair_step : List (Position N) → Position N → Pairing N → Pairing N
  unfolding set_group alike
  pair_step ungrouped pos s =
      if contains s.used pos.id then s else paired pos (find (candidate s.used pos) ungrouped) s

  unfoldable pub pair_all : List (Position N) → List (Position N) → Pairing N → Pairing N
  unfolding pair_step
  pair_all ungrouped [] s = s
  pair_all ungrouped (p ∷ ps) s = pair_all ungrouped ps (pair_step ungrouped p s)

  abbrev pub latest : List (Position N) → N
  latest [] = minus_infinity
  latest (p ∷ ps) = max (time p) (latest ps)

  abbrev pub item_time : DisplayItem N → N
  item_time (single p) = time p
  item_time (range ps key) = latest ps

  -- Both loops over the positions.
  unfoldable pub pairing_of : List (Position N) → Pairing N
  unfolding split_groups pair_all
  pairing_of positions =
      let (grouped, ungrouped) = split_groups positions ([], []) in
      pair_all ungrouped ungrouped (record { grouped = grouped; remaining = []; used = [] })

  -- All items, before they are sorted.
  unfoldable pub all_items : List (Position N) → List (DisplayItem N)
  unfolding pairing_of items_of
  all_items positions = let s = pairing_of positions in items_of s.grouped ++ singles s.remaining

  unfoldable pub group_positions : List (Position N) → List (DisplayItem N)
  unfolding all_items sort
  group_positions positions =
      sort (λ a b. lt (num 0) (sub (item_time b) (item_time a))) (all_items positions)
