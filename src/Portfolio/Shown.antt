-- ===== src/Portfolio/Shown.antt =====
-- What the loops of `groupPositions` over the groups keep.
use mathlib.Core.List.{append_assoc, append-nil}
use text.Mathlib.Text.{◌==◌ as str_eq}
use b1nary_xlayer_hackathon.Prelude.{
  ℕ, ◌+◌, ◌≡◌, refl, sym, ◌∙◌, String, Bool, true, false, none, some, List, [], ◌∷◌, ◌++◌, any,
  keep, map, total, total-append, tally, tally-append, inl, inr, arith, Option-cases,
}
use b1nary_xlayer_hackathon.Api.{Position}
use b1nary_xlayer_hackathon.Portfolio.Grouping.{
  DisplayItem, single, range, Groups, add_to_group, group_of, place, split_groups, items_of_group,
  items_of,
}
use b1nary_xlayer_hackathon.Portfolio.Pairing.{
  members, has_key, members-add_to_group, has_key-add_to_group,
}

module _ {N : Type 0} where
  -- The positions of the items.
  abbrev pub positions_of : DisplayItem N → List (Position N)
  positions_of (single p) = p ∷ []
  positions_of (range ps key) = ps

  -- On how many of the shown positions the test passes.
  abbrev pub shown : (Position N → Bool) → List (DisplayItem N) → ℕ
  shown b = total (λ i. tally b (positions_of i))

  abbrev pub ungrouped : Position N → Bool
  ungrouped p = elim (group_of p) [ none ↦ true | some g ↦ false ]

  abbrev pub in_group : String → Position N → Bool
  in_group k p = elim (group_of p) [ none ↦ false | some g ↦ str_eq g k ]

  pub tally-split_groups :
      (b : Position N → Bool) (ps : List (Position N)) (m : Groups N) (u : List (Position N))
      → tally b (members (split_groups ps (m, u)).0) + tally b (split_groups ps (m, u)).1
        ≡ (tally b (members m) + tally b u) + tally b ps
  unfolding split_groups
  tally-split_groups b [] m u = omega arith
  tally-split_groups b (p ∷ ps) m u = elim (Option-cases (group_of p)) [
    | inl e ↦
        let rest = tally-split_groups b ps m (u ++ (p ∷ [])) in
        let one = tally-append b u (p ∷ []) in
        rw (e, split_groups, place) (ground (arith, rest, one))
    | inr (g, e) ↦
        let rest = tally-split_groups b ps (add_to_group g p m) u in
        let one = members-add_to_group b g p m in
        rw (e, split_groups, place) (ground (arith, rest, one))
  ]

  pub split_groups-ungrouped :
      (ps : List (Position N)) (m : Groups N) (u : List (Position N))
      → (split_groups ps (m, u)).1 ≡ u ++ keep ungrouped ps
  unfolding split_groups
  split_groups-ungrouped [] m u = sym (append-nil u)
  split_groups-ungrouped (p ∷ ps) m u = elim (Option-cases (group_of p)) [
    | inl e ↦
        rw (e, split_groups, place, keep, ungrouped)
          (split_groups-ungrouped ps m (u ++ (p ∷ []))
            ∙ append_assoc u (p ∷ []) (keep ungrouped ps))
    | inr (g, e) ↦
        rw (e, split_groups, place, keep, ungrouped)
          (split_groups-ungrouped ps (add_to_group g p m) u)
  ]

  pub split_groups-has_key :
      (k : String) (ps : List (Position N)) (m : Groups N) (u : List (Position N))
      → has_key k m ≡ false
      → any (in_group k) ps ≡ false
      → has_key k (split_groups ps (m, u)).0 ≡ false
  unfolding split_groups
  split_groups-has_key k [] m u h n = h
  split_groups-has_key k (p ∷ ps) m u h n = elim (Option-cases (group_of p)) [
    | inl e ↦
        rw (e, split_groups, place) (split_groups-has_key k ps m (u ++ (p ∷ [])) h (ground (arith)))
    | inr (g, e) ↦
        let one = has_key-add_to_group k g p m in
        rw (e, split_groups, place)
          (split_groups-has_key k ps (add_to_group g p m) u (ground (arith, one)) (ground (arith)))
  ]

  pub tally-singles :
      (b : Position N → Bool) (ps : List (Position N)) → shown b (map single ps) ≡ tally b ps
  tally-singles b [] = refl
  tally-singles b (p ∷ ps) = let rest = tally-singles b ps in ground (arith, rest)

  tally-items_of_group :
      (b : Position N → Bool) (k : String) (ps : List (Position N))
      → shown b (items_of_group (k, ps)) ≡ tally b ps
  unfolding items_of_group
  tally-items_of_group b k ps = let rest = tally-singles b ps in ground (arith, rest)

  pub tally-items_of :
      (b : Position N → Bool) (m : Groups N) → shown b (items_of m) ≡ tally b (members m)
  unfolding items_of
  tally-items_of b [] = refl
  tally-items_of b ((k, ps) ∷ m) =
      let one = tally-items_of_group b k ps in
      let all =
        total-append (λ i. tally b (positions_of i)) (items_of_group (k, ps)) (items_of m) in
      let both = tally-append b ps (members m) in
      let rest = tally-items_of b m in omega (arith, one, all, both, rest)
