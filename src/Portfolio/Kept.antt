-- ===== src/Portfolio/Kept.antt =====
-- What holds of every position holds of those that `groupPositions` shows.
use b1nary_xlayer_hackathon.Prelude.{
  String, Option, none, some, List, [], ◌∷◌, map, All, All-append, find, find-All, Option-cases,
  Bool-cases, inl, inr, any, not,
}
use text.Mathlib.Text.{◌==◌ as str_eq}
use b1nary_xlayer_hackathon.Js.Number.{JsNumber}
use b1nary_xlayer_hackathon.Js.Sort.{All-sort}
use b1nary_xlayer_hackathon.Api.{Position}
use b1nary_xlayer_hackathon.Positions.{contains}
use b1nary_xlayer_hackathon.Portfolio.Grouping.{
  DisplayItem, single, Groups, Pairing, add_to_group, set_group, group_of, place, split_groups,
  items_of_group, items_of, synthetic_id, candidate, pair_step, pair_all, pairing_of, all_items,
  group_positions,
}
use b1nary_xlayer_hackathon.Portfolio.Shown.{positions_of}

module _ {N : Type 0} (P : Position N → Type 0) where
  abbrev AllIn : Groups N → Type 0
  AllIn m = All (λ g. All P g.1) m

  abbrev pub AllOf : DisplayItem N → Type 0
  AllOf i = All P (positions_of i)

  add_to_group-AllIn :
      (key : String) (p : Position N) (m : Groups N) → P p → AllIn m → AllIn (add_to_group key p m)
  unfolding add_to_group
  add_to_group-AllIn key p [] h _ = ((h, tt), tt)
  add_to_group-AllIn key p ((k, ps) ∷ m) h (g, gs) =
      let rest = add_to_group-AllIn key p m h gs in
      elim (Bool-cases (str_eq k key)) [
        | inl e ↦ rw (e, add_to_group) (All-append P ps (p ∷ []) g (h, tt), gs)
        | inr e ↦ rw (e, add_to_group) (g, rest)
      ]

  set_group-AllIn :
      (key : String) (new : List (Position N)) (m : Groups N)
      → All P new
      → AllIn m
      → AllIn (set_group key new m)
  unfolding set_group
  set_group-AllIn key new [] h _ = (h, tt)
  set_group-AllIn key new ((k, ps) ∷ m) h (g, gs) =
      let rest = set_group-AllIn key new m h gs in
      elim (Bool-cases (str_eq k key)) [
        | inl e ↦ rw (e, set_group) (h, gs)
        | inr e ↦ rw (e, set_group) (g, rest)
      ]

  abbrev AllSplit : Groups N × List (Position N) → Type 0
  AllSplit s = AllIn s.0 × All P s.1

  place-AllSplit :
      (p : Position N) (g : Option String) (s : Groups N × List (Position N))
      → P p
      → AllSplit s
      → AllSplit (place p g s)
  place-AllSplit p none (m, us) h (a, b) = (a, All-append P us (p ∷ []) b (h, tt))
  place-AllSplit p (some g) (m, us) h (a, b) = (add_to_group-AllIn g p m h a, b)

  split_groups-AllSplit :
      (ps : List (Position N)) (s : Groups N × List (Position N))
      → All P ps
      → AllSplit s
      → AllSplit (split_groups ps s)
  unfolding split_groups
  split_groups-AllSplit [] s _ h = h
  split_groups-AllSplit (p ∷ ps) s (q, qs) h =
      split_groups-AllSplit ps (place p (group_of p) s) qs (place-AllSplit p (group_of p) s q h)

  singles-AllOf : (ps : List (Position N)) → All P ps → All AllOf (map single ps)
  singles-AllOf [] _ = tt
  singles-AllOf (p ∷ ps) (h, hs) = ((h, tt), singles-AllOf ps hs)

  items_of_group-AllOf :
      (key : String) (ps : List (Position N)) → All P ps → All AllOf (items_of_group (key, ps))
  unfolding items_of_group
  items_of_group-AllOf key ps h = elim (Bool-cases (any (λ p. p.is_put) ps)) [
    | inl a ↦ elim (Bool-cases (any (λ p. not p.is_put) ps)) [
      | inl b ↦ rw (a, b, items_of_group) (h, tt)
      | inr b ↦ rw (a, b, items_of_group) (singles-AllOf ps h)
    ]
    | inr a ↦ rw (a, items_of_group) (singles-AllOf ps h)
  ]

  items_of-AllOf : (m : Groups N) → AllIn m → All AllOf (items_of m)
  unfolding items_of
  items_of-AllOf [] _ = tt
  items_of-AllOf ((key, ps) ∷ m) (h, hs) =
      All-append AllOf (items_of_group (key, ps)) (items_of m) (items_of_group-AllOf key ps h)
        (items_of-AllOf m hs)

module _ {N : Type 0} ⦃js : JsNumber N⦄ (P : Position N → Type 0) where
  abbrev AllPaired : Pairing N → Type 0
  AllPaired s = AllIn P s.grouped × All P s.remaining

  pair_step-AllPaired :
      (us : List (Position N)) (p : Position N) (s : Pairing N)
      → All P us
      → P p
      → AllPaired s
      → AllPaired (pair_step us p s)
  unfolding pair_step
  pair_step-AllPaired us p s hs h (a, b) = elim (Bool-cases (contains s.used p.id)) [
    | inl e ↦ rw (e, pair_step) (a, b)
    | inr e ↦ elim (Option-cases (find (candidate s.used p) us)) [
      | inl f ↦ rw (e, f, pair_step) (a, All-append P s.remaining (p ∷ []) b (h, tt))
      | inr (q, f) ↦
          let partner = find-All P (candidate s.used p) us q hs f in
          rw (e, f, pair_step)
            (
              set_group-AllIn P (synthetic_id p.id q.id) (p ∷ q ∷ []) s.grouped (h, (partner, tt))
                  a,
              b,
            )
    ]
  ]

  pair_all-AllPaired :
      (us ps : List (Position N)) (s : Pairing N)
      → All P us
      → All P ps
      → AllPaired s
      → AllPaired (pair_all us ps s)
  unfolding pair_all
  pair_all-AllPaired us [] s hs _ h = h
  pair_all-AllPaired us (p ∷ ps) s hs (q, qs) h =
      pair_all-AllPaired us ps (pair_step us p s) hs qs (pair_step-AllPaired us p s hs q h)

  -- What holds of every position that `groupPositions` is given holds of every position of its items.
  pub All-group_positions : (ps : List (Position N)) → All P ps → All (AllOf P) (group_positions ps)
  unfolding group_positions all_items pairing_of
  All-group_positions ps h =
      let split = split_groups-AllSplit P ps ([], []) h (tt, tt) in
      let us = (split_groups ps ([], [])).1 in
      let (grouped, remaining) = pair_all-AllPaired us us _ split.1 split.1 (split.0, tt) in
      All-sort _ (AllOf P) (all_items ps)
        (All-append (AllOf P) _ _ (items_of-AllOf P _ grouped) (singles-AllOf P _ remaining))
