-- ===== src/Portfolio/Conservation.antt =====
-- What `groupPositions` shows: every position, and none twice.
use b1nary_xlayer_hackathon.Prelude.{
  ◌+◌, ◌≡◌, refl, sym, subst, ap, ◌∙◌, String, Bool, false, ◌||◌, List, [], ◌∷◌, any, keep, map,
  total-append, tally, All, All-map, All-keep, any-All, All-any, inl, inr, arith, Bool-cases,
}
use b1nary_xlayer_hackathon.Js.Number.{JsNumber, HasDistance}
use b1nary_xlayer_hackathon.Js.Sort.{total-sort}
use b1nary_xlayer_hackathon.Api.{Position}
use b1nary_xlayer_hackathon.Positions.Dedupe.{has_id, IsDistinct}
use b1nary_xlayer_hackathon.Portfolio.Grouping.{
  pairing_of, single, Groups, Pairing, split_groups, synthetic_id, pair_all, items_of, all_items,
  group_positions,
}
use b1nary_xlayer_hackathon.Portfolio.Pairing.{waiting, members, has_key}
use b1nary_xlayer_hackathon.Portfolio.Turn.{one_key, IsApart, IsFree}
use b1nary_xlayer_hackathon.Portfolio.Loop.{pair_all-accounted}
use b1nary_xlayer_hackathon.Portfolio.Shown.{
  positions_of, shown, ungrouped, in_group, tally-split_groups, split_groups-ungrouped,
  split_groups-has_key, tally-singles, tally-items_of,
}

module _ {N : Type 0} ⦃js : JsNumber N⦄ where
  abbrev key_clash : List (Position N) → Position N → Position N → Position N → Bool
  key_clash ps x y p = in_group (synthetic_id x.id y.id) p || any (one_key x y p) ps

  -- The key of a pair of these positions is the group of one of them, or the key of a pair with another
  -- first position.
  unfoldable pub clashes : List (Position N) → Bool
  clashes ps = any (λ x. any (λ y. any (key_clash ps x y) ps) ps) ps

  abbrev IsClear : List (Position N) → List (Position N) → Type 0
  IsClear ps qs = All (λ x. All (λ y. any (key_clash ps x y) ps ≡ false) qs) qs

  clashes-IsClear : (ps : List (Position N)) → clashes ps ≡ false → IsClear ps ps
  unfolding clashes
  clashes-IsClear ps h =
      All-map _ _ ps (λ x e. any-All (λ y. any (key_clash ps x y) ps) ps e)
        (any-All (λ x. any (λ y. any (key_clash ps x y) ps) ps) ps h)

  module _ (ps : List (Position N)) (clear : IsClear ps ps) where
    IsApart-ungrouped : IsApart (keep ungrouped ps)
    IsApart-ungrouped =
        All-keep _ _ ungrouped ps
          (λ x.
            All-keep _ _ ungrouped ps
              (λ y e. All-keep _ _ ungrouped ps (row x y) (any-All (key_clash ps x y) ps e)))
          clear
      where
        row :
            (x y p : Position N)
            → key_clash ps x y p ≡ false
            → All (λ q. one_key x y p q ≡ false) (keep ungrouped ps)
        row x y p h =
            All-keep _ _ ungrouped ps (λ q e. e) (any-All (one_key x y p) ps (ground arith))

    IsFree-ungrouped : IsFree (split_groups ps ([], [])).0 (keep ungrouped ps) (keep ungrouped ps)
    IsFree-ungrouped =
        All-keep _ _ ungrouped ps (λ x. All-keep _ _ ungrouped ps (λ y. free x y)) clear
      where
        free :
            (x y : Position N)
            → any (key_clash ps x y) ps ≡ false
            → has_key (synthetic_id x.id y.id) (split_groups ps ([], [])).0 ≡ false
        free x y e = split_groups-has_key (synthetic_id x.id y.id) ps [] [] refl (
            All-any _ ps (
              All-map (λ p. key_clash ps x y p ≡ false) _ ps (λ p h. ground arith)
                (any-All (key_clash ps x y) ps e)))

  has_id-keep :
      (f : Position N → Bool) (id : String) (ps : List (Position N))
      → any (has_id id) ps ≡ false
      → any (has_id id) (keep f ps) ≡ false
  has_id-keep f id [] h = refl
  has_id-keep f id (p ∷ ps) h = let rest = has_id-keep f id ps in ground (arith, rest)

  pub IsDistinct-keep :
      (f : Position N → Bool) (ps : List (Position N)) → IsDistinct ps → IsDistinct (keep f ps)
  unfolding IsDistinct
  IsDistinct-keep f [] d = tt
  IsDistinct-keep f (p ∷ ps) (new, d) =
      let rest = IsDistinct-keep f ps d in
      elim (Bool-cases (f p)) [
        | inl e ↦ rw (e, keep, IsDistinct) (has_id-keep f p.id ps new, rest)
        | inr e ↦ rw (e, keep) rest
      ]

  abbrev opening : Groups N → Pairing N
  opening m = record { grouped = m; remaining = []; used = [] }

  keep-waiting_all : (ps : List (Position N)) → keep (waiting []) ps ≡ ps
  keep-waiting_all [] = refl
  keep-waiting_all (p ∷ ps) = ap (λ qs. p ∷ qs) (keep-waiting_all ps)

  tally-pair_all :
      HasDistance N
      → (us : List (Position N)) (m : Groups N) → IsDistinct us
      → IsApart us
      → IsFree m us us
      → (b : Position N → Bool)
      → let s = pair_all us us (opening m) in
        tally b (members s.grouped) + tally b s.remaining ≡ tally b (members m) + tally b us
  tally-pair_all laws us m distinct apart free b =
      let all = pair_all-accounted laws us [] us (opening m) refl distinct apart (tt, free) b in
      let first = ap (tally b) (keep-waiting_all us) in omega (arith, all, first)

  pub tally-all_items :
      HasDistance N
      → (ps : List (Position N)) → IsDistinct ps
      → clashes ps ≡ false
      → (b : Position N → Bool) → shown b (all_items ps) ≡ tally b ps
  unfolding all_items pairing_of
  tally-all_items laws ps distinct clear b =
      let e = sym (split_groups-ungrouped ps [] []) in
      let pairs =
        tally-pair_all laws us m (subst IsDistinct e (IsDistinct-keep ungrouped ps distinct))
          (subst IsApart e (IsApart-ungrouped ps (clashes-IsClear ps clear)))
          (subst (λ us. IsFree m us us) e (IsFree-ungrouped ps (clashes-IsClear ps clear))) b in
      let split = tally-split_groups b ps [] [] in
      let items = tally-items_of b s.grouped in
      let last = tally-singles b s.remaining in
      let all =
        total-append (λ i. tally b (positions_of i)) (items_of s.grouped)
          (map single s.remaining) in
      omega (arith, pairs, split, items, last, all)
    where
      m : Groups N
      m = (split_groups ps ([], [])).0

      us : List (Position N)
      us = (split_groups ps ([], [])).1

      s : Pairing N
      s = pair_all us us (opening m)

  -- With numbers that satisfy these laws, positions of distinct ids, and no two pairs of them under one
  -- key, `groupPositions` shows every position exactly once: of any kind of position, as many stand in
  -- the items as were given.
  pub tally-group_positions :
      HasDistance N
      → (ps : List (Position N)) → IsDistinct ps
      → clashes ps ≡ false
      → (b : Position N → Bool) → shown b (group_positions ps) ≡ tally b ps
  unfolding group_positions
  tally-group_positions laws ps distinct clear b =
      total-sort _ (λ i. tally b (positions_of i)) (all_items ps)
      ∙ tally-all_items laws ps distinct clear b
