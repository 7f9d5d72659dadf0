-- ===== src/Portfolio/Rows.antt =====
-- Every item that the page of positions hands to the table has its row.
use b1nary_xlayer_hackathon.Prelude.{
  ◌≡◌, refl, String, Bool, true, false, not, some, List, [], ◌∷◌, any, find, map, All-map, All-any,
  ℕ, zero, suc, All, All-append, inl, inr, Bool-cases, Option-cases, find-any, arith,
}
use b1nary_xlayer_hackathon.Js.Error.{ok}
use b1nary_xlayer_hackathon.Js.Number.{JsNumber}
use b1nary_xlayer_hackathon.Js.Sort.{sort, All-sort}
use b1nary_xlayer_hackathon.Api.{Position}
use b1nary_xlayer_hackathon.Portfolio.Grouping.{
  DisplayItem, single, range, Groups, items_of_group, items_of, pairing_of, all_items,
  group_positions,
}
use b1nary_xlayer_hackathon.Portfolio.Log.{
  RangeRow, take, lacks_legs, log_time, sorted_items, shorten, visible_items, row_of, range_row,
}

module _ {N : Type 0} ⦃js : JsNumber N⦄ where
  open js use {num, sub, lt}

  -- The item has a row with something in it.
  abbrev pub HasRow : DisplayItem N → Type 0
  HasRow (single p) = Unit
  HasRow (range ps key) = (row : RangeRow N) × (range_row ps ≡ some row)

  both-HasRow :
      (ps : List (Position N)) (key : String)
      → any (λ p. p.is_put) ps ≡ true
      → any (λ p. not p.is_put) ps ≡ true
      → HasRow (range ps key)
  unfolding range_row
  both-HasRow ps key a b = elim (Option-cases (find (λ p. p.is_put) ps)) [
    | inl e ↦ let n = find-any _ ps e in ground (arith, n)
    | inr (p, e) ↦ elim (Option-cases (find (λ p. not p.is_put) ps)) [
      | inl f ↦ let n = find-any _ ps f in ground (arith, n)
      | inr (c, f) ↦ (row_of p c, rw (range_row, e, f) refl)
    ]
  ]

  singles-HasRow : (ps : List (Position N)) → All HasRow (map single ps)
  singles-HasRow [] = tt
  singles-HasRow (p ∷ ps) = (tt, singles-HasRow ps)

  items_of_group-HasRow :
      (key : String) (ps : List (Position N)) → All HasRow (items_of_group (key, ps))
  unfolding items_of_group
  items_of_group-HasRow key ps = elim (Bool-cases (any (λ p. p.is_put) ps)) [
    | inl a ↦ elim (Bool-cases (any (λ p. not p.is_put) ps)) [
      | inl b ↦ rw (a, b, items_of_group) (both-HasRow ps key a b, tt)
      | inr b ↦ rw (a, b, items_of_group) (singles-HasRow ps)
    ]
    | inr a ↦ rw (a, items_of_group) (singles-HasRow ps)
  ]

  items_of-HasRow : (m : Groups N) → All HasRow (items_of m)
  unfolding items_of
  items_of-HasRow [] = tt
  items_of-HasRow ((key, ps) ∷ m) =
      All-append HasRow (items_of_group (key, ps)) (items_of m) (items_of_group-HasRow key ps)
        (items_of-HasRow m)

  pub group_positions-HasRow : (ps : List (Position N)) → All HasRow (group_positions ps)
  unfolding group_positions all_items
  group_positions-HasRow ps = All-sort _ HasRow (all_items ps) (
      All-append HasRow (items_of (pairing_of ps).grouped) (map single (pairing_of ps).remaining)
        (items_of-HasRow (pairing_of ps).grouped) (singles-HasRow (pairing_of ps).remaining))

  no_legs : (i : DisplayItem N) → HasRow i → lacks_legs i ≡ false
  unfolding range_row
  no_legs (single p) h = refl
  no_legs (range [] key) (row, e) = cc
  no_legs (range (p ∷ ps) key) h = refl

  All-take : (n : ℕ) (is : List (DisplayItem N)) → All HasRow is → All HasRow (take n is)
  All-take zero is h = tt
  All-take (suc n) [] h = tt
  All-take (suc n) (i ∷ is) (h, hs) = (h, All-take n is hs)

  All-shorten :
      (show_all : Bool) (is : List (DisplayItem N))
      → All HasRow is
      → All HasRow (shorten show_all is)
  All-shorten true is h = h
  All-shorten false is h = All-take 5 is h

  -- The items of any positions are shown by the table without an exception, and every range that is
  -- shown has a put leg and a call leg, so that its row is not empty.
  pub visible_items-HasRow :
      (show_all : Bool) (ps : List (Position N))
      → (shown : List (DisplayItem N)) × (visible_items show_all (group_positions ps) ≡ ok shown)
        × All HasRow shown
  unfolding visible_items sorted_items
  visible_items-HasRow show_all ps =
      let rows = group_positions-HasRow ps in
      let legs =
        All-any lacks_legs (group_positions ps)
          (All-map HasRow _ (group_positions ps) no_legs rows) in
      let sorted = All-sort by_log_time HasRow (group_positions ps) rows in
      (
        shorten show_all (sort by_log_time (group_positions ps)),
        rw (legs, visible_items, sorted_items) refl,
        All-shorten show_all _ sorted,
      )
    where
      by_log_time : DisplayItem N → DisplayItem N → Bool
      by_log_time a b = lt (num 0) (sub (log_time b) (log_time a))
