-- ===== src/Cards/Sections.antt =====
-- What the page of positions shows in its two sections.
use b1nary_xlayer_hackathon.Prelude.{
  ◌≡◌, refl, String, Bool, true, false, not, none, some, List, [], ◌∷◌, find, keep, tally, find-All,
  All, All-kept, Option-cases, inl, inr, arith,
}
use b1nary_xlayer_hackathon.Js.Number.{JsNumber, HasDistance}
use b1nary_xlayer_hackathon.Api.{Position}
use b1nary_xlayer_hackathon.Positions.Dedupe.{IsDistinct}
use b1nary_xlayer_hackathon.Portfolio.Grouping.{DisplayItem, single, range, group_positions}
use b1nary_xlayer_hackathon.Portfolio.Shown.{shown}
use b1nary_xlayer_hackathon.Portfolio.Conservation.{clashes, IsDistinct-keep, tally-group_positions}
use b1nary_xlayer_hackathon.Portfolio.Log.{range_row}
use b1nary_xlayer_hackathon.Portfolio.Rows.{HasRow, group_positions-HasRow}
use b1nary_xlayer_hackathon.Portfolio.Kept.{AllOf, All-group_positions}
use b1nary_xlayer_hackathon.Cards.One.{active, part_of}
use b1nary_xlayer_hackathon.Cards.Two.{RangeCard, card_of, range_card}
use b1nary_xlayer_hackathon.Cards.Page.{
  PageProps, PageView, connect_wallet, no_positions, skeleton, sections, active_items,
  history_items, page_view, range_props,
}

module _ {N : Type 0} ⦃js : JsNumber N⦄ where
  -- Where the page puts the positions of a list: of each kind `b`, the items of the active section hold
  -- as many as there are active ones, and the items of the table as many as there are settled ones. A
  -- page without its sections has no connected wallet, nothing loaded, or no position.
  abbrev pub Places :
      (is_connected loading : Bool) → List (Position N) → (Position N → Bool) → PageView N → Type 0
  Places is_connected loading ps b connect_wallet = is_connected ≡ false
  Places is_connected loading ps b no_positions = ps ≡ []
  Places is_connected loading ps b skeleton = loading ≡ true
  Places is_connected loading ps b (sections a h) =
      (shown b a ≡ tally b (keep (λ p. not p.is_settled) ps))
      × (shown b h ≡ tally b (keep (λ p. p.is_settled) ps))

  sections-placed :
      HasDistance N
      → (ps : List (Position N)) → IsDistinct ps
      → clashes (keep (λ p. not p.is_settled) ps) ≡ false
      → clashes (keep (λ p. p.is_settled) ps) ≡ false
      → (b : Position N → Bool)
      → (shown b (active_items ps) ≡ tally b (keep (λ p. not p.is_settled) ps))
        × (shown b (history_items ps) ≡ tally b (keep (λ p. p.is_settled) ps))
  unfolding active_items history_items
  sections-placed laws ps d c1 c2 b = (
    tally-group_positions laws (keep (λ p. not p.is_settled) ps) (IsDistinct-keep _ ps d) c1 b,
    tally-group_positions laws (keep (λ p. p.is_settled) ps) (IsDistinct-keep _ ps d) c2 b,
  )

  -- With numbers that satisfy these laws, positions of distinct ids, and no two pairs under one key
  -- among the active ones or among the settled ones: if a wallet is connected, the positions are loaded
  -- and there are any, each active position stands in exactly one item of the active section, and each
  -- settled one in exactly one item of the table: of any kind of position, as many as there are. Which
  -- positions of an item its card or its row goes on to show, and how many rows stand open, is not said.
  pub page_view-Places :
      HasDistance N
      → (is_connected loading : Bool) (ps : List (Position N)) → IsDistinct ps
      → clashes (keep (λ p. not p.is_settled) ps) ≡ false
      → clashes (keep (λ p. p.is_settled) ps) ≡ false
      → (b : Position N → Bool)
      → Places is_connected loading ps b (page_view is_connected loading ps)
  unfolding page_view
  page_view-Places laws false loading ps d c1 c2 b = refl
  page_view-Places laws true true ps d c1 c2 b = refl
  page_view-Places laws true false [] d c1 c2 b = refl
  page_view-Places laws true false (p ∷ ps) d c1 c2 b = sections-placed laws (p ∷ ps) d c1 c2 b

  module _ (lower : String → String) (page : PageProps N) where
    -- The item has a card in the active section that shows something: the active part of the card of a
    -- position, or the active part of the card of a range, with both legs.
    abbrev pub HasActiveCard : DisplayItem N → Type 0
    HasActiveCard (single p) = part_of p ≡ active
    HasActiveCard (range [] key) = ⊥
    HasActiveCard (range (p ∷ ps) key) =
        (card : RangeCard N) × (range_card lower (range_props lower page p ps) ≡ some card)
        × (card.is_active ≡ true)

    abbrev IsOpen : Position N → Type 0
    IsOpen p = not p.is_settled ≡ true

    range-HasActiveCard :
        (p : Position N) (ps : List (Position N)) (key : String)
        → HasRow (range (p ∷ ps) key)
        → All IsOpen (p ∷ ps)
        → HasActiveCard (range (p ∷ ps) key)
    unfolding range_row range_card range_props card_of
    range-HasActiveCard p ps key (row, e) all_open =
        elim (Option-cases (find (λ q. q.is_put) (p ∷ ps))) [
          | inl f ↦ let n : none ≡ some row = rw (f, range_row) at e in cc
          | inr (put_leg, f) ↦ elim (Option-cases (find (λ q. not q.is_put) (p ∷ ps))) [
            | inl g ↦ let n : none ≡ some row = rw (f, g, range_row) at e in cc
            | inr (call_leg, g) ↦
                let a = find-All IsOpen (λ q. q.is_put) (p ∷ ps) put_leg all_open f in
                let b = find-All IsOpen (λ q. not q.is_put) (p ∷ ps) call_leg all_open g in
                (
                  card_of lower (range_props lower page p ps) put_leg call_leg,
                  rw (f, g, range_card) refl,
                  ground (arith, a, b),
                )
          ]
        ]

    item-HasActiveCard : (i : DisplayItem N) → HasRow i → AllOf IsOpen i → HasActiveCard i
    unfolding part_of range_row
    item-HasActiveCard (single p) h (o, _) = rw o refl
    item-HasActiveCard (range [] key) (row, e) o = cc
    item-HasActiveCard (range (p ∷ ps) key) h o = range-HasActiveCard p ps key h o

    -- Every item of the active section has a card that shows its active part: no card of the section is
    -- empty, whatever positions there are. So the card of a range with one leg settled and one open,
    -- which would have no part, is never shown.
    pub active_items-HasActiveCard : (ps : List (Position N)) → All HasActiveCard (active_items ps)
    unfolding active_items
    active_items-HasActiveCard ps =
        let chosen = keep (λ p. not p.is_settled) ps in
        items (group_positions chosen) (group_positions-HasRow chosen)
          (All-group_positions IsOpen chosen (All-kept (λ p. not p.is_settled) ps))
      where
        items :
            (is : List (DisplayItem N))
            → All HasRow is
            → All (AllOf IsOpen) is
            → All HasActiveCard is
        items [] _ _ = tt
        items (i ∷ is) (h, hs) (o, os) = (item-HasActiveCard i h o, items is hs os)
