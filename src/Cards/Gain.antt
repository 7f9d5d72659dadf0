-- ===== src/Cards/Gain.antt =====
-- What the cards say of a gain and of the legs of a range.
use b1nary_xlayer_hackathon.Prelude.{
  ◌≡◌, ◌⊎◌, inl, inr, refl, Bool, true, false, not, ◌||◌, Option, none, some, find, Bool-cases,
  Option-cases, if◌then◌else◌, String,
}
use b1nary_xlayer_hackathon.Js.Number.{JsNumber, IsOrdered, HasDifference}
use b1nary_xlayer_hackathon.Api.{Position}
use b1nary_xlayer_hackathon.PositionMath.{get_position_strike}
use b1nary_xlayer_hackathon.Portfolio.Log.{RangeRow, row_of, range_row}
use b1nary_xlayer_hackathon.Execution.Order.{or_default}
use b1nary_xlayer_hackathon.Cards.One.{Unrealized, gain_each, cost_basis, unrealized, is_itm_now}
use b1nary_xlayer_hackathon.Cards.Two.{
  RangeProps, RangeCard, Outlook, selling, buying, combined_premium, range_days, card_of,
  range_card, outlook,
}

abbrev pub is_selling : Outlook → Bool
is_selling selling = true
is_selling _ = false

abbrev pub is_buying : Outlook → Bool
is_buying buying = true
is_buying _ = false

known_outcome :
    (a b : Option Bool)
    → (or_default a false || or_default b false)
      ≡ ((elim a [ none ↦ false | some x ↦ x ]) || (elim b [ none ↦ false | some x ↦ x ]))
known_outcome none none = refl
known_outcome none (some y) = refl
known_outcome (some x) none = refl
known_outcome (some x) (some y) = refl

module _ {N : Type 0} ⦃js : JsNumber N⦄ where
  open js use {num, lt, le}

  gain_each-sign :
      HasDifference N
      → (is_put : Bool) (spot basis : N) → le spot spot ≡ true
      → le basis basis ≡ true
      → lt (num 0) (gain_each is_put spot basis) ≡ (if is_put then lt basis spot else lt spot basis)
  gain_each-sign laws true spot basis s b = laws.lt-sub spot basis s b
  gain_each-sign laws false spot basis s b = laws.lt-sub basis spot b s

  -- With numbers that satisfy this law, and neither the spot price nor the cost basis NaN, the card of
  -- an assigned position says that it has gained exactly if the asset was bought and the spot price is
  -- above its cost basis, or was sold and the spot price is below.
  pub unrealized-gain :
      HasDifference N
      → (spot : N) (p : Position N) → le spot spot ≡ true
      → le (cost_basis p) (cost_basis p) ≡ true
      → (u : Unrealized N) × (unrealized (some spot) p ≡ some u)
        × (lt (num 0) u.each
            ≡ (if p.is_put then lt (cost_basis p) spot else lt spot (cost_basis p)))
  unfolding unrealized
  unrealized-gain laws spot p s b = (_, refl, gain_each-sign laws p.is_put spot (cost_basis p) s b)

  not_both : IsOrdered N → (a b spot : N) → le a b ≡ true → lt b spot ≡ true → lt spot a ≡ false
  not_both laws a b spot h c = elim (Bool-cases (lt spot a)) [
    | inr f ↦ f
    | inl t ↦
        let over = laws.lt_trans b spot a c t in
        let self = laws.lt-le_trans b a b over h in let never = laws.lt_irrefl b in cc
  ]

  outlook-strikes :
      IsOrdered N
      → (spot : N) (card : RangeCard N) → le card.put_strike card.call_strike ≡ true
      → (lt card.call_strike spot ≡ is_selling (outlook spot card))
        × (lt spot card.put_strike ≡ is_buying (outlook spot card))
  unfolding outlook
  outlook-strikes laws spot card h =
      let apart = not_both laws card.put_strike card.call_strike spot h in
      elim (Bool-cases (lt card.call_strike spot)) [
        | inl a ↦ let b = apart a in (rw (a, outlook) refl, rw (a, outlook) b)
        | inr a ↦ elim (Bool-cases (lt spot card.put_strike)) [
          | inl b ↦ (rw (a, b, outlook) refl, rw (a, b, outlook) refl)
          | inr b ↦ (rw (a, b, outlook) refl, rw (a, b, outlook) refl)
        ]
      ]

  -- With numbers that satisfy these laws, and the strike of the put not above that of the call: the card
  -- of a range says that it is selling exactly if the card of its call would say that the call is in the
  -- money, and that it is buying exactly if the card of its put would say so.
  pub outlook-legs :
      IsOrdered N
      → (lower : String → String) (c : RangeProps N) (spot : N) (put_leg call_leg : Position N)
      → put_leg.is_put ≡ true
      → call_leg.is_put ≡ false
      → le (get_position_strike put_leg) (get_position_strike call_leg) ≡ true
      → let said = outlook spot (card_of lower c put_leg call_leg) in
        (is_itm_now spot call_leg ≡ is_selling said) × (is_itm_now spot put_leg ≡ is_buying said)
  unfolding is_itm_now card_of
  outlook-legs laws lower c spot put_leg call_leg a b h =
      let (over, under) = outlook-strikes laws spot (card_of lower c put_leg call_leg) h in
      (simp (b, over), simp (a, under))

  -- What a range's card and its row in the table have in common.
  pub record Agrees (card : RangeCard N) (row : RangeRow N) : Type 0 where
    pub put_strike_same : card.put_strike ≡ row.put_strike
    pub call_strike_same : card.call_strike ≡ row.call_strike
    pub premium_same : card.total_premium ≡ row.total_premium
    pub days_same : card.total_days ≡ row.expiry_days
    pub outcome_same : (card.put_itm || card.call_itm) ≡ row.assigned

  -- A range has a card exactly if it has a row in the table of settled positions, and the two show the
  -- same strikes, the same premium, the same number of days and the same outcome.
  pub range_card-range_row :
      (lower : String → String) (c : RangeProps N)
      → ((range_card lower c ≡ none) × (range_row c.positions ≡ none))
        ⊎ ((card : RangeCard N) × (row : RangeRow N) × (range_card lower c ≡ some card)
            × (range_row c.positions ≡ some row)
            × Agrees card row)
  unfolding range_card range_row card_of combined_premium range_days
  range_card-range_row lower c = elim (Option-cases (find (λ q. q.is_put) c.positions)) [
    | inl f ↦ inl (rw (f, range_card) refl, rw (f, range_row) refl)
    | inr (put_leg, f) ↦ elim (Option-cases (find (λ q. not q.is_put) c.positions)) [
      | inl g ↦ inl (rw (f, g, range_card) refl, rw (f, g, range_row) refl)
      | inr (call_leg, g) ↦ inr (
        card_of lower c put_leg call_leg,
        row_of put_leg call_leg,
        rw (f, g, range_card) refl,
        rw (f, g, range_row) refl,
        record {
          put_strike_same = refl;
          call_strike_same = refl;
          premium_same = refl;
          days_same = refl;
          outcome_same = known_outcome put_leg.is_itm call_leg.is_itm;
        },
      )
    ]
  ]
