-- ===== src/Portfolio/Turn.antt =====
-- One turn of the loop of `groupPositions` that pairs positions: who is done behind it.
use text.Mathlib.Text.{◌==◌ as str_eq}
use text.Mathlib.TextEquality.{eq_iff}
use b1nary_xlayer_hackathon.Prelude.{
  ℕ, ◌+◌, ◌≡◌, refl, sym, String, Bool, true, false, not, ◌&&◌, ◌||◌, none, List, [], ◌∷◌, ◌++◌,
  any, find, keep, tally, tally-append, All, All-map, All-append, All-any, find-any, inl, inr,
  arith, Bool-cases,
}
use b1nary_xlayer_hackathon.Js.Number.{JsNumber, HasDistance}
use b1nary_xlayer_hackathon.Api.{Position}
use b1nary_xlayer_hackathon.Positions.{contains}
use b1nary_xlayer_hackathon.Positions.Dedupe.{has_id, IsDistinct}
use b1nary_xlayer_hackathon.Portfolio.Grouping.{
  Groups, Pairing, synthetic_id, infer_asset, time, alike, candidate, paired,
}
use b1nary_xlayer_hackathon.Portfolio.Pairing.{members, has_key, waiting}

module _ {N : Type 0} ⦃js : JsNumber N⦄ where
  -- Two pairs that differ in their first id, and still get one key.
  abbrev pub one_key : Position N → Position N → Position N → Position N → Bool
  one_key x y p q =
      not (str_eq p.id x.id) && str_eq (synthetic_id p.id q.id) (synthetic_id x.id y.id)

  abbrev pub IsApart : List (Position N) → Type 0
  IsApart ps = All (λ x. All (λ y. All (λ p. All (λ q. one_key x y p q ≡ false) ps) ps) ps) ps

  -- No pair of these positions has its key among the groups.
  abbrev pub IsFree : Groups N → List (Position N) → List (Position N) → Type 0
  IsFree m all = All (λ x. All (λ y. has_key (synthetic_id x.id y.id) m ≡ false) all)

  -- A position behind the loop: in a pair, or without a partner.
  abbrev pub done : List (Position N) → List String → Position N → Bool
  done all used r = contains used r.id || not (any (candidate used r) all)

  -- How often the test passes on what a turn has grouped, left and not reached yet.
  abbrev pub accounted : (Position N → Bool) → List (Position N) → Pairing N → ℕ
  accounted b rest s =
      (tally b (members s.grouped) + tally b s.remaining) + tally b (keep (waiting s.used) rest)

  module _ (laws : HasDistance N) where
    alike_comm : (p q : Position N) → alike p q ≡ alike q p
    unfolding alike
    alike_comm p q =
        let dates = laws.same_comm p.expiry q.expiry in
        let times = laws.abs-sub_comm (time p) (time q) in
        let names = eq_iff (infer_asset p) (infer_asset q) in
        let names' = eq_iff (infer_asset q) (infer_asset p) in
        ground (arith, dates, times, names, names')

    pub candidate_comm :
        (used : List String) (p q : Position N)
        → contains used p.id ≡ false
        → candidate used p q ≡ true
        → candidate used q p ≡ true
    candidate_comm used p q new h =
        let c = alike_comm p q in
        let e = eq_iff p.id q.id in let e' = eq_iff q.id p.id in ground (arith, c, e, e')

  any-candidate :
      (used : List String) (id : String) (r : Position N) (ps : List (Position N))
      → any (candidate used r) ps ≡ false
      → any (candidate (id ∷ used) r) ps ≡ false
  any-candidate used id r [] h = refl
  any-candidate used id r (p ∷ ps) h = let rest = any-candidate used id r ps in ground (arith, rest)

  pub done-more :
      (all : List (Position N)) (used : List String) (id : String) (r : Position N)
      → done all used r ≡ true
      → done all (id ∷ used) r ≡ true
  done-more all used id r h = let rest = any-candidate used id r all in ground (arith, rest)

  any_middle :
      (f : Position N → Bool) (before : List (Position N)) (p : Position N)
      (rest : List (Position N))
      → any f (before ++ (p ∷ rest)) ≡ false
      → f p ≡ false
  any_middle f [] p rest h = ground arith
  any_middle f (r ∷ before) p rest h = any_middle f before p rest (ground arith)

  pub All-behind {ℓ} :
      (P : Position N → Type ℓ) (before : List (Position N)) (p : Position N)
      (rest : List (Position N))
      → All P (before ++ (p ∷ rest))
      → P p × All P rest
  All-behind P [] p rest h = h
  All-behind P (r ∷ before) p rest (_, h) = All-behind P before p rest h

  pub IsDistinct-behind :
      (before : List (Position N)) (p : Position N) (rest : List (Position N))
      → IsDistinct (before ++ (p ∷ rest))
      → (any (has_id p.id) rest ≡ false) × IsDistinct rest
  unfolding IsDistinct
  IsDistinct-behind [] p rest d = d
  IsDistinct-behind (r ∷ before) p rest (_, d) = IsDistinct-behind before p rest d

  abbrev pub IsGood : List (Position N) → List (Position N) → List (Position N) → Pairing N → Type 0
  IsGood all before rest s = All (λ r. done all s.used r ≡ true) before × IsFree s.grouped all rest

  -- What a turn has to keep.
  abbrev pub IsKept :
      List (Position N)
      → List (Position N)
      → Position N
      → List (Position N)
      → Pairing N
      → Pairing N
      → Type 0
  IsKept all before p rest s s' =
      IsGood all (before ++ (p ∷ [])) rest s'
      × ((b : Position N → Bool) → accounted b rest s' ≡ accounted b (p ∷ rest) s)

  pub alone-IsKept :
      (all before : List (Position N)) (p : Position N) (rest : List (Position N)) (s : Pairing N)
      → IsGood all before (p ∷ rest) s
      → contains s.used p.id ≡ false
      → find (candidate s.used p) all ≡ none
      → IsKept all before p rest s (paired p none s)
  alone-IsKept all before p rest s (ready, (_, free)) new h =
      let h' = find-any _ all h in
      (
        (All-append _ before (p ∷ []) ready (ground arith, tt), free),
        λ b. let t = tally-append b s.remaining (p ∷ []) in ground (arith, t),
      )

  pub skip-IsKept :
      (all before : List (Position N)) (p : Position N) (rest : List (Position N)) (s : Pairing N)
      → IsGood all before (p ∷ rest) s
      → contains s.used p.id ≡ true
      → IsKept all before p rest s s
  skip-IsKept all before p rest s (ready, (_, free)) old =
      ((All-append _ before (p ∷ []) ready (ground arith, tt), free), λ b. ground arith)

  -- No position that is done is a partner.
  pub done-candidate :
      HasDistance N
      → (all before : List (Position N)) (p : Position N) (rest : List (Position N))
        (used : List String)
      → all ≡ before ++ (p ∷ rest)
      → contains used p.id ≡ false
      → All (λ r. done all used r ≡ true) before
      → any (candidate used p) before ≡ false
  done-candidate laws all before p rest used e new ready =
      All-any _ before (All-map _ _ before step ready)
    where
      step : (r : Position N) → done all used r ≡ true → candidate used p r ≡ false
      step r d = elim (Bool-cases (any (candidate used r) all)) [
        | inl a ↦ ground arith
        | inr a ↦
            let c = candidate_comm laws used p r new in
            let m = any_middle (candidate used r) before p rest (rw (sym e) a) in
            ground (arith, c, m)
      ]
