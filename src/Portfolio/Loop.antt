-- ===== src/Portfolio/Loop.antt =====
-- The loop of `groupPositions` that pairs positions: every position is left, in a pair, or waits.
use text.Mathlib.TextEquality.{eq_iff}
use b1nary_xlayer_hackathon.Prelude.{
  ◌≡◌, refl, sym, subst, ◌∙◌, Bool, true, false, some, List, [], ◌∷◌, ◌++◌, any, find, All, All-map,
  All-append, find-passes, find-All, find-append, inl, inr, arith, Bool-cases, Option-cases,
}
use b1nary_xlayer_hackathon.Js.Number.{JsNumber, HasDistance}
use b1nary_xlayer_hackathon.Api.{Position}
use b1nary_xlayer_hackathon.Positions.{contains}
use b1nary_xlayer_hackathon.Positions.Dedupe.{has_id, IsDistinct}
use b1nary_xlayer_hackathon.Portfolio.Grouping.{
  Groups, Pairing, synthetic_id, set_group, candidate, paired, pair_step, pair_all,
}
use b1nary_xlayer_hackathon.Portfolio.Pairing.{
  has_key, members-set_group, has_key-set_group, waiting, keep-waiting, take_partner,
}
use mathlib.Core.List.{append_assoc}
use b1nary_xlayer_hackathon.Portfolio.Turn.{
  one_key, IsApart, IsFree, done, accounted, IsGood, IsKept, done-more, All-behind,
  IsDistinct-behind, alone-IsKept, skip-IsKept, done-candidate,
}

module _ {N : Type 0} ⦃js : JsNumber N⦄ where
  -- Another pair's key stays free.
  IsFree-set_group :
      (all rest : List (Position N)) (p q : Position N) (m : Groups N)
      → any (has_id p.id) rest ≡ false
      → All (λ x. All (λ y. one_key x y p q ≡ false) all) rest
      → IsFree m all rest
      → IsFree (set_group (synthetic_id p.id q.id) (p ∷ q ∷ []) m) all rest
  IsFree-set_group all [] p q m new apart free = tt
  IsFree-set_group all (x ∷ rest) p q m new (apart, aparts) (free, frees) =
      (go all apart free, IsFree-set_group all rest p q m (ground arith) aparts frees)
    where
      go :
          (ys : List (Position N))
          → All (λ y. one_key x y p q ≡ false) ys
          → All (λ y. has_key (synthetic_id x.id y.id) m ≡ false) ys
          → All
              (λ y.
                has_key (synthetic_id x.id y.id) (set_group (synthetic_id p.id q.id) (p ∷ q ∷ []) m)
                ≡ false)
              ys
      go [] _ _ = tt
      go (y ∷ ys) (a, as') (f, fs) =
          let k =
            has_key-set_group (synthetic_id x.id y.id) (synthetic_id p.id q.id) (p ∷ q ∷ []) m in
          let e = eq_iff p.id x.id in
          let e' = eq_iff x.id p.id in (ground (arith, k, e, e'), go ys as' fs)

  pair-IsKept :
      (all before : List (Position N)) (p : Position N) (rest : List (Position N)) (s : Pairing N)
      (q : Position N)
      → IsGood all before (p ∷ rest) s
      → IsDistinct rest
      → any (has_id p.id) rest ≡ false
      → All (λ x. All (λ y. one_key x y p q ≡ false) all) rest
      → has_key (synthetic_id p.id q.id) s.grouped ≡ false
      → contains s.used p.id ≡ false
      → candidate s.used p q ≡ true
      → find (candidate s.used p) rest ≡ some q
      → IsKept all before p rest s (paired p (some q) s)
  pair-IsKept all before p rest s q (ready, (_, free)) distinct single apart key new c h = (
    (
      All-append _ before (p ∷ [])
          (All-map _ _ before
            (λ r d. done-more all (p.id ∷ s.used) q.id r (done-more all s.used p.id r d)) ready)
          (last, tt),
      IsFree-set_group all rest p q s.grouped single apart free,
    ),
    count,
  )
    where
      last : done all (q.id ∷ p.id ∷ s.used) p ≡ true
      last = let e = eq_iff p.id p.id in ground (arith, e)

      count :
          (b : Position N → Bool)
          → accounted b rest (paired p (some q) s) ≡ accounted b (p ∷ rest) s
      count b =
          let groups = members-set_group b (synthetic_id p.id q.id) (p ∷ q ∷ []) s.grouped key in
          let same = keep-waiting s.used p.id rest single in
          let e = eq_iff q.id p.id in
          let e' = eq_iff p.id q.id in
          let w : waiting (p.id ∷ s.used) q ≡ true = ground arith in
          let partner = take_partner b (candidate s.used p) (p.id ∷ s.used) rest q distinct h w in
          ground (arith, groups, same, partner)

  step-IsKept :
      HasDistance N
      → (all before : List (Position N)) (p : Position N) (rest : List (Position N)) (s : Pairing N)
      → all ≡ before ++ (p ∷ rest)
      → IsDistinct all
      → IsApart all
      → IsGood all before (p ∷ rest) s
      → IsKept all before p rest s (pair_step all p s)
  unfolding pair_step
  step-IsKept laws all before p rest s e distinct apart good =
      elim (Bool-cases (contains s.used p.id)) [
        | inl old ↦ rw (old, pair_step) (skip-IsKept all before p rest s good old)
        | inr new ↦ elim (Option-cases (find (candidate s.used p) all)) [
          | inl alone ↦ rw (new, alone, pair_step) (alone-IsKept all before p rest s good new alone)
          | inr (q, match) ↦ rw (new, match, pair_step) (partner new q match)
        ]
      ]
    where
      partner :
          contains s.used p.id ≡ false
          → (q : Position N) → find (candidate s.used p) all ≡ some q
          → IsKept all before p rest s (paired p (some q) s)
      partner new q match =
          let d = IsDistinct-behind before p rest (rw (e) at distinct) in
          let passes = find-passes (candidate s.used p) all q match in
          let ahead = done-candidate laws all before p rest s.used e new good.0 in
          pair-IsKept all before p rest s q good d.1 d.0
            (tail (λ x. All (λ y. one_key x y p q ≡ false) all)
              (All-map _ _ all (λ x. All-map _ _ all (pick x)) apart))
            (find-All (λ y. has_key (synthetic_id p.id y.id) s.grouped ≡ false) _ all q good.1.0
              match)
            new passes (behind ahead passes)
        where
          tail : (P : Position N → Type 0) → All P all → All P rest
          tail P h = (All-behind P before p rest (subst (All P) e h)).1

          pick :
              (x y : Position N)
              → All (λ p. All (λ q. one_key x y p q ≡ false) all) all
              → one_key x y p q ≡ false
          pick x y h =
              find-All (λ q. one_key x y p q ≡ false) _ all q
                (All-behind (λ p. All (λ q. one_key x y p q ≡ false) all) before p rest
                  (subst (All (λ p. All (λ q. one_key x y p q ≡ false) all)) e h)).0
                match

          behind :
              any (candidate s.used p) before ≡ false
              → candidate s.used p q ≡ true
              → find (candidate s.used p) rest ≡ some q
          behind ahead passes =
              let found = subst (λ zs. find (candidate s.used p) zs ≡ some q) e match in
              let split = find-append (candidate s.used p) before (p ∷ rest) ahead in
              let e' = eq_iff p.id p.id in ground (arith, found, split, e')

  -- A position that no pair has taken is left at the end of the loop.
  pub pair_all-accounted :
      HasDistance N
      → (all before rest : List (Position N)) (s : Pairing N) → all ≡ before ++ rest
      → IsDistinct all
      → IsApart all
      → IsGood all before rest s
      → (b : Position N → Bool) → accounted b [] (pair_all all rest s) ≡ accounted b rest s
  unfolding pair_all
  pair_all-accounted laws all before [] s e distinct apart good b = refl
  pair_all-accounted laws all before (p ∷ rest) s e distinct apart good b =
      let step = step-IsKept laws all before p rest s e distinct apart good in
      pair_all-accounted laws all (before ++ (p ∷ [])) rest (pair_step all p s)
        (e ∙ sym (append_assoc before (p ∷ []) rest)) distinct apart step.0 b
      ∙ step.1 b
