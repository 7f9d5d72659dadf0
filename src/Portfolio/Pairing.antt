-- ===== src/Portfolio/Pairing.antt =====
-- The loop of `groupPositions` that pairs the positions without a group: what one turn keeps.
use text.Mathlib.Text.{◌==◌ as str_eq}
use text.Mathlib.TextEquality.{eq_iff}
use b1nary_xlayer_hackathon.Prelude.{
  ◌+◌, ◌≡◌, refl, String, Bool, true, false, not, ◌||◌, some, List, [], ◌∷◌, ◌++◌, any, find, keep,
  tally, tally-append, inl, inr, arith, Bool-cases,
}
use b1nary_xlayer_hackathon.Api.{Position}
use b1nary_xlayer_hackathon.Positions.{contains}
use b1nary_xlayer_hackathon.Positions.Dedupe.{has_id, IsDistinct}
use b1nary_xlayer_hackathon.Portfolio.Grouping.{Groups, add_to_group, set_group}

module _ {N : Type 0} where
  -- All positions of the groups.
  abbrev pub members : Groups N → List (Position N)
  members [] = []
  members ((k, ps) ∷ m) = ps ++ members m

  abbrev pub has_key : String → Groups N → Bool
  has_key key m = any (λ g. str_eq g.0 key) m

  pub members-add_to_group :
      (b : Position N → Bool) (key : String) (p : Position N) (m : Groups N)
      → tally b (members (add_to_group key p m)) ≡ tally b (members m) + tally b (p ∷ [])
  unfolding add_to_group
  members-add_to_group b key p [] = omega arith
  members-add_to_group b key p ((k, ps) ∷ m) =
      let rest = members-add_to_group b key p m in
      let all = tally-append b ps (members m) in
      let all' = tally-append b ps (members (add_to_group key p m)) in
      let more = tally-append b ps (p ∷ []) in
      let one = tally-append b (ps ++ (p ∷ [])) (members m) in
      elim (Bool-cases (str_eq k key)) [
        | inl e ↦ rw (e, add_to_group, members) (ground (arith, all, more, one))
        | inr e ↦ rw (e, add_to_group, members) (ground (arith, rest, all, all'))
      ]

  pub members-set_group :
      (b : Position N → Bool) (key : String) (new : List (Position N)) (m : Groups N)
      → has_key key m ≡ false
      → tally b (members (set_group key new m)) ≡ tally b (members m) + tally b new
  unfolding set_group
  members-set_group b key new [] h = let all = tally-append b new [] in omega (arith, all)
  members-set_group b key new ((k, ps) ∷ m) h =
      let rest = members-set_group b key new m in
      let all = tally-append b ps (members m) in
      let all' = tally-append b ps (members (set_group key new m)) in
      elim (Bool-cases (str_eq k key)) [
        | inl e ↦ ground arith
        | inr e ↦ rw (e, set_group, members) (ground (arith, rest, all, all'))
      ]

  pub has_key-add_to_group :
      (k key : String) (p : Position N) (m : Groups N)
      → has_key k (add_to_group key p m) ≡ true
      → (str_eq key k || has_key k m) ≡ true
  unfolding add_to_group
  has_key-add_to_group k key p [] h = ground arith
  has_key-add_to_group k key p ((j, ps) ∷ m) h =
      let rest = has_key-add_to_group k key p m in ground (arith, rest)

  pub has_key-set_group :
      (k key : String) (new : List (Position N)) (m : Groups N)
      → has_key k (set_group key new m) ≡ true
      → (str_eq key k || has_key k m) ≡ true
  unfolding set_group
  has_key-set_group k key new [] h = ground arith
  has_key-set_group k key new ((j, ps) ∷ m) h =
      let rest = has_key-set_group k key new m in ground (arith, rest)

  -- A position that is not in a pair yet.
  abbrev pub waiting : List String → Position N → Bool
  waiting used p = not (contains used p.id)

  pub keep-waiting :
      (used : List String) (id : String) (ps : List (Position N))
      → any (has_id id) ps ≡ false
      → keep (waiting (id ∷ used)) ps ≡ keep (waiting used) ps
  keep-waiting used id [] h = refl
  keep-waiting used id (p ∷ ps) h =
      let rest = keep-waiting used id ps in
      let e = eq_iff p.id id in let e' = eq_iff id p.id in ground (arith, rest, e, e')

  find-has_id :
      (f : Position N → Bool) (ps : List (Position N)) (q : Position N) (id : String)
      → find f ps ≡ some q
      → any (has_id id) ps ≡ false
      → str_eq q.id id ≡ false
  find-has_id f [] q id h d = ground arith
  find-has_id f (p ∷ ps) q id h d = let rest = find-has_id f ps q id in ground (arith, rest)

  -- Of distinct positions the partner leaves the waiting ones, and no other does.
  pub take_partner :
      (b f : Position N → Bool) (used : List String) (ps : List (Position N)) (q : Position N)
      → IsDistinct ps
      → find f ps ≡ some q
      → waiting used q ≡ true
      → tally b (keep (waiting used) ps) ≡ tally b (q ∷ keep (waiting (q.id ∷ used)) ps)
  unfolding IsDistinct
  take_partner b f used [] q d h w = ground arith
  take_partner b f used (p ∷ ps) q (new, d) h w =
      let rest = take_partner b f used ps q d in
      let other = find-has_id f ps q p.id in
      let same = keep-waiting used p.id ps new in
      let e = eq_iff p.id p.id in
      let e' = eq_iff q.id p.id in ground (arith, rest, other, same, e, e')
