-- ===== src/Positions/Dedupe.antt =====
-- The list of positions holds no id twice, and loses none.
use text.Mathlib.Text.{◌==◌ as str_eq}
use text.Mathlib.TextEquality.{eq_iff}
use b1nary_xlayer_hackathon.Prelude.{
  ◌≡◌, refl, String, Bool, true, false, Option, none, some, List, [], ◌∷◌, any, find, inl, inr,
  Bool-cases, arith,
}
use b1nary_xlayer_hackathon.Js.Error.{Try, ok, throws}
use b1nary_xlayer_hackathon.Api.{Position}
use b1nary_xlayer_hackathon.Positions.{
  Loaded, contains, account, dedupe, fetched, settle, refresh_accounts, refresh,
}

contains_cons :
    (a id : String) (seen : List String) → contains seen id ≡ true → contains (a ∷ seen) id ≡ true
contains_cons a id seen h = ground arith

module _ {N : Type 0} where
  abbrev pub has_id : String → Position N → Bool
  has_id id p = str_eq p.id id

  -- No id stands twice.
  unfoldable pub IsDistinct : List (Position N) → Type 0
  IsDistinct [] = Unit
  IsDistinct (p ∷ ps) = (any (has_id p.id) ps ≡ false) × IsDistinct ps

  dedupe-seen :
      (seen : List String) (ps : List (Position N)) (id : String)
      → contains seen id ≡ true
      → any (has_id id) (dedupe seen ps) ≡ false
  unfolding dedupe
  dedupe-seen seen [] id h = refl
  dedupe-seen seen (p ∷ ps) id h =
      let skip = dedupe-seen seen ps id h in
      let take = dedupe-seen (p.id ∷ seen) ps id (contains_cons p.id id seen h) in
      ground (arith, eq_iff p.id id, skip, take)

  dedupe-IsDistinct : (seen : List String) (ps : List (Position N)) → IsDistinct (dedupe seen ps)
  unfolding dedupe IsDistinct
  dedupe-IsDistinct seen [] = tt
  dedupe-IsDistinct seen (p ∷ ps) =
      let skip = dedupe-IsDistinct seen ps in
      let take = dedupe-IsDistinct (p.id ∷ seen) ps in
      let fresh = dedupe-seen (p.id ∷ seen) ps p.id (rw ((eq_iff p.id p.id).1 refl) refl) in
      elim (Bool-cases (contains seen p.id)) [
        | inl e ↦ rw (e, dedupe) skip
        | inr e ↦ rw (e, dedupe, IsDistinct) (fresh, take)
      ]

  dedupe-find :
      (seen : List String) (ps : List (Position N)) (id : String)
      → contains seen id ≡ false
      → find (has_id id) (dedupe seen ps) ≡ find (has_id id) ps
  unfolding dedupe
  dedupe-find seen [] id h = refl
  dedupe-find seen (p ∷ ps) id h =
      let skip = dedupe-find seen ps id h in
      let take = dedupe-find (p.id ∷ seen) ps id in ground (arith, eq_iff p.id id, skip, take)

  -- The list that `refresh` shows holds no id twice, and under every id it has the first position that
  -- was fetched, so no position is lost.
  pub dedupe-IsDistinct-find :
      (ps : List (Position N))
      → IsDistinct (dedupe [] ps)
        × ((id : String) → find (has_id id) (dedupe [] ps) ≡ find (has_id id) ps)
  dedupe-IsDistinct-find ps = (dedupe-IsDistinct [] ps, λ id. dedupe-find [] ps id refl)

  settle-IsDistinct :
      (text : String) (r : Try (List (Position N))) (s : Loaded N)
      → IsDistinct s.positions
      → IsDistinct (settle text r s).positions × ((settle text r s).loading ≡ false)
  unfolding settle
  settle-IsDistinct text (ok ps) s d = (dedupe-IsDistinct [] ps, refl)
  settle-IsDistinct text (throws e) s d = (d, refl)

  refresh_accounts-IsDistinct :
      (get_positions : String → Try (List (Position N))) (second_first : Bool) (text : String)
      (a b : Option String) (s : Loaded N)
      → IsDistinct s.positions
      → let s' = refresh_accounts get_positions second_first text a b s in
        IsDistinct s'.positions × (s'.loading ≡ false)
  unfolding refresh_accounts IsDistinct
  refresh_accounts-IsDistinct get second_first text none none s d = (tt, refl)
  refresh_accounts-IsDistinct get second_first text none (some b) s d = settle-IsDistinct text _ s d
  refresh_accounts-IsDistinct get second_first text (some a) b s d = settle-IsDistinct text _ s d

  -- Whatever the backend answers, `refresh` ends the loading, and no id stands twice in the positions
  -- behind it if none did before.
  pub refresh-IsDistinct :
      (get_positions : String → Try (List (Position N))) (second_first : Bool) (text : String)
      (address funding_address : Option String) (s : Loaded N)
      → IsDistinct s.positions
      → let s' = refresh get_positions second_first text address funding_address s in
        IsDistinct s'.positions × (s'.loading ≡ false)
  unfolding refresh
  refresh-IsDistinct get second_first text a b s d =
      refresh_accounts-IsDistinct get second_first text (account a) (account b) s d

  -- With one account under both names, as the wallet hook gives it, `refresh` does what it does
  -- without the second: no position is asked for twice.
  pub refresh_same_account :
      (get_positions : String → Try (List (Position N))) (second_first : Bool) (text : String)
      (address : Option String) (s : Loaded N)
      → refresh get_positions second_first text address address s
        ≡ refresh get_positions second_first text address none s
  unfolding refresh refresh_accounts fetched
  refresh_same_account get second_first text none s = refl
  refresh_same_account get second_first text (some a) s = ground (arith, eq_iff a a)
