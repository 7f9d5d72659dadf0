-- ===== src/Optimistic/Reconcile.antt =====
-- What the storage keeps, and what the user sees of it.
use text.Mathlib.Text.{◌==◌ as str_eq}
use b1nary_xlayer_hackathon.Prelude.{◌≡◌, refl, true, false, some, List, [], ◌∷◌, ◌++◌}
use b1nary_xlayer_hackathon.Js.Error.{ok}
use b1nary_xlayer_hackathon.Api.{Position}
use b1nary_xlayer_hackathon.Optimistic.{
  Storage, Item, get_all_optimistic, set_item, save_optimistic,
}

-- `JSON.parse` gives back a list that `JSON.stringify` has written, whose text is not empty.
pub record RoundTrip {N : Type 0} (st : Storage N) (ps : List (Position N)) : Type 0 where
  pub parsed : st.parse_list (st.stringify ps) ≡ ok ps
  pub not_empty : str_eq (st.stringify ps) "" ≡ false

module _ {N : Type 0} (st : Storage N) where
  get-set :
      (ps : List (Position N)) (item : Item)
      → RoundTrip st ps
      → st.has_room (st.stringify ps) ≡ true
      → set_item st ps item ≡ (ok tt, some (st.stringify ps))
  unfolding set_item
  get-set ps item r room = rw room refl

  stored :
      (ps : List (Position N))
      → RoundTrip st ps
      → get_all_optimistic st (some (st.stringify ps)) ≡ ps
  unfolding get_all_optimistic
  stored ps r = rw (r.not_empty, r.parsed) refl

  -- If there is room and the codec gives back the longer list, what has been saved is the last of the
  -- stored positions, and the others are those of before.
  pub save_optimistic-get_all :
      (pos : Position N) (item : Item)
      → RoundTrip st (get_all_optimistic st item ++ (pos ∷ []))
      → st.has_room (st.stringify (get_all_optimistic st item ++ (pos ∷ []))) ≡ true
      → get_all_optimistic st (save_optimistic st pos item).1
        ≡ get_all_optimistic st item ++ (pos ∷ [])
  unfolding save_optimistic
  save_optimistic-get_all pos item r room = rw (get-set _ item r room) (stored _ r)
