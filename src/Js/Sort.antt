-- ===== src/Js/Sort.antt =====
-- `Array.prototype.sort` by a comparison, and what it keeps. `later a b` says that the comparison gives
-- a positive number for a, b. The sort is stable.
pub mod ByNumber
use b1nary_xlayer_hackathon.Prelude.{
  ℕ, ◌≡◌, refl, sym, ◌∙◌, Bool, true, false, List, [], ◌∷◌, All, total, inl, inr, if◌then◌else◌,
  Bool-cases, arith,
}

module _ {ℓ} {A : Type ℓ} (later : A → A → Bool) where
  -- Each is not later than the one behind it.
  abbrev pub IsOrderly : List A → Type 0
  IsOrderly [] = Unit
  IsOrderly (x ∷ xs) = All (λ y. later x y ≡ false) xs × IsOrderly xs

module _ {ℓ} {A : Type ℓ} (later : A → A → Bool) where
  unfoldable pub insert : A → List A → List A
  insert x [] = x ∷ []
  insert x (y ∷ ys) = let rest = insert x ys in if later x y then y ∷ rest else x ∷ y ∷ ys

  unfoldable pub sort : List A → List A
  unfolding insert
  sort [] = []
  sort (x ∷ xs) = insert x (sort xs)

  module _ (f : A → ℕ) where
    total-insert : (x : A) (ys : List A) → total f (insert x ys) ≡ total f (x ∷ ys)
    unfolding insert
    total-insert x [] = refl
    total-insert x (y ∷ ys) = let rest = total-insert x ys in ground (arith, rest)

    -- Sorting loses nothing and repeats nothing.
    pub total-sort : (xs : List A) → total f (sort xs) ≡ total f xs
    unfolding sort
    total-sort [] = refl
    total-sort (x ∷ xs) =
        let head = total-insert x (sort xs) in let rest = total-sort xs in omega (arith, head, rest)

  module _ {κ} (P : A → Type κ) where
    All-insert : (x : A) (ys : List A) → P x → All P ys → All P (insert x ys)
    unfolding insert
    All-insert x [] p _ = (p, tt)
    All-insert x (y ∷ ys) p (q, qs) =
        let rest = All-insert x ys p qs in
        elim (Bool-cases (later x y)) [
          | inl e ↦ rw (e, insert) (q, rest)
          | inr e ↦ rw (e, insert) (p, (q, qs))
        ]

    pub All-sort : (xs : List A) → All P xs → All P (sort xs)
    unfolding sort
    All-sort [] _ = tt
    All-sort (x ∷ xs) (p, ps) = All-insert x (sort xs) p (All-sort xs ps)

  -- The comparison is consistent on the elements that pass.
  module _ {κ} (P : A → Type κ)
      (asym : (x y : A) → P x → P y → later x y ≡ true → later y x ≡ false)
      (trans : (x y z : A)
        → P x
        → P y
        → P z
        → later x y ≡ false
        → later y z ≡ false
        → later x z ≡ false) where
    insert-IsOrderly :
        (x : A) (ys : List A) → P x → All P ys → IsOrderly later ys → IsOrderly later (insert x ys)
    unfolding insert
    insert-IsOrderly x [] p _ _ = (tt, tt)
    insert-IsOrderly x (y ∷ ys) p (q, qs) (o, os) =
        let rest = insert-IsOrderly x ys p qs os in
        elim (Bool-cases (later x y)) [
          | inl e ↦ rw (e, insert) (All-insert _ x ys (asym x y p q e) o, rest)
          | inr e ↦ rw (e, insert) ((e, behind ys qs o e), (o, os))
        ]
      where
        behind :
            (zs : List A)
            → All P zs
            → All (λ z. later y z ≡ false) zs
            → later x y ≡ false
            → All (λ z. later x z ≡ false) zs
        behind [] _ _ e = tt
        behind (z ∷ zs) (r, rs) (n, ns) e = (trans x y z p q r e n, behind zs rs ns e)

    pub sort-IsOrderly : (xs : List A) → All P xs → IsOrderly later (sort xs)
    unfolding sort
    sort-IsOrderly [] _ = tt
    sort-IsOrderly (x ∷ xs) (p, ps) =
        insert-IsOrderly x (sort xs) p (All-sort P xs ps) (sort-IsOrderly xs ps)

  pub IsOrderly-agree {κ} :
      (P : A → Type κ) (later' : A → A → Bool) (xs : List A)
      → ((x y : A) → P x → P y → later x y ≡ later' x y)
      → All P xs
      → IsOrderly later xs
      → IsOrderly later' xs
  IsOrderly-agree P later' [] h _ _ = tt
  IsOrderly-agree P later' (x ∷ xs) h (p, ps) (o, os) =
      (go xs ps o, IsOrderly-agree P later' xs h ps os)
    where
      go :
          (ys : List A)
          → All P ys
          → All (λ y. later x y ≡ false) ys
          → All (λ y. later' x y ≡ false) ys
      go [] _ _ = tt
      go (y ∷ ys) (q, qs) (n, ns) = (sym (h x y p q) ∙ n, go ys qs ns)
