-- ===== src/Prelude/Lists.antt =====
-- Lists measured by native numbers, Boolean tests over lists, and predicates on all elements.
use Prim.Native.Nat.{ℕ, zero, suc, ◌+◌, ◌-◌}
use mathlib.Core.Path.{◌≡◌, refl, subst}
use mathlib.Core.Logic.{inl, inr}
use b1nary_xlayer_hackathon.Prelude.Tests.{Bool-cases}
use mathlib.Core.Bool.{Bool, true, false, ◌||◌}
use mathlib.Core.List.{List, [], ◌∷◌, ◌++◌}
use mathlib.Core.Option.{Option, none, some}
use native.Mathlib.Omega.{arith}

module _ {ℓ} {A : Type ℓ} where
  abbrev pub length : List A → ℕ
  length [] = 0
  length (x ∷ xs) = suc (length xs)

  pub length-append : (xs ys : List A) → length (xs ++ ys) ≡ length xs + length ys
  length-append [] ys = omega arith
  length-append (x ∷ xs) ys = omega (arith, length-append xs ys)

  abbrev pub drop : ℕ → List A → List A
  drop zero xs = xs
  drop (suc n) [] = []
  drop (suc n) (x ∷ xs) = drop n xs

  pub length-drop : (n : ℕ) (xs : List A) → length (drop n xs) ≡ length xs - n
  length-drop zero xs = omega arith
  length-drop (suc n) [] = omega arith
  length-drop (suc n) (x ∷ xs) = omega (arith, length-drop n xs)

  -- `Array.prototype.some`, `every`, `filter` and `find`.
  abbrev pub any : (A → Bool) → List A → Bool
  any p [] = false
  any p (x ∷ xs) = p x || any p xs

  abbrev pub keep : (A → Bool) → List A → List A
  keep p [] = []
  keep p (x ∷ xs) = elim (p x) [ true ↦ x ∷ keep p xs | false ↦ keep p xs ]

  abbrev pub find : (A → Bool) → List A → Option A
  find p [] = none
  find p (x ∷ xs) = elim (p x) [ true ↦ some x | false ↦ find p xs ]

  abbrev pub All {κ} : (A → Type κ) → List A → Type κ
  All P [] = Unit
  All P (x ∷ xs) = P x × All P xs

  pub All-append {κ} : (P : A → Type κ) (xs ys : List A) → All P xs → All P ys → All P (xs ++ ys)
  All-append P [] ys _ q = q
  All-append P (x ∷ xs) ys (p, ps) q = (p, All-append P xs ys ps q)

  -- How many elements pass a test.
  abbrev pub tally : (A → Bool) → List A → ℕ
  tally p [] = 0
  tally p (x ∷ xs) = elim (p x) [ true ↦ suc (tally p xs) | false ↦ tally p xs ]

  pub tally-append : (p : A → Bool) (xs ys : List A) → tally p (xs ++ ys) ≡ tally p xs + tally p ys
  tally-append p [] ys = omega arith
  tally-append p (x ∷ xs) ys = let rest = tally-append p xs ys in ground (arith, rest)

  pub All-keep {κ μ} :
      (P : A → Type κ) (Q : A → Type μ) (f : A → Bool) (xs : List A)
      → ((a : A) → P a → Q a)
      → All P xs
      → All Q (keep f xs)
  All-keep P Q f [] h _ = tt
  All-keep P Q f (x ∷ xs) h (p, ps) =
      let rest = All-keep P Q f xs h ps in
      elim (Bool-cases (f x)) [
        | inl e ↦ rw (e, All, keep) (h x p, rest)
        | inr e ↦ rw (e, All, keep) rest
      ]

  pub All-map {κ μ} :
      (P : A → Type κ) (Q : A → Type μ) (xs : List A) → ((a : A) → P a → Q a) → All P xs → All Q xs
  All-map P Q [] h _ = tt
  All-map P Q (x ∷ xs) h (p, ps) = (h x p, All-map P Q xs h ps)

  pub any-All : (f : A → Bool) (xs : List A) → any f xs ≡ false → All (λ x. f x ≡ false) xs
  any-All f [] h = tt
  any-All f (x ∷ xs) h = (ground arith, any-All f xs (ground arith))

  pub All-any : (f : A → Bool) (xs : List A) → All (λ x. f x ≡ false) xs → any f xs ≡ false
  All-any f [] _ = refl
  All-any f (x ∷ xs) (h, hs) = let rest = All-any f xs hs in ground arith

  pub find-any : (f : A → Bool) (xs : List A) → find f xs ≡ none → any f xs ≡ false
  find-any f [] h = refl
  find-any f (x ∷ xs) h = let rest = find-any f xs in ground arith

  pub find-passes : (f : A → Bool) (xs : List A) (a : A) → find f xs ≡ some a → f a ≡ true
  find-passes f [] a h = ground arith
  find-passes f (x ∷ xs) a h = let rest = find-passes f xs a in ground arith

  pub find-All {κ} :
      (P : A → Type κ) (f : A → Bool) (xs : List A) (a : A) → All P xs → find f xs ≡ some a → P a
  find-All P f [] a _ h = ground arith
  find-All P f (x ∷ xs) a (p, ps) h = elim (Bool-cases (f x)) [
    | inl e ↦ subst P (cc) p
    | inr e ↦ find-All P f xs a ps (ground (arith))
  ]

  pub find-append :
      (f : A → Bool) (xs ys : List A) → any f xs ≡ false → find f (xs ++ ys) ≡ find f ys
  find-append f [] ys h = refl
  find-append f (x ∷ xs) ys h = let rest = find-append f xs ys in ground arith

  abbrev pub total : (A → ℕ) → List A → ℕ
  total f [] = 0
  total f (x ∷ xs) = f x + total f xs

  pub total-append : (f : A → ℕ) (xs ys : List A) → total f (xs ++ ys) ≡ total f xs + total f ys
  total-append f [] ys = omega arith
  total-append f (x ∷ xs) ys = omega (arith, total-append f xs ys)

  pub All-kept : (p : A → Bool) (xs : List A) → All (λ x. p x ≡ true) (keep p xs)
  All-kept p [] = tt
  All-kept p (x ∷ xs) =
      let rest = All-kept p xs in
      elim (Bool-cases (p x)) [
        | inl e ↦ rw (e, All, keep) (e, rest)
        | inr e ↦ rw (e, All, keep) rest
      ]
