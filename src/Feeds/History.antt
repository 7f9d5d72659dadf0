-- ===== src/Feeds/History.antt =====
-- `usePriceHistory` of frontend/src/hooks/usePriceHistory.ts: the last prices, in the order in which they
-- came.
use mathlib.Core.List.{append-nil, append_assoc}
use b1nary_xlayer_hackathon.Prelude.{
  length-append, length-drop, ℕ, zero, suc, ◌+◌, ◌-◌, ◌≤◌, ◌≡◌, ◌∙◌, refl, sym, ap, Option, none,
  some, List, [], ◌∷◌, ◌++◌, length, drop, if◌then◌else◌, ltb, Bool-cases, inl, inr, arith,
}

pub record PricePoint (N : Type 0) : Type 0 where
  pub time : N
  pub price : N

-- `xs.slice(-n)`; `-0` is 0, so that `slice(-0)` leaves nothing out.
abbrev pub slice_last : {A : Type 0} → ℕ → List A → List A
slice_last zero xs = xs
slice_last (suc n) xs = drop (length xs - suc n) xs

-- The updater of the state.
unfoldable pub add_point : {A : Type 0} → (max_points : ℕ) → A → List A → List A
add_point max_points p prev =
    let next = prev ++ (p ∷ []) in
    if ltb max_points (length next) then slice_last max_points next else next

-- The effect, for a spot price that may not be known, at a time.
unfoldable pub observe :
    {N : Type 0} → (max_points : ℕ) → N → Option N → List (PricePoint N) → List (PricePoint N)
unfolding add_point
observe max_points now none prev = prev
observe max_points now (some spot) prev =
    add_point max_points (record { time = now; price = spot }) prev

-- All observations, in the order in which they come.
unfoldable pub history_after :
    {N : Type 0} → ℕ → List (N × Option N) → List (PricePoint N) → List (PricePoint N)
unfolding observe
history_after max_points [] h = h
history_after max_points ((now, spot) ∷ os) h =
    history_after max_points os (observe max_points now spot h)

module _ {A : Type 0} where
  -- The last `n` elements, or all if there are fewer.
  abbrev pub last : ℕ → List A → List A
  last n xs = drop (length xs - n) xs

  slice_last-last : (n : ℕ) (xs : List A) → 1 ≤ n → slice_last n xs ≡ last n xs
  slice_last-last zero xs h = absurd (omega (arith, h))
  slice_last-last (suc n) xs h = refl

  drop-append : (k : ℕ) (xs ys : List A) → k ≤ length xs → drop k (xs ++ ys) ≡ drop k xs ++ ys
  drop-append zero xs ys h = refl
  drop-append (suc k) [] ys h = absurd (omega (arith, h))
  drop-append (suc k) (x ∷ xs) ys h = drop-append k xs ys (omega (arith, h))

  drop_nil : (a : ℕ) → drop {A = A} a [] ≡ []
  drop_nil zero = refl
  drop_nil (suc a) = refl

  drop-drop : (a b : ℕ) (xs : List A) → drop a (drop b xs) ≡ drop (b + a) xs
  drop-drop a zero xs = ap (λ n. drop n xs) {x = a} {y = 0 + a} (omega arith)
  drop-drop a (suc b) [] = drop_nil a ∙ sym (drop_nil (suc b + a))
  drop-drop a (suc b) (x ∷ xs) =
      drop-drop a b xs ∙ ap (λ n. drop n (x ∷ xs)) {x = suc (b + a)} {y = suc b + a} (omega arith)

  -- Nothing is left out of a list that is short enough.
  last_all : (n : ℕ) (xs : List A) → length xs ≤ n → last n xs ≡ xs
  last_all n xs h = ap (λ k. drop k xs) {x = length xs - n} {y = 0} (omega (arith, h))

  add_point-last :
      (n : ℕ) (p : A) (prev : List A) → 1 ≤ n → add_point n p prev ≡ last n (prev ++ (p ∷ []))
  unfolding add_point
  add_point-last n p prev h = elim (Bool-cases (ltb n (length (prev ++ (p ∷ []))))) [
    | inl e ↦ rw (e, add_point) (slice_last-last n (prev ++ (p ∷ [])) h)
    | inr e ↦ rw (e, add_point) (sym (last_all n (prev ++ (p ∷ [])) (ground arith)))
  ]

  -- A new element behind the last ones is one of the last elements of all.
  last-append_last :
      (n : ℕ) (p : A) (xs : List A)
      → 1 ≤ n
      → last n (last n xs ++ (p ∷ [])) ≡ last n (xs ++ (p ∷ []))
  last-append_last n p xs h = elim (Bool-cases (ltb n (length xs))) [
    | inr short ↦ ap (λ l. last n (l ++ (p ∷ []))) (last_all n xs (ground arith))
    | inl long ↦
        let k : ℕ = length xs - n in
        let behind = sym (drop-append k xs (p ∷ []) (omega arith)) in
        let grown = length-append xs (p ∷ []) in
        let size = length-drop k (xs ++ (p ∷ [])) in
        let over : n + 1 ≤ length xs = ground arith in
        ap (last n) behind
        ∙ ap (λ m. drop m (drop k (xs ++ (p ∷ [])))) {x = length (drop k (xs ++ (p ∷ []))) - n}
            {y = 1} (omega arith)
        ∙ drop-drop 1 k (xs ++ (p ∷ []))
        ∙ ap (λ m. drop m (xs ++ (p ∷ []))) {x = k + 1} {y = length (xs ++ (p ∷ [])) - n}
            (omega arith)
  ]

module _ {N : Type 0} where
  -- The points of the observations that know a price.
  abbrev pub points : List (N × Option N) → List (PricePoint N)
  points [] = []
  points ((now, none) ∷ os) = points os
  points ((now, some spot) ∷ os) = record { time = now; price = spot } ∷ points os

  observed-last :
      (n : ℕ) (os : List (N × Option N)) (seen : List (PricePoint N))
      → 1 ≤ n
      → history_after n os (last n seen) ≡ last n (seen ++ points os)
  unfolding history_after
  observed-last n [] seen h = ap (last n) (sym (append-nil seen))
  observed-last n ((now, none) ∷ os) seen h = observed-last n os seen h
  observed-last n ((now, some spot) ∷ os) seen h =
      let p : PricePoint N = record { time = now; price = spot } in
      ap (history_after n os) (add_point-last n p (last n seen) h ∙ last-append_last n p seen h)
      ∙ observed-last n os (seen ++ (p ∷ [])) h
      ∙ ap (last n) (append_assoc seen (p ∷ []) (points os))

  -- If at least one point is to be kept, the history after any observations is made of the last points
  -- of all the prices that were known, as many as are to be kept, in the order in which they came; so it
  -- never holds more.
  pub history_after-last :
      (n : ℕ) (os : List (N × Option N))
      → 1 ≤ n
      → (history_after n os [] ≡ last n (points os)) × (length (history_after n os []) ≤ n)
  history_after-last n os h =
      let all : history_after n os [] ≡ last n (points os) =
        ap (history_after n os) (sym (drop_nil (0 - n))) ∙ observed-last n os [] h in
      let size = length-drop (length (points os) - n) (points os) in (all, rw all (omega arith))
