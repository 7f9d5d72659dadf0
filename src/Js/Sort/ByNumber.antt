-- ===== src/Js/Sort/ByNumber.antt =====
-- `sort` by the difference of two numbers, downwards or upwards.
use b1nary_xlayer_hackathon.Prelude.{◌≡◌, Bool, true, false, List, All, arith, if◌then◌else◌}
use b1nary_xlayer_hackathon.Js.Number.{JsNumber, IsOrdered, HasDifference}
use b1nary_xlayer_hackathon.Js.Sort.{sort, All-sort, IsOrderly, sort-IsOrderly, IsOrderly-agree}

module _ {N : Type 0} ⦃js : JsNumber N⦄ where
  open js use {num, sub, lt, le}

  module _ (order : IsOrdered N) where
    asym : (x y : N) → lt x y ≡ true → lt y x ≡ false
    asym x y h = let t = order.lt_trans x y x h in let i = order.lt_irrefl x in ground (arith, t, i)

    trans :
        (x y z : N)
        → le y y ≡ true
        → le z z ≡ true
        → lt x y ≡ false
        → lt y z ≡ false
        → lt x z ≡ false
    trans x y z q r h k =
        let a = order.le_of_not_lt y z q r k in
        let b = order.lt-le_trans x z y in ground (arith, a, b)

  module _ {A : Type 0} (key : A → N) where
    abbrev pub HasKey : A → Type 0
    HasKey a = le (key a) (key a) ≡ true

  module _ {A : Type 0} (down : Bool) (key : A → N) where
    -- The comparison gives a positive number.
    abbrev pub by_difference : A → A → Bool
    by_difference a b = lt (num 0) (if down then sub (key b) (key a) else sub (key a) (key b))

    abbrev pub behind : A → A → Bool
    behind a b = if down then lt (key a) (key b) else lt (key b) (key a)

    module _ (order : IsOrdered N) (signs : HasDifference N) where
      agree : (a b : A) → HasKey key a → HasKey key b → by_difference a b ≡ behind a b
      agree a b p q =
          let up = signs.lt-sub (key a) (key b) p q in
          let less = signs.lt-sub (key b) (key a) q p in ground (arith, up, less)

      backward :
          (a b : A)
          → HasKey key a
          → HasKey key b
          → by_difference a b ≡ true
          → by_difference b a ≡ false
      backward a b p q h =
          let e = agree a b p q in
          let f = agree b a q p in
          let up = asym order (key b) (key a) in
          let less = asym order (key a) (key b) in ground (arith, e, f, up, less)

      through :
          (a b c : A)
          → HasKey key a
          → HasKey key b
          → HasKey key c
          → by_difference a b ≡ false
          → by_difference b c ≡ false
          → by_difference a c ≡ false
      through a b c p q r h k =
          let e = agree a b p q in
          let f = agree b c q r in
          let g = agree a c p r in
          let up = trans order (key c) (key b) (key a) q p in
          let less = trans order (key a) (key b) (key c) q r in ground (arith, e, f, g, up, less)

      pub sort-by_difference :
          (xs : List A) → All (HasKey key) xs → IsOrderly behind (sort by_difference xs)
      sort-by_difference xs all =
          IsOrderly-agree by_difference (HasKey key) behind (sort by_difference xs) agree
            (All-sort by_difference (HasKey key) xs all)
            (sort-IsOrderly by_difference (HasKey key) backward through xs all)
