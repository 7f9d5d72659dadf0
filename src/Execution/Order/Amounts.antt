-- ===== src/Execution/Order/Amounts.antt =====
-- The collateral that goes with an amount of options, and how yields compare.
use text.Mathlib.Text.{◌==◌ as str_eq}
use b1nary_xlayer_hackathon.Prelude.{
  ℕ, ◌+◌, ◌*◌, ◌/◌, ◌^◌, ◌≤◌, ◌<◌, ◌≡◌, refl, inl, inr, String, true, false, arith, Bool-cases,
  Option-cases, if◌then◌else◌,
}
use b1nary_xlayer_hackathon.Prelude.Int.{ℤ, pos, ◌*ℤ◌, quot_ℤ, *ℤ_pos}
use b1nary_xlayer_hackathon.Js.Error.{ok}
use b1nary_xlayer_hackathon.Js.Number.{JsNumber, IsOrdered, HasSigns}
use b1nary_xlayer_hackathon.Assets.{get_asset_config}
use b1nary_xlayer_hackathon.Assets.Lookup.{get_asset_config-slug}
use b1nary_xlayer_hackathon.Execution.Order.{
  Viem, Addresses, Collateral, okb_token, truncate, compute_apr, buy_collateral, sell_collateral,
  compute_collateral, decimals_of,
}

decimals :
    (N : Type 0) ⦃js : JsNumber N⦄ (lower : String → String) (slug : String)
    → decimals_of (get_asset_config {N = N} lower slug) ≡ 18
decimals N lower slug = elim (Option-cases (get_asset_config {N = N} lower slug)) [
  | inl e ↦ rw e refl
  | inr (config, e) ↦ rw e (get_asset_config-slug lower slug config e).1
]

module _ {N : Type 0} ⦃js : JsNumber N⦄ (viem : Viem) (at : Addresses)
    (lower : String → String) where
  open js use {num, mul, div, round, to_big}

  -- To buy at a strike, the collateral is in USDC and is the product of the options and the rounded
  -- strike in units of 6 decimals, rounded down: less than one unit is lost.
  pub buy_collateral_exact :
      (amount strike : N) (slug : String) (o s : ℕ)
      → viem.parse_units (truncate (div amount strike) (num 8)) 8 ≡ ok (pos o)
      → to_big (round (mul strike (num 100_000_000))) ≡ ok (pos s)
      → (c : Collateral) × (q : ℕ) × (compute_collateral viem at lower true amount strike slug
          ≡ ok c)
        × (c.otoken_amount ≡ pos o)
        × (c.collateral ≡ pos q)
        × (c.collateral_asset ≡ at.usdc)
        × (q * 10 ^ 10 ≤ o * s)
        × (o * s < (q + 1) * 10 ^ 10)
  unfolding compute_collateral
  buy_collateral_exact amount strike slug o s p r =
      let whole : quot_ℤ (pos o *ℤ pos s) (10 ^ 10) ≡ pos (o * s / 10 ^ 10) = rw (*ℤ_pos o s) in
      (
        record {
          otoken_amount = pos o;
          collateral = quot_ℤ (pos o *ℤ pos s) (10 ^ 10);
          collateral_asset = at.usdc;
        },
        o * s / 10 ^ 10,
        rw (p, r, buy_collateral),
        refl,
        whole,
        refl,
        omega arith,
        omega arith,
      )

  -- To sell, the collateral is the options' own amount, with 18 decimals in place of 8, for every
  -- asset; its token is WBTC for "btc", the OKB token for "okb" and WETH for all others.
  pub sell_collateral_exact :
      (amount strike : N) (slug : String) (o : ℤ)
      → viem.parse_units (truncate amount (num 8)) 8 ≡ ok o
      → (c : Collateral) × (compute_collateral viem at lower false amount strike slug ≡ ok c)
        × (c.otoken_amount ≡ o)
        × (c.collateral ≡ o *ℤ pos (10 ^ 10))
        × (str_eq slug "btc" ≡ true → c.collateral_asset ≡ at.wbtc)
        × (str_eq slug "btc" ≡ false → str_eq slug "okb" ≡ true → c.collateral_asset ≡ okb_token at)
        × (str_eq slug "btc" ≡ false → str_eq slug "okb" ≡ false → c.collateral_asset ≡ at.weth)
  unfolding compute_collateral
  sell_collateral_exact amount strike slug o p = (
    record {
      otoken_amount = o;
      collateral = o *ℤ pos (10 ^ 10);
      collateral_asset =
          if str_eq slug "btc"
          then at.wbtc
          else if str_eq slug "okb"
          then okb_token at
          else at.weth;
    },
    rw (p, decimals N lower slug, sell_collateral),
    refl,
    refl,
    λ b. rw b,
    λ b k. rw (b, k),
    λ b k. rw (b, k),
  )

module _ {N : Type 0} ⦃js : JsNumber N⦄ (order : IsOrdered N) (signs : HasSigns N) where
  open js use {num, mul, div, le, lt, finite}
  open order use {lt_of_not_le}
  open signs use {mul_mono, div_mono, num_lt, num_finite, not_nan_of_finite}

  -- Of two quotes at the same strike and term, the one with the higher premium shows an APR that is
  -- not lower, as long as no result overflows.
  pub compute_apr_mono :
      (low high strike days : N)
      → finite low ≡ true
      → finite high ≡ true
      → finite strike ≡ true
      → finite (div low strike) ≡ true
      → finite (div high strike) ≡ true
      → finite (div (num 365) days) ≡ true
      → lt (num 0) (div (num 365) days) ≡ true
      → finite (mul (div low strike) (div (num 365) days)) ≡ true
      → finite (mul (div high strike) (div (num 365) days)) ≡ true
      → le low high ≡ true
      → le (compute_apr low strike days) (compute_apr high strike days) ≡ true
  unfolding compute_apr
  compute_apr_mono low high strike days fl fh fs dl dh fy y ml mh h =
      let zero_le : le (num 0) (num 0) ≡ true = not_nan_of_finite _ (num_finite 0 (omega arith)) in
      elim (Bool-cases (le strike (num 0))) [
        | inl bad ↦ ground arith
        | inr good ↦
            let positive : lt (num 0) strike ≡ true =
              lt_of_not_le _ _ (not_nan_of_finite _ fs) zero_le good in
            let yields = div_mono low high strike fl fh fs positive h in
            let yearly = mul_mono _ _ _ dl dh fy y yields in
            let percent =
              mul_mono _ _ (num 100) ml mh (num_finite 100 (omega arith))
                (num_lt 0 100 (omega arith) (omega arith)) yearly in
            ground arith
      ]
