-- ===== src/Cards/Agreement.antt =====
-- The cards and the summary above them compute the same numbers from the same positions.
use b1nary_xlayer_hackathon.Prelude.{
  ◌≡◌, ◌⊎◌, ◌∙◌, inl, inr, refl, sym, ap, String, true, false, not, Option, none, some, List, [],
  ◌∷◌, keep, if◌then◌else◌, arith,
}
use b1nary_xlayer_hackathon.Js.Number.{JsNumber}
use b1nary_xlayer_hackathon.Api.{Unknown, Position}
use b1nary_xlayer_hackathon.Assets.{
  AssetConfig, eth_config, okb_config, asset_at, asset_by_strike, get_asset_config,
  resolve_position_asset,
}
use b1nary_xlayer_hackathon.Cards.Defs.{YieldMetric}
use b1nary_xlayer_hackathon.Cards.One.{
  call_unit, committed_usd, premium_usd, total_days, apr, return_pct,
}
use b1nary_xlayer_hackathon.Cards.Two.{combined_usd}
use b1nary_xlayer_hackathon.Cards.Summary.{
  sum_from, premium_earned, call_decimals, capital_usd, active_capital, total_capital, weighted_apr,
  avg_apr, avg_roi, metric_value,
}
use b1nary_xlayer_hackathon.Cards.Page.{PageProps, card_props}

-- The registry's own slugs are in small letters.
pub record KeepsSlugs (lower : String → String) : Type 0 where
  pub eth_kept : lower "eth" ≡ "eth"
  pub okb_kept : lower "okb" ≡ "okb"

module _ {N : Type 0} ⦃js : JsNumber N⦄ (lower : String → String) where
  open js use {num, add, mul, div, pow10, lt}

  abbrev asset_of : Position N → AssetConfig N
  asset_of p = resolve_position_asset lower p.asset (some p.strike_price)

  by_strike-known : (s : Unknown N) → asset_by_strike (some s) ≡ eth_config
  unfolding asset_by_strike
  by_strike-known s = ground arith

  resolved-known :
      (a : Option String) (s : Unknown N)
      → let r = resolve_position_asset lower a (some s) in (r ≡ eth_config) ⊎ (r ≡ okb_config)
  unfolding resolve_position_asset asset_at
  resolved-known none s = inl (by_strike-known s)
  resolved-known (some a) s = let e = by_strike-known s in ground arith

  -- Both entries of the registry keep their collateral with 18 decimals.
  call_unit-known :
      (slug : String)
      → (lower slug ≡ "eth") ⊎ (lower slug ≡ "okb")
      → call_unit lower slug ≡ pow10 (num 18)
  unfolding call_unit get_asset_config asset_at
  call_unit-known slug (inl h) = rw (h, call_unit) refl
  call_unit-known slug (inr h) = rw (h, call_unit) refl

  call_decimals-known : (p : Position N) → call_decimals lower p ≡ pow10 (num 18)
  unfolding call_decimals
  call_decimals-known p = elim (resolved-known p.asset p.strike_price) [
    | inl e ↦ ap (λ (c : AssetConfig N). pow10 (num c.collateral_decimals)) e
    | inr e ↦ ap (λ (c : AssetConfig N). pow10 (num c.collateral_decimals)) e
  ]

  slug-known :
      KeepsSlugs lower
      → (p : Position N) → (lower (asset_of p).slug ≡ "eth") ⊎ (lower (asset_of p).slug ≡ "okb")
  slug-known k p = elim (resolved-known p.asset p.strike_price) [
    | inl e ↦ inl (ap (λ (c : AssetConfig N). lower c.slug) e ∙ k.eth_kept)
    | inr e ↦ inr (ap (λ (c : AssetConfig N). lower c.slug) e ∙ k.okb_kept)
  ]

  -- The card takes its unit from the slug that the page has resolved, the summary from the position.
  call_unit-call_decimals :
      KeepsSlugs lower
      → (p q : Position N) → call_unit lower (asset_of p).slug ≡ call_decimals lower q
  call_unit-call_decimals k p q =
      call_unit-known (asset_of p).slug (slug-known k p) ∙ sym (call_decimals-known q)

  module _ (page : PageProps N) where
    abbrev pub committed : Position N → N
    committed p = committed_usd lower (card_props lower page p).asset_slug p

    abbrev pub card_apr : Position N → N
    card_apr p = apr (committed p) (premium_usd p) (total_days p)

    committed-capital_usd : KeepsSlugs lower → (p : Position N) → committed p ≡ capital_usd lower p
    unfolding committed_usd capital_usd card_props
    committed-capital_usd k p = rw (call_unit-call_decimals k p p) refl

    weighted_apr-card_apr :
        KeepsSlugs lower → (p : Position N) → weighted_apr lower p ≡ mul (card_apr p) (committed p)
    unfolding weighted_apr apr total_days
    weighted_apr-card_apr k p = rw (committed-capital_usd k p) refl

    -- The sums over any positions of what their cards show.
    abbrev pub card_total : List (Position N) → N
    card_total ps = sum_from committed (num 0) ps

    abbrev pub card_mean : List (Position N) → N
    card_mean ps =
        if lt (num 0) (card_total ps)
        then div (sum_from (λ p. mul (card_apr p) (committed p)) (num 0) ps) (card_total ps)
        else num 0

    abbrev pub card_return : List (Position N) → N
    card_return ps = return_pct (card_total ps) (sum_from (premium_usd) (num 0) ps)

    sum_from-eq :
        (f g : Position N → N)
        → ((p : Position N) → f p ≡ g p)
        → (acc : N) (ps : List (Position N)) → sum_from f acc ps ≡ sum_from g acc ps
    unfolding sum_from
    sum_from-eq f g h acc [] = refl
    sum_from-eq f g h acc (p ∷ ps) =
        ap (λ x. sum_from f (add acc x) ps) (h p) ∙ sum_from-eq f g h (add acc (g p)) ps

    total_capital-card_total :
        KeepsSlugs lower → (ps : List (Position N)) → total_capital lower ps ≡ card_total ps
    unfolding total_capital
    total_capital-card_total k ps =
        sum_from-eq (capital_usd lower) committed (λ p. sym (committed-capital_usd k p)) (num 0) ps

    -- The summary of any positions is made of what their cards show, with the slug that the page gives
    -- to each card: its capital is the sum of the cards' capital, over the positions that are not
    -- settled; its APR is the mean of the cards' APR, weighted by their capital; and its ROI is the
    -- return of the sum of the cards' premiums on the sum of their capital.
    pub summary-cards :
        KeepsSlugs lower
        → (ps : List (Position N))
        → (active_capital lower ps ≡ card_total (keep (λ p. not p.is_settled) ps))
          × (metric_value lower YieldMetric.apr ps ≡ card_mean ps)
          × (metric_value lower YieldMetric.roi ps ≡ card_return ps)
    unfolding active_capital metric_value avg_apr avg_roi premium_earned return_pct
    summary-cards k ps =
        let total = total_capital-card_total k ps in
        let mean =
          sum_from-eq (weighted_apr lower) (λ p. mul (card_apr p) (committed p))
            (weighted_apr-card_apr k) (num 0) ps in
        (
          sum_from-eq (capital_usd lower) committed (λ p. sym (committed-capital_usd k p)) (num 0)
              (keep (λ p. not p.is_settled) ps),
          rw (total, mean) refl,
          rw total refl,
        )

    -- The capital on the card of a range is the capital that the summary counts for its two legs.
    pub combined_usd-capital :
        KeepsSlugs lower
        → (put_leg call_leg first : Position N) → put_leg.is_put ≡ true
        → call_leg.is_put ≡ false
        → combined_usd lower (card_props lower page first).asset_slug put_leg call_leg
          ≡ add (capital_usd lower put_leg) (capital_usd lower call_leg)
    unfolding combined_usd capital_usd card_props
    combined_usd-capital k p c first a b =
        let unit = call_unit-call_decimals k first c in simp (combined_usd, a, b, unit)
