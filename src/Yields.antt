-- ===== src/Yields.antt =====
-- What the page of positions shows of the yield: frontend/src/components/yield/YieldSummaryCard.tsx and
-- frontend/src/components/yield/DistributionHistory.tsx.
use text.Mathlib.Text.{◌==◌ as str_eq}
use b1nary_xlayer_hackathon.Prelude.{
  ◌≡◌, refl, ap, ℕ, zero, suc, String, Bool, true, false, not, ◌&&◌, Bool-cases, inl, inr, Option,
  List, [], ◌∷◌, ◌++◌, keep, drop, length, length-drop, ltb, if◌then◌else◌, arith,
}
use b1nary_xlayer_hackathon.Js.Number.{JsNumber}
use b1nary_xlayer_hackathon.Accept.Props.{truthy_text}
use b1nary_xlayer_hackathon.Earn.{same_text}
use b1nary_xlayer_hackathon.Execution.Order.{or_default}
use b1nary_xlayer_hackathon.Portfolio.Log.{take}

-- The fields of `YieldAssetSummary` and of `YieldDistribution` that the cards read.
pub record YieldAsset (N : Type 0) : Type 0 where
  pub asset : String
  pub pending : N
  pub delivered : N
  pub total : N

pub record Distribution (N : Type 0) : Type 0 where
  pub asset : String
  pub amount : N
  pub airdrop_hash : Option String

pub record Totals (N : Type 0) : Type 0 where
  pub total_usd : N
  pub pending_usd : N
  pub delivered_usd : N

-- The state of `DistributionHistory`.
pub record Filter : Type 0 where
  pub filter_slug : Option String
  pub show_all : Bool

module _ {N : Type 0} ⦃js : JsNumber N⦄ where
  open js use {num, add, mul, lt}

  unfoldable pub asset_usd : N → String → Option N → N
  asset_usd amount asset okb_spot =
      if str_eq asset "usdc" then amount else mul amount (or_default okb_spot (num 0))

  -- The loop of the summary.
  unfoldable pub add_totals : Option N → Totals N → List (YieldAsset N) → Totals N
  unfolding asset_usd
  add_totals okb_spot t [] = t
  add_totals okb_spot t (a ∷ rest) =
      add_totals okb_spot
        (record {
          total_usd = add t.total_usd (asset_usd a.total a.asset okb_spot);
          pending_usd = add t.pending_usd (asset_usd a.pending a.asset okb_spot);
          delivered_usd = add t.delivered_usd (asset_usd a.delivered a.asset okb_spot);
        })
        rest

  unfoldable pub yield_totals : Option N → List (YieldAsset N) → Totals N
  unfolding add_totals
  yield_totals okb_spot assets =
      add_totals okb_spot (record { total_usd = num 0; pending_usd = num 0; delivered_usd = num 0 })
        assets

  abbrev pub has_yield : Totals N → Bool
  has_yield t = lt (num 0) t.total_usd

  -- The card is not there for a user without positions and without yield.
  abbrev pub summary_shown : Bool → Totals N → Bool
  summary_shown has_positions t = not (not has_positions && not (has_yield t))

  abbrev pub non_zero_assets : List (YieldAsset N) → List (YieldAsset N)
  non_zero_assets assets = keep (λ a. lt (num 0) a.total) assets

abbrev pub initial_show : ℕ
initial_show = 10

module _ {N : Type 0} where
  unfoldable pub filtered : Filter → List (Distribution N) → List (Distribution N)
  filtered s history =
      if truthy_text s.filter_slug
      then keep (λ d. same_text d.asset s.filter_slug) history
      else history

  unfoldable pub visible : Filter → List (Distribution N) → List (Distribution N)
  unfolding filtered
  visible s history =
      if s.show_all then filtered s history else take initial_show (filtered s history)

  -- `hasMore && !showAll`
  unfoldable pub more_button : Filter → List (Distribution N) → Bool
  unfolding filtered
  more_button s history = ltb initial_show (length (filtered s history)) && not s.show_all

abbrev pub choose_filter : Option String → Filter → Filter
choose_filter slug s = record { filter_slug = slug; show_all = false }

abbrev pub click_more : Filter → Filter
click_more s = record s { show_all = true }

take-append-drop : {A : Type 0} (n : ℕ) (xs : List A) → xs ≡ take n xs ++ drop n xs
take-append-drop zero xs = refl
take-append-drop (suc n) [] = refl
take-append-drop (suc n) (x ∷ xs) = ap (λ l. x ∷ l) (take-append-drop n xs)

-- What is shown, and what is not.
pub record Splits {N : Type 0} (s : Filter) (history hidden : List (Distribution N)) : Type 0 where
  pub parts : filtered s history ≡ visible s history ++ hidden
  pub button_shows : more_button s history ≡ ltb 0 (length hidden)
  pub all_behind : visible (click_more s) history ≡ visible s history ++ hidden

append-nil : {A : Type 0} (xs : List A) → xs ≡ xs ++ []
append-nil [] = refl
append-nil (x ∷ xs) = ap (λ l. x ∷ l) (append-nil xs)

-- The distributions of the chosen asset are those that are shown and then those that are hidden; the
-- button for more is there exactly if some are hidden, and behind its click all are shown.
pub history-Splits :
    {N : Type 0} (s : Filter) (history : List (Distribution N))
    → (hidden : List (Distribution N)) × Splits s history hidden
unfolding visible more_button filtered
history-Splits s history = elim (Bool-cases s.show_all) [
  | inl e ↦ (
    [],
    record {
      parts = rw (e, visible) (append-nil (filtered s history));
      button_shows = rw (e, more_button) (ground arith);
      all_behind = rw (e, visible) (append-nil (filtered s history));
    },
  )
  | inr e ↦ (
    drop initial_show (filtered s history),
    record {
      parts = rw (e, visible) (take-append-drop initial_show (filtered s history));
      button_shows =
          let rest = length-drop initial_show (filtered s history) in
          rw (e, more_button, rest) (ground arith);
      all_behind = rw (e, visible) (take-append-drop initial_show (filtered s history));
    },
  )
]
