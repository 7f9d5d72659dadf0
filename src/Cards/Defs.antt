-- ===== src/Cards/Defs.antt =====
-- What the cards share: links to transactions, the yield of a vault, and the calendar.
use Prim.Native.String.{◌++◌ as append}
use text.Mathlib.Text.{◌==◌ as str_eq}
use b1nary_xlayer_hackathon.Prelude.{String, Bool, Option, none, some, List, [], ◌∷◌, if◌then◌else◌}
use b1nary_xlayer_hackathon.Js.Number.{JsNumber}
use b1nary_xlayer_hackathon.Api.{Position}

pub data TxKind : Type 0 where
  open_tx settlement delivery : TxKind

pub data YieldMetric : Type 0 where
  apr roi : YieldMetric

-- `YieldPosition`: the yield of a vault, as the backend tells it.
pub record YieldPosition (N : Type 0) : Type 0 where
  pub vault_id : N
  pub asset : String
  pub deposited_at : String
  pub is_active : Bool
  pub estimated_yield : N

-- `Date.now()`, the local midnight of today, and the local midnight of the UTC day of a time.
pub record Calendar (N : Type 0) : Type 0 where
  pub now : N
  pub today_midnight : N
  pub local_midnight : N → N

-- `a ?? b` of two links.
abbrev pub or_link : Option String → Option String → Option String
or_link none b = b
or_link (some a) b = some a

abbrev pub filled : Option String → Option String
filled none = none
filled (some a) = if str_eq a "" then none else some a

-- `explorer` is `BASE_EXPLORER`.
unfoldable pub explorer_tx_url : (explorer : Option String) → String → Option String
explorer_tx_url explorer hash = elim (filled explorer) [
  | none ↦ none
  | some base ↦ some (append base (append "/tx/" hash))
]

-- The link of a hash that may be missing.
abbrev pub hash_url : (explorer : Option String) → Option String → Option String
hash_url explorer hash = elim (filled hash) [ none ↦ none | some h ↦ explorer_tx_url explorer h ]

module _ {N : Type 0} where
  unfoldable pub position_tx_url : (explorer : Option String) → TxKind → Position N → Option String
  unfolding explorer_tx_url
  position_tx_url explorer open_tx p = or_link p.tx_url (explorer_tx_url explorer p.tx_hash)
  position_tx_url explorer settlement p =
      or_link p.settlement_tx_url (hash_url explorer p.settlement_tx_hash)
  position_tx_url explorer delivery p =
      or_link p.delivery_tx_url (hash_url explorer p.delivery_tx_hash)

module _ {N : Type 0} ⦃js : JsNumber N⦄ where
  open js use {same}

  abbrev pub or_later : Option (YieldPosition N) → YieldPosition N → Bool → Option (YieldPosition N)
  or_later (some y) x hit = some y
  or_later none x hit = if hit then some x else none

  -- `yieldByVault.get(id)`, where the page has set the vaults in the order of this list: a later entry
  -- has replaced an earlier one. NaN does not stand for a vault.
  unfoldable pub yield_of_vault : List (YieldPosition N) → N → Option (YieldPosition N)
  yield_of_vault [] id = none
  yield_of_vault (y ∷ ys) id = or_later (yield_of_vault ys id) y (same y.vault_id id)

  unfoldable pub yield_of : List (YieldPosition N) → Position N → Option (YieldPosition N)
  unfolding yield_of_vault
  yield_of ys p = elim p.vault_id [ none ↦ none | some id ↦ yield_of_vault ys id ]

  abbrev pub yield_value : YieldMetric → (apr roi : N) → N
  yield_value YieldMetric.apr a r = a
  yield_value YieldMetric.roi a r = r
