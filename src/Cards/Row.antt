-- ===== src/Cards/Row.antt =====
-- The row of one position in the table of settled positions (`TradeRow` of
-- frontend/src/components/TradeLog.tsx), and the card of the same position.
use b1nary_xlayer_hackathon.Prelude.{
  ◌≡◌, refl, String, Bool, true, false, Option, none, some, if◌then◌else◌, arith,
}
use b1nary_xlayer_hackathon.Js.Number.{JsNumber}
use b1nary_xlayer_hackathon.Api.{Position}
use b1nary_xlayer_hackathon.Assets.{resolve_position_asset}
use b1nary_xlayer_hackathon.PositionMath.{get_position_strike, get_position_expiry_price}
use b1nary_xlayer_hackathon.Cards.One.{
  Part, assigned, premium_usd, total_days, cost_basis, premium_each, part_of,
}

pub data Side : Type 0 where
  buy sell : Side

-- What the row shows. `committed` is in USD for a put, and in the asset for a call.
pub record Row (N : Type 0) : Type 0 where
  pub strike : N
  pub premium : N
  pub days : N
  pub is_assigned : Bool
  pub cost : N
  pub expiry_price : Option N
  pub committed : N
  pub next_side : Side

-- The side that the link of the row opens: after an assignment the other one.
unfoldable pub next_side : (is_itm is_buy : Bool) → Side
next_side is_itm is_buy =
    if is_itm then (if is_buy then sell else buy) else (if is_buy then buy else sell)

-- `p.is_itm === true`
abbrev is_true : Option Bool → Bool
is_true none = false
is_true (some b) = b

abbrev pub was_assigned : Part → Bool
was_assigned assigned = true
was_assigned _ = false

module _ {N : Type 0} ⦃js : JsNumber N⦄ (lower : String → String) where
  open js use {num, add, sub, mul, div, pow10, floor, max, lt, parse, parse_date}

  abbrev units : Position N → N
  units p = div p.amount (num 100_000_000)

  -- `premiumPerEth`
  abbrev each : Position N → N
  each p =
      if lt (num 0) (units p)
      then div (div (parse p.net_premium) (num 1_000_000)) (units p)
      else num 0

  unfoldable pub row_of_position : Position N → Row N
  unfolding next_side resolve_position_asset
  row_of_position p = record {
    strike = get_position_strike p;
    premium = div (parse p.net_premium) (num 1_000_000);
    days =
        max (num 1)
          (floor (div (sub (mul p.expiry (num 1000)) (parse_date p.indexed_at)) (num 86_400_000)));
    is_assigned = is_true p.is_itm;
    cost =
        if p.is_put
        then sub (get_position_strike p) (each p)
        else add (get_position_strike p) (each p);
    expiry_price = get_position_expiry_price p;
    committed =
        if p.is_put
        then div p.collateral (num 1_000_000)
        else div p.collateral (
            pow10 (
              num
                (resolve_position_asset {N = N} lower p.asset
                  (some p.strike_price)).collateral_decimals));
    next_side = next_side (is_true p.is_itm) p.is_put;
  }

  -- The row of a settled position and its card show the same premium, the same number of days and the
  -- same cost basis, and they agree on whether it was assigned; the link of the row opens the side of
  -- the position again exactly if it was not.
  pub row_of_position-card :
      (p : Position N)
      → p.is_settled ≡ true
      → ((row_of_position p).premium ≡ premium_usd p)
        × ((row_of_position p).days ≡ total_days p)
        × ((row_of_position p).cost ≡ cost_basis p)
        × ((row_of_position p).is_assigned ≡ was_assigned (part_of p))
        × ((row_of_position p).next_side ≡ (
            if p.is_put
            then (if was_assigned (part_of p) then sell else buy)
            else (if was_assigned (part_of p) then buy else sell)))
  unfolding row_of_position total_days cost_basis premium_each part_of next_side
  row_of_position-card p h = (refl, refl, refl, ground arith, ground arith)
