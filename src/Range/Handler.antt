-- ===== src/Range/Handler.antt =====
-- `handleAccept` of the range dialog, as a `Flow` over the dialog's state. `last` is the local
-- `lastStep`. The error texts are constructors; `because` shows the message of the exception itself.
use b1nary_xlayer_hackathon.Prelude.{
  String, Bool, true, false, Option, none, some, List, [], ◌∷◌, ◌++◌,
}
use b1nary_xlayer_hackathon.Prelude.Int.{ℤ, pos, ltb_ℤ, ◌+ℤ◌, ◌-ℤ◌}
use b1nary_xlayer_hackathon.Js.Number.{JsNumber}
use b1nary_xlayer_hackathon.Api.{PriceQuote, Position}
use b1nary_xlayer_hackathon.Assets.{AssetConfig, get_asset_config}
use b1nary_xlayer_hackathon.Flow.{Flow, ◌>>=◌, ◌>>◌, modify, leave, leave_if, when, attempt, await}
use b1nary_xlayer_hackathon.Execution.Race.{settling}
use b1nary_xlayer_hackathon.Execution.Wallet.{BatchCall, send_batch_tx}
use b1nary_xlayer_hackathon.Execution.Order.{Collateral, or_default}
use b1nary_xlayer_hackathon.Execution.Chain.{approvals, plain_call}
use b1nary_xlayer_hackathon.Accept.Handler.{Setting, DepositToken, usdc, okb}

pub data RangeStep : Type 0 where
  idle swapping executing_put executing_call confirmed partial_put_only : RangeStep

pub data Notice : Type 0 where
  not_available expiring call_expired cancelled swap_failed : Notice
  lower_failed_after_swap lower_failed upper_failed failed : Notice
  because : String → Notice

-- The props of the dialog that its handler reads.
pub record RangeProps (N : Type 0) : Type 0 where
  pub put_quote : PriceQuote N
  pub call_quote : PriceQuote N
  pub put_amount_usd : N
  pub call_amount_eth : N
  pub spot_price : Option N
  pub asset_slug : String

-- The React state, the local `lastStep`, and the effects: the calls sent, the positions stored, the
-- groups that `tagGroup` was started for, and what `onAccepted` was told.
pub record Range (N : Type 0) : Type 0 where
  pub step : RangeStep
  pub last : RangeStep
  pub put_hash : Option String
  pub call_hash : Option String
  pub error : Option Notice
  pub did_swap : Bool
  pub show_deposit : Bool
  pub deposit_token : DepositToken
  pub sent : List BatchCall
  pub stored : List (Position N)
  pub tagged : List (String × List String)
  pub accepted : Option (Option String × Option String)

-- What surrounds the dialog. `clock` is `Date.now()` when these calls have been sent, and `group_id`
-- the random id.
pub record RangeSetting (N : Type 0) : Type 0 where
  pub base : Setting
  pub clock : List BatchCall → N
  pub group_id : String

-- `[putHash, callHash].filter(Boolean)`, if both are there.
abbrev pub both_hashes : String → Option String → Option String → List (String × List String)
both_hashes group (some p) (some c) = (group, p ∷ c ∷ []) ∷ []
both_hashes group _ _ = []

module _ {N : Type 0} ⦃js : JsNumber N⦄ (setting : RangeSetting N) (props : RangeProps N) where
  open js use {num, dec, add, mul, div, pow10, floor, ceil, lt, to_big, of_big}

  abbrev pub env : Setting
  env = setting.base

  unfoldable pub deadline_ok : N → PriceQuote N → Bool
  deadline_ok now q = lt (add (floor (div now (num 1000))) (num 60)) (or_default q.deadline (num 0))

  abbrev pub ask_deposit : DepositToken → Range N → Range N
  ask_deposit token d = record d { deposit_token = token; show_deposit = true }

  abbrev pub show : Notice → Range N → Range N
  show notice d = record d { error = some notice }

  abbrev pub update_step : RangeStep → Range N → Range N
  update_step s d = record d { last = s; step = s }

  abbrev pub set_put_hash : Option String → Range N → Range N
  set_put_hash none d = d
  set_put_hash (some hash) d = record d { put_hash = some hash }

  abbrev pub set_call_hash : Option String → Range N → Range N
  set_call_hash none d = d
  set_call_hash (some hash) d = record d { call_hash = some hash }

  abbrev pub fee_of : Option (AssetConfig N) → N
  fee_of none = num 3000
  fee_of (some config) = or_default config.swap_fee_tier (num 3000)

  -- The wallet's prompt may never be answered.
  abbrev pub send : List BatchCall → Flow (Range N) String
  send calls = await λ d.
      let (r, sent') = send_batch_tx env.chain.wallet d.sent calls in
      (settling (env.chain.settles sent') r, record d { sent = sent' })

  unfoldable pub send_swap : List BatchCall → Flow (Range N) (Unit {0})
  send_swap calls = do
    hash ← send calls
    attempt (λ d. env.chain.receipt d.sent hash)
    modify (λ d. record d { did_swap = true })

  -- Swaps USDC for what is missing of the call's token.
  unfoldable pub swap :
      String
      → (router : String) → (usdc_bal shortfall : ℤ) → (put_col call_col : Collateral)
      → Flow (Range N) (Unit {0})
  unfolding approvals get_asset_config send_swap
  swap account router usdc_bal shortfall put_col call_col = do
    let price = or_default props.spot_price props.put_quote.strike
    let units = div (of_big shortfall) (pow10 (num 18))
    amount ← attempt λ d. to_big (ceil (mul (mul (mul units price) (dec 102 2)) (num 1_000_000)))
    leave_if (ltb_ℤ usdc_bal (put_col.collateral +ℤ amount)) (ask_deposit usdc)
    let fee_tier = fee_of (get_asset_config env.lower props.asset_slug)
    modify (update_step swapping)
    allowance ← attempt (λ d. env.chain.allowance d.sent env.at.usdc account router)
    first ← attempt (λ d. approvals env.viem env.at.usdc router allowance amount)
    fee ← attempt (λ d. to_big fee_tier)
    payload ← attempt λ d.
        env.viem.encode_exact_output env.at.usdc call_col.collateral_asset fee account shortfall
          amount (pos 0)
    send_swap (first ++ (plain_call router payload ∷ []))

  -- The three cases: enough for the call; too little, and no router; too little, and a router.
  unfoldable pub cover_by :
      Option String
      → Bool
      → String
      → (usdc_bal available : ℤ) → (put_col call_col : Collateral) → Flow (Range N) (Unit {0})
  unfolding swap
  cover_by router false account usdc_bal available put_col call_col =
      leave_if (ltb_ℤ usdc_bal put_col.collateral) (ask_deposit usdc)
  cover_by none true account usdc_bal available put_col call_col = leave (ask_deposit okb)
  cover_by (some router) true account usdc_bal available put_col call_col =
      swap account router usdc_bal (call_col.collateral -ℤ available) put_col call_col

  unfoldable pub cover : String → (put_col call_col : Collateral) → Flow (Range N) (Unit {0})
  unfolding cover_by
  cover account put_col call_col = do
    usdc_bal ← attempt (λ d. env.chain.balance_of d.sent env.at.usdc account)
    token_bal ← attempt (λ d. env.chain.balance_of d.sent call_col.collateral_asset account)
    native_bal ← attempt (λ d. env.chain.native_balance d.sent account)
    cover_by env.at.swap_router (ltb_ℤ (token_bal +ℤ native_bal) call_col.collateral) account
        usdc_bal (token_bal +ℤ native_bal) put_col call_col

  -- Wraps what is missing of the call's collateral from the native balance.
  unfoldable pub wrap : ℤ → Flow (Range N) (Unit {0})
  wrap value = do
    payload ← attempt (λ d. env.viem.encode_deposit)
    hash ← send (record { to = env.at.weth; payload = payload; value = some value } ∷ [])
    attempt (λ d. env.chain.receipt d.sent hash)

  unfoldable pub top_up : String → Collateral → Flow (Range N) (Unit {0})
  unfolding wrap
  top_up account call_col = do
    bal ← attempt (λ d. env.chain.balance_of d.sent call_col.collateral_asset account)
    when (ltb_ℤ bal call_col.collateral) (wrap (call_col.collateral -ℤ bal))
