-- ===== src/Range/Breaks.antt =====
-- What can throw in the range dialog before its legs: reading the balances, the swap and the wrapping.
use b1nary_xlayer_hackathon.Prelude.{◌≡◌, String, true, some, List, [], ◌∷◌, ◌++◌}
use b1nary_xlayer_hackathon.Prelude.Int.{ℤ, pos, ltb_ℤ, ◌+ℤ◌, ◌-ℤ◌}
use b1nary_xlayer_hackathon.Js.Error.{JsError, ok, throws}
use b1nary_xlayer_hackathon.Js.Number.{JsNumber}
use b1nary_xlayer_hackathon.Assets.{get_asset_config}
use b1nary_xlayer_hackathon.Execution.Wallet.{BatchCall, send_batch_tx}
use b1nary_xlayer_hackathon.Execution.Order.{Collateral}
use b1nary_xlayer_hackathon.Execution.Chain.{approvals, plain_call}
use b1nary_xlayer_hackathon.Range.Handler.{RangeProps, RangeSetting, fee_of}
use b1nary_xlayer_hackathon.Range.Funds.{Read, Swap, swap_price}

module _ {N : Type 0} ⦃js : JsNumber N⦄ (setting : RangeSetting N) (props : RangeProps N) where
  open js use {to_big}

  -- The batch is refused, or the wait for its receipt fails.
  pub data Unmined (calls before : List BatchCall) (e : JsError) (after : List BatchCall)
      : Type 0 where
    refused :
        send_batch_tx setting.base.chain.wallet before calls ≡ (throws e, after)
        → Unmined calls before e after
    no_receipt :
        (hash : String)
        → send_batch_tx setting.base.chain.wallet before calls ≡ (ok hash, after)
        → setting.base.chain.receipt after hash ≡ throws e
        → Unmined calls before e after

  -- A balance cannot be read, or the swap fails: its price or its fee is not an integer, its allowance
  -- cannot be read, a call of it cannot be encoded, or its batch fails.
  pub data CoverFails (account : String) (put_col call_col : Collateral) (before : List BatchCall)
      (e : JsError) : List BatchCall → Type 0 where
    usdc_unread :
        setting.base.chain.balance_of before setting.base.at.usdc account ≡ throws e
        → CoverFails account put_col call_col before e before
    token_unread :
        setting.base.chain.balance_of before call_col.collateral_asset account ≡ throws e
        → CoverFails account put_col call_col before e before
    native_unread :
        setting.base.chain.native_balance before account ≡ throws e
        → CoverFails account put_col call_col before e before
    not_priced :
        (read : Read setting props account call_col before)
        → ltb_ℤ (read.token_bal +ℤ read.native_bal) call_col.collateral ≡ true
        → swap_price setting props (call_col.collateral -ℤ (read.token_bal +ℤ read.native_bal))
          ≡ throws e
        → CoverFails account put_col call_col before e before
    allowance_unread :
        (router : String)
        → setting.base.at.swap_router ≡ some router
        → setting.base.chain.allowance before setting.base.at.usdc account router ≡ throws e
        → CoverFails account put_col call_col before e before
    not_approved :
        (router : String) (allowance amount : ℤ)
        → setting.base.at.swap_router ≡ some router
        → setting.base.chain.allowance before setting.base.at.usdc account router ≡ ok allowance
        → approvals setting.base.viem setting.base.at.usdc router allowance amount ≡ throws e
        → CoverFails account put_col call_col before e before
    no_fee :
        to_big (fee_of setting props (get_asset_config setting.base.lower props.asset_slug))
          ≡ throws e
        → CoverFails account put_col call_col before e before
    not_encoded :
        (read : Read setting props account call_col before) (fee amount : ℤ)
        → setting.base.viem.encode_exact_output setting.base.at.usdc call_col.collateral_asset fee
            account
            (call_col.collateral -ℤ (read.token_bal +ℤ read.native_bal))
            amount
            (pos 0)
          ≡ throws e
        → CoverFails account put_col call_col before e before
    swap_failed :
        (read : Read setting props account call_col before)
        (swap : Swap setting props account put_col call_col before read) (after : List BatchCall)
        → Unmined (swap.first ++ (plain_call swap.router swap.payload ∷ [])) before e after
        → CoverFails account put_col call_col before e after

  -- The balance cannot be read, or the wrapping of what is missing fails.
  pub data TopUpFails (account : String) (call_col : Collateral) (before : List BatchCall)
      (e : JsError) : List BatchCall → Type 0 where
    unread :
        setting.base.chain.balance_of before call_col.collateral_asset account ≡ throws e
        → TopUpFails account call_col before e before
    no_payload :
        setting.base.viem.encode_deposit ≡ throws e → TopUpFails account call_col before e before
    wrap_failed :
        (bal : ℤ) (payload : String) (after : List BatchCall)
        → setting.base.chain.balance_of before call_col.collateral_asset account ≡ ok bal
        → ltb_ℤ bal call_col.collateral ≡ true
        → setting.base.viem.encode_deposit ≡ ok payload
        → Unmined
            (record {
              to = setting.base.at.weth;
              payload = payload;
              value = some (call_col.collateral -ℤ bal);
            }
              ∷ [])
            before
            e
            after
        → TopUpFails account call_col before e after
