-- ===== src/Range/Funds.antt =====
-- What the account has for the two legs of the range dialog, before the first of them is fired.
use b1nary_xlayer_hackathon.Prelude.{◌≡◌, String, true, false, none, some, List, [], ◌∷◌, ◌++◌}
use b1nary_xlayer_hackathon.Prelude.Int.{ℤ, pos, ltb_ℤ, ◌+ℤ◌, ◌-ℤ◌}
use b1nary_xlayer_hackathon.Js.Error.{Try, ok}
use b1nary_xlayer_hackathon.Js.Number.{JsNumber}
use b1nary_xlayer_hackathon.Execution.Wallet.{BatchCall, send_batch_tx}
use b1nary_xlayer_hackathon.Execution.Order.{Collateral, or_default}
use b1nary_xlayer_hackathon.Execution.Chain.{approvals, plain_call}
use b1nary_xlayer_hackathon.Accept.Handler.{DepositToken, usdc, okb}
use b1nary_xlayer_hackathon.Range.Handler.{Range, RangeProps, RangeSetting}

module _ {N : Type 0} ⦃js : JsNumber N⦄ (setting : RangeSetting N) (props : RangeProps N) where
  open js use {num, dec, mul, div, pow10, ceil, to_big, of_big}

  -- The USDC that the swap may spend for a shortfall of the call's token.
  abbrev pub swap_price : ℤ → Try ℤ
  swap_price shortfall =
      let price = or_default props.spot_price props.put_quote.strike in
      let units = div (of_big shortfall) (pow10 (num 18)) in
      to_big (ceil (mul (mul (mul units price) (dec 102 2)) (num 1_000_000)))

  -- What the chain shows when `before` had been sent: the balances that the dialog reads for the two legs.
  pub record Read (account : String) (call_col : Collateral) (before : List BatchCall)
      : Type 0 where
    pub usdc_bal : ℤ
    pub token_bal : ℤ
    pub native_bal : ℤ
    pub usdc_read : setting.base.chain.balance_of before setting.base.at.usdc account ≡ ok usdc_bal
    pub token_read :
        setting.base.chain.balance_of before call_col.collateral_asset account ≡ ok token_bal
    pub native_read : setting.base.chain.native_balance before account ≡ ok native_bal

  -- The call of the swap, which spends up to `amount` USDC for what is missing of the call's token. The
  -- USDC balance covers it beside the put leg.
  pub record Swap (account : String) (put_col call_col : Collateral) (before : List BatchCall)
      (read : Read account call_col before) : Type 0 where
    pub router : String
    pub amount : ℤ
    pub allowance : ℤ
    pub first : List BatchCall
    pub fee : ℤ
    pub payload : String
    pub routed : setting.base.at.swap_router ≡ some router
    pub short : ltb_ℤ (read.token_bal +ℤ read.native_bal) call_col.collateral ≡ true
    pub priced : swap_price (call_col.collateral -ℤ (read.token_bal +ℤ read.native_bal)) ≡ ok amount
    pub affordable : ltb_ℤ read.usdc_bal (put_col.collateral +ℤ amount) ≡ false
    pub allowance_read :
        setting.base.chain.allowance before setting.base.at.usdc account router ≡ ok allowance
    pub approved :
        approvals setting.base.viem setting.base.at.usdc router allowance amount ≡ ok first
    pub encoded :
        setting.base.viem.encode_exact_output setting.base.at.usdc call_col.collateral_asset fee
          account
          (call_col.collateral -ℤ (read.token_bal +ℤ read.native_bal))
          amount
          (pos 0)
        ≡ ok payload

  -- The batch, sent behind the calls `before`, has the hash, and its receipt has come.
  pub record Mined (calls before after : List BatchCall) : Type 0 where
    pub hash : String
    pub gone : send_batch_tx setting.base.chain.wallet before calls ≡ (ok hash, after)
    pub came : setting.base.chain.receipt after hash ≡ ok tt

  -- The balances cover both legs when `before` had been sent, as they are or behind the swap; `d` is the state
  -- behind it.
  pub data Covered (account : String) (put_col call_col : Collateral) (before : List BatchCall)
      (d : Range N) : Type 0 where
    enough :
        (read : Read account call_col before)
        → ltb_ℤ (read.token_bal +ℤ read.native_bal) call_col.collateral ≡ false
        → ltb_ℤ read.usdc_bal put_col.collateral ≡ false
        → d.sent ≡ before
        → Covered account put_col call_col before d
    swapped :
        (read : Read account call_col before) (swap : Swap account put_col call_col before read)
        → Mined (swap.first ++ (plain_call swap.router swap.payload ∷ [])) before d.sent
        → d.did_swap ≡ true
        → Covered account put_col call_col before d

  -- The account holds the call's collateral when `before` had been sent, or what is missing has been wrapped.
  pub data ToppedUp (account : String) (call_col : Collateral) (before : List BatchCall)
      (d : Range N) : Type 0 where
    held :
        (bal : ℤ)
        → setting.base.chain.balance_of before call_col.collateral_asset account ≡ ok bal
        → ltb_ℤ bal call_col.collateral ≡ false
        → d.sent ≡ before
        → ToppedUp account call_col before d
    wrapped :
        (bal : ℤ) (payload : String)
        → setting.base.chain.balance_of before call_col.collateral_asset account ≡ ok bal
        → ltb_ℤ bal call_col.collateral ≡ true
        → setting.base.viem.encode_deposit ≡ ok payload
        → Mined
            (record {
              to = setting.base.at.weth;
              payload = payload;
              value = some (call_col.collateral -ℤ bal);
            }
              ∷ [])
            before
            d.sent
        → ToppedUp account call_col before d

  -- What the account lacks when `before` had been sent, and the token that the user is asked to deposit.
  pub data Lacks (account : String) (put_col call_col : Collateral) (before : List BatchCall)
      : DepositToken → Type 0 where
    no_usdc :
        (read : Read account call_col before)
        → ltb_ℤ (read.token_bal +ℤ read.native_bal) call_col.collateral ≡ false
        → ltb_ℤ read.usdc_bal put_col.collateral ≡ true
        → Lacks account put_col call_col before usdc
    no_router :
        (read : Read account call_col before)
        → ltb_ℤ (read.token_bal +ℤ read.native_bal) call_col.collateral ≡ true
        → setting.base.at.swap_router ≡ none
        → Lacks account put_col call_col before okb
    no_usdc_to_swap :
        (read : Read account call_col before) (router : String) (amount : ℤ)
        → ltb_ℤ (read.token_bal +ℤ read.native_bal) call_col.collateral ≡ true
        → setting.base.at.swap_router ≡ some router
        → swap_price (call_col.collateral -ℤ (read.token_bal +ℤ read.native_bal)) ≡ ok amount
        → ltb_ℤ read.usdc_bal (put_col.collateral +ℤ amount) ≡ true
        → Lacks account put_col call_col before usdc
