-- ===== src/Balances.antt =====
-- frontend/src/hooks/useBalances.ts: the balances of an account, read together.
use b1nary_xlayer_hackathon.Prelude.{ℕ, String, Bool, false, Option, none, some, List}
use b1nary_xlayer_hackathon.Prelude.Int.{ℤ, pos}
use b1nary_xlayer_hackathon.Js.Error.{Try, ok, throws}
use b1nary_xlayer_hackathon.Js.Number.{JsNumber}
use b1nary_xlayer_hackathon.Execution.Wallet.{BatchCall}
use b1nary_xlayer_hackathon.Execution.Chain.{Chain}
use b1nary_xlayer_hackathon.Execution.Order.{Addresses, ◌>>=◌}
use b1nary_xlayer_hackathon.Positions.{account}

-- `Balances`, without the two texts for display.
pub record Balances (N : Type 0) : Type 0 where
  pub usd_raw : ℤ
  pub eth_raw : ℤ
  pub weth_raw : ℤ
  pub wbtc_raw : ℤ
  pub okb_raw : ℤ
  pub usd : N
  pub eth : N
  pub weth : N
  pub wbtc : N
  pub okb : N

-- The state of the hook.
pub record Wallet (N : Type 0) : Type 0 where
  pub balances : Balances N
  pub loading : Bool

-- Without a configured token there is no OKB.
abbrev okb_balance : Chain → Option String → List BatchCall → String → Try ℤ
okb_balance chain none sent user = ok (pos 0)
okb_balance chain (some token) sent user = chain.balance_of sent token user

module _ {N : Type 0} ⦃js : JsNumber N⦄ where
  open js use {num, parse}

  abbrev pub zero_balances : Balances N
  zero_balances = record {
    usd_raw = pos 0;
    eth_raw = pos 0;
    weth_raw = pos 0;
    wbtc_raw = pos 0;
    okb_raw = pos 0;
    usd = num 0;
    eth = num 0;
    weth = num 0;
    wbtc = num 0;
    okb = num 0;
  }

  -- `format_units` is viem's `formatUnits`.
  module _ (format_units : ℤ → ℕ → String) (chain : Chain) (at : Addresses) where
    abbrev human : ℤ → ℕ → N
    human raw decimals = parse (format_units raw decimals)

    -- `Promise.all` of the reads.
    unfoldable pub read_balances : List BatchCall → String → Try (Balances N)
    read_balances sent user = do
      usd_raw ← chain.balance_of sent at.usdc user
      weth_raw ← chain.balance_of sent at.weth user
      eth_raw ← chain.native_balance sent user
      okb_raw ← okb_balance chain at.mokb sent user
      ok (record {
        usd_raw = usd_raw;
        eth_raw = eth_raw;
        weth_raw = weth_raw;
        wbtc_raw = pos 0;
        okb_raw = okb_raw;
        usd = human usd_raw 6;
        eth = human eth_raw 18;
        weth = human weth_raw 18;
        wbtc = human (pos 0) 8;
        okb = human okb_raw 18;
      })

    -- The `catch` block only logs.
    abbrev take : Try (Balances N) → Wallet N → Wallet N
    take (ok b) w = record { balances = b; loading = false }
    take (throws e) w = record w { loading = false }

    unfoldable pub refetch : Option String → List BatchCall → Wallet N → Wallet N
    unfolding read_balances
    refetch address sent w = elim (account address) [
      | none ↦ record { balances = zero_balances; loading = false }
      | some user ↦ take (read_balances sent user) w
    ]
