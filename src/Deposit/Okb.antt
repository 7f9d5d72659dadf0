-- ===== src/Deposit/Okb.antt =====
-- The OKB of the deposit dialog where no OKB token is configured.
use b1nary_xlayer_hackathon.Prelude.{◌≡◌, refl, ℕ, zero, suc, String, Option, none, List, arith}
use b1nary_xlayer_hackathon.Prelude.Int.{ℤ, pos}
use b1nary_xlayer_hackathon.Js.Error.{Try, ok, throws}
use b1nary_xlayer_hackathon.Js.Number.{JsNumber}
use b1nary_xlayer_hackathon.Execution.Wallet.{BatchCall}
use b1nary_xlayer_hackathon.Execution.Chain.{Chain}
use b1nary_xlayer_hackathon.Execution.Order.{Addresses, Viem}
use b1nary_xlayer_hackathon.Balances.{Balances, Wallet, refetch, read_balances}
use b1nary_xlayer_hackathon.Deposit.Form.{
  Form, RawBalances, Tab, deposit, withdraw, Token, okb, decimals, source, Amount, refused, Notice,
  enter_amount, exceeds_balance, parse_amount, max_spendable, balance_in, invalid_amount,
  check_amount,
}

-- What the dialog reads of the hook.
abbrev pub raw_of : {N : Type 0} → Balances N → RawBalances
raw_of b = record {
  usd_raw = b.usd_raw;
  eth_raw = b.eth_raw;
  weth_raw = b.weth_raw;
  okb_raw = b.okb_raw;
}

check_amount_nothing : (n : ℕ) → (notice : Notice) × (check_amount (pos 0) (pos n) ≡ refused notice)
unfolding check_amount
check_amount_nothing zero = (enter_amount, refl)
check_amount_nothing (suc n) = (exceeds_balance, ground arith)

no_okb :
    (eoa smart : RawBalances) (tab : Tab) (token : Token)
    → eoa.okb_raw ≡ pos 0
    → smart.okb_raw ≡ pos 0
    → token ≡ okb
    → balance_in (source tab eoa smart) token ≡ pos 0
unfolding balance_in
no_okb eoa smart deposit token e s t = rw (t, balance_in) e
no_okb eoa smart withdraw token e s t = rw (t, balance_in) s

nothing_left :
    (t : Try ℤ) (most : ℤ)
    → most ≡ pos 0
    → ((a : ℤ) → t ≡ ok a → (n : ℕ) × (a ≡ pos n))
    → (notice : Notice) × ◌≡◌ {A = Amount}
        (elim t [ ok a ↦ check_amount most a | throws e ↦ refused invalid_amount ])
        (refused notice)
nothing_left (throws e) most m h = (invalid_amount, refl)
nothing_left (ok a) most m h =
    let (n, e) = h a refl in let (notice, r) = check_amount_nothing n in (notice, rw (m, e) r)

parse_amount_nothing :
    (viem : Viem) (eoa smart : RawBalances) (f : Form)
    → eoa.okb_raw ≡ pos 0
    → smart.okb_raw ≡ pos 0
    → f.token ≡ okb
    → ((a : ℤ) → viem.parse_units f.amount_str (decimals f.token) ≡ ok a → (n : ℕ) × (a ≡ pos n))
    → (notice : Notice) × (parse_amount viem eoa smart f ≡ refused notice)
unfolding parse_amount max_spendable
parse_amount_nothing viem eoa smart f e s t h =
    nothing_left (viem.parse_units f.amount_str (decimals f.token)) _
      (no_okb eoa smart f.tab f.token e s t) h

module _ {N : Type 0} ⦃js : JsNumber N⦄ (format_units : ℤ → ℕ → String) (chain : Chain)
    (at : Addresses) (missing : at.mokb ≡ none) where
  refetch-okb_raw :
      (address : Option String) (sent : List BatchCall) (w : Wallet N)
      → w.balances.okb_raw ≡ pos 0
      → (refetch format_units chain at address sent w).balances.okb_raw ≡ pos 0
  unfolding refetch read_balances
  refetch-okb_raw address sent w h = ground (arith, h, missing)

  -- Where no OKB token is configured, the OKB balances that start at 0 are still 0 after a refetch, so
  -- the form refuses every text for an amount of OKB, if the parser gives no negative amount.
  pub parse_amount-okb :
      (viem : Viem) (f : Form) (address other : Option String) (sent : List BatchCall)
      (eoa smart : Wallet N)
      → eoa.balances.okb_raw ≡ pos 0
      → smart.balances.okb_raw ≡ pos 0
      → f.token ≡ okb
      → ((a : ℤ) → viem.parse_units f.amount_str (decimals f.token) ≡ ok a → (n : ℕ) × (a ≡ pos n))
      → let eoa' = refetch format_units chain at other sent eoa in
        let smart' = refetch format_units chain at address sent smart in
        (notice : Notice) × (parse_amount viem (raw_of eoa'.balances) (raw_of smart'.balances) f
          ≡ refused notice)
  parse_amount-okb viem f address other sent eoa smart e s t h =
      parse_amount_nothing viem _ _ f (refetch-okb_raw other sent eoa e)
        (refetch-okb_raw address sent smart s) t h
