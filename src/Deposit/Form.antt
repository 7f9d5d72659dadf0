-- ===== src/Deposit/Form.antt =====
-- The form of the deposit dialog: the tokens, the balances it checks against, and the amount.
use b1nary_xlayer_hackathon.Prelude.{
  ℕ, String, Bool, false, Option, none, some, List, ◌==◌, if◌then◌else◌,
}
use b1nary_xlayer_hackathon.Prelude.Int.{ℤ, pos, negsuc, ltb_ℤ}
use b1nary_xlayer_hackathon.Js.Error.{ok, throws}
use b1nary_xlayer_hackathon.Execution.Wallet.{BatchCall}
use b1nary_xlayer_hackathon.Execution.Order.{Addresses, Viem, okb_token}

pub data Tab : Type 0 where
  deposit withdraw : Tab

pub data Token : Type 0 where
  usdc eth weth okb : Token

pub data Status : Type 0 where
  idle pending done : Status

pub data Notice : Type 0 where
  not_ready enter_amount exceeds_balance invalid_amount : Notice
  because : String → Notice

-- The raw balances of an account, as `useBalances` gives them.
pub record RawBalances : Type 0 where
  pub usd_raw : ℤ
  pub eth_raw : ℤ
  pub weth_raw : ℤ
  pub okb_raw : ℤ

-- The React state that the handlers read or write, and the effects: the calls sent, and whether the
-- balances were asked for again and `onComplete` was called. `selected` is the address of the wallet
-- that the user has chosen.
pub record Form : Type 0 where
  pub tab : Tab
  pub selected : Option String
  pub token : Token
  pub amount_str : String
  pub status : Status
  pub error : Option Notice
  pub tx_hash : Option String
  pub sent : List BatchCall
  pub refetched : Bool
  pub completed : Bool

-- `TOKEN_META`
abbrev pub decimals : Token → ℕ
decimals usdc = 6
decimals eth = 18
decimals weth = 18
decimals okb = 18

unfoldable pub balance_in : RawBalances → Token → ℤ
balance_in b usdc = b.usd_raw
balance_in b eth = b.eth_raw
balance_in b weth = b.weth_raw
balance_in b okb = b.okb_raw

-- A deposit is paid from the outside wallet, a withdrawal from the trading account.
abbrev pub source : Tab → (eoa smart : RawBalances) → RawBalances
source deposit eoa smart = eoa
source withdraw eoa smart = smart

unfoldable pub max_spendable : (eoa smart : RawBalances) → Form → ℤ
unfolding balance_in
max_spendable eoa smart f = balance_in (source f.tab eoa smart) f.token

-- `===` of two bigints.
abbrev pub same_ℤ : ℤ → ℤ → Bool
same_ℤ (pos a) (pos b) = a == b
same_ℤ (negsuc a) (negsuc b) = a == b
same_ℤ _ _ = false

-- What `parseAmount` returns, or the error that it shows.
pub data Amount : Type 0 where
  amount : ℤ → Amount
  refused : Notice → Amount

unfoldable pub check_amount : ℤ → ℤ → Amount
check_amount most a =
    if same_ℤ a (pos 0)
    then refused enter_amount
    else if ltb_ℤ most a
    then refused exceeds_balance
    else amount a

unfoldable pub parse_amount : Viem → (eoa smart : RawBalances) → Form → Amount
unfolding max_spendable check_amount
parse_amount viem eoa smart f = elim (viem.parse_units f.amount_str (decimals f.token)) [
  | ok a ↦ check_amount (max_spendable eoa smart f) a
  | throws e ↦ refused invalid_amount
]

-- The contract of a token; native ETH has none.
unfoldable pub token_address : Addresses → Token → Option String
token_address at usdc = some at.usdc
token_address at eth = none
token_address at weth = some at.weth
token_address at okb = some (okb_token at)
