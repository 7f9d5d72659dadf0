-- ===== src/Execution/Wallet.antt =====
-- frontend/src/hooks/useWallet.ts: the wallet that pays, and the calls that it sends.
pub mod Batch
pub mod Choice
pub mod One
use text.Mathlib.Text.{◌==◌ as str_eq}
use b1nary_xlayer_hackathon.Prelude.{
  Bool, false, not, find, if◌then◌else◌, String, Option, none, some, List, [], ◌∷◌, ◌++◌,
}
use b1nary_xlayer_hackathon.Prelude.Int.{ℤ}
use b1nary_xlayer_hackathon.Js.Error.{error, Try, ok, throws}

-- `BatchCall`; the calldata is a text of hexadecimal digits.
pub record BatchCall : Type 0 where
  pub to : String
  pub payload : String
  pub value : Option ℤ

-- The wallet that `useWallet` finds: `switchChain`, `getEthereumProvider`, and the answer of
-- `sendTransaction` to a call, which may depend on what was sent before.
pub record FundingWallet : Type 0 where
  pub switch_chain : Try (Unit {0})
  pub get_provider : Try (Unit {0})
  pub send_transaction : List BatchCall → BatchCall → Try String

-- The loop: the calls that went out so far, the hash of the last one, and the calls to go.
unfoldable pub send_loop :
    FundingWallet → List BatchCall → String → List BatchCall → Try String × List BatchCall
send_loop w sent last [] = (ok last, sent)
send_loop w sent last (call ∷ calls) = elim (w.send_transaction sent call) [
  | ok hash ↦ send_loop w (sent ++ (call ∷ [])) hash calls
  | throws e ↦ (throws e, sent)
]

-- The outcome, and all that the wallet has sent behind it.
unfoldable pub send_batch_tx :
    Option FundingWallet → List BatchCall → List BatchCall → Try String × List BatchCall
unfolding send_loop
send_batch_tx wallet sent [] = (throws (error "sendBatchTx requires at least one call"), sent)
send_batch_tx none sent (call ∷ calls) = (throws (error "No wallet connected"), sent)
send_batch_tx (some w) sent (call ∷ calls) = elim w.switch_chain [
  | throws e ↦ (throws e, sent)
  | ok _ ↦ elim w.get_provider [
    | throws e ↦ (throws e, sent)
    | ok _ ↦ send_loop w sent "0x" (call ∷ calls)
  ]
]

-- `sendFundingTx`: one call, and no check of how many.
unfoldable pub send_funding_tx :
    Option FundingWallet → List BatchCall → BatchCall → Try String × List BatchCall
unfolding send_loop
send_funding_tx none sent call = (throws (error "No funding wallet connected"), sent)
send_funding_tx (some w) sent call = elim w.switch_chain [
  | throws e ↦ (throws e, sent)
  | ok _ ↦ elim w.get_provider [
    | throws e ↦ (throws e, sent)
    | ok _ ↦ elim (w.send_transaction sent call) [
      | ok hash ↦ (ok hash, sent ++ (call ∷ []))
      | throws e ↦ (throws e, sent)
    ]
  ]
]

-- A connected wallet, as Privy describes it.
pub record Connected : Type 0 where
  pub address : String
  pub client_type : String

abbrev pub is_embedded : Connected → Bool
is_embedded w = str_eq w.client_type "privy"

-- `externalWallet ?? embeddedWallet`
unfoldable pub funding_wallet : List Connected → Option Connected
funding_wallet wallets = elim (find (λ w. not (is_embedded w)) wallets) [
  | some w ↦ some w
  | none ↦ find is_embedded wallets
]

-- `ExternalWallet`, without its constant field `chain`.
pub record ExternalWallet : Type 0 where
  pub address : String
  pub name : String
  pub wallet_client_type : String

-- `WALLET_NAMES[raw] ?? raw`
unfoldable pub pretty_wallet_name : String → String
pretty_wallet_name raw =
    if str_eq raw "metamask"
    then "MetaMask"
    else if str_eq raw "coinbase_wallet"
    then "Coinbase"
    else if str_eq raw "rainbow"
    then "Rainbow"
    else if str_eq raw "phantom"
    then "Phantom"
    else if str_eq raw "privy"
    then "Privy"
    else raw

abbrev pub described : Connected → ExternalWallet
described w = record {
  address = w.address;
  name = pretty_wallet_name w.client_type;
  wallet_client_type = w.client_type;
}

-- `externalWallets`
unfoldable pub external_wallets : List Connected → List ExternalWallet
external_wallets wallets = elim (find (λ w. not (is_embedded w)) wallets) [
  | some w ↦ described w ∷ []
  | none ↦ []
]

-- `address`, which is `fundingAddress` too.
unfoldable pub wallet_address : List Connected → Option String
wallet_address wallets = elim (funding_wallet wallets) [ some w ↦ some w.address | none ↦ none ]

-- `isConnected`, which is `!!fundingAddress`.
unfoldable pub is_connected : List Connected → Bool
unfolding wallet_address
is_connected wallets = elim (wallet_address wallets) [ some a ↦ not (str_eq a "") | none ↦ false ]
