-- ===== src/Execution/Wallet/One.antt =====
-- What has gone out when one call has been sent.
use mathlib.Core.List.{append-nil}
use b1nary_xlayer_hackathon.Prelude.{
  ◌≡◌, ◌≢◌, refl, ◌∙◌, String, Option, none, some, List, [], ◌∷◌, ◌++◌,
}
use b1nary_xlayer_hackathon.Js.Error.{Try, ok, throws}
use b1nary_xlayer_hackathon.Execution.Wallet.{
  BatchCall, FundingWallet, send_batch_tx, send_funding_tx,
}
use b1nary_xlayer_hackathon.Execution.Wallet.Batch.{SentInOrder, send_batch_tx-SentInOrder}
use b1nary_xlayer_hackathon.Execution.Wallet.Choice.{send_funding_tx-eq}

-- The call, if there is a hash, and nothing otherwise.
abbrev pub SentOne : List BatchCall → BatchCall → Try String × List BatchCall → Type 0
SentOne before call (ok hash, after) = after ≡ before ++ (call ∷ [])
SentOne before call (throws e, after) = after ≡ before

nothing_done :
    (call : BatchCall) (done rest : List BatchCall)
    → call ∷ [] ≡ done ++ rest
    → rest ≢ []
    → done ≡ []
nothing_done call [] rest e ne = refl
nothing_done call (c ∷ []) [] e ne = absurd (ne refl)
nothing_done call (c ∷ []) (r ∷ rest) e ne = cc
nothing_done call (c ∷ d ∷ done) rest e ne = cc

SentInOrder-SentOne :
    (before : List BatchCall) (call : BatchCall) (r : Try String × List BatchCall)
    → SentInOrder before (call ∷ []) r
    → SentOne before call r
SentInOrder-SentOne before call (ok hash, after) h = h
SentInOrder-SentOne before call (throws e, after) (done, rest, split, sent, more) =
    rw (nothing_done call done rest split more) at sent ∙ append-nil before

pub send_batch_tx-SentOne :
    (wallet : Option FundingWallet) (before : List BatchCall) (call : BatchCall)
    → SentOne before call (send_batch_tx wallet before (call ∷ []))
send_batch_tx-SentOne wallet before call =
    SentInOrder-SentOne before call _ (send_batch_tx-SentInOrder wallet before call [])

pub send_funding_tx-SentOne :
    (wallet : Option FundingWallet) (before : List BatchCall) (call : BatchCall)
    → SentOne before call (send_funding_tx wallet before call)
unfolding send_funding_tx
send_funding_tx-SentOne none before call = refl
send_funding_tx-SentOne (some w) before call =
    rw (send_funding_tx-eq w before call) (send_batch_tx-SentOne (some w) before call)
