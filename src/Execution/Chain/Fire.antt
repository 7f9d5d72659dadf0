-- ===== src/Execution/Chain/Fire.antt =====
-- What has gone out when a fired batch is done with.
use b1nary_xlayer_hackathon.Prelude.{String, List, [], ◌∷◌, ◌++◌}
use b1nary_xlayer_hackathon.Prelude.Int.{ℤ}
use b1nary_xlayer_hackathon.Js.Error.{Try}
use b1nary_xlayer_hackathon.Execution.Wallet.{BatchCall, send_batch_tx}
use b1nary_xlayer_hackathon.Execution.Wallet.Batch.{SentInOrder, send_batch_tx-SentInOrder}
use b1nary_xlayer_hackathon.Execution.Chain.{Chain, fire_batch}

pub fire_batch-SentInOrder :
    (chain : Chain) (token account : String) (before : ℤ) (first : List BatchCall)
    (last : BatchCall) (sent : List BatchCall)
    → (outcome : Try String) × SentInOrder sent
        (first ++ (last ∷ []))
        (outcome, (fire_batch chain token account before (first ++ (last ∷ [])) sent).1)
unfolding fire_batch
fire_batch-SentInOrder chain token account before [] last sent = (
  (send_batch_tx chain.wallet sent (last ∷ [])).0,
  send_batch_tx-SentInOrder chain.wallet sent last [],
)
fire_batch-SentInOrder chain token account before (call ∷ first) last sent = (
  (send_batch_tx chain.wallet sent ((call ∷ first) ++ (last ∷ []))).0,
  send_batch_tx-SentInOrder chain.wallet sent call (first ++ (last ∷ [])),
)
