-- ===== src/Execution/Wallet/Batch.antt =====
-- What of a batch has gone out when `sendBatchTx` ends.
use mathlib.Core.List.{append_assoc, append-nil}
use b1nary_xlayer_hackathon.Prelude.{
  ◌≡◌, ◌≢◌, refl, sym, ◌∙◌, ap, inl, inr, String, Option, none, some, List, [], ◌∷◌, ◌++◌,
}
use b1nary_xlayer_hackathon.Js.Error.{Try, ok, throws, Try-cases}
use b1nary_xlayer_hackathon.Execution.Wallet.{BatchCall, FundingWallet, send_loop, send_batch_tx}

-- Of the calls, a first part `done` went out in order behind what was sent before. All of them did
-- if there is a hash, and at least one did not if there is an error.
abbrev pub SentInOrder : List BatchCall → List BatchCall → Try String × List BatchCall → Type 0
SentInOrder before calls (ok hash, after) = after ≡ before ++ calls
SentInOrder before calls (throws e, after) =
    (done : List BatchCall) × (rest : List BatchCall) × (calls ≡ done ++ rest)
    × (after ≡ before ++ done)
    × (rest ≢ [])

SentInOrder-cons :
    (before : List BatchCall) (call : BatchCall) (calls : List BatchCall)
    (r : Try String × List BatchCall)
    → SentInOrder (before ++ (call ∷ [])) calls r
    → SentInOrder before (call ∷ calls) r
SentInOrder-cons before call calls (ok hash, after) h = h ∙ append_assoc before (call ∷ []) calls
SentInOrder-cons before call calls (throws e, after) (done, rest, split, sent, more) =
    (call ∷ done, rest, ap (◌∷◌ call) split, sent ∙ append_assoc before (call ∷ []) done, more)

nothing_sent :
    (before : List BatchCall) (call : BatchCall) (calls : List BatchCall)
    → (done : List BatchCall) × (rest : List BatchCall) × (call ∷ calls ≡ done ++ rest)
      × (before ≡ before ++ done)
      × (rest ≢ [])
nothing_sent before call calls = ([], call ∷ calls, refl, sym (append-nil before), λ e. cc)

send_loop-SentInOrder :
    (w : FundingWallet) (before : List BatchCall) (last : String) (calls : List BatchCall)
    → SentInOrder before calls (send_loop w before last calls)
unfolding send_loop
send_loop-SentInOrder w before last [] = sym (append-nil before)
send_loop-SentInOrder w before last (call ∷ calls) =
    elim (Try-cases (w.send_transaction before call)) [
      | inl (hash, e) ↦
          rw (e, send_loop)
            (SentInOrder-cons before call calls _
              (send_loop-SentInOrder w (before ++ (call ∷ [])) hash calls))
      | inr (err, e) ↦ rw (e, send_loop) (nothing_sent before call calls)
    ]

-- Of a batch with a call in it, `sendBatchTx` sends the calls in order and each at most once: all of
-- them if it returns a hash, and if it throws, a first part of them that lacks at least one. So
-- where it throws, a part of the batch may have gone out.
pub send_batch_tx-SentInOrder :
    (wallet : Option FundingWallet) (before : List BatchCall) (call : BatchCall)
    (calls : List BatchCall)
    → SentInOrder before (call ∷ calls) (send_batch_tx wallet before (call ∷ calls))
unfolding send_batch_tx
send_batch_tx-SentInOrder none before call calls = nothing_sent before call calls
send_batch_tx-SentInOrder (some w) before call calls = elim (Try-cases w.switch_chain) [
  | inr (err, e) ↦ rw (e, send_batch_tx) (nothing_sent before call calls)
  | inl (_, e) ↦ elim (Try-cases w.get_provider) [
    | inr (err, f) ↦ rw (e, f, send_batch_tx) (nothing_sent before call calls)
    | inl (_, f) ↦ rw (e, f, send_batch_tx) (send_loop-SentInOrder w before "0x" (call ∷ calls))
  ]
]
