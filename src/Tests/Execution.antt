-- ===== src/Tests/Execution.antt =====
-- Polling, racing, sending and pricing at concrete inputs.
use b1nary_xlayer_hackathon.Prelude.{
  ℕ, ◌+◌, ◌*◌, ◌^◌, ◌≤◌, ◌<◌, ◌≡◌, ◌↔◌, ◌⊎◌, refl, String, Bool, true, false, Option, none, some,
  [], ◌∷◌, ltb, ◌==◌, if◌then◌else◌,
}
use b1nary_xlayer_hackathon.Prelude.Int.{pos, ◌*ℤ◌}
use b1nary_xlayer_hackathon.Js.Error.{JsError, error, aggregate, Try, ok, throws}
use b1nary_xlayer_hackathon.Js.Fixed.{Fixed, fixed}
use b1nary_xlayer_hackathon.Execution.Poll.{
  confirmed, lost, timed_out, poll_until, poll_error, timed_out_message,
}
use b1nary_xlayer_hackathon.Execution.Poll.Ends.{EndsRight, poll_until-eq_iff}
use b1nary_xlayer_hackathon.Execution.Race.{Fired, fire_and_poll, resolved, rejected}
use b1nary_xlayer_hackathon.Execution.Race.Outcome.{
  Sent, IsConfirmed, fire_and_poll-resolved_iff, fire_and_poll-rejected_iff,
}
use b1nary_xlayer_hackathon.Execution.Wallet.{BatchCall, FundingWallet, send_batch_tx}
use b1nary_xlayer_hackathon.Execution.Wallet.Batch.{SentInOrder, send_batch_tx-SentInOrder}
use b1nary_xlayer_hackathon.Execution.Order.{Viem, Addresses, Collateral, compute_collateral}
use b1nary_xlayer_hackathon.Execution.Order.Amounts.{buy_collateral_exact, sell_collateral_exact}

-- The chain fails twice, then does not have the transaction, then has it.
abbrev answers : ℕ → Try Bool
answers i = if ltb i 2 then throws (error "rpc") else if i == 2 then ok false else ok true

abbrev dead : ℕ → Try Bool
dead i = throws (error "rpc")

finds : poll_until answers 60 ≡ confirmed 3
unfolding poll_until
finds = refl

gives_up : poll_until dead 60 ≡ lost 4
unfolding poll_until
gives_up = refl

runs_out : poll_until (λ i. ok false) 60 ≡ timed_out
unfolding poll_until
runs_out = refl

poll_until-eq_iff_example :
    (poll_until answers 60 ≡ confirmed 3) ↔ EndsRight answers 60 (confirmed 3)
poll_until-eq_iff_example = poll_until-eq_iff answers 60 (confirmed 3)

abbrev refused : Fired
refused = some (2, throws (error "no"))

abbrev taken : Fired
taken = some (2, ok "0xa")

fire_and_poll-resolved_iff_example :
    ((hash : Option String) × (fire_and_poll refused (confirmed 3) ≡ resolved hash))
    ↔ (Sent refused ⊎ IsConfirmed (confirmed 3))
fire_and_poll-resolved_iff_example = fire_and_poll-resolved_iff refused (confirmed 3)

fire_and_poll-rejected_iff_example :
    (fire_and_poll refused timed_out ≡ rejected (aggregate (error "no") (error timed_out_message)))
    ↔ ((t : ℕ) × (x : JsError) × (y : JsError) × (refused ≡ some (t, throws x))
        × (poll_error timed_out ≡ throws y)
        × (aggregate (error "no") (error timed_out_message) ≡ aggregate x y))
fire_and_poll-rejected_iff_example =
    fire_and_poll-rejected_iff refused timed_out (aggregate (error "no") (error timed_out_message))

-- A wallet whose user refuses the second call.
abbrev call_to : String → BatchCall
call_to to = record { to = to; payload = "0x"; value = none }

abbrev refusing : FundingWallet
refusing = record {
  switch_chain = ok tt;
  get_provider = ok tt;
  send_transaction =
      λ sent call. elim sent [ [] ↦ ok "0x1" | _ ∷ _ ↦ throws (error "User rejected") ];
}

second_refused :
    send_batch_tx (some refusing) [] (call_to "a" ∷ call_to "b" ∷ [])
    ≡ (throws (error "User rejected"), call_to "a" ∷ [])
unfolding send_batch_tx
second_refused = refl

send_batch_tx-SentInOrder_example :
    SentInOrder []
      (call_to "a" ∷ call_to "b" ∷ [])
      (send_batch_tx (some refusing) [] (call_to "a" ∷ call_to "b" ∷ []))
send_batch_tx-SentInOrder_example =
    send_batch_tx-SentInOrder (some refusing) [] (call_to "a") (call_to "b" ∷ [])

-- A parser that always reads two options of 10 ** 8.
abbrev viem : Viem
viem = record {
  parse_units = λ text digits. ok (pos 200_000_001);
  encode_order = λ quote signature amount collateral. ok "0x01";
  encode_approve = λ spender amount. ok "0x02";
  encode_transfer = λ to amount. ok "0x03";
  encode_deposit = ok "0x04";
  encode_exact_output = λ a b fee to out most limit. ok "0x05";
}

abbrev addresses : Addresses
addresses = record {
  margin_pool = "pool";
  batch_settler = "settler";
  usdc = "usdc";
  weth = "weth";
  wbtc = "wbtc";
  mokb = some "mokb";
  swap_router = none;
}

abbrev same_text : String → String
same_text s = s

buy_collateral_exact_example :
    (c : Collateral) × (q : ℕ) × (compute_collateral {N = Fixed} viem addresses same_text true
        (fixed.num 100)
        (fixed.num 50)
        "okb"
      ≡ ok c)
    × (c.otoken_amount ≡ pos 200_000_001)
    × (c.collateral ≡ pos q)
    × (c.collateral_asset ≡ "usdc")
    × (q * 10 ^ 10 ≤ 200_000_001 * 5_000_000_000)
    × (200_000_001 * 5_000_000_000 < (q + 1) * 10 ^ 10)
buy_collateral_exact_example =
    buy_collateral_exact {N = Fixed} viem addresses same_text (fixed.num 100) (fixed.num 50) "okb"
      200_000_001 5_000_000_000 refl refl

sell_collateral_exact_example :
    (c : Collateral) × (compute_collateral {N = Fixed} viem addresses same_text false
        (fixed.num 2)
        (fixed.num 50)
        "okb"
      ≡ ok c)
    × (c.otoken_amount ≡ pos 200_000_001)
    × (c.collateral ≡ pos 200_000_001 *ℤ pos (10 ^ 10))
    × (false ≡ true → c.collateral_asset ≡ "wbtc")
    × (false ≡ false → true ≡ true → c.collateral_asset ≡ "mokb")
    × (false ≡ false → true ≡ false → c.collateral_asset ≡ "weth")
sell_collateral_exact_example =
    sell_collateral_exact {N = Fixed} viem addresses same_text (fixed.num 2) (fixed.num 50) "okb"
      (pos 200_000_001) refl
