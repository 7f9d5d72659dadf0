-- ===== src/Tests/Accept.antt =====
-- The trade dialog at concrete inputs.
use b1nary_xlayer_hackathon.Prelude.{
  ◌≡◌, refl, Bool, true, false, none, some, List, [], ◌∷◌, if◌then◌else◌,
}
use b1nary_xlayer_hackathon.Prelude.Int.{pos}
use b1nary_xlayer_hackathon.Js.Error.{JsError, error, aggregate, ok, throws}
use b1nary_xlayer_hackathon.Js.Text.{includes}
use b1nary_xlayer_hackathon.Js.Fixed.{Fixed, fixed}
use b1nary_xlayer_hackathon.Api.{PriceQuote, put}
use b1nary_xlayer_hackathon.Execution.Poll.{timed_out_message, poll_until}
use b1nary_xlayer_hackathon.Execution.Race.{rejected, fire_and_poll}
use b1nary_xlayer_hackathon.Execution.Wallet.{BatchCall, FundingWallet, send_batch_tx}
use b1nary_xlayer_hackathon.Execution.Order.{Viem, Addresses}
use b1nary_xlayer_hackathon.Execution.Chain.{Chain, plain_call, fire_batch, approvals}
use b1nary_xlayer_hackathon.Execution.Order.{compute_collateral, encode_execute_order}
use b1nary_xlayer_hackathon.Accept.Props.{
  AcceptProps, quote_is_valid, amount_of, min_amount, max_amount,
}
use b1nary_xlayer_hackathon.Accept.Handler.{
  Dialog, Setting, idle, executing, confirmed, usdc, handle_accept,
}
use b1nary_xlayer_hackathon.Accept.Outcomes.{Fired}
use b1nary_xlayer_hackathon.Accept.Reports.{AcceptEnd, Guarded}
use b1nary_xlayer_hackathon.Accept.Ends.{handle_accept-AcceptEnd}
use b1nary_xlayer_hackathon.Accept.Failed.{ReportsFailure, failed_batch_notice}

abbrev pub quote : PriceQuote Fixed
quote = record {
  option_type = put;
  strike = fixed.num 50;
  expiry_days = fixed.num 7;
  expiry_date = "2026-04-10";
  premium = fixed.num 1;
  delta = fixed.num 0;
  iv = fixed.num 1;
  spot = fixed.num 55;
  ttl = fixed.num 60;
  expires_at = fixed.num 1_775_779_200;
  available_amount = fixed.num 100;
  otoken_address = some "otoken";
  signature = some "0xsig";
  mm_address = none;
  bid_price_raw = some (fixed.num 1_000_000);
  deadline = some (fixed.num 1_775_001_600);
  quote_id = some "7";
  max_amount_raw = some (fixed.num 10_000_000_000);
  maker_nonce = some (fixed.num 0);
  position_count = fixed.num 0;
}

abbrev pub viem : Viem
viem = record {
  parse_units = λ text digits. ok (pos 200_000_000);
  encode_order = λ quote signature amount collateral. ok "order";
  encode_approve = λ spender amount. ok "approve";
  encode_transfer = λ to amount. ok "transfer";
  encode_deposit = ok "deposit";
  encode_exact_output = λ a b fee to out most limit. ok "swap";
}

abbrev pub addresses : Addresses
addresses = record {
  margin_pool = "pool";
  batch_settler = "settler";
  usdc = "usdc";
  weth = "weth";
  wbtc = "wbtc";
  mokb = some "mokb";
  swap_router = none;
}

abbrev pub accepting : FundingWallet
accepting = record {
  switch_chain = ok tt;
  get_provider = ok tt;
  send_transaction = λ sent call. ok call.payload;
}

abbrev pub refusing : FundingWallet
refusing = record {
  switch_chain = ok tt;
  get_provider = ok tt;
  send_transaction = λ sent call. throws (error "User rejected the request");
}

-- The balance of 1000 USDC falls at the third attempt of the poll, if the trade goes through.
abbrev pub chain_with : FundingWallet → Bool → Chain
chain_with wallet goes_through = record {
  wallet = some wallet;
  balance_of = λ sent token account. ok (pos 1_000_000_000);
  native_balance = λ sent account. ok (pos 0);
  allowance = λ sent token owner spender. ok (pos 0);
  receipt = λ sent hash. ok tt;
  settles = λ sent. some 1;
  balance_at_poll =
      λ sent token account i. ok (pos (if goes_through then 900_000_000 else 1_000_000_000));
}

abbrev pub setting_with : FundingWallet → Bool → Setting
setting_with wallet goes_through = record {
  connected = true;
  address = some "user";
  chain = chain_with wallet goes_through;
  viem = viem;
  at = addresses;
  lower = λ s. s;
  aggregate_text = "All promises were rejected";
  can_store = true;
  opt_id = "opt-1";
  now_iso = "2026-04-03T00:00:00Z";
}

abbrev pub props : AcceptProps Fixed
props = record {
  quote = quote;
  is_buy = true;
  max_position_eth = none;
  asset_slug = "okb";
  amount_str = "100";
}

abbrev pub opened : Dialog Fixed
opened = record {
  step = idle;
  current = idle;
  tx_hash = none;
  error = none;
  show_deposit = false;
  deposit_token = usdc;
  sent = [];
  stored = [];
  accepted = none;
}

abbrev trade_calls : List BatchCall
trade_calls = plain_call "usdc" "approve" ∷ plain_call "settler" "order" ∷ []

abbrev after : Dialog Fixed
after = (handle_accept (setting_with accepting true) props opened).1

sends_both : (after.sent ≡ trade_calls) × (after.step ≡ confirmed) × (after.tx_hash ≡ none)
unfolding handle_accept compute_collateral encode_execute_order fire_batch approvals quote_is_valid
    amount_of min_amount max_amount fire_and_poll send_batch_tx poll_until
sends_both = (refl, refl, refl)

handle_accept-AcceptEnd_example :
    AcceptEnd
      (setting_with accepting true)
      props
      opened
      (handle_accept (setting_with accepting true) props opened)
handle_accept-AcceptEnd_example = handle_accept-AcceptEnd (setting_with accepting true) props opened

-- The wallet refuses, and the poll times out.
abbrev both_failed : JsError
both_failed = aggregate (error "User rejected the request") (error timed_out_message)

abbrev at_work : Dialog Fixed
at_work = record opened { step = executing; current = executing }

nothing_went_out : Fired (setting_with refusing false) props "user" [] [] (rejected both_failed)
unfolding compute_collateral encode_execute_order fire_batch approvals fire_and_poll send_batch_tx
    poll_until
nothing_went_out = record {
  col = record {
    otoken_amount = pos 200_000_000;
    collateral = pos 100_000_000;
    collateral_asset = "usdc";
  };
  okb_balance = pos 1_000_000_000;
  allowance = pos 0;
  balance = pos 1_000_000_000;
  first = plain_call "usdc" "approve" ∷ [];
  payload = "order";
  computed = refl;
  balance_read = refl;
  collateral_read = refl;
  covered = λ sale. cc;
  allowance_read = refl;
  approved = refl;
  encoded = refl;
  fired = refl;
}

refused_Guarded : Guarded (setting_with refusing false) props "user"
unfolding quote_is_valid amount_of min_amount max_amount
refused_Guarded = record {
  connected = refl;
  valid = refl;
  enough = refl;
  within = refl;
  account_known = refl;
}

failed_batch_notice_example :
    ReportsFailure
      (setting_with refusing false)
      props
      []
      (handle_accept (setting_with refusing false) props opened)
unfolding includes
failed_batch_notice_example =
    failed_batch_notice (setting_with refusing false) props "user" [] both_failed opened refl refl
      refl refused_Guarded nothing_went_out
