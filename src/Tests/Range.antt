-- ===== src/Tests/Range.antt =====
-- The range dialog at concrete inputs.
use b1nary_xlayer_hackathon.Prelude.{
  ℕ, ltb, if◌then◌else◌, ◌≡◌, refl, true, false, none, some, [], ◌∷◌,
}
use b1nary_xlayer_hackathon.Prelude.Int.{pos}
use b1nary_xlayer_hackathon.Js.Error.{Try, ok, throws, JsError, error, aggregate}
use b1nary_xlayer_hackathon.Js.Text.{includes, includes_any_case}
use b1nary_xlayer_hackathon.Js.Fixed.{Fixed, fixed}
use b1nary_xlayer_hackathon.Api.{call}
use b1nary_xlayer_hackathon.Execution.Poll.{poll_until, timed_out_message}
use b1nary_xlayer_hackathon.Execution.Race.{fire_and_poll}
use b1nary_xlayer_hackathon.Execution.Wallet.{FundingWallet, send_batch_tx}
use b1nary_xlayer_hackathon.Execution.Chain.{plain_call, fire_batch}
use b1nary_xlayer_hackathon.Accept.Handler.{usdc}
use b1nary_xlayer_hackathon.Range.Handler.{
  RangeProps, Range, RangeSetting, idle, executing_call, cancelled,
}
use b1nary_xlayer_hackathon.Range.Legs.{on_error}
use b1nary_xlayer_hackathon.Range.Notices.{failed_leg_cancelled}
use b1nary_xlayer_hackathon.Range.Tagging.{grouped, tag_group, TagRight, tag_group-TagRight}
use b1nary_xlayer_hackathon.Tests.Accept.{quote, refusing, setting_with}

-- Both wallets hold 1000 USDC, 10^9 units of the call's token and nothing else.
abbrev range_setting : FundingWallet → RangeSetting Fixed
range_setting wallet = record {
  base = setting_with wallet true;
  clock = λ sent. fixed.num 1_775_000_000_000;
  group_id = "group";
}

abbrev range_props : RangeProps Fixed
range_props = record {
  put_quote = quote;
  call_quote = record quote { option_type = call };
  put_amount_usd = fixed.num 100;
  call_amount_eth = fixed.num 0;
  spot_price = some (fixed.num 55);
  asset_slug = "okb";
}

abbrev opened : Range Fixed
opened = record {
  step = idle;
  last = idle;
  put_hash = none;
  call_hash = none;
  error = none;
  did_swap = false;
  show_deposit = false;
  deposit_token = usdc;
  sent = [];
  stored = [];
  tagged = [];
  accepted = none;
}

-- The call leg fails: the wallet refuses, and the poll times out.
abbrev leg_error : JsError
leg_error = aggregate (error "User rejected the request") (error timed_out_message)

abbrev at_call : Range Fixed
at_call = record opened { step = executing_call; last = executing_call; put_hash = some "put" }

failed_leg_cancelled_example :
    let d' =
      on_error
        (record (range_setting refusing) { base = setting_with refusing false })
        range_props
        false
        leg_error
        at_call in
    (d'.error ≡ some cancelled) × (d'.step ≡ idle)
unfolding includes_any_case fire_batch poll_until send_batch_tx fire_and_poll
failed_leg_cancelled_example =
    failed_leg_cancelled (record (range_setting refusing) { base = setting_with refusing false })
      range_props "usdc" "user" (pos 1_000_000_000) (plain_call "settler" "order" ∷ []) [] leg_error
      false at_call refl refl

-- The backend has indexed both positions when it is asked for the third time.
abbrev backend : ℕ → Try (Unit {0})
backend i = if ltb i 2 then throws (error "API error: 409") else ok tt

tag_group-TagRight_example : TagRight "" backend (tag_group "" backend)
tag_group-TagRight_example = tag_group-TagRight "" backend

third_time : tag_group "" backend ≡ grouped 2
unfolding tag_group includes
third_time = refl
