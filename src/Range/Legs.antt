-- ===== src/Range/Legs.antt =====
-- The two legs of the range dialog, and its whole handler.
use b1nary_xlayer_hackathon.Prelude.{
  String, Bool, true, false, not, ◌&&◌, ◌||◌, Option, none, some, [], ◌∷◌, ◌++◌, if◌then◌else◌,
}
use b1nary_xlayer_hackathon.Js.Error.{JsError, message}
use b1nary_xlayer_hackathon.Js.Text.{includes, includes_any_case}
use b1nary_xlayer_hackathon.Js.Number.{JsNumber}
use b1nary_xlayer_hackathon.Api.{PriceQuote}
use b1nary_xlayer_hackathon.Flow.{
  Flow, ◌>>=◌, ◌>>◌, modify, leave, leave_if, turned, attempt, await, catch,
}
use b1nary_xlayer_hackathon.Execution.Order.{
  Collateral, compute_collateral, encode_execute_order, build_optimistic_position,
}
use b1nary_xlayer_hackathon.Execution.Chain.{fire_batch, approvals, plain_call}
use b1nary_xlayer_hackathon.Accept.Props.{quote_is_valid}
use b1nary_xlayer_hackathon.Accept.Handler.{usdc}
use b1nary_xlayer_hackathon.Range.Handler.{
  RangeStep, idle, swapping, executing_put, executing_call, confirmed, partial_put_only,
  not_available, expiring, call_expired, cancelled, swap_failed, lower_failed_after_swap,
  lower_failed, upper_failed, failed, because, RangeProps, Range, RangeSetting, deadline_ok,
  ask_deposit, show, update_step, set_put_hash, set_call_hash, both_hashes, cover, top_up,
}

module _ {N : Type 0} ⦃js : JsNumber N⦄ (setting : RangeSetting N) (props : RangeProps N) where
  -- The calls of a leg, sent by `fireAndPoll` until the balance falls.
  unfoldable pub leg : String → PriceQuote N → Collateral → Flow (Range N) (Option String)
  unfolding encode_execute_order approvals fire_batch
  leg account quote col = do
    payload ← attempt λ d.
        encode_execute_order setting.base.viem setting.base.at setting.base.lower quote
          col.otoken_amount col.collateral
    allowance ← attempt λ d.
        setting.base.chain.allowance d.sent col.collateral_asset account setting.base.at.margin_pool
    before ← attempt (λ d. setting.base.chain.balance_of d.sent col.collateral_asset account)
    first ← attempt λ d.
        approvals setting.base.viem col.collateral_asset setting.base.at.margin_pool allowance
          col.collateral
    await λ d.
        let (r, sent') =
          fire_batch setting.base.chain col.collateral_asset account before
            (first ++ (plain_call setting.base.at.batch_settler payload ∷ [])) d.sent in
        (r, record d { sent = sent' })

  abbrev save : PriceQuote N → N → Bool → String → Range N → Range N
  save quote amount is_buy account d =
      let p =
        build_optimistic_position setting.base.opt_id setting.base.now_iso quote amount is_buy
          account props.asset_slug (some setting.group_id) in
      if setting.base.can_store then record d { stored = d.stored ++ (p ∷ []) } else d

  -- Behind the put leg.
  unfoldable pub put_done : String → Option String → Range N → Range N
  put_done account hash d =
      save props.put_quote props.put_amount_usd true account (set_put_hash setting props hash d)

  -- Behind the call leg.
  unfoldable pub call_done : String → (put_hash call_hash : Option String) → Range N → Range N
  call_done account put_hash call_hash d =
      let d' =
        save props.call_quote props.call_amount_eth false account
          (set_call_hash setting props call_hash d) in
      record d' {
        tagged = d'.tagged ++ both_hashes setting.group_id put_hash call_hash;
        last = confirmed;
        step = confirmed;
        accepted = some (put_hash, call_hash);
      }

  abbrev pub expired : Range N → Range N
  expired d = record d {
    last = partial_put_only;
    step = partial_put_only;
    error = some call_expired;
  }

  -- `if (!deadlineOk(callQuote)) { ...; return; }`
  unfoldable pub check_call_deadline : Flow (Range N) (Unit {0})
  unfolding deadline_ok
  check_call_deadline d =
      turned (not (deadline_ok setting props (setting.clock d.sent) props.call_quote)) (expired d) d

  unfoldable pub call_leg : String → Collateral → Option String → Flow (Range N) (Unit {0})
  unfolding leg call_done
  call_leg account call_col put_hash = do
    modify (update_step setting props executing_call)
    call_hash ← leg account props.call_quote call_col
    modify (call_done account put_hash call_hash)

  unfoldable pub behind_put : String → Collateral → Option String → Flow (Range N) (Unit {0})
  unfolding put_done check_call_deadline call_leg
  behind_put account call_col put_hash = do
    modify (put_done account put_hash)
    check_call_deadline
    call_leg account call_col put_hash

  unfoldable pub execute : String → (put_col call_col : Collateral) → Flow (Range N) (Unit {0})
  unfolding leg behind_put
  execute account put_col call_col = do
    modify (update_step setting props executing_put)
    put_hash ← leg account props.put_quote put_col
    behind_put account call_col put_hash

  -- The `try` block.
  unfoldable pub accept_range : String → Flow (Range N) (Unit {0})
  unfolding cover top_up execute compute_collateral
  accept_range account = do
    put_col ← attempt λ d.
        compute_collateral setting.base.viem setting.base.at setting.base.lower true
          props.put_amount_usd props.put_quote.strike props.asset_slug
    call_col ← attempt λ d.
        compute_collateral setting.base.viem setting.base.at setting.base.lower false
          props.call_amount_eth props.call_quote.strike props.asset_slug
    cover setting props account put_col call_col
    top_up setting props account call_col
    execute account put_col call_col

  abbrev pub failure : Bool → RangeStep → Range N → Range N
  failure swapped swapping d = record d { error = some swap_failed; step = idle }
  failure true executing_put d = record d { error = some lower_failed_after_swap; step = idle }
  failure false executing_put d = record d { error = some lower_failed; step = idle }
  failure swapped executing_call d = record d { error = some upper_failed; step = partial_put_only }
  failure swapped _ d = record d { error = some failed; step = idle }

  -- The `catch` block. `swapped` is `didSwap` as the render saw it whose handler runs.
  unfoldable pub on_error : Bool → JsError → Range N → Range N
  unfolding includes includes_any_case
  on_error swapped e d =
      let msg = message setting.base.aggregate_text e in
      if includes_any_case msg "reject"
        || includes_any_case msg "denied"
        || includes_any_case msg "cancel"
      then record d { error = some cancelled; step = idle }
      else if includes msg "Timed out" || includes msg "Lost connection"
      then record d { error = some (because msg) }
      else failure swapped d.last d

  -- The two checks of the deadlines before the `try` block.
  abbrev pub both_in_time : N → Bool
  both_in_time now =
      deadline_ok setting props now props.put_quote
      && deadline_ok setting props now props.call_quote

  unfoldable pub start_range : Option String → Flow (Range N) (Unit {0})
  unfolding accept_range on_error quote_is_valid deadline_ok
  start_range none = leave (ask_deposit setting props usdc)
  start_range (some account) = do
    leave_if (not (quote_is_valid props.put_quote) || not (quote_is_valid props.call_quote))
        (show setting props not_available)
    (λ d. turned (not (both_in_time (setting.clock d.sent))) (show setting props expiring d) d)
    modify (λ d. record d { error = none; last = idle })
    (λ d. catch (accept_range account) (on_error d.did_swap) d)

  unfoldable pub handle_range : Flow (Range N) (Unit {0})
  unfolding start_range
  handle_range = do
    leave_if (not setting.base.connected) (ask_deposit setting props usdc)
    start_range setting.base.address
