-- ===== src/Tests/Deposit.antt =====
-- The deposit dialog at concrete inputs.
use b1nary_xlayer_hackathon.Prelude.{◌≡◌, refl, ◌+◌, ◌≤◌, true, false, none, some, [], ◌∷◌}
use b1nary_xlayer_hackathon.Prelude.Int.{pos}
use b1nary_xlayer_hackathon.Execution.Chain.{plain_call}
use b1nary_xlayer_hackathon.Execution.Wallet.{send_funding_tx}
use b1nary_xlayer_hackathon.Js.Fixed.{Fixed, fixed}
use b1nary_xlayer_hackathon.Execution.Order.{Addresses}
use b1nary_xlayer_hackathon.Balances.{Wallet, zero_balances}
use b1nary_xlayer_hackathon.Deposit.Form.{Form, RawBalances, deposit, withdraw, usdc, idle, pending}
use b1nary_xlayer_hackathon.Deposit.Handlers.{Vault, handle_deposit}
use b1nary_xlayer_hackathon.Deposit.Session.{
  Session, Reachable, start, after, submits, toggles, picks, fresh, submit, toggle_menu, pick_asset,
  in_flight-le-slips,
}
use b1nary_xlayer_hackathon.Tests.Accept.{viem, addresses, accepting, chain_with}

abbrev rich : RawBalances
rich = record { usd_raw = pos 1_000_000_000; eth_raw = pos 0; weth_raw = pos 0; okb_raw = pos 0 }

abbrev pub vault : Vault
vault = record {
  address = some "user";
  funding_address = some "user";
  eoa = rich;
  smart = rich;
  chain = chain_with accepting true;
  viem = viem;
  at = addresses;
  aggregate_text = "";
}

abbrev pub form : Form
form = record {
  tab = deposit;
  selected = some "outside";
  token = usdc;
  amount_str = "200";
  status = idle;
  error = none;
  tx_hash = none;
  sent = [];
  refetched = false;
  completed = false;
}

deposit_sends : (handle_deposit vault form).1.sent ≡ plain_call "usdc" "transfer" ∷ []
unfolding handle_deposit send_funding_tx
deposit_sends = refl

abbrev out : Form
out = record form { tab = withdraw }

-- The wallet never answers.
abbrev silent : Vault
silent = record vault { chain = record (chain_with accepting true) { settles = λ sent. none } }

stays_pending : (handle_deposit silent form).1.status ≡ pending
unfolding handle_deposit send_funding_tx
stays_pending = refl

-- The menu is opened, the form is submitted, an asset is picked, and the form is submitted again.
abbrev slipped : Session
slipped = submit (pick_asset (submit (toggle_menu fresh)))

slipped-Reachable : Reachable slipped
unfolding submit toggle_menu pick_asset
slipped-Reachable =
    after (after (after (after start (toggles refl refl)) (submits refl refl)) (picks refl))
      (submits refl refl)

two_at_once : slipped.in_flight ≡ 2
unfolding submit toggle_menu pick_asset
two_at_once = refl

in_flight-le-slips_example : slipped.in_flight ≤ 1 + slipped.slips
in_flight-le-slips_example = in_flight-le-slips slipped-Reachable

abbrev no_mokb : Addresses
no_mokb = record addresses { mokb = none }

abbrev unread : Wallet Fixed
unread = record { balances = zero_balances; loading = true }
