-- ===== src/Tests/Wallet.antt =====
-- What `useWallet` gives, and its `disconnect`, at concrete wallets.
use mathlib.Core.List.{Memᴰ}
use b1nary_xlayer_hackathon.Prelude.{
  ◌≡◌, inl, refl, true, All, none, some, List, [], ◌∷◌, ◌++◌, map,
}
use b1nary_xlayer_hackathon.Js.Error.{error}
use b1nary_xlayer_hackathon.Flow.{done}
use b1nary_xlayer_hackathon.Execution.Race.{resolved, rejected, pending}
use b1nary_xlayer_hackathon.Execution.Wallet.{
  Connected, described, external_wallets, wallet_address, is_connected, funding_wallet,
  pretty_wallet_name,
}
use b1nary_xlayer_hackathon.Execution.Disconnect.{
  Asked, Answers, Log, disconnect, disconnect-logs_out, disconnect-IsStuck, IsStuck,
}
use b1nary_xlayer_hackathon.Positions.{account}
use b1nary_xlayer_hackathon.Deposit.Form.{Form}
use b1nary_xlayer_hackathon.Deposit.Handlers.{handle_deposit, handle_withdraw}
use b1nary_xlayer_hackathon.Deposit.Reasons.{MoveEnd}
use b1nary_xlayer_hackathon.Deposit.Self.{moves-to_itself, select_first, selected_address}
use b1nary_xlayer_hackathon.Tests.Deposit.{vault, form}

abbrev privy : Connected
privy = record { address = "own"; client_type = "privy" }

abbrev metamask : Connected
metamask = record { address = "user"; client_type = "metamask" }

abbrev wallets : List Connected
wallets = privy ∷ metamask ∷ []

shown :
    (wallet_address wallets ≡ some "user")
    × (is_connected wallets ≡ true)
    × (map (λ w. w.name) (external_wallets wallets) ≡ "MetaMask" ∷ [])
unfolding wallet_address is_connected external_wallets funding_wallet pretty_wallet_name
shown = (refl, refl, refl)

-- The wallet that the effect selects.
abbrev chosen : Form
chosen = record form { selected = selected_address (select_first none (described metamask ∷ [])) }

moves-to_itself_example :
    MoveEnd vault chosen (account (wallet_address wallets)) (handle_deposit vault chosen)
    × MoveEnd vault chosen (account (wallet_address wallets)) (handle_withdraw vault chosen)
unfolding wallet_address external_wallets funding_wallet
moves-to_itself_example =
    moves-to_itself vault chosen wallets (some (described metamask)) refl refl refl (Memᴰ.head refl)

-- One wallet revokes, one throws, and one has no provider.
abbrev answering : List Asked
answering =
    record { address = "a"; provider = resolved tt; revoke = resolved tt }
    ∷ record { address = "b"; provider = resolved tt; revoke = rejected (error "unsupported") }
    ∷ record { address = "c"; provider = rejected (error "gone"); revoke = pending }
    ∷ []

answering-All : All Answers answering
answering-All = ((λ h. cc, λ _ h. cc), ((λ h. cc, λ _ h. cc), ((λ h. cc, λ e. cc), tt)))

abbrev silent : Asked
silent = record { address = "d"; provider = pending; revoke = pending }

abbrev start : Log
start = record { asked = []; revoked = []; logouts = 0 }

disconnect-logs_out_example :
    disconnect answering (resolved tt) start
    ≡ (done tt, record { asked = "a" ∷ "b" ∷ "c" ∷ []; revoked = "a" ∷ "b" ∷ []; logouts = 1 })
disconnect-logs_out_example = disconnect-logs_out answering (resolved tt) start answering-All

disconnect-IsStuck_example :
    IsStuck
      ("a" ∷ "b" ∷ "c" ∷ "d" ∷ [])
      start
      (disconnect (answering ++ (silent ∷ answering)) (resolved tt) start)
disconnect-IsStuck_example =
    disconnect-IsStuck answering answering silent (resolved tt) start answering-All (inl refl)
