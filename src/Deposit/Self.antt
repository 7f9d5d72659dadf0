-- ===== src/Deposit/Self.antt =====
-- The deposit dialog behind `useWallet`: who pays, and who is paid.
use mathlib.Core.List.{Memᴰ}
use mathlib.Core.List.Memᴰ
use b1nary_xlayer_hackathon.Prelude.{
  ◌≡◌, inl, inr, refl, ap, Option, none, some, List, [], ◌∷◌, subst, String,
}
use b1nary_xlayer_hackathon.Execution.Wallet.{
  Connected, ExternalWallet, described, external_wallets, wallet_address,
}
use b1nary_xlayer_hackathon.Execution.Wallet.Choice.{external_wallets-paying}
use b1nary_xlayer_hackathon.Positions.{account}
use b1nary_xlayer_hackathon.Deposit.Form.{Form}
use b1nary_xlayer_hackathon.Deposit.Handlers.{
  Vault, withdraw_address, handle_deposit, handle_withdraw,
}
use b1nary_xlayer_hackathon.Deposit.Reasons.{MoveEnd}
use b1nary_xlayer_hackathon.Deposit.Ends.{handle_deposit-MoveEnd, handle_withdraw-MoveEnd}

-- The effect that selects the first of the external wallets.
abbrev pub select_first : Option ExternalWallet → List ExternalWallet → Option ExternalWallet
select_first (some w) wallets = some w
select_first none [] = none
select_first none (w ∷ ws) = some w

abbrev pub selected_address : Option ExternalWallet → Option String
selected_address none = none
selected_address (some w) = some w.address

-- The wallet that is selected is none, or one of the list.
abbrev pub IsOffered : Option ExternalWallet → List Connected → Type 0
IsOffered none wallets = Unit
IsOffered (some w) wallets = Memᴰ w (external_wallets wallets)

-- A wallet of the list has the address of the wallet that pays.
offered-paying :
    (wallets : List Connected) (w : ExternalWallet)
    → Memᴰ w (external_wallets wallets)
    → some w.address ≡ wallet_address wallets
unfolding wallet_address
offered-paying wallets w m = elim (external_wallets-paying wallets) [
  | inl (e, _) ↦ absurd (Memᴰ.not-nil (subst (Memᴰ w) e m))
  | inr (v, e, paying, _) ↦
      let same : w ≡ described v = Memᴰ.eq_of_singleton (subst (Memᴰ w) e m) in
      rw (paying, wallet_address) (ap (λ u. some u.address) same)
]

withdraw_address-paying :
    (env : Vault) (wallets : List Connected) (selected : Option ExternalWallet)
    → IsOffered selected wallets
    → withdraw_address env (selected_address selected) (wallet_address wallets)
      ≡ wallet_address wallets
withdraw_address-paying env wallets none m = refl
withdraw_address-paying env wallets (some w) m = offered-paying wallets w m

-- With the addresses that `useWallet` gives, and a selected wallet from its list or none, a deposit and
-- a withdrawal both go to the account of the wallet that pays, if they go anywhere. This is so for all
-- connected wallets, for every state of the form, and whatever the chain and the wallet answer.
pub moves-to_itself :
    (env : Vault) (f : Form) (wallets : List Connected) (selected : Option ExternalWallet)
    → env.address ≡ wallet_address wallets
    → env.funding_address ≡ wallet_address wallets
    → f.selected ≡ selected_address selected
    → IsOffered selected wallets
    → MoveEnd env f (account (wallet_address wallets)) (handle_deposit env f)
      × MoveEnd env f (account (wallet_address wallets)) (handle_withdraw env f)
moves-to_itself env f wallets selected a b c m =
    let target : withdraw_address env f.selected env.funding_address ≡ wallet_address wallets =
      rw (c, b) (withdraw_address-paying env wallets selected m) in
    (
      subst (λ t. MoveEnd env f (account t) (handle_deposit env f)) a
          (handle_deposit-MoveEnd env f),
      subst (λ t. MoveEnd env f (account t) (handle_withdraw env f)) target
          (handle_withdraw-MoveEnd env f),
    )
