-- ===== src/Execution/Wallet/Choice.antt =====
-- Which wallet pays, and that one call goes out as a batch of one does.
use b1nary_xlayer_hackathon.Prelude.{
  ◌≡◌, ◌↔◌, ◌⊎◌, All, All-map, any-All, find-any, find-passes, true, false, inl, inr, refl, not,
  none, some, List, [], ◌∷◌, find, Option-cases, arith,
}
use b1nary_xlayer_hackathon.Js.Error.{Try-cases}
use b1nary_xlayer_hackathon.Execution.Wallet.{
  BatchCall, FundingWallet, send_loop, send_batch_tx, send_funding_tx, Connected, is_embedded,
  funding_wallet, described, external_wallets,
}

-- A connected wallet sends one call in the same way by `sendFundingTx` and by `sendBatchTx`: the same
-- outcome, and the same calls sent.
pub send_funding_tx-eq :
    (w : FundingWallet) (sent : List BatchCall) (call : BatchCall)
    → send_funding_tx (some w) sent call ≡ send_batch_tx (some w) sent (call ∷ [])
unfolding send_funding_tx send_batch_tx send_loop
send_funding_tx-eq w sent call = elim (Try-cases w.switch_chain) [
  | inr (err, e) ↦ rw e refl
  | inl (_, e) ↦ elim (Try-cases w.get_provider) [
    | inr (err, f) ↦ rw (e, f) refl
    | inl (_, f) ↦ elim (Try-cases (w.send_transaction sent call)) [
      | inr (err, g) ↦ rw (e, f, g, send_loop) refl
      | inl (hash, g) ↦ rw (e, f, g, send_loop) refl
    ]
  ]
]

none_chosen :
    (wallets : List Connected)
    → find (λ w. not (is_embedded w)) wallets ≡ none
    → find is_embedded wallets ≡ none
    → wallets ≡ []
none_chosen [] e f = refl
none_chosen (w ∷ ws) e f = ground arith

-- There is a paying wallet exactly when any wallet is connected.
pub funding_wallet-none_iff :
    (wallets : List Connected) → (funding_wallet wallets ≡ none) ↔ (wallets ≡ [])
unfolding funding_wallet
funding_wallet-none_iff wallets = (
  λ h. elim (Option-cases (find (λ w. not (is_embedded w)) wallets)) [
    | inl e ↦ none_chosen wallets e (rw (e, funding_wallet) at h)
    | inr (w, e) ↦ let absurd_case : some w ≡ none = rw (e, funding_wallet) at h in cc
  ],
  λ e. rw e refl,
)

-- The list of external wallets is empty, and every connected wallet is Privy's own; or it shows one
-- wallet, which is the one that pays and is not Privy's.
pub external_wallets-paying :
    (wallets : List Connected)
    → ((external_wallets wallets ≡ []) × All (λ w. is_embedded w ≡ true) wallets)
      ⊎ ((w : Connected) × (external_wallets wallets ≡ described w ∷ [])
          × (funding_wallet wallets ≡ some w)
          × (is_embedded w ≡ false))
unfolding external_wallets funding_wallet
external_wallets-paying wallets = elim (Option-cases (find (λ w. not (is_embedded w)) wallets)) [
  | inl e ↦ inl (
    rw (e, external_wallets) refl,
    All-map (λ w. not (is_embedded w) ≡ false) _ wallets (λ w h. ground arith)
        (any-All _ wallets (find-any _ wallets e)),
  )
  | inr (w, e) ↦ inr (
    w,
    rw (e, external_wallets) refl,
    rw (e, funding_wallet) refl,
    (let h = find-passes (λ v. not (is_embedded v)) wallets w e in ground arith),
  )
]
