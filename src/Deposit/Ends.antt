-- ===== src/Deposit/Ends.antt =====
-- Every end of a deposit and of a withdrawal.
use b1nary_xlayer_hackathon.Prelude.{
  ◌≡◌, ℕ, inl, inr, refl, String, Option, none, some, List, [], ◌∷◌, ◌++◌, Bool-cases,
}
use b1nary_xlayer_hackathon.Prelude.Int.{ℤ, pos, ltb_ℤ}
use b1nary_xlayer_hackathon.Js.Error.{Try, ok, throws, Try-cases}
use b1nary_xlayer_hackathon.Flow.{Exit, returned, Flow, next, recover, of_settled}
use b1nary_xlayer_hackathon.Flow.Rules.{try_rule}
use b1nary_xlayer_hackathon.Execution.Race.{settling}
use b1nary_xlayer_hackathon.Execution.Wallet.{BatchCall, send_batch_tx, send_funding_tx}
use b1nary_xlayer_hackathon.Execution.Wallet.One.{
  SentOne, send_batch_tx-SentOne, send_funding_tx-SentOne,
}
use b1nary_xlayer_hackathon.Positions.{account}
use b1nary_xlayer_hackathon.Deposit.Form.{
  Form, Notice, parse_amount, max_spendable, decimals, same_ℤ, check_amount, token_address,
}
use b1nary_xlayer_hackathon.Deposit.Handlers.{
  Vault, amount_or_leave, transfer_call, show, begin, fail, send_deposit, check_hash,
  send_withdrawal, move, deposit_to, withdraw_to, withdraw_address, handle_deposit, handle_withdraw,
}
use b1nary_xlayer_hackathon.Deposit.Reasons.{
  Transfer, Checked, Refuses, unparsed, nothing, too_much, Answered, unencoded, refused_call,
  no_hash, no_receipt, MoveEnd, unready, declined, not_sent, sent_and_lost, waits_for_wallet, moved,
}

module _ (env : Vault) where
  check_rule :
      {B : Type 0} (R : Exit B × Form → Type 0) (f : Form) (a : ℤ) (k : ℤ → Flow Form B)
      → env.viem.parse_units f.amount_str (decimals f.token) ≡ ok a
      → ((value : ℤ) → Checked env f value → R (k value f))
      → ((notice : Notice) → Refuses env f notice → R (returned, show env notice f))
      → R (next (amount_or_leave env (check_amount (max_spendable env.eoa env.smart f) a) f) k)
  unfolding check_amount
  check_rule R f a k p good bad = elim (Bool-cases (same_ℤ a (pos 0))) [
    | inl e ↦ rw (e, check_amount) (bad _ (nothing a p e))
    | inr e ↦ elim (Bool-cases (ltb_ℤ (max_spendable env.eoa env.smart f) a)) [
      | inl g ↦ rw (e, g, check_amount) (bad _ (too_much a p e g))
      | inr g ↦ rw (e, g, check_amount) (good a (record { parsed = p; not_zero = e; covered = g }))
    ]
  ]

  amount_rule :
      {B : Type 0} (R : Exit B × Form → Type 0) (f : Form) (k : ℤ → Flow Form B)
      → ((value : ℤ) → Checked env f value → R (k value f))
      → ((notice : Notice) → Refuses env f notice → R (returned, show env notice f))
      → R (next (amount_or_leave env (parse_amount env.viem env.eoa env.smart f) f) k)
  unfolding parse_amount
  amount_rule R f k good bad =
      elim (Try-cases (env.viem.parse_units f.amount_str (decimals f.token))) [
        | inl (a, e) ↦ rw (e, parse_amount) (check_rule R f a k e good bad)
        | inr (x, e) ↦ rw (e, parse_amount) (bad _ (unparsed x e))
      ]

  transfer_call-Transfer :
      (f : Form) (to : String) (value : ℤ) (call : BatchCall)
      → Checked env f value
      → transfer_call env (token_address env.at f.token) to value ≡ ok call
      → Transfer env f to call
  transfer_call-Transfer f to value call c e = record {
    value = value;
    parsed = c.parsed;
    not_zero = c.not_zero;
    covered = c.covered;
    made = e;
  }

  -- What follows the wallet's answer to the call.
  sent_rule :
      (f : Form) (to : String) (call : BatchCall) (x : Try String) (at : Option ℕ)
      (after : List BatchCall) (finish : String → Flow Form (Unit {0}))
      → Transfer env f to call
      → Answered env f call x
      → SentOne f.sent call (x, after)
      → ((hash : String)
          → after ≡ f.sent ++ (call ∷ [])
          → MoveEnd env f
              (some to)
              (recover (fail env) (finish hash (record (begin env f) { sent = after }))))
      → MoveEnd env f (some to) (
          recover
            (fail env)
            (next (of_settled (settling at x) (record (begin env f) { sent = after })) finish))
  sent_rule f to call (ok hash) (some n) after finish t came one end = end hash one
  sent_rule f to call (throws e) (some n) after finish t came one end =
      not_sent to e _ refl (refused_call call t came) one refl refl
  sent_rule f to call (ok hash) none after finish t came one end =
      waits_for_wallet to call _ refl t (inr one) refl
  sent_rule f to call (throws e) none after finish t came one end =
      waits_for_wallet to call _ refl t (inl one) refl

  send_deposit-MoveEnd :
      (f : Form) (to : String) (value : ℤ)
      → Checked env f value
      → MoveEnd env f (some to) (recover (fail env) (send_deposit env to value (begin env f)))
  unfolding send_deposit
  send_deposit-MoveEnd f to value c =
      let R : Exit (Unit {0}) × Form → Type 0 =
        λ r. MoveEnd env f (some to) (recover (fail env) r) in
      try_rule R (transfer_call env (token_address env.at f.token) to value) (begin env f) _
        (λ call e.
          let run = send_funding_tx env.chain.wallet f.sent call in
          sent_rule f to call run.0 (env.chain.settles run.1) run.1 _
            (transfer_call-Transfer f to value call c e) (inl refl)
            (send_funding_tx-SentOne env.chain.wallet f.sent call)
            (λ hash gone.
              try_rule R (env.chain.receipt run.1 hash) (record (begin env f) { sent = run.1 }) _
                (λ _ came.
                  moved to call hash _ refl (transfer_call-Transfer f to value call c e) gone came
                    refl refl refl)
                (λ x lost.
                  sent_and_lost to call hash x _ refl (transfer_call-Transfer f to value call c e)
                    gone (no_receipt lost) refl refl)))
        (λ x h. not_sent to x _ refl (unencoded value c h) refl refl refl)

  send_withdrawal-MoveEnd :
      (f : Form) (to : String) (value : ℤ)
      → Checked env f value
      → MoveEnd env f (some to) (recover (fail env) (send_withdrawal env to value (begin env f)))
  unfolding send_withdrawal
  send_withdrawal-MoveEnd f to value c =
      let R : Exit (Unit {0}) × Form → Type 0 =
        λ r. MoveEnd env f (some to) (recover (fail env) r) in
      try_rule R (transfer_call env (token_address env.at f.token) to value) (begin env f) _
        (λ call e.
          let run = send_batch_tx env.chain.wallet f.sent (call ∷ []) in
          let t = transfer_call-Transfer f to value call c e in
          sent_rule f to call run.0 (env.chain.settles run.1) run.1 _ t (inr refl)
            (send_batch_tx-SentOne env.chain.wallet f.sent call)
            (λ hash gone.
              try_rule R (check_hash env hash) (record (begin env f) { sent = run.1 }) _
                (λ _ _.
                  try_rule R (env.chain.receipt run.1 hash) (record (begin env f) { sent = run.1 })
                    _ (λ _ came. moved to call hash _ refl t gone came refl refl refl)
                    (λ x lost.
                      sent_and_lost to call hash x _ refl t gone (no_receipt lost) refl refl))
                (λ x lost. sent_and_lost to call hash x _ refl t gone (no_hash lost) refl refl)))
        (λ x h. not_sent to x _ refl (unencoded value c h) refl refl refl)

  move-MoveEnd :
      (send : String → ℤ → Flow Form (Unit {0})) (f : Form) (to : String)
      → ((value : ℤ)
          → Checked env f value
          → MoveEnd env f (some to) (recover (fail env) (send to value (begin env f))))
      → MoveEnd env f (some to) (move env send to f)
  unfolding move
  move-MoveEnd send f to ends =
      amount_rule (MoveEnd env f (some to)) f _ ends
        (λ notice why. declined notice _ why refl refl refl)

  deposit_to-MoveEnd :
      (f : Form) (address funding : Option String)
      → account env.address ≡ address
      → account env.funding_address ≡ funding
      → MoveEnd env f address (deposit_to env address funding f)
  unfolding deposit_to
  deposit_to-MoveEnd f (some a) (some b) p q =
      move-MoveEnd (send_deposit env) f a (send_deposit-MoveEnd f a)
  deposit_to-MoveEnd f (some a) none p q = unready _ (inr (inl q)) refl refl refl
  deposit_to-MoveEnd f none b p q = unready _ (inl p) refl refl refl

  withdraw_to-MoveEnd :
      (f : Form) (address target : Option String)
      → account env.address ≡ address
      → MoveEnd env f target (withdraw_to env address target f)
  unfolding withdraw_to
  withdraw_to-MoveEnd f (some a) (some b) p =
      move-MoveEnd (send_withdrawal env) f b (send_withdrawal-MoveEnd f b)
  withdraw_to-MoveEnd f (some a) none p = unready _ (inr (inr refl)) refl refl refl
  withdraw_to-MoveEnd f none b p = unready _ (inl p) refl refl refl

  pub handle_deposit-MoveEnd :
      (f : Form) → MoveEnd env f (account env.address) (handle_deposit env f)
  unfolding handle_deposit
  handle_deposit-MoveEnd f =
      deposit_to-MoveEnd f (account env.address) (account env.funding_address) refl refl

  pub handle_withdraw-MoveEnd :
      (f : Form)
      → MoveEnd env f
          (account (withdraw_address env f.selected env.funding_address))
          (handle_withdraw env f)
  unfolding handle_withdraw
  handle_withdraw-MoveEnd f =
      withdraw_to-MoveEnd f (account env.address)
        (account (withdraw_address env f.selected env.funding_address)) refl
