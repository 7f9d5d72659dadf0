-- ===== src/Execution/Disconnect.antt =====
-- `disconnect` of frontend/src/hooks/useWallet.ts: every wallet is asked to forget the site, and then
-- Privy logs out. `console.warn` and `console.error` are left out.
use mathlib.Core.List.{map-append, append_assoc, append-nil}
use b1nary_xlayer_hackathon.Prelude.{
  ℕ, ◌+◌, ◌≡◌, ◌≢◌, ◌⊎◌, refl, String, Bool, true, false, if◌then◌else◌, List, [], ◌∷◌, ◌++◌, map,
  keep, All, ap, ◌∙◌, arith,
}
use b1nary_xlayer_hackathon.Execution.Race.{Settled, resolved, rejected, pending}
use b1nary_xlayer_hackathon.Flow.{
  Exit, done, returned, thrown, waiting, Flow, ◌>>◌, next, await, catch, pure,
}

-- A connected wallet: what becomes of `getEthereumProvider()`, and of the request
-- `wallet_revokePermissions`.
pub record Asked : Type 0 where
  pub address : String
  pub provider : Settled (Unit {0})
  pub revoke : Settled (Unit {0})

-- The wallets that were asked for their provider, those whose provider was sent the request, and how
-- often `logout` was called.
pub record Log : Type 0 where
  pub asked : List String
  pub revoked : List String
  pub logouts : ℕ

-- One round of the loop; its `catch` only warns.
unfoldable pub revoke_one : Asked → Flow Log (Unit {0})
revoke_one w =
    catch
      (do
        await λ s. (w.provider, record s { asked = s.asked ++ (w.address ∷ []) })
        await λ s. (w.revoke, record s { revoked = s.revoked ++ (w.address ∷ []) }))
      (λ e s. s)

unfoldable pub revoke_all : List Asked → Flow Log (Unit {0})
unfolding revoke_one
revoke_all [] = pure tt
revoke_all (w ∷ ws) = revoke_one w >> revoke_all ws

abbrev log_out : Settled (Unit {0}) → Flow Log (Unit {0})
log_out logout = catch (await λ s. (logout, record s { logouts = s.logouts + 1 })) (λ e s. s)

unfoldable pub disconnect : List Asked → Settled (Unit {0}) → Flow Log (Unit {0})
unfolding revoke_all
disconnect wallets logout = do revoke_all wallets; log_out logout

abbrev pub has_resolved : Settled (Unit {0}) → Bool
has_resolved (resolved a) = true
has_resolved _ = false

abbrev pub never_settles : Settled (Unit {0}) → Bool
never_settles pending = true
never_settles _ = false

-- A wallet that answers, by a value or by an exception: its provider, and the request behind it.
abbrev pub Answers : Asked → Type 0
Answers w = (w.provider ≢ pending) × (has_resolved w.provider ≡ true → w.revoke ≢ pending)

-- The log when all these wallets have been asked.
abbrev pub asking : List Asked → Log → Log
asking ws s = record s {
  asked = s.asked ++ map (λ w. w.address) ws;
  revoked = s.revoked ++ map (λ w. w.address) (keep (λ w. has_resolved w.provider) ws);
}

revoke_one-eq :
    (p r : Settled (Unit {0})) (a : String) (s : Log)
    → p ≢ pending
    → (has_resolved p ≡ true → r ≢ pending)
    → revoke_one (record { address = a; provider = p; revoke = r }) s
      ≡ (done tt, asking (record { address = a; provider = p; revoke = r } ∷ []) s)
unfolding revoke_one
revoke_one-eq pending r a s h k = absurd (h refl)
revoke_one-eq (rejected e) r a s h k = rw append-nil refl
revoke_one-eq (resolved u) (resolved v) a s h k = refl
revoke_one-eq (resolved u) (rejected e) a s h k = refl
revoke_one-eq (resolved u) pending a s h k = absurd (k refl refl)

asking-cons :
    (p r : Settled (Unit {0})) (a : String) (ws : List Asked) (s : Log)
    → let w : Asked = record { address = a; provider = p; revoke = r } in
      asking ws (asking (w ∷ []) s) ≡ asking (w ∷ ws) s
asking-cons (resolved u) r a ws s = simp append_assoc
asking-cons (rejected e) r a ws s = simp (append_assoc, append-nil)
asking-cons pending r a ws s = simp (append_assoc, append-nil)

revoke_all-eq :
    (ws rest : List Asked) (s : Log)
    → All Answers ws
    → revoke_all (ws ++ rest) s ≡ revoke_all rest (asking ws s)
unfolding revoke_all
revoke_all-eq [] rest s h = simp append-nil
revoke_all-eq (w ∷ ws) rest s (h, hs) = rw (revoke_one-eq w.provider w.revoke w.address s h.0 h.1) (
    revoke_all-eq ws rest _ hs
    ∙ ap (revoke_all rest) (asking-cons w.provider w.revoke w.address ws s))

revoke_all-done :
    (ws : List Asked) (s : Log) → All Answers ws → revoke_all ws s ≡ (done tt, asking ws s)
unfolding revoke_all
revoke_all-done ws s h = rw (append-nil ws) at (revoke_all-eq ws [] s h)

-- If each of the wallets answers, by a value or by an exception, `disconnect` asks each of them once,
-- in order, sends the request to those that have a provider, and then calls `logout` once. It does not
-- throw, whatever they and `logout` answer, and it ends unless the answer to `logout` never comes.
pub disconnect-logs_out :
    (ws : List Asked) (logout : Settled (Unit {0})) (s : Log)
    → All Answers ws
    → disconnect ws logout s ≡ (
      if never_settles logout then waiting else done tt,
      record (asking ws s) { logouts = s.logouts + 1 },
    )
unfolding disconnect
disconnect-logs_out ws (resolved u) s h = rw (revoke_all-done ws s h) refl
disconnect-logs_out ws (rejected e) s h = rw (revoke_all-done ws s h) refl
disconnect-logs_out ws pending s h = rw (revoke_all-done ws s h) refl

-- A wallet that never answers: its provider does not come, or the answer to the request does not.
abbrev pub Hangs : Asked → Type 0
Hangs w = (w.provider ≡ pending) ⊎ ((has_resolved w.provider ≡ true) × (w.revoke ≡ pending))

-- A run that waits for ever, with no logout, when these wallets have been asked.
abbrev pub IsStuck : List String → Log → Exit (Unit {0}) × Log → Type 0
IsStuck names s r = (r.0 ≡ waiting) × (r.1.logouts ≡ s.logouts) × (r.1.asked ≡ s.asked ++ names)

revoke_one-IsStuck :
    (p r : Settled (Unit {0})) (a : String) (s : Log)
    → (p ≡ pending) ⊎ ((has_resolved p ≡ true) × (r ≡ pending))
    → IsStuck (a ∷ []) s (revoke_one (record { address = a; provider = p; revoke = r }) s)
unfolding revoke_one
revoke_one-IsStuck pending r a s h = (refl, refl, refl)
revoke_one-IsStuck (resolved u) pending a s h = (refl, refl, refl)
revoke_one-IsStuck (resolved u) (resolved v) a s h = absurd (ground arith)
revoke_one-IsStuck (resolved u) (rejected e) a s h = absurd (ground arith)
revoke_one-IsStuck (rejected e) r a s h = absurd (ground arith)

-- Nothing follows a part that waits.
waits-next :
    (names : List String) (s : Log) (r : Exit (Unit {0}) × Log) (k : Unit {0} → Flow Log (Unit {0}))
    → IsStuck names s r
    → IsStuck names s (next r k)
waits-next names s (waiting, s') k h = h
waits-next names s (done u, s') k h = absurd (cc h.0)
waits-next names s (thrown e, s') k h = absurd (cc h.0)
waits-next names s (returned, s') k h = absurd (cc h.0)

-- If a wallet never answers, and those before it do, then `disconnect` waits for ever: the wallets
-- behind it are not asked, and `logout` is not called.
pub disconnect-IsStuck :
    (before rest : List Asked) (w : Asked) (logout : Settled (Unit {0})) (s : Log)
    → All Answers before
    → Hangs w
    → IsStuck
        (map (λ v. v.address) (before ++ (w ∷ [])))
        s
        (disconnect (before ++ (w ∷ rest)) logout s)
unfolding disconnect revoke_all
disconnect-IsStuck before rest w logout s h never =
    let one = revoke_one-IsStuck w.provider w.revoke w.address (asking before s) never in
    let all = waits-next (w.address ∷ []) (asking before s) _ (λ _. revoke_all rest) one in
    let (waits, none_out, asked) =
      waits-next (w.address ∷ []) (asking before s) _ (λ _. log_out logout) all in
    rw (revoke_all-eq before (w ∷ rest) s h, map-append, ← append_assoc) (waits, none_out, asked)
