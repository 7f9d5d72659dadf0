-- ===== src/Feeds/Faucet.antt =====
-- `useFaucet` of frontend/src/hooks/useFaucet.ts, which asks the faucet for test tokens. The timer that
-- takes the notification away is `fade`.
use Prim.Native.String.{◌++◌ as append}
use b1nary_xlayer_hackathon.Prelude.{
  ◌≡◌, ◌⊎◌, inl, inr, refl, String, Bool, true, false, Option, none, some, if◌then◌else◌,
}
use b1nary_xlayer_hackathon.Js.Error.{JsError, Try, ok, throws, message}
use b1nary_xlayer_hackathon.Positions.{account}
use b1nary_xlayer_hackathon.Flow.{Exit, done, thrown, waiting, Flow, ◌>>◌, modify, await, leave}
use b1nary_xlayer_hackathon.Execution.Race.{Settled, resolved, rejected, pending}

-- The answer of the faucet: whether it is in the 200s, its status as a text, and the field `detail` of
-- its JSON, if it can be read.
pub record Reply : Type 0 where
  pub is_ok : Bool
  pub status : String
  pub detail : Try (Option String)

pub data FaucetResult : Type 0 where
  given : FaucetResult
  refused : String → FaucetResult

-- The state of the hook, and whether `balance:refetch` was dispatched. The notification has one text.
pub record Faucet : Type 0 where
  pub minting : Bool
  pub notified : Bool
  pub error : Option String
  pub refetched : Bool

-- `detail`, as long as it is not the empty text.
abbrev pub detail_of : Try (Option String) → Option String
detail_of (ok d) = account d
detail_of (throws e) = none

abbrev pub refusal : String → Option String → String
refusal status none = append "Faucet error (" (append status ")")
refusal status (some detail) = detail

unfoldable pub call_faucet : String → Try Reply → FaucetResult
call_faucet text (throws e) = refused (message text e)
call_faucet text (ok reply) =
    if reply.is_ok then given else refused (refusal reply.status (detail_of reply.detail))

abbrev pub begin : Faucet → Faucet
begin f = record f { minting = true; error = none }

-- What follows the answer; `complete` is the promise of `onComplete`.
unfoldable pub show_result : FaucetResult → Settled (Unit {0}) → Flow Faucet (Unit {0})
show_result given complete = do
  modify (λ f. record f { notified = true })
  modify (λ f. record f { refetched = true })
  await (λ f. (complete, f))
show_result (refused reason) complete = modify (λ f. record f { error = some reason })

-- `mint`, behind its test of the address.
unfoldable pub mint_to :
    String → Option String → Try Reply → Settled (Unit {0}) → Flow Faucet (Unit {0})
unfolding call_faucet show_result
mint_to text none answer complete = leave (λ f. f)
mint_to text (some address) answer complete = do
  modify begin
  show_result (call_faucet text answer) complete
  modify (λ f. record f { minting = false })

unfoldable pub mint :
    String → Option String → Try Reply → Settled (Unit {0}) → Flow Faucet (Unit {0})
unfolding mint_to
mint text address answer complete = mint_to text (account address) answer complete

unfoldable pub fade : Faucet → Faucet
fade f = record f { notified = false }

-- The ends of `mint` for an address: the tokens are given and the hook is ready again; they are given,
-- and `onComplete` throws or never settles, so that the hook goes on minting; or they are refused, and
-- the hook is ready again with a reason.
pub data MintEnd (text : String) (answer : Try Reply) (complete : Settled (Unit {0})) (f : Faucet)
    : Exit (Unit {0}) × Faucet → Type 0 where
  minted :
      (f' : Faucet)
      → call_faucet text answer ≡ given
      → (f'.minting ≡ false) × (f'.notified ≡ true) × (f'.refetched ≡ true) × (f'.error ≡ none)
      → MintEnd text answer complete f (done tt, f')
  left_minting :
      (r : Exit (Unit {0})) (f' : Faucet)
      → call_faucet text answer ≡ given
      → ((e : JsError) × (complete ≡ rejected e) × (r ≡ thrown e))
        ⊎ ((complete ≡ pending) × (r ≡ waiting))
      → (f'.minting ≡ true) × (f'.notified ≡ true)
      → MintEnd text answer complete f (r, f')
  declined :
      (reason : String) (f' : Faucet)
      → call_faucet text answer ≡ refused reason
      → (f'.minting ≡ false)
        × (f'.error ≡ some reason)
        × (f'.notified ≡ f.notified)
        × (f'.refetched ≡ f.refetched)
      → MintEnd text answer complete f (done tt, f')

module _ (text : String) (answer : Try Reply) (f : Faucet) where
  result-MintEnd :
      (result : FaucetResult) (complete : Settled (Unit {0}))
      → call_faucet text answer ≡ result
      → MintEnd text answer complete f (
          (modify begin
              >> (show_result result complete >> modify (λ h. record h { minting = false })))
            f)
  unfolding show_result
  result-MintEnd given (resolved u) e = minted _ e (refl, refl, refl, refl)
  result-MintEnd given (rejected x) e = left_minting _ _ e (inl (x, refl, refl)) (refl, refl)
  result-MintEnd given pending e = left_minting _ _ e (inr (refl, refl)) (refl, refl)
  result-MintEnd (refused reason) complete e = declined reason _ e (refl, refl, refl, refl)

  minted-MintEnd :
      (target : Option String) (address : String) (complete : Settled (Unit {0}))
      → target ≡ some address
      → MintEnd text answer complete f (mint_to text target answer complete f)
  unfolding mint_to
  minted-MintEnd none address complete e = cc
  minted-MintEnd (some a) address complete e =
      result-MintEnd (call_faucet text answer) complete refl

  -- From every state of the hook and for every answer of the faucet, `mint` for an address that is not
  -- empty comes to one of these ends. It is left minting only if the tokens are given and `onComplete`
  -- does not return.
  pub mint-MintEnd :
      (owner : Option String) (address : String) (complete : Settled (Unit {0}))
      → account owner ≡ some address
      → MintEnd text answer complete f (mint text owner answer complete f)
  unfolding mint
  mint-MintEnd owner address complete e = minted-MintEnd (account owner) address complete e
