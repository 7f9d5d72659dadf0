-- ===== src/Range/Ends.antt =====
-- Every end that the two legs of the range dialog can come to.
use b1nary_xlayer_hackathon.Prelude.{
  ◌≡◌, ◌≢◌, ◌⊎◌, inl, inr, refl, sym, String, Bool, true, false, not, Option, none, some, List,
  Bool-cases,
}
use b1nary_xlayer_hackathon.Js.Error.{JsError}
use b1nary_xlayer_hackathon.Js.Number.{JsNumber}
use b1nary_xlayer_hackathon.Flow.{Exit, done, returned, thrown, waiting, next, modify}
use b1nary_xlayer_hackathon.Flow.Rules.{leave_if_rule}
use b1nary_xlayer_hackathon.Execution.Wallet.{BatchCall}
use b1nary_xlayer_hackathon.Execution.Race.{Settled, resolved, rejected, pending}
use b1nary_xlayer_hackathon.Execution.Order.{Collateral}
use b1nary_xlayer_hackathon.Range.Handler.{
  RangeProps, Range, RangeSetting, executing_put, executing_call, confirmed, partial_put_only,
  deadline_ok, update_step,
}
use b1nary_xlayer_hackathon.Range.Legs.{
  expired, put_done, call_done, check_call_deadline, call_leg, behind_put, execute,
}
use b1nary_xlayer_hackathon.Range.Order.{Leg, leg_end}

pub refuted : {b : Bool} → not b ≡ true → b ≡ false
refuted {b = true} h = sym h
refuted {b = false} h = refl

affirmed : {b : Bool} → not b ≡ false → b ≡ true
affirmed {b = true} h = refl
affirmed {b = false} h = sym h

module _ {N : Type 0} ⦃js : JsNumber N⦄ (setting : RangeSetting N) (props : RangeProps N)
    (account : String) (put_col call_col : Collateral) where
  abbrev PutLeg : List BatchCall → List BatchCall → Settled (Option String) → Type 0
  PutLeg = Leg setting props account props.put_quote put_col

  abbrev CallLeg : List BatchCall → List BatchCall → Settled (Option String) → Type 0
  CallLeg = Leg setting props account props.call_quote call_col

  abbrev CallInTime : List BatchCall → Bool → Type 0
  CallInTime sent b = deadline_ok setting props (setting.clock sent) props.call_quote ≡ b

  -- The put leg fails or waits; it goes through too late for the call's quote; it goes through in
  -- time, and the call leg fails or waits; both go through.
  pub data LegsEnd (d : Range N) : Exit (Unit {0}) × Range N → Type 0 where
    put_lost :
        (e : JsError) (d' : Range N)
        → (d'.sent ≡ d.sent) ⊎ PutLeg d.sent d'.sent (rejected e)
        → d'.last ≡ executing_put
        → d'.step ≡ executing_put
        → LegsEnd d (thrown e, d')
    put_waits :
        (d' : Range N)
        → PutLeg d.sent d'.sent pending
        → d'.step ≡ executing_put
        → LegsEnd d (waiting, d')
    late :
        (put_hash : Option String) (d' : Range N)
        → PutLeg d.sent d'.sent (resolved put_hash)
        → CallInTime d'.sent false
        → d'.step ≡ partial_put_only
        → d'.error ≢ none
        → LegsEnd d (returned, d')
    call_lost :
        (put_hash : Option String) (between : List BatchCall) (e : JsError) (d' : Range N)
        → PutLeg d.sent between (resolved put_hash)
        → CallInTime between true
        → (d'.sent ≡ between) ⊎ CallLeg between d'.sent (rejected e)
        → d'.last ≡ executing_call
        → d'.step ≡ executing_call
        → LegsEnd d (thrown e, d')
    call_waits :
        (put_hash : Option String) (between : List BatchCall) (d' : Range N)
        → PutLeg d.sent between (resolved put_hash)
        → CallInTime between true
        → CallLeg between d'.sent pending
        → d'.step ≡ executing_call
        → LegsEnd d (waiting, d')
    both :
        (put_hash call_hash : Option String) (between : List BatchCall) (d' : Range N)
        → PutLeg d.sent between (resolved put_hash)
        → CallInTime between true
        → CallLeg between d'.sent (resolved call_hash)
        → d'.step ≡ confirmed
        → d'.accepted ≡ some (put_hash, call_hash)
        → LegsEnd d (done tt, d')

  put_done-sent :
      (hash : Option String) (d : Range N) → (put_done setting props account hash d).sent ≡ d.sent
  unfolding put_done
  put_done-sent none d = elim (Bool-cases setting.base.can_store) [
    | inl e ↦ rw (e, put_done) refl
    | inr e ↦ rw (e, put_done) refl
  ]
  put_done-sent (some hash) d = elim (Bool-cases setting.base.can_store) [
    | inl e ↦ rw (e, put_done) refl
    | inr e ↦ rw (e, put_done) refl
  ]

  call_done-sent :
      (put_hash call_hash : Option String) (d : Range N)
      → (call_done setting props account put_hash call_hash d).sent ≡ d.sent
  unfolding call_done
  call_done-sent put_hash none d = elim (Bool-cases setting.base.can_store) [
    | inl e ↦ rw (e, call_done) refl
    | inr e ↦ rw (e, call_done) refl
  ]
  call_done-sent put_hash (some hash) d = elim (Bool-cases setting.base.can_store) [
    | inl e ↦ rw (e, call_done) refl
    | inr e ↦ rw (e, call_done) refl
  ]

  -- Every end of the two legs. The call leg is fired only behind a put leg whose `fireAndPoll`
  -- returned, and only if the call's quote is still in time then.
  pub execute-LegsEnd : (d : Range N) → LegsEnd d (execute setting props account put_col call_col d)
  unfolding execute behind_put call_leg check_call_deadline call_done
  execute-LegsEnd d =
      let d1 = update_step setting props executing_put d in
      leg_end setting props (λ r. LegsEnd d (next r (behind_put setting props account call_col)))
        account props.put_quote put_col d1
        (λ put_hash between put.
          let d2 = put_done setting props account put_hash (record d1 { sent = between }) in
          let same : d2.sent ≡ between = put_done-sent put_hash (record d1 { sent = between }) in
          let put' : PutLeg d.sent d2.sent (resolved put_hash) = rw same put in
          let d3 = update_step setting props executing_call d2 in
          leave_if_rule (LegsEnd d)
            (not (deadline_ok setting props (setting.clock d2.sent) props.call_quote))
            (expired setting props d2) d2 (λ _. call_leg setting props account call_col put_hash)
            (λ off. late put_hash (expired setting props d2) put' (refuted off) refl (λ h. cc))
            (λ on.
              leg_end setting props
                (λ r. LegsEnd d (next r (λ h. modify (call_done setting props account put_hash h))))
                account props.call_quote call_col d3
                (λ call_hash after call.
                  let d4 =
                    call_done setting props account put_hash call_hash
                      (record d3 { sent = after }) in
                  let call' : CallLeg d2.sent d4.sent (resolved call_hash) =
                    rw (call_done-sent put_hash call_hash (record d3 { sent = after })) call in
                  both put_hash call_hash d2.sent d4 put' (affirmed on) call' refl refl)
                (λ e after call. call_lost put_hash d2.sent e _ put' (affirmed on) call refl refl)
                (λ after call. call_waits put_hash d2.sent _ put' (affirmed on) call refl)))
        (λ e after put. put_lost e _ put refl refl) (λ after put. put_waits _ put refl)
