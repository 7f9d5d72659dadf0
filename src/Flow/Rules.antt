-- ===== src/Flow/Rules.antt =====
-- What holds at the end of a handler, one step at a time.
use b1nary_xlayer_hackathon.Prelude.{◌≡◌, refl, ℕ, Bool, true, false, Option, none, some}
use b1nary_xlayer_hackathon.Js.Error.{JsError, Try, ok, throws}
use b1nary_xlayer_hackathon.Execution.Race.{Settled, resolved, rejected, pending, settling}
use b1nary_xlayer_hackathon.Flow.{
  Exit, done, returned, thrown, waiting, Flow, next, of_try, of_settled, turned, when, recover,
  catch,
}

module _ {S A B : Type 0} (R : Exit B × S → Type 0) where
  -- A call that may throw, in the state `s`, before `k`.
  pub try_rule :
      (t : Try A) (s : S) (k : A → Flow S B)
      → ((a : A) → t ≡ ok a → R (k a s))
      → ((e : JsError) → t ≡ throws e → R (thrown e, s))
      → R (next (of_try t s) k)
  try_rule (ok a) s k good bad = good a refl
  try_rule (throws x) s k good bad = bad x refl

  -- The same of a promise that may never settle.
  pub await_rule :
      (t : Settled A) (s : S) (k : A → Flow S B)
      → ((a : A) → t ≡ resolved a → R (k a s))
      → ((e : JsError) → t ≡ rejected e → R (thrown e, s))
      → (t ≡ pending → R (waiting, s))
      → R (next (of_settled t s) k)
  await_rule (resolved a) s k good bad never = good a refl
  await_rule (rejected x) s k good bad never = bad x refl
  await_rule pending s k good bad never = never refl

  -- The same of a promise that has this result when it settles.
  pub settling_rule :
      (at : Option ℕ) (t : Try A) (s : S) (k : A → Flow S B)
      → ((a : A) → t ≡ ok a → R (k a s))
      → ((e : JsError) → t ≡ throws e → R (thrown e, s))
      → (at ≡ none → R (waiting, s))
      → R (next (of_settled (settling at t) s) k)
  settling_rule none t s k good bad never = never refl
  settling_rule (some n) (ok a) s k good bad never = good a refl
  settling_rule (some n) (throws x) s k good bad never = bad x refl

pub leave_if_rule :
    {S B : Type 0} (R : Exit B × S → Type 0) (b : Bool) (left s : S) (k : Unit {0} → Flow S B)
    → (b ≡ true → R (returned, left))
    → (b ≡ false → R (k tt s))
    → R (next (turned b left s) k)
leave_if_rule R true left s k h stay = h refl
leave_if_rule R false left s k h stay = stay refl

pub catch_rule :
    {S : Type 0} (R : Exit (Unit {0}) × S → Type 0) (m : Flow S (Unit {0}))
    (handler : JsError → S → S) (s : S)
    → ((e : JsError) → (m s).0 ≡ thrown e → R (done tt, handler e (m s).1))
    → ((m s).0 ≡ done tt → R (done tt, (m s).1))
    → ((m s).0 ≡ returned → R (returned, (m s).1))
    → ((m s).0 ≡ waiting → R (waiting, (m s).1))
    → R (catch m handler s)
catch_rule R m handler s t d r w = go (m s).0 refl
  where
    go : (x : Exit (Unit {0})) → (m s).0 ≡ x → R (recover handler (x, (m s).1))
    go (done u) e = d e
    go returned e = r e
    go (thrown x) e = t x e
    go waiting e = w e

-- A part that ends with such a call.
pub await_end :
    {S A : Type 0} (R : Exit A × S → Type 0) (t : Settled A) (s : S)
    → ((a : A) → t ≡ resolved a → R (done a, s))
    → ((e : JsError) → t ≡ rejected e → R (thrown e, s))
    → (t ≡ pending → R (waiting, s))
    → R (of_settled t s)
await_end R (resolved a) s good bad never = good a refl
await_end R (rejected x) s good bad never = bad x refl
await_end R pending s good bad never = never refl

pub try_end :
    {S A : Type 0} (R : Exit A × S → Type 0) (t : Try A) (s : S)
    → ((a : A) → t ≡ ok a → R (done a, s))
    → ((e : JsError) → t ≡ throws e → R (thrown e, s))
    → R (of_try t s)
try_end R (ok a) s good bad = good a refl
try_end R (throws x) s good bad = bad x refl

-- `return` under a condition, at the end of a part.
pub leave_if_end :
    {S : Type 0} (R : Exit (Unit {0}) × S → Type 0) (b : Bool) (left s : S)
    → (b ≡ true → R (returned, left))
    → (b ≡ false → R (done tt, s))
    → R (turned b left s)
leave_if_end R true left s h stay = h refl
leave_if_end R false left s h stay = stay refl

-- `if (b) { m }`, at the end of a part.
pub when_end :
    {S : Type 0} (R : Exit (Unit {0}) × S → Type 0) (b : Bool) (m : Flow S (Unit {0})) (s : S)
    → (b ≡ true → R (m s))
    → (b ≡ false → R (done tt, s))
    → R (when b m s)
when_end R true m s go skip = go refl
when_end R false m s go skip = skip refl
