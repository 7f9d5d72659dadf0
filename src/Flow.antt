-- ===== src/Flow.antt =====
-- Asynchronous handlers: a state that stays changed when an exception is thrown, early returns, and
-- waits that may never end.
pub mod Rules
use b1nary_xlayer_hackathon.Prelude.{Bool, true, false, if◌then◌else◌}
use b1nary_xlayer_hackathon.Js.Error.{JsError, Try, ok, throws}
use b1nary_xlayer_hackathon.Execution.Race.{Settled, resolved, rejected, pending}

-- How a part of a handler ends: it goes on, the handler returns, an exception is thrown, or an
-- awaited promise never settles.
pub data Exit (A : Type 0) : Type 0 where
  done : A → Exit A
  returned : Exit A
  thrown : JsError → Exit A
  waiting : Exit A

abbrev pub Flow : Type 0 → Type 0 → Type 0
Flow S A = S → Exit A × S

-- What follows a part that has ended.
abbrev pub next : {S A B : Type 0} → Exit A × S → (A → Flow S B) → Exit B × S
next (done a, s) f = f a s
next (returned, s) f = (returned, s)
next (thrown e, s) f = (thrown e, s)
next (waiting, s) f = (waiting, s)

infixl 5 ◌>>=◌ ◌>>◌
abbrev pub ◌>>=◌ : {S A B : Type 0} → Flow S A → (A → Flow S B) → Flow S B
◌>>=◌ m f s = next (m s) f

abbrev pub ◌>>◌ : {S A B : Type 0} → Flow S A → Flow S B → Flow S B
m >> k = m >>= λ _. k

module _ {S : Type 0} where
  abbrev pub pure : {A : Type 0} → A → Flow S A
  pure a s = (done a, s)

  abbrev pub modify : (S → S) → Flow S (Unit {0})
  modify f s = (done tt, f s)

  -- `return;`, when the state has been changed by `f`.
  abbrev pub leave : {A : Type 0} → (S → S) → Flow S A
  leave f s = (returned, f s)

  abbrev pub when : Bool → Flow S (Unit {0}) → Flow S (Unit {0})
  when b m s = if b then m s else (done tt, s)

  abbrev pub turned : Bool → S → S → Exit (Unit {0}) × S
  turned true left s = (returned, left)
  turned false left s = (done tt, s)

  abbrev pub of_try : {A : Type 0} → Try A → S → Exit A × S
  of_try (ok a) s = (done a, s)
  of_try (throws e) s = (thrown e, s)

  abbrev pub of_settled : {A : Type 0} → Settled A → S → Exit A × S
  of_settled (resolved a) s = (done a, s)
  of_settled (rejected e) s = (thrown e, s)
  of_settled pending s = (waiting, s)

  abbrev pub recover : (JsError → S → S) → Exit (Unit {0}) × S → Exit (Unit {0}) × S
  recover handler (done a, s) = (done a, s)
  recover handler (returned, s) = (returned, s)
  recover handler (thrown e, s) = (done tt, handler e s)
  recover handler (waiting, s) = (waiting, s)

  -- A call that may throw, and whose answer depends on the state.
  abbrev pub attempt : {A : Type 0} → (S → Try A) → Flow S A
  attempt f s = of_try (f s) s

  -- A call that may throw or never settle.
  abbrev pub await : {A : Type 0} → (S → Settled A × S) → Flow S A
  await f s = of_settled (f s).0 (f s).1

  -- `try { m } catch (err) { handler }`
  abbrev pub catch : Flow S (Unit {0}) → (JsError → S → S) → Flow S (Unit {0})
  catch m handler s = recover handler (m s)

  -- `if (b) { f; return; }`
  abbrev pub leave_if : Bool → (S → S) → Flow S (Unit {0})
  leave_if b f s = turned b (f s) s
