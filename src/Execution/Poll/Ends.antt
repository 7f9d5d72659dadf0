-- ===== src/Execution/Poll/Ends.antt =====
-- Which end `pollUntil` comes to, for every sequence of answers of the chain.
use mathlib.Core.Path.{subst}
use native.Mathlib.Decide.{dec_le}
use b1nary_xlayer_hackathon.Prelude.{
  ℕ, zero, suc, ◌+◌, ◌-◌, ◌≤◌, ◌<◌, ◌≡◌, ◌↔◌, refl, ap, ◌⊎◌, inl, inr, Bool, true, false, arith,
  leb, leb→le, below_suc, Bool-cases,
}
use b1nary_xlayer_hackathon.Js.Error.{Try, ok, throws, threw, Try-cases}
use b1nary_xlayer_hackathon.Execution.Poll.{
  PollEnd, confirmed, lost, timed_out, poll_from, poll_until,
}

-- The attempt finds the transaction.
abbrev pub said_yes : Try Bool → Bool
said_yes (ok b) = b
said_yes (throws e) = false

module _ (check : ℕ → Try Bool) where
  -- No attempt before the n-th finds the transaction.
  abbrev pub NoYes : ℕ → Type 0
  NoYes n = (j : ℕ) → j < n → said_yes (check j) ≡ false

  -- Five attempts in a row, from the j-th on, throw.
  abbrev pub FiveFail : ℕ → Type 0
  FiveFail j = (k : ℕ) → k < 5 → threw (check (j + k)) ≡ true

  -- No five attempts in a row before the n-th throw.
  abbrev pub NoFive : ℕ → Type 0
  NoFive n = (j : ℕ) → j + 5 ≤ n → ¬ (FiveFail j)

  -- What is meant to hold of the end of a wait of n attempts.
  abbrev pub EndsRight : ℕ → PollEnd → Type 0
  EndsRight n (confirmed i) = (i < n) × (said_yes (check i) ≡ true) × NoYes i × NoFive i
  EndsRight n (lost i) = (i < n) × (j : ℕ) × (j + 4 ≡ i) × FiveFail j × NoYes i × NoFive i
  EndsRight n timed_out = NoYes n × NoFive n

  -- The counter is the length of the row of failures that ends before the attempt.
  record Counted (i errors : ℕ) : Type 0 where
    small : errors < 5
    within : errors ≤ i
    row : (j : ℕ) → j < i → i ≤ j + errors → threw (check j) ≡ true
    started : (errors ≡ i) ⊎ ((j : ℕ) × (j + 1 + errors ≡ i) × (threw (check j) ≡ false))
    no_yes : NoYes i
    no_five : NoFive i

  FiveFail-at : (j m : ℕ) → FiveFail j → j ≤ m → m < j + 5 → threw (check m) ≡ true
  FiveFail-at j m five l u =
      let e : j + (m - j) ≡ m = omega arith in
      subst (λ n. threw (check n) ≡ true) e (five (m - j) (omega arith))

  -- An attempt among the last five that does not throw keeps a row of five away.
  NoFive-suc : (i m : ℕ) → NoFive i → m ≤ i → i < m + 5 → threw (check m) ≡ false → NoFive (suc i)
  NoFive-suc i m h l u t j k five = elim (dec_le (j + 5) i) [
    | yes early ↦ h j early five
    | no late ↦
        let thrown : threw (check m) ≡ true = FiveFail-at j m five (omega arith) (omega arith) in cc
  ]

  Counted-quiet :
      (i errors : ℕ)
      → Counted i errors
      → said_yes (check i) ≡ false
      → threw (check i) ≡ false
      → Counted (suc i) 0
  Counted-quiet i errors c e t = record {
    small = omega arith;
    within = omega arith;
    row = λ j l m. absurd (omega arith);
    started = inr (i, omega arith, t);
    no_yes = below_suc (λ j. said_yes (check j) ≡ false) i c.no_yes e;
    no_five = NoFive-suc i i c.no_five (omega arith) (omega arith) t;
  }

  Counted-failed :
      (i errors : ℕ)
      → Counted i errors
      → said_yes (check i) ≡ false
      → threw (check i) ≡ true
      → errors + 1 < 5
      → Counted (suc i) (errors + 1)
  Counted-failed i errors c e t s = record {
    small = s;
    within = omega (arith, c.within);
    row = λ j l m.
        below_suc (λ n. i ≤ n + errors → threw (check n) ≡ true) i (λ n u v. c.row n u v) (λ _. t) j
          l (omega arith);
    started = elim c.started [
      | inl all ↦ inl (omega arith)
      | inr (m, at, quiet) ↦ inr (m, omega arith, quiet)
    ];
    no_yes = below_suc (λ j. said_yes (check j) ≡ false) i c.no_yes e;
    no_five = elim c.started [
      | inl all ↦ λ j l five. absurd (omega arith)
      | inr (m, at, quiet) ↦ NoFive-suc i m c.no_five (omega arith) (omega arith) quiet
    ];
  }

  Counted-start : Counted 0 0
  Counted-start = record {
    small = omega arith;
    within = omega arith;
    row = λ j l m. absurd (omega arith);
    started = inl refl;
    no_yes = λ j l. absurd (omega arith);
    no_five = λ j l five. absurd (omega arith);
  }

  FiveFail-last :
      (i j errors : ℕ)
      → Counted i errors
      → threw (check i) ≡ true
      → 5 ≤ errors + 1
      → j + 4 ≡ i
      → FiveFail j
  FiveFail-last i j errors c t h at k l =
      below_suc (λ n. i ≤ n + errors → threw (check n) ≡ true) i (λ n u v. c.row n u v) (λ _. t)
        (j + k) (omega arith) (omega (arith, c.small))

  -- From any attempt on, the loop ends as it is meant to.
  poll_from-EndsRight :
      (left i errors : ℕ) → Counted i errors → EndsRight (i + left) (poll_from check left i errors)
  unfolding poll_from
  poll_from-EndsRight zero i errors c =
      let e : i + zero ≡ i = omega arith in rw e (c.no_yes, c.no_five)
  poll_from-EndsRight (suc left) i errors c = elim (Try-cases (check i)) [
    | inl (true, e) ↦ rw (e, poll_from) (omega arith, rw e refl, c.no_yes, c.no_five)
    | inl (false, e) ↦
        let at : i + suc left ≡ suc i + left = omega arith in
        rw (e, poll_from, at)
          (poll_from-EndsRight left (suc i) 0 (Counted-quiet i errors c (rw e refl) (rw e refl)))
    | inr (err, e) ↦ elim (Bool-cases (leb 5 (errors + 1))) [
      | inl five ↦
          let at : i - 4 + 4 ≡ i = ground (arith, c.within, c.small) in
          let row : FiveFail (i - 4) =
            FiveFail-last i (i - 4) errors c (rw e refl) (leb→le _ _ five) at in
          rw (e, poll_from, five) (omega arith, i - 4, at, row, c.no_yes, c.no_five)
      | inr few ↦
          let at : i + suc left ≡ suc i + left = omega arith in
          let more : errors + 1 < 5 = ground arith in
          rw (e, poll_from, few, at)
            (poll_from-EndsRight left (suc i) (errors + 1)
              (Counted-failed i errors c (rw e refl) (rw e refl) more))
    ]
  ]

  le_of_yes : (i n : ℕ) → said_yes (check i) ≡ true → NoYes n → n ≤ i
  le_of_yes i n y h = elim (dec_le n i) [
    | yes le ↦ le
    | no gt ↦ let silent : said_yes (check i) ≡ false = h i (omega arith) in cc
  ]

  lt_of_five : (j n : ℕ) → FiveFail j → NoFive n → n < j + 5
  lt_of_five j n five h = elim (dec_le (j + 5) n) [
    | yes le ↦ absurd (h j le five)
    | no gt ↦ omega arith
  ]

  yes_not_throw : (i : ℕ) → said_yes (check i) ≡ true → threw (check i) ≡ true → ⊥
  yes_not_throw i = elim (Try-cases (check i)) [
    | inl (b, e) ↦ rw e (λ y t. cc)
    | inr (err, e) ↦ rw e (λ y t. cc)
  ]

  confirmed_or_lost : (n i k : ℕ) → EndsRight n (confirmed i) → EndsRight n (lost k) → ⊥
  confirmed_or_lost n i k (_, y, ny, nf) (_, j, at, five, my, mf) =
      let low = le_of_yes i k y my in
      let high = lt_of_five j i five nf in
      yes_not_throw i y (FiveFail-at j i five (omega arith) (omega arith))

  confirmed_or_timed_out : (n i : ℕ) → EndsRight n (confirmed i) → EndsRight n timed_out → ⊥
  confirmed_or_timed_out n i (l, y, _, _) (my, _) = omega (arith, le_of_yes i n y my)

  lost_or_timed_out : (n i : ℕ) → EndsRight n (lost i) → EndsRight n timed_out → ⊥
  lost_or_timed_out n i (l, j, at, five, _, _) (_, mf) = omega (arith, lt_of_five j n five mf)

  EndsRight-unique : (n : ℕ) (r s : PollEnd) → EndsRight n r → EndsRight n s → r ≡ s
  EndsRight-unique n (confirmed i) (confirmed k) (_, y, ny, _) (_, z, nz, _) =
      ap confirmed (omega (arith, le_of_yes i k y nz, le_of_yes k i z ny))
  EndsRight-unique n (confirmed i) (lost k) g h = absurd (confirmed_or_lost n i k g h)
  EndsRight-unique n (confirmed i) timed_out g h = absurd (confirmed_or_timed_out n i g h)
  EndsRight-unique n (lost i) (confirmed k) g h = absurd (confirmed_or_lost n k i h g)
  EndsRight-unique n (lost i) (lost k) (_, j, at, five, _, nf) (_, m, at', five', _, nf') =
      ap lost (omega (arith, lt_of_five j k five nf', lt_of_five m i five' nf))
  EndsRight-unique n (lost i) timed_out g h = absurd (lost_or_timed_out n i g h)
  EndsRight-unique n timed_out (confirmed k) g h = absurd (confirmed_or_timed_out n k h g)
  EndsRight-unique n timed_out (lost k) g h = absurd (lost_or_timed_out n k h g)
  EndsRight-unique n timed_out timed_out g h = refl

-- `pollUntil` with n attempts ends with `r` exactly when `r` is right for the answers: it returns at
-- the first attempt that finds the transaction, if no five attempts in a row failed before it; it
-- throws "Lost connection" at the end of the first five failures in a row, if no attempt before
-- found the transaction; it throws "Timed out" if neither happens within the n attempts.
pub poll_until-eq_iff :
    (check : ℕ → Try Bool) (n : ℕ) (r : PollEnd) → (poll_until check n ≡ r) ↔ EndsRight check n r
unfolding poll_until
poll_until-eq_iff check n r =
    let all : 0 + n ≡ n = omega arith in
    let right : EndsRight check n (poll_from check n 0 0) =
      subst (λ m. EndsRight check m (poll_from check n 0 0)) all
        (poll_from-EndsRight check n 0 0 (Counted-start check)) in
    (λ e. subst (EndsRight check n) e right, λ h. EndsRight-unique check n _ r right h)
