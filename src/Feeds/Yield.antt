-- ===== src/Feeds/Yield.antt =====
-- `useYield` of frontend/src/hooks/useYield.ts, which asks four things at once, and `useLeaderboard` of
-- frontend/src/hooks/useLeaderboard.ts, which asks once.
use mathlib.Core.List.{Memᴰ}
use b1nary_xlayer_hackathon.Prelude.{
  ◌≡◌, ◌⊎◌, inl, inr, refl, subst, Bool-cases, String, Bool, true, false, Option, none, some, List,
  [], ◌∷◌,
}
use b1nary_xlayer_hackathon.Js.Error.{Try, ok, throws, message, Try-cases}
use b1nary_xlayer_hackathon.Positions.{account}
use b1nary_xlayer_hackathon.Execution.Race.{Settled, resolved, rejected, pending}

-- An answer of one of the four requests; `A` is the type of what the backend sends.
pub data Arrival (A : Type 0) : Type 0 where
  summary : Try A → Arrival A
  positions : Try A → Arrival A
  history : Try A → Arrival A
  stats : Try A → Arrival A

-- `YieldData`
pub record YieldData (A : Type 0) : Type 0 where
  pub summary_data : Option A
  pub positions_data : Option A
  pub history_data : Option A
  pub stats_data : Option A

pub record Yields (A : Type 0) : Type 0 where
  pub shown : YieldData A
  pub loading : Bool
  pub error : Option String

module _ {A : Type 0} where
  abbrev pub no_data : YieldData A
  no_data = record {
    summary_data = none;
    positions_data = none;
    history_data = none;
    stats_data = none;
  }

  -- All four are there.
  abbrev whole_of : Option A → Option A → Option A → Option A → Bool
  whole_of (some a) (some b) (some c) (some d) = true
  whole_of _ _ _ _ = false

  abbrev pub is_whole : YieldData A → Bool
  is_whole y = whole_of y.summary_data y.positions_data y.history_data y.stats_data

  -- What an answer adds, or the exception that rejects the whole.
  unfoldable pub arrive : Arrival A → YieldData A → Try (YieldData A)
  arrive (summary (ok a)) y = ok (record y { summary_data = some a })
  arrive (positions (ok b)) y = ok (record y { positions_data = some b })
  arrive (history (ok c)) y = ok (record y { history_data = some c })
  arrive (stats (ok d)) y = ok (record y { stats_data = some d })
  arrive (summary (throws e)) y = throws e
  arrive (positions (throws e)) y = throws e
  arrive (history (throws e)) y = throws e
  arrive (stats (throws e)) y = throws e

  -- `Promise.all`, by the answers in the order in which they come: it is rejected by the first
  -- exception, and resolved when all four are there.
  unfoldable pub all_of_four : List (Arrival A) → YieldData A → Settled (YieldData A)
  unfolding arrive
  all_of_four [] y = pending
  all_of_four (a ∷ rest) y = elim (arrive a y) [
    | throws e ↦ rejected e
    | ok y' ↦ elim (is_whole y') [ true ↦ resolved y' | false ↦ all_of_four rest y' ]
  ]

  abbrev pub take_yield : String → Settled (YieldData A) → Yields A → Yields A
  take_yield text (resolved y) s = record { shown = y; loading = false; error = none }
  take_yield text (rejected e) s = record s { loading = false; error = some (message text e) }
  take_yield text pending s = s

  -- `refresh`
  unfoldable pub refresh_yield : String → Option String → List (Arrival A) → Yields A → Yields A
  unfolding all_of_four
  refresh_yield text address arrivals s = elim (account address) [
    | none ↦ record s { shown = no_data; loading = false }
    | some a ↦ take_yield text (all_of_four arrivals no_data) s
  ]

  -- Every part that is known has come as an answer of this list.
  pub record CameIn (l : List (Arrival A)) (y : YieldData A) : Type 0 where
    pub summary_came : (a : A) → y.summary_data ≡ some a → Memᴰ (summary (ok a)) l
    pub positions_came : (b : A) → y.positions_data ≡ some b → Memᴰ (positions (ok b)) l
    pub history_came : (c : A) → y.history_data ≡ some c → Memᴰ (history (ok c)) l
    pub stats_came : (d : A) → y.stats_data ≡ some d → Memᴰ (stats (ok d)) l

  arrive-CameIn :
      (l : List (Arrival A)) (x : Arrival A) (y y' : YieldData A)
      → Memᴰ x l
      → CameIn l y
      → arrive x y ≡ ok y'
      → CameIn l y'
  unfolding arrive
  arrive-CameIn l (summary (ok a)) y y' m h e =
      let new : record y { summary_data = some a } ≡ y' = cc in
      subst (CameIn l) new (record {
        summary_came = λ z q. let same : a ≡ z = cc in subst (λ v. Memᴰ (summary (ok v)) l) same m;
        positions_came = h.positions_came;
        history_came = h.history_came;
        stats_came = h.stats_came;
      })
  arrive-CameIn l (positions (ok a)) y y' m h e =
      let new : record y { positions_data = some a } ≡ y' = cc in
      subst (CameIn l) new (record {
        summary_came = h.summary_came;
        positions_came =
            λ z q. let same : a ≡ z = cc in subst (λ v. Memᴰ (positions (ok v)) l) same m;
        history_came = h.history_came;
        stats_came = h.stats_came;
      })
  arrive-CameIn l (history (ok a)) y y' m h e =
      let new : record y { history_data = some a } ≡ y' = cc in
      subst (CameIn l) new (record {
        summary_came = h.summary_came;
        positions_came = h.positions_came;
        history_came = λ z q. let same : a ≡ z = cc in subst (λ v. Memᴰ (history (ok v)) l) same m;
        stats_came = h.stats_came;
      })
  arrive-CameIn l (stats (ok a)) y y' m h e =
      let new : record y { stats_data = some a } ≡ y' = cc in
      subst (CameIn l) new (record {
        summary_came = h.summary_came;
        positions_came = h.positions_came;
        history_came = h.history_came;
        stats_came = λ z q. let same : a ≡ z = cc in subst (λ v. Memᴰ (stats (ok v)) l) same m;
      })
  arrive-CameIn l (summary (throws x)) y y' m h e = cc
  arrive-CameIn l (positions (throws x)) y y' m h e = cc
  arrive-CameIn l (history (throws x)) y y' m h e = cc
  arrive-CameIn l (stats (throws x)) y y' m h e = cc

  -- What `Promise.all` resolves with is whole, and each of its parts has come as an answer.
  all_of_four-CameIn :
      (all rest : List (Arrival A)) (y : YieldData A)
      → ((x : Arrival A) → Memᴰ x rest → Memᴰ x all)
      → CameIn all y
      → (whole : YieldData A) → all_of_four rest y ≡ resolved whole
      → CameIn all whole × (is_whole whole ≡ true)
  unfolding all_of_four
  all_of_four-CameIn all [] y sub h whole e = cc
  all_of_four-CameIn all (x ∷ rest) y sub h whole e = elim (Try-cases (arrive x y)) [
    | inr (err, f) ↦ let no_end : rejected err ≡ resolved whole = rw (f, all_of_four) at e in cc
    | inl (y', f) ↦
        let came = arrive-CameIn all x y y' (sub x (Memᴰ.head refl)) h f in
        elim (Bool-cases (is_whole y')) [
          | inl w ↦
              let same : resolved y' ≡ resolved whole = rw (f, w, all_of_four) at e in
              let equal : y' ≡ whole = cc in
              (subst (CameIn all) equal came, subst (λ v. is_whole v ≡ true) equal w)
          | inr w ↦
              all_of_four-CameIn all rest y' (λ z m. sub z (Memᴰ.tail m)) came whole
                (rw (f, w, all_of_four) at e)
        ]
  ]

  nothing-CameIn : (l : List (Arrival A)) → CameIn l no_data
  nothing-CameIn l = record {
    summary_came = λ z q. cc;
    positions_came = λ z q. cc;
    history_came = λ z q. cc;
    stats_came = λ z q. cc;
  }

  take_yield-whole :
      (text : String) (arrivals : List (Arrival A)) (s : Yields A) (r : Settled (YieldData A))
      → all_of_four arrivals no_data ≡ r
      → ((take_yield text r s).shown ≡ s.shown)
        ⊎ (CameIn arrivals (take_yield text r s).shown
            × (is_whole (take_yield text r s).shown ≡ true)
            × ((take_yield text r s).error ≡ none))
  take_yield-whole text arrivals s (resolved y) e =
      let known =
        all_of_four-CameIn arrivals arrivals no_data (λ x m. m) (nothing-CameIn arrivals) y e in
      inr (known.0, known.1, refl)
  take_yield-whole text arrivals s (rejected e) f = inl refl
  take_yield-whole text arrivals s pending f = inl refl

  -- After a refresh for an account, `useYield` shows what it showed before, or it shows all four parts
  -- that were asked for, each of them an answer of this refresh: it never mixes the answers of two.
  pub refresh_yield-whole :
      (text a : String) (address : Option String) (arrivals : List (Arrival A)) (s : Yields A)
      → account address ≡ some a
      → let s' = refresh_yield text address arrivals s in
        (s'.shown ≡ s.shown)
        ⊎ (CameIn arrivals s'.shown × (is_whole s'.shown ≡ true) × (s'.error ≡ none))
  unfolding refresh_yield
  refresh_yield-whole text a address arrivals s known =
      rw (known, refresh_yield)
        (take_yield-whole text arrivals s (all_of_four arrivals no_data) refl)

-- `useLeaderboard`: its one request, unless the page was left before the answer.
pub record Board (A : Type 0) : Type 0 where
  pub board : Option A
  pub loading : Bool
  pub failed : Bool

abbrev pub opened : {A : Type 0} → Board A
opened = record { board = none; loading = true; failed = false }

unfoldable pub take_board : {A : Type 0} → (cancelled : Bool) → Try A → Board A → Board A
take_board true answer s = s
take_board false (ok data_of) s = record s { board = some data_of; loading = false }
take_board false (throws e) s = record s { failed = true; loading = false }
