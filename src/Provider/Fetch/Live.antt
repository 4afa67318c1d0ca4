-- ===== src/Provider/Fetch/Live.antt =====
-- `FetchEachObserved` where the context lives and the upstream recovers within the retries.
use fx_rates.Prelude.{
  ◌≢◌, ltb, ℕ, zero, suc, ◌+◌, ◌*◌, ◌≤◌, ◌<◌, ◌≡◌, refl, ap, sym, ◌∙◌, true, false, List, [], ◌∷◌,
  Option, none, some, arith,
}
use fx_rates.Clock.{Time, truncate_day}
use fx_rates.Errors.{Error, Result, ok, err, message}
use fx_rates.Provider.{Record, Adapter, FetchEvent, is_transient, fetching, retrying, processed}
use fx_rates.Provider.Fetch.{
  Surroundings, event, Fetched, got, stopped, no_fuel, max_retries, on_fetch_error, on_fetch,
  fetch_retrying, Outcome, returned, out_of_fuel, fetch_start, fetch_upto, deliver, after_delivery,
  after_fetch, fetch_window, rounds, fetch_each_observed, rounds_fuel,
}
use fx_rates.Provider.Fetch.Total.{fetch_each-total}

module _ {F S : Type 0} where
  -- The environment counts requests and waits, and what the adapter returns depends on the count.
  -- The context is never done, every error is transient, one of a request and its five retries is
  -- answered, with records that the callback takes without an error.
  pub record IsLive (u : Surroundings S) (a : Adapter F S) (observe : FetchEvent → S → S)
      (fn : List (Record F) → S → Option Error × S) : Type 0 where
    pub time : S → ℕ
    pub answer : ℕ → Time → Time → Result (List (Record F))
    pub time-observe : (e : FetchEvent) (s : S) → time (observe e s) ≡ time s
    pub time-fetch : (from upto : Time) (s : S) → time (a.fetch from upto s).1 ≡ time s + 1
    pub time-backoff : (n : ℕ) (s : S) → time (u.backoff n s).1 ≡ time s + 1
    pub answers : (from upto : Time) (s : S) → (a.fetch from upto s).0 ≡ answer (time s) from upto
    pub alive : (s : S) → u.ctx_err s ≡ none
    pub waits : (n : ℕ) (s : S) → (u.backoff n s).0 ≡ false
    pub recovers :
        (n : ℕ) (from upto : Time)
        → (i : ℕ) × (records : List (Record F)) × (i ≤ max_retries)
          × (answer (n + 2 * i) from upto ≡ ok records)
    pub transient :
        (n : ℕ) (from upto : Time) (e : Error) → answer n from upto ≡ err e → is_transient e ≡ true
    pub stores :
        (n : ℕ) (from upto : Time) (records : List (Record F)) (s : S)
        → answer n from upto ≡ ok records
        → (fn records s).0 ≡ none

  module _ (u : Surroundings S) (a : Adapter F S) (observe : FetchEvent → S → S)
      (fn : List (Record F) → S → Option Error × S) (live : IsLive u a observe fn) where
    -- The records were answered at some count.
    abbrev IsGot : Time → Time → Fetched F → Type 0
    IsGot from upto (got records n) = (m : ℕ) × (live.answer m from upto ≡ ok records)
    IsGot from upto (stopped e) = ⊥
    IsGot from upto no_fuel = ⊥

    on_fetch-IsGot :
        (again : ℕ → S → Fetched F × S) (from upto : Time) (retries n i : ℕ)
        (records : List (Record F)) (r : Result (List (Record F)) × S)
        → r.0 ≡ live.answer n from upto
        → live.time r.1 ≡ n + 1
        → i + retries ≤ max_retries
        → live.answer (n + 2 * i) from upto ≡ ok records
        → ((j : ℕ) (s : S)
            → i ≡ j + 1
            → live.time s ≡ n + 2
            → IsGot from upto (again (retries + 1) s).0)
        → IsGot from upto (on_fetch u a observe again from upto retries r).0
    unfolding on_fetch on_fetch_error
    on_fetch-IsGot again from upto retries n i records (ok found, s) e t room answer next =
        (n, sym e)
    on_fetch-IsGot again from upto retries n zero records (err x, s) e t room answer next =
        let same : n + 2 * 0 ≡ n = omega arith in
        let now : live.answer n from upto ≡ ok records =
          ap (λ k. live.answer k from upto) (sym same) ∙ answer in
        cc
    on_fetch-IsGot again from upto retries n (suc j) records (err x, s) e t room answer next =
        let few : ltb max_retries (retries + 1) ≡ false = ground arith in
        let waiting = observe (event retrying from upto (retries + 1) (message x)) s in
        let waited =
          live.time-backoff (retries + 1) waiting ∙ ap (λ k. k + 1) (live.time-observe _ s ∙ t) in
        rw (live.transient n from upto x (sym e), few, live.waits (retries + 1) waiting)
          (next j (u.backoff (retries + 1) waiting).1 (omega arith) (waited ∙ omega arith))

    fetch_retrying-IsGot :
        (fuel i : ℕ) (from upto : Time) (retries n : ℕ) (records : List (Record F)) (s : S)
        → i < fuel
        → i + retries ≤ max_retries
        → live.time s ≡ n
        → live.answer (n + 2 * i) from upto ≡ ok records
        → IsGot from upto (fetch_retrying u a observe fuel from upto retries s).0
    unfolding fetch_retrying
    fetch_retrying-IsGot zero i from upto retries n records s less room t answer =
        absurd (omega arith)
    fetch_retrying-IsGot (suc fuel) i from upto retries n records s less room t answer =
        on_fetch-IsGot (fetch_retrying u a observe fuel from upto) from upto retries n i records
          (a.fetch from upto s) (live.answers from upto s ∙ ap (λ k. live.answer k from upto) t)
          (live.time-fetch from upto s ∙ ap (λ k. k + 1) t) room answer
          (λ j s' e t'.
            let same : n + 2 * i ≡ n + 2 + 2 * j = omega arith in
            fetch_retrying-IsGot fuel j from upto (retries + 1) (n + 2) records s' (omega arith)
              (omega arith) t' (ap (λ k. live.answer k from upto) (sym same) ∙ answer))

    -- No error ends the loop.
    abbrev IsCalm : Outcome → Type 0
    IsCalm (returned none) = Unit
    IsCalm (returned (some e)) = ⊥
    IsCalm out_of_fuel = Unit

    deliver-none :
        (n : ℕ) (from upto : Time) (records : List (Record F)) (s : S)
        → live.answer n from upto ≡ ok records
        → (deliver u a observe fn records s).0 ≡ none
    unfolding deliver
    deliver-none n from upto [] s h = refl
    deliver-none n from upto (r ∷ records) s h = live.stores n from upto (r ∷ records) s h

    module _ (again : Time → S → Outcome × S) (calm : (t : Time) (s : S) → IsCalm (again t s).0)
        (today from upto : Time) where
      after_delivery-IsCalm :
          (retries : ℕ) (r : Option Error × S)
          → r.0 ≡ none
          → IsCalm (after_delivery u a observe fn again today from upto retries r).0
      unfolding after_delivery
      after_delivery-IsCalm retries (none, s) h =
          ground (arith, calm upto (observe (event processed from upto retries []) s))
      after_delivery-IsCalm retries (some e, s) h = cc

      after_fetch-IsCalm :
          (r : Fetched F × S)
          → IsGot from upto r.0
          → IsCalm (after_fetch u a observe fn again today from upto r).0
      unfolding after_fetch
      after_fetch-IsCalm (got records n, s) (m, h) =
          after_delivery-IsCalm n (deliver u a observe fn records s)
            (deliver-none m from upto records s h)
      after_fetch-IsCalm (stopped e, s) h = absurd h
      after_fetch-IsCalm (no_fuel, s) h = absurd h

      fetch_window-IsCalm : (s : S) → IsCalm (fetch_window u a observe fn again today from upto s).0
      unfolding fetch_window
      fetch_window-IsCalm s =
          let s' = observe (event fetching from upto 0 []) s in
          let (i, records, few, answer) = live.recovers (live.time s') from upto in
          after_fetch-IsCalm _ (
            fetch_retrying-IsGot (suc max_retries) i from upto 0 (live.time s') records s'
              (omega arith) (omega arith) refl answer)

    rounds-IsCalm :
        (fuel : ℕ) (today cursor : Time) (s : S)
        → IsCalm (rounds u a observe fn fuel today cursor s).0
    unfolding rounds
    rounds-IsCalm zero today cursor s = tt
    rounds-IsCalm (suc fuel) today cursor s =
        rw (live.alive s, rounds)
          (fetch_window-IsCalm (rounds u a observe fn fuel today) (rounds-IsCalm fuel today) today
            (fetch_start cursor) (fetch_upto a.backfill_range today (fetch_start cursor)) s)

    IsCalm-returned : (r : Outcome) → IsCalm r → r ≢ out_of_fuel → r ≡ returned none
    IsCalm-returned (returned none) h n = refl
    IsCalm-returned (returned (some e)) h n = absurd h
    IsCalm-returned out_of_fuel h n = absurd (n refl)

    fetch_each-IsCalm :
        (start : Time) (s : S) → IsCalm (fetch_each_observed u a observe fn start s).0
    unfolding fetch_each_observed
    fetch_each-IsCalm start s = ground (
      arith,
      rounds-IsCalm (rounds_fuel (truncate_day (u.now s)) start) (truncate_day (u.now s)) start s,
    )

    -- In such an environment the loop returns nil.
    pub fetch_each-returns_nil :
        (start : Time) (s : S) → (fetch_each_observed u a observe fn start s).0 ≡ returned none
    fetch_each-returns_nil start s =
        IsCalm-returned _ (fetch_each-IsCalm start s) (fetch_each-total u a observe fn start s)
