-- ===== src/Provider/Fetch/Total.antt =====
-- `FetchEachObserved` and the fuel of its model.
use fx_rates.Prelude.{
  ℕ, zero, suc, ◌+◌, ◌*◌, ◌≤◌, ◌<◌, ◌≡◌, ◌≢◌, refl, true, false, not, ◌&&◌, List, [], Option, none,
  some, arith, Bool-cases, Option-cases, inl, inr,
}
use fx_rates.Clock.{Time, day, is_zero, before, truncate_day}
use fx_rates.Errors.{Error, Result, ok, err, message}
use fx_rates.Provider.{Record, Adapter, FetchEvent, retrying, processed}
use fx_rates.Provider.Fetch.{
  Surroundings, event, Fetched, got, stopped, no_fuel, max_retries, on_fetch_error, on_fetch,
  fetch_retrying, Outcome, out_of_fuel, fetch_start, fetch_upto, deliver, after_delivery,
  after_fetch, fetch_window, rounds, rounds_fuel, fetch_each_observed,
}
use fx_rates.Provider.Fetch.Answers.{fetch_upto_lem}

module _ {F S : Type 0} (u : Surroundings S) (a : Adapter F S) (observe : FetchEvent → S → S) where
  on_fetch-total :
      (again : ℕ → S → Fetched F × S) (from upto : Time) (retries : ℕ)
      → ((s : S) → retries + 1 ≤ max_retries → (again (retries + 1) s).0 ≢ no_fuel)
      → (r : Result (List (Record F)) × S)
      → (on_fetch u a observe again from upto retries r).0 ≢ no_fuel
  unfolding on_fetch on_fetch_error
  on_fetch-total again from upto retries next (ok records, s) = λ e. cc
  on_fetch-total again from upto retries next (err e, s) =
      let waiting = observe (event retrying from upto (retries + 1) (message e)) s in
      ground (arith, next (u.backoff (retries + 1) waiting).1)

  fetch_retrying-total :
      (fuel : ℕ) (from upto : Time) (retries : ℕ) (s : S)
      → max_retries < fuel + retries
      → retries ≤ max_retries
      → (fetch_retrying u a observe fuel from upto retries s).0 ≢ no_fuel
  unfolding fetch_retrying
  fetch_retrying-total zero from upto retries s f h = absurd (omega arith)
  fetch_retrying-total (suc fuel) from upto retries s f h =
      on_fetch-total (fetch_retrying u a observe fuel from upto) from upto retries
        (λ s' h'. fetch_retrying-total fuel from upto (retries + 1) s' (omega arith) h')
        (a.fetch from upto s)

module _ {F S : Type 0} (u : Surroundings S) (a : Adapter F S) (observe : FetchEvent → S → S)
    (fn : List (Record F) → S → Option Error × S) where
  module _ (again : Time → S → Outcome × S) (today cursor : Time) where
    abbrev upto : Time
    upto = fetch_upto a.backfill_range today (fetch_start cursor)

    module _ (next : is_zero upto ≡ false → (s : S) → (again upto s).0 ≢ out_of_fuel) where
      after_delivery-total :
          (retries : ℕ) (r : Option Error × S)
          → (after_delivery u a observe fn again today (fetch_start cursor) upto retries r).0
            ≢ out_of_fuel
      unfolding after_delivery
      after_delivery-total retries (some e, s) = λ e. cc
      after_delivery-total retries (none, s) =
          let s' = observe (event processed (fetch_start cursor) upto retries []) s in
          elim (Bool-cases (is_zero upto)) [
            | inl open_end ↦ rw open_end (λ e. cc)
            | inr closed ↦
                let facts = fetch_upto_lem a.backfill_range today cursor closed in
                let inside : before upto today ≡ true = ground arith in
                rw (closed, inside) (next closed s')
          ]

      after_fetch-total :
          (r : Fetched F × S)
          → r.0 ≢ no_fuel
          → (after_fetch u a observe fn again today (fetch_start cursor) upto r).0 ≢ out_of_fuel
      unfolding after_fetch
      after_fetch-total (got records n, s) h =
          after_delivery-total n (deliver u a observe fn records s)
      after_fetch-total (stopped e, s) h = λ e. cc
      after_fetch-total (no_fuel, s) h = absurd (h refl)

      fetch_window-total :
          (s : S)
          → (fetch_window u a observe fn again today (fetch_start cursor) upto s).0 ≢ out_of_fuel
      unfolding fetch_window
      fetch_window-total s = after_fetch-total _ (
          fetch_retrying-total u a observe (suc max_retries) (fetch_start cursor) upto 0 _
            (omega arith) (omega arith))

  rounds-total :
      (fuel : ℕ) (today cursor : Time) (s : S)
      → today < cursor + fuel * day
      → 0 < fuel
      → (rounds u a observe fn fuel today cursor s).0 ≢ out_of_fuel
  unfolding rounds
  rounds-total zero today cursor s f h = absurd (omega arith)
  rounds-total (suc fuel) today cursor s f h = elim (Option-cases (u.ctx_err s)) [
    | inr (e, done) ↦ rw (done, rounds) (λ e. cc)
    | inl alive ↦
        rw (alive, rounds)
          (fetch_window-total (rounds u a observe fn fuel today) today cursor
            (λ closed s'.
              let facts = fetch_upto_lem a.backfill_range today cursor closed in
              rounds-total fuel today _ s' (omega arith) (omega arith))
            s)
  ]

  -- Whatever the environment does, the loop returns.
  pub fetch_each-total :
      (start : Time) (s : S) → (fetch_each_observed u a observe fn start s).0 ≢ out_of_fuel
  unfolding fetch_each_observed
  fetch_each-total start s =
      let today = truncate_day (u.now s) in
      elim (Bool-cases (not (is_zero start) && not (before start today))) [
        | inl current ↦ rw current (λ e. cc)
        | inr behind ↦
            rw behind
              (rounds-total (rounds_fuel today start) today start s (omega arith) (omega arith))
      ]
