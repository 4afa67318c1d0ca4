-- ===== src/Provider/Fetch/Invariant.antt =====
-- The induction rule of `FetchEachObserved` for a predicate on its environment.
use fx_rates.Prelude.{
  ℕ, zero, suc, ◌+◌, not, ◌&&◌, ◌||◌, List, [], ◌∷◌, Option, none, some, Bool-cases, Option-cases,
  inl, inr, ltb,
}
use fx_rates.Clock.{Time, is_zero, before, truncate_day}
use fx_rates.Errors.{Error, Result, ok, err, message}
use fx_rates.Provider.{Record, Adapter, FetchEvent, is_transient, retrying}
use fx_rates.Provider.Fetch.{
  Surroundings, event, Fetched, got, stopped, no_fuel, max_retries, on_fetch_error, on_fetch,
  fetch_retrying, Outcome, deliver, after_delivery, after_fetch, fetch_window, rounds, rounds_fuel,
  fetch_each_observed,
}

-- Every step that the loop asks for keeps `P`.
pub record IsInvariant {F S : Type 0} (u : Surroundings S) (a : Adapter F S)
    (observe : FetchEvent → S → S) (fn : List (Record F) → S → Option Error × S) (P : S → Type 0)
    : Type 0 where
  pub keeps_fetch : (from upto : Time) (s : S) → P s → P (a.fetch from upto s).1
  pub keeps_observe : (e : FetchEvent) (s : S) → P s → P (observe e s)
  pub keeps_backoff : (n : ℕ) (s : S) → P s → P (u.backoff n s).1
  pub keeps_fn : (records : List (Record F)) (s : S) → P s → P (fn records s).1

module _ {F S : Type 0} (u : Surroundings S) (a : Adapter F S) (observe : FetchEvent → S → S)
    (fn : List (Record F) → S → Option Error × S) (P : S → Type 0)
    (i : IsInvariant u a observe fn P) where
  on_fetch-keeps :
      (again : ℕ → S → Fetched F × S) (from upto : Time) (retries : ℕ)
      → ((s : S) → P s → P (again (retries + 1) s).1)
      → (r : Result (List (Record F)) × S) → P r.1
      → P (on_fetch u a observe again from upto retries r).1
  unfolding on_fetch on_fetch_error
  on_fetch-keeps again from upto retries next (ok records, s) h = i.keeps_observe _ s h
  on_fetch-keeps again from upto retries next (err e, s) h = elim (Bool-cases (is_transient e)) [
    | inr fatal ↦ rw (fatal, on_fetch_error) (i.keeps_observe _ s h)
    | inl transient ↦ elim (Bool-cases (ltb max_retries (retries + 1))) [
      | inl spent ↦ rw (transient, spent, on_fetch_error) (i.keeps_observe _ s h)
      | inr left ↦
          let waiting = observe (event retrying from upto (retries + 1) (message e)) s in
          let woken = i.keeps_backoff (retries + 1) waiting (i.keeps_observe _ s h) in
          elim (Bool-cases (u.backoff (retries + 1) waiting).0) [
            | inl done ↦ rw (transient, left, done, on_fetch_error) woken
            | inr alive ↦ rw (transient, left, alive, on_fetch_error) (next _ woken)
          ]
    ]
  ]

  fetch_retrying-keeps :
      (fuel : ℕ) (from upto : Time) (retries : ℕ) (s : S)
      → P s
      → P (fetch_retrying u a observe fuel from upto retries s).1
  unfolding fetch_retrying
  fetch_retrying-keeps zero from upto retries s h = h
  fetch_retrying-keeps (suc fuel) from upto retries s h =
      on_fetch-keeps (fetch_retrying u a observe fuel from upto) from upto retries
        (λ s' h'. fetch_retrying-keeps fuel from upto (retries + 1) s' h') (a.fetch from upto s)
        (i.keeps_fetch from upto s h)

  deliver-keeps : (records : List (Record F)) (s : S) → P s → P (deliver u a observe fn records s).1
  unfolding deliver
  deliver-keeps [] s h = h
  deliver-keeps (r ∷ records) s h = i.keeps_fn (r ∷ records) s h

  module _ (again : Time → S → Outcome × S) (today from upto : Time)
      (next : (s : S) → P s → P (again upto s).1) where
    after_delivery-keeps :
        (retries : ℕ) (r : Option Error × S)
        → P r.1
        → P (after_delivery u a observe fn again today from upto retries r).1
    unfolding after_delivery
    after_delivery-keeps retries (some e, s) h = h
    after_delivery-keeps retries (none, s) h =
        elim (Bool-cases (is_zero upto || not (before upto today))) [
          | inl last ↦ rw last (i.keeps_observe _ s h)
          | inr more ↦ rw more (next _ (i.keeps_observe _ s h))
        ]

    after_fetch-keeps :
        (r : Fetched F × S) → P r.1 → P (after_fetch u a observe fn again today from upto r).1
    unfolding after_fetch
    after_fetch-keeps (got records n, s) h =
        after_delivery-keeps n (deliver u a observe fn records s) (deliver-keeps records s h)
    after_fetch-keeps (stopped e, s) h = h
    after_fetch-keeps (no_fuel, s) h = h

    fetch_window-keeps : (s : S) → P s → P (fetch_window u a observe fn again today from upto s).1
    unfolding fetch_window
    fetch_window-keeps s h =
        after_fetch-keeps _
          (fetch_retrying-keeps (suc max_retries) from upto 0 _ (i.keeps_observe _ s h))

  rounds-keeps :
      (fuel : ℕ) (today cursor : Time) (s : S)
      → P s
      → P (rounds u a observe fn fuel today cursor s).1
  unfolding rounds
  rounds-keeps zero today cursor s h = h
  rounds-keeps (suc fuel) today cursor s h = elim (Option-cases (u.ctx_err s)) [
    | inr (e, done) ↦ rw (done, rounds) h
    | inl alive ↦
        rw (alive, rounds)
          (fetch_window-keeps (rounds u a observe fn fuel today) today _ _
            (λ s' h'. rounds-keeps fuel today _ s' h') s h)
  ]

  -- Whatever the outcome, what every callback keeps holds after the loop.
  pub fetch_each-keeps :
      (start : Time) (s : S) → P s → P (fetch_each_observed u a observe fn start s).1
  unfolding fetch_each_observed
  fetch_each-keeps start s h =
      let today = truncate_day (u.now s) in
      elim (Bool-cases (not (is_zero start) && not (before start today))) [
        | inl current ↦ rw current h
        | inr behind ↦ rw behind (rounds-keeps (rounds_fuel today start) today start s h)
      ]
