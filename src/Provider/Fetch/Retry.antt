-- ===== src/Provider/Fetch/Retry.antt =====
-- The retry loop of `FetchEachObserved` and its calls of `Fetch`.
use fx_rates.Prelude.{
  ℕ, zero, suc, ◌+◌, ◌≤◌, ◌<◌, ◌≡◌, ◌⊎◌, inl, false, List, Option, none, some, arith,
}
use fx_rates.Clock.{Time}
use fx_rates.Errors.{Error, Result, ok, err, message}
use fx_rates.Provider.{Record, Adapter, FetchEvent, is_transient, failed, retrying}
use fx_rates.Provider.Fetch.{
  Surroundings, event, Fetched, got, stopped, no_fuel, max_retries, on_fetch_error, on_fetch,
  fetch_retrying,
}

-- The environment counts the calls of `Fetch`, and nothing else changes the count.
pub record IsCounted {F S : Type 0} (u : Surroundings S) (a : Adapter F S)
    (observe : FetchEvent → S → S) (calls : S → ℕ) : Type 0 where
  pub calls-fetch : (from upto : Time) (s : S) → calls (a.fetch from upto s).1 ≡ calls s + 1
  pub calls-observe : (e : FetchEvent) (s : S) → calls (observe e s) ≡ calls s
  pub calls-backoff : (n : ℕ) (s : S) → calls (u.backoff n s).1 ≡ calls s

module _ {F S : Type 0} (u : Surroundings S) (a : Adapter F S) (observe : FetchEvent → S → S)
    (calls : S → ℕ) where
  -- How a retry loop may end that began when `base` calls had been made.
  abbrev pub EndsRightly : ℕ → Fetched F × S → Type 0
  EndsRightly base (got records n, s) = (n ≤ max_retries) × (calls s ≡ base + n + 1)
  EndsRightly base (stopped none, s) = (calls s ≤ base + max_retries) × (u.ctx_err s ≡ none)
  EndsRightly base (stopped (some e), s) =
      (calls s ≤ base + max_retries + 1)
      × ((u.ctx_err s ≡ some e) ⊎ (is_transient e ≡ false) ⊎ (calls s ≡ base + max_retries + 1))
  EndsRightly base (no_fuel, s) = ⊥

  module _ (c : IsCounted u a observe calls) where
    stopped-EndsRightly :
        (base : ℕ) (s : S) (o : Option Error)
        → u.ctx_err s ≡ o
        → calls s ≤ base + max_retries
        → EndsRightly base (stopped o, s)
    stopped-EndsRightly base s none h k = (k, h)
    stopped-EndsRightly base s (some e) h k = (omega arith, inl h)

    on_fetch-EndsRightly :
        (again : ℕ → S → Fetched F × S) (from upto : Time) (base retries : ℕ)
        → ((s : S)
            → retries + 1 ≤ max_retries
            → calls s ≡ base + (retries + 1)
            → EndsRightly base (again (retries + 1) s))
        → retries ≤ max_retries
        → (r : Result (List (Record F)) × S) → calls r.1 ≡ base + retries + 1
        → EndsRightly base (on_fetch u a observe again from upto retries r)
    unfolding on_fetch on_fetch_error
    on_fetch-EndsRightly again from upto base retries next h (ok records, s) k =
        (h, omega (arith, c.calls-observe _ s))
    on_fetch-EndsRightly again from upto base retries next h (err e, s) k =
        let waiting = observe (event retrying from upto (retries + 1) (message e)) s in
        let woken = (u.backoff (retries + 1) waiting).1 in
        ground (
          arith,
          next woken,
          c.calls-observe (event failed from upto retries (message e)) s,
          c.calls-observe (event failed from upto (retries + 1) (message e)) s,
          c.calls-observe (event retrying from upto (retries + 1) (message e)) s,
          c.calls-backoff (retries + 1) waiting,
        )

    fetch_retrying-EndsRightly :
        (fuel : ℕ) (from upto : Time) (base retries : ℕ) (s : S)
        → max_retries < fuel + retries
        → retries ≤ max_retries
        → calls s ≡ base + retries
        → EndsRightly base (fetch_retrying u a observe fuel from upto retries s)
    unfolding fetch_retrying
    fetch_retrying-EndsRightly zero from upto base retries s f h k = absurd (omega arith)
    fetch_retrying-EndsRightly (suc fuel) from upto base retries s f h k =
        on_fetch-EndsRightly (fetch_retrying u a observe fuel from upto) from upto base retries
          (λ s' h' k'.
            fetch_retrying-EndsRightly fuel from upto base (retries + 1) s' (omega arith) h' k')
          h (a.fetch from upto s) (omega (arith, c.calls-fetch from upto s))

    -- With an environment that counts the calls of `Fetch`, one window ends within six calls, and
    -- never for want of fuel: records come with as many retries as calls failed, at most five; a
    -- `return nil` needs a context with no error; and an error is the context's, or is not
    -- transient, or came from the sixth call.
    pub retry_bound :
        (from upto : Time) (s : S)
        → EndsRightly (calls s) (fetch_retrying u a observe (suc max_retries) from upto 0 s)
    retry_bound from upto s =
        fetch_retrying-EndsRightly (suc max_retries) from upto (calls s) 0 s (omega arith)
          (omega arith) (omega arith)
