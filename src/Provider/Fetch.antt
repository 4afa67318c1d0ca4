-- ===== src/Provider/Fetch.antt =====
-- `FetchEachObserved` of internal/provider/adapter.go. The context, the clock, the timer and the
-- callbacks act on a state `S` of the environment.
pub mod Retry
pub mod Total
pub mod Answers
pub mod Windows
pub mod Invariant
pub mod Live
use fx_rates.Prelude.{
  ℕ, zero, suc, ◌+◌, ◌-◌, ◌/◌, Bool, not, ◌&&◌, ◌||◌, List, [], ◌∷◌, Text, Option, none, some, ltb,
  if◌then◌else◌,
}
use fx_rates.Clock.{Time, day, zero_time, is_zero, before, add_days, truncate_day}
use fx_rates.Number.{ℤ, pos, negsuc}
use fx_rates.Errors.{Error, message, Result, ok, err}
use fx_rates.Provider.{
  Record, Adapter, FetchEvent, Stage, fetching, fetched, failed, retrying, processed, is_transient,
}

-- What the loop asks of its surroundings. `backoff n` waits for the timer of retry `n` or for the
-- context, and says whether it was the context that was done.
pub record Surroundings (S : Type 0) : Type 0 where
  pub now : S → Time
  pub ctx_err : S → Option Error
  pub backoff : ℕ → S → Bool × S

-- `emitFetchEvent` is given these; a nil observer is one that leaves the state alone.
abbrev pub event : Stage → Time → Time → ℕ → Text → FetchEvent
event st from until n msg = record {
  stage = st;
  fetch_after = from;
  upto = until;
  retry = n;
  last_error = msg;
}

abbrev pub max_retries : ℕ
max_retries = 5

-- `fetchAfter` of one round.
unfoldable pub fetch_start : Time → Time
fetch_start cursor = if is_zero cursor then cursor else add_days cursor 1

-- `upto` of one round: the zero time leaves the end to the adapter.
unfoldable pub fetch_upto : ℤ → Time → Time → Time
fetch_upto (negsuc n) today from = zero_time
fetch_upto (pos zero) today from = zero_time
fetch_upto (pos (suc n)) today from =
    if is_zero from
    then zero_time
    else if before (add_days from n) today
    then add_days from n
    else zero_time

-- How the rounds of the retry loop end: with records and the number of retries, or by a `return`.
pub data Fetched (F : Type 0) : Type 0 where
  got : List (Record F) → ℕ → Fetched F
  stopped : Option Error → Fetched F
  no_fuel : Fetched F

-- `returned none` is `return nil`. `out_of_fuel` belongs to the model only.
pub data Outcome : Type 0 where
  returned : Option Error → Outcome
  out_of_fuel : Outcome

module _ {F S : Type 0} (u : Surroundings S) (a : Adapter F S) (observe : FetchEvent → S → S) where
  -- The branches of the retry loop on an error; `again` is its next round.
  on_fetch_error : (ℕ → S → Fetched F × S) → Time → Time → ℕ → Error → S → Fetched F × S
  on_fetch_error again from upto retries e s =
      if not (is_transient e)
      then (stopped (some e), observe (event failed from upto retries (message e)) s)
      else if ltb max_retries (retries + 1)
      then (stopped (some e), observe (event failed from upto (retries + 1) (message e)) s)
      else let (done, s') =
          u.backoff (retries + 1)
            (observe (event retrying from upto (retries + 1) (message e)) s) in
        if done then (stopped (u.ctx_err s'), s') else again (retries + 1) s'

  on_fetch :
      (ℕ → S → Fetched F × S) → Time → Time → ℕ → Result (List (Record F)) × S → Fetched F × S
  unfolding on_fetch_error
  on_fetch again from upto retries (ok records, s) =
      (got records retries, observe (event fetched from upto retries []) s)
  on_fetch again from upto retries (err e, s) = on_fetch_error again from upto retries e s

  -- The inner `for`.
  pub fetch_retrying : ℕ → Time → Time → ℕ → S → Fetched F × S
  unfolding on_fetch
  fetch_retrying zero from upto retries s = (no_fuel, s)
  fetch_retrying (suc fuel) from upto retries s =
      on_fetch (fetch_retrying fuel from upto) from upto retries (a.fetch from upto s)

-- The rounds that the outer loop can need: one for each day from the cursor to today, and two more.
abbrev pub rounds_fuel : Time → Time → ℕ
rounds_fuel today cursor = (today - cursor) / day + 2

module _ {F S : Type 0} (u : Surroundings S) (a : Adapter F S) (observe : FetchEvent → S → S)
    (fn : List (Record F) → S → Option Error × S) where
  -- `if len(records) > 0 { fn(records) }`
  deliver : List (Record F) → S → Option Error × S
  deliver [] s = (none, s)
  deliver (r ∷ records) s = fn (r ∷ records) s

  -- From the "processed" event to the end of the round; `again` is the next round.
  after_delivery :
      (Time → S → Outcome × S) → Time → Time → Time → ℕ → Option Error × S → Outcome × S
  after_delivery again today from upto retries (some e, s) = (returned (some e), s)
  after_delivery again today from upto retries (none, s) =
      let s' = observe (event processed from upto retries []) s in
      if is_zero upto || not (before upto today) then (returned none, s') else again upto s'

  after_fetch : (Time → S → Outcome × S) → Time → Time → Time → Fetched F × S → Outcome × S
  unfolding deliver after_delivery
  after_fetch again today from upto (got records retries, s) =
      after_delivery again today from upto retries (deliver records s)
  after_fetch again today from upto (stopped e, s) = (returned e, s)
  after_fetch again today from upto (no_fuel, s) = (out_of_fuel, s)

  -- One round, once the context has been found alive.
  fetch_window : (Time → S → Outcome × S) → Time → Time → Time → S → Outcome × S
  unfolding after_fetch fetch_retrying
  fetch_window again today from upto s = after_fetch again today from upto (
      fetch_retrying u a observe (suc max_retries) from upto 0
        (observe (event fetching from upto 0 []) s))

  -- The outer `for`.
  pub rounds : ℕ → Time → Time → S → Outcome × S
  unfolding fetch_window
  rounds zero today cursor s = (out_of_fuel, s)
  rounds (suc fuel) today cursor s = elim (u.ctx_err s) [
    | some e ↦ (returned (some e), s)
    | none ↦
        let from = fetch_start cursor in
        fetch_window (rounds fuel today) today from (fetch_upto a.backfill_range today from) s
  ]

  -- `FetchEachObserved`
  unfoldable pub fetch_each_observed : Time → S → Outcome × S
  unfolding rounds fetch_start fetch_upto
  fetch_each_observed after s =
      let today = truncate_day (u.now s) in
      if not (is_zero after) && not (before after today)
      then (returned none, s)
      else rounds (rounds_fuel today after) today after s
