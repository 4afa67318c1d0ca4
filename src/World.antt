-- ===== src/World.antt =====
-- The state of one run of the job and everything outside the program that acts on it. Each
-- interaction with the outside takes one tick, and what the outside does at a tick is an argument:
-- what the clock shows, whether the context is done, whether a statement fails, what the upstream
-- answers. A theorem for all of these holds for every interleaving of failures.
pub mod Frame
use fx_rates.Prelude.{ℕ, ◌+◌, Bool, Text, List, Option, none, some, []}
use fx_rates.Clock.{Time}
use fx_rates.Errors.{Error, Result, ok, err}
use fx_rates.Provider.{Record, FetchEvent}
use fx_rates.Database.{Db}

pub record Oracles (F : Type 0) : Type 0 where
  -- `time.Now().UTC()`
  pub now : ℕ → Time
  -- `ctx.Err()`
  pub ctx_err : ℕ → Option Error
  -- whether the `select` of a backoff finds the context done before its timer
  pub ctx_wins : ℕ → Bool
  -- the error of a statement, if it fails
  pub fault : ℕ → Option Error
  -- what the adapter's `Fetch` returns
  pub upstream : ℕ → Time → Time → Result (List (Record F))

-- `backfillProgress`
pub record Progress : Type 0 where
  pub fetched : ℕ
  pub inserted : ℕ
  pub skipped : ℕ
  pub max_seen_date : Option Time

abbrev pub no_progress : Progress
no_progress = record { fetched = 0; inserted = 0; skipped = 0; max_seen_date = none }

-- `runningProvider`; the stage is a text of the event.
pub record RunningProvider : Type 0 where
  pub started_at : Time
  pub stage : Text
  pub fetch_after : Time
  pub upto : Time
  pub retry : ℕ
  pub last_error : Text
  pub last_activity : Time

-- The events of `emitProviderMetric` and `emitRunMetric`, without the durations.
pub data Metric : Type 0 where
  provider_run :
      (provider mode status : Text) (fetched inserted skipped last_synced_unix : ℕ) → Metric
  job_run :
      (mode status : Text) (total succeeded failed unavailable up_to_date inserted skipped : ℕ)
      → Metric

-- `events` collects what the fetch observer was told and `requests` each request that the adapter
-- answered, with its first day, its last day and the number of records; the program forgets both.
pub record World (F : Type 0) : Type 0 where
  pub tick : ℕ
  pub db : Db F
  pub progress : Progress
  pub running : Option RunningProvider
  pub metrics : List Metric
  pub events : List FetchEvent
  pub requests : List (Time × Time × ℕ)

abbrev pub start_world : {F : Type 0} → Db F → World F
start_world d = record {
  tick = 0;
  db = d;
  progress = no_progress;
  running = none;
  metrics = [];
  events = [];
  requests = [];
}

abbrev pub Action : Type 0 → Type 0 → Type 0
Action F A = World F → Result A × World F

module _ {F : Type 0} where
  abbrev pub pure : {A : Type 0} → A → Action F A
  pure a w = (ok a, w)

  abbrev pub raise : {A : Type 0} → Error → Action F A
  raise e w = (err e, w)

  abbrev pub continue : {A B : Type 0} → Result A → (A → Action F B) → Action F B
  continue (ok a) f w = f a w
  continue (err e) f w = (err e, w)

  infixl 5 ◌>>=◌ ◌>>◌
  abbrev pub ◌>>=◌ : {A B : Type 0} → Action F A → (A → Action F B) → Action F B
  ◌>>=◌ m f w = let (r, w') = m w in continue r f w'

  abbrev pub ◌>>◌ : {A B : Type 0} → Action F A → Action F B → Action F B
  m >> k = m >>= λ _. k

  abbrev pub next_tick : World F → World F
  next_tick w = record w { tick = w.tick + 1 }

  module _ (o : Oracles F) where
    abbrev run_statement :
        {A : Type 0} → Option Error → (Db F → Result A × Db F) → World F → Result A × World F
    run_statement (some e) f w = (err e, w)
    run_statement none f w = let (r, d) = f w.db in (r, record w { db = d })

    -- One statement, which fails with no effect if the database says so.
    unfoldable pub statement : {A : Type 0} → (Db F → Result A × Db F) → Action F A
    statement f w = run_statement (o.fault w.tick) f (next_tick w)

    -- A statement that only reads.
    unfoldable pub query : {A : Type 0} → (Db F → A) → Action F A
    unfolding statement
    query f = statement (λ d. (ok (f d), d))
