-- ===== src/Scheduler/Live.antt =====
-- A batch and the environment of a run where the context lives, no statement fails and the upstream
-- recovers within the retries.
use fx_rates.Prelude.{ℕ, ◌+◌, ◌*◌, ◌≤◌, ◌≡◌, refl, true, false, List, none, length, All, Text}
use fx_rates.Clock.{Time}
use fx_rates.Number.{ℤ}
use fx_rates.Float64.{Float64}
use fx_rates.Errors.{Error, ok, err}
use fx_rates.Provider.{Record, is_transient}
use fx_rates.Provider.Fetch.Live.{IsLive}
use fx_rates.World.{Oracles}
use fx_rates.Scheduler.Batch.{process_batch}
use fx_rates.Scheduler.Batch.Served.{Fits, process_batch-none}
use fx_rates.Scheduler.Backfill.{world_surroundings, world_adapter, world_observer}

-- The context is never done, no statement fails, every error of the upstream is transient and it
-- answers one of the first request for a window and its five retries, which come every second tick;
-- the records that it answers fit the columns.
pub record IsHealthy {F : Type 0} (o : Oracles F) : Type 0 where
  pub alive : (n : ℕ) → o.ctx_err n ≡ none
  pub waits : (n : ℕ) → o.ctx_wins n ≡ false
  pub served : (n : ℕ) → o.fault n ≡ none
  pub recovers :
      (n : ℕ) (from upto : Time)
      → (i : ℕ) × (records : List (Record F)) × (i ≤ 5)
        × (o.upstream (n + 2 * i) from upto ≡ ok records)
  pub transient :
      (n : ℕ) (from upto : Time) (e : Error)
      → o.upstream n from upto ≡ err e
      → is_transient e ≡ true
  pub fitting :
      (n : ℕ) (from upto : Time) (records : List (Record F))
      → o.upstream n from upto ≡ ok records
      → All Fits records

module _ {F : Type 0} (o : Oracles F) (h : IsHealthy o) where
  pub world-IsLive :
      ⦃fl : Float64 F⦄ (range : ℤ) (key : Text)
      → length key ≤ 10
      → IsLive
          (world_surroundings o)
          (world_adapter o range)
          (world_observer o)
          (process_batch o key)
  world-IsLive range key k = record {
    time = λ w. w.tick;
    answer = o.upstream;
    time-observe = λ e w. refl;
    time-fetch = λ from upto w. refl;
    time-backoff = λ n w. refl;
    answers = λ from upto w. refl;
    alive = λ w. h.alive w.tick;
    waits = λ n w. h.waits w.tick;
    recovers = h.recovers;
    transient = h.transient;
    stores = λ n from upto records w e.
        process_batch-none o h.served key records w k (h.fitting n from upto records e);
  }
