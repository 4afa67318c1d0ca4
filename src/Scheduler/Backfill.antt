-- ===== src/Scheduler/Backfill.antt =====
-- `BackfillProvider`: one provider, from the choice of the start to the terminal result.
pub mod Sound
pub mod Coverage
use fx_rates.Prelude.{
  ℕ, List, length, Bool, true, false, ◌&&◌, Text, codes, [], ◌∷◌, ◌++◌, Option, none, some, ◌==◌,
  if◌then◌else◌,
}
use fx_rates.Clock.{Time, zero_time, truncate_day}
use fx_rates.Number.{ℤ}
use fx_rates.Float64.{Float64}
use fx_rates.Errors.{Error, Result, ok, err, unavailable, root, message}
use fx_rates.Provider.{
  Record, Adapter, FetchEvent, Stage, fetching, fetched, failed, retrying, processed,
}
use fx_rates.Provider.Fetch.{Surroundings, Outcome, returned, out_of_fuel, fetch_each_observed}
use fx_rates.World.{World, Oracles, Progress, RunningProvider, no_progress, next_tick}
use fx_rates.Scheduler.{BackfillResult, Status}
use fx_rates.Scheduler.Start.{
  clone_time_ptr, max_time_ptr, get_start_date, is_up_to_date, start_from, adjust_start_for_mode,
}
use fx_rates.Scheduler.Batch.{process_batch}

-- `isUnavailable`: the message of the `Unavailable` in the chain of errors.
abbrev unavailable_msg : Error → Option Text
unavailable_msg (unavailable msg) = some msg
unavailable_msg _ = none

unfoldable pub is_unavailable : Error → Option Text
unfolding root
is_unavailable e = unavailable_msg (root e)

-- `classifyFetchError`
unfoldable pub classify_fetch_error : Error → BackfillResult → Progress → BackfillResult
classify_fetch_error e result progress =
    let counted = record result {
      fetched = progress.fetched;
      inserted = progress.inserted;
      skipped = progress.skipped;
    } in
    elim (is_unavailable e) [
      | some msg ↦ record counted {
        status = some Status.unavailable;
        unavailable = true;
        error = msg;
      }
      | none ↦ record counted { status = some Status.error; error = message e }
    ]

abbrev is_nil : Option Time → Bool
is_nil none = true
is_nil (some t) = false

-- `finalizeSuccess`
unfoldable pub finalize_success : BackfillResult → Progress → BackfillResult
finalize_success result progress =
    let counted = record result {
      fetched = progress.fetched;
      inserted = progress.inserted;
      skipped = progress.skipped;
      last_synced_after = elim progress.max_seen_date [
        | none ↦ result.last_synced_after
        | some seen ↦ max_time_ptr result.last_synced_after (some seen)
      ];
    } in
    if (progress.fetched == 0) && (progress.inserted == 0) && is_nil result.last_synced_before
    then record counted { status = some Status.empty }
    else record counted { status = some Status.success }

-- `event.Stage`
abbrev pub stage_text : Stage → Text
stage_text fetching = codes "fetching"
stage_text fetched = codes "fetched"
stage_text failed = codes "failed"
stage_text retrying = codes "retrying"
stage_text processed = codes "processed"

abbrev pub zero_running : RunningProvider
zero_running = record {
  started_at = zero_time;
  stage = [];
  fetch_after = zero_time;
  upto = zero_time;
  retry = 0;
  last_error = [];
  last_activity = zero_time;
}

-- The result that `BackfillProvider` starts from.
abbrev pub initial_result : Text → Option Time → BackfillResult
initial_result key last_synced = record {
  provider = key;
  fetched = 0;
  inserted = 0;
  skipped = 0;
  status = none;
  error = [];
  unavailable = false;
  last_synced_before = clone_time_ptr last_synced;
  last_synced_after = clone_time_ptr last_synced;
}

abbrev pub finish : {F : Type 0} → BackfillResult → Outcome × World F → BackfillResult × World F
finish result (returned none, w) = (finalize_success result w.progress, w)
finish result (returned (some e), w) = (classify_fetch_error e result w.progress, w)
finish result (out_of_fuel, w) = (result, w)

-- What an answer adds to the requests that were answered.
abbrev pub answered : {F : Type 0} → Time → Time → Result (List (Record F)) → List (Time × Time × ℕ)
answered from upto (ok records) = (from, upto, length records) ∷ []
answered from upto (err e) = []

module _ {F : Type 0} (o : Oracles F) where
  abbrev pub world_surroundings : Surroundings (World F)
  world_surroundings = record {
    now = λ w. o.now w.tick;
    ctx_err = λ w. o.ctx_err w.tick;
    backoff = λ n w. (o.ctx_wins w.tick, next_tick w);
  }

  abbrev pub world_adapter : ℤ → Adapter F (World F)
  world_adapter range = record {
    fetch = λ from upto w. (
      o.upstream w.tick from upto,
      record (next_tick w) {
        requests = w.requests ++ answered from upto (o.upstream w.tick from upto);
      },
    );
    backfill_range = range;
  }

  -- The observer that `backfillEntry` hands in: it overwrites the entry of the one running
  -- provider, or a zero entry where there is none.
  abbrev pub world_observer : FetchEvent → World F → World F
  world_observer event w =
      let state : RunningProvider = elim w.running [ none ↦ zero_running | some r ↦ r ] in
      record w {
        running = some (record state {
          stage = stage_text event.stage;
          fetch_after = event.fetch_after;
          upto = event.upto;
          retry = event.retry;
          last_error = event.last_error;
          last_activity = o.now w.tick;
        });
        events = w.events ++ event ∷ [];
      }

  module _ ⦃fl : Float64 F⦄ where
    -- The fetch of a provider that is behind: `FetchEachObserved` with `processBatch`.
    unfoldable pub fetch_and_store : ℤ → Text → Time → World F → Outcome × World F
    fetch_and_store range key start =
        fetch_each_observed world_surroundings (world_adapter range) world_observer
          (process_batch o key) start

    -- `BackfillProvider`. Time passes between its own reading of the clock and that of
    -- `FetchEachObserved`.
    unfoldable pub backfill_provider :
        Text → ℤ → Option Time → Option Time → Bool → ℤ → World F → BackfillResult × World F
    backfill_provider key range coverage_start last_synced daily_sync lookback_days w =
        let result = initial_result key last_synced in
        let after = get_start_date coverage_start last_synced in
        let today = truncate_day (o.now w.tick) in
        if is_up_to_date after today
        then (record result { status = some Status.up_to_date }, next_tick w)
        else let start =
            (adjust_start_for_mode (start_from after) today daily_sync lookback_days).0 in
          finish result
            (fetch_and_store range key start (record (next_tick w) { progress = no_progress }))
