-- ===== src/Scheduler/Entry.antt =====
-- `backfillEntry` and `BackfillAll`: the run of the registered provider, its audit row and metrics.
pub mod Accounts
pub mod Exit
pub mod Live
use fx_rates.Prelude.{
  length, ℕ, Bool, Text, codes, List, [], ◌∷◌, ◌++◌, Option, none, some, ltb, text_eq,
  if◌then◌else◌,
}
use fx_rates.Clock.{Time, unix}
use fx_rates.Number.{decimal, ℤ, pos, to_int32}
use fx_rates.Float64.{Float64}
use fx_rates.Errors.{Error, Result, ok, err, other, wrapped}
use fx_rates.Database.Runs
use fx_rates.World.{World, Oracles, provider_run, job_run, statement, next_tick}
use fx_rates.Repo.{ProviderInfo, load_all, get_all_last_synced}
use fx_rates.Registry.{Entry, AdapterImpl, ecb, all}
use fx_rates.Scheduler.{Options, BackfillResult, Status, status_text, mode_text}
use fx_rates.Scheduler.Backfill.{backfill_provider, initial_result, zero_running}

-- `RunSummary`
pub record RunSummary : Type 0 where
  pub total_providers : ℕ
  pub completed_providers : ℕ
  pub succeeded_providers : ℕ
  pub empty_providers : ℕ
  pub failed_providers : ℕ
  pub failed_provider_names : List Text
  pub unavailable_providers : ℕ
  pub up_to_date_providers : ℕ
  pub inserted_count : ℕ
  pub skipped_count : ℕ
  pub fetched_count : ℕ

-- `RunSummary{TotalProviders: 1}`
abbrev pub start_summary : RunSummary
start_summary = record {
  total_providers = 1;
  completed_providers = 0;
  succeeded_providers = 0;
  empty_providers = 0;
  failed_providers = 0;
  failed_provider_names = [];
  unavailable_providers = 0;
  up_to_date_providers = 0;
  inserted_count = 0;
  skipped_count = 0;
  fetched_count = 0;
}

-- The `switch` on the status.
abbrev tally_status : Option Status → Text → RunSummary → RunSummary
tally_status none key s = s
tally_status (some Status.success) key s = record s { succeeded_providers = 1 }
tally_status (some Status.empty) key s = record s { empty_providers = 1 }
tally_status (some Status.error) key s = record s {
  failed_providers = 1;
  failed_provider_names = s.failed_provider_names ++ key ∷ [];
}
tally_status (some Status.unavailable) key s = record s { unavailable_providers = 1 }
tally_status (some Status.up_to_date) key s = record s { up_to_date_providers = 1 }
tally_status (some Status.interrupted) key s = s

-- The summary of a run after its one provider.
unfoldable pub summarize : Text → BackfillResult → RunSummary
summarize key result = tally_status result.status key (record start_summary {
  completed_providers = 1;
  fetched_count = result.fetched;
  inserted_count = result.inserted;
  skipped_count = result.skipped;
})

abbrev pub status_of : Option Status → Text
status_of none = []
status_of (some s) = status_text s

abbrev error_pointer : Text → Option Text
error_pointer [] = none
error_pointer (c ∷ msg) = some (c ∷ msg)

-- `coverageStartMap[key]`: a later provider of the key replaces an earlier one, and a missing one
-- gives nil.
abbrev coverage_start_from : Text → Option Time → List ProviderInfo → Option Time
coverage_start_from key found [] = found
coverage_start_from key found (p ∷ ps) =
    coverage_start_from key (if text_eq p.key key then p.coverage_start else found) ps

abbrev pub coverage_start_of : Text → List ProviderInfo → Option Time
coverage_start_of key = coverage_start_from key none

-- `lastSyncedMap[key]`
abbrev last_synced_from : Text → Option Time → List (Text × Option Time) → Option Time
last_synced_from key found [] = found
last_synced_from key found ((k, t) ∷ m) =
    last_synced_from key (if text_eq k key then t else found) m

abbrev pub last_synced_of : Text → List (Text × Option Time) → Option Time
last_synced_of key = last_synced_from key none

-- `BackfillRange()` of the adapters.
abbrev pub backfill_range_of : AdapterImpl → ℤ
backfill_range_of ecb = pos 365

abbrev unix_of : Option Time → ℕ
unix_of none = 0
unix_of (some t) = unix t

module _ {F : Type 0} (o : Oracles F) where
  -- `recordSyncRun`: an error of the statement is only logged.
  unfoldable pub record_sync_run : BackfillResult → Bool → Time → Time → World F → World F
  record_sync_run result daily_sync started_at finished_at w =
      (statement o
        (λ d. (
          ok tt,
          record d {
            runs =
                Runs.record_sync_run
                  (record {
                    id = 0;
                    provider = result.provider;
                    mode = mode_text daily_sync;
                    status = status_of result.status;
                    started_at = started_at;
                    finished_at = finished_at;
                    rows_fetched = to_int32 result.fetched;
                    rows_inserted = to_int32 result.inserted;
                    rows_skipped = to_int32 result.skipped;
                    error_message = error_pointer result.error;
                  })
                  d.runs;
          },
        ))
        w).1

module _ {F : Type 0} where
  -- `emitProviderMetric`
  unfoldable pub emit_provider_metric : BackfillResult → Bool → World F → World F
  emit_provider_metric result daily_sync w = record w {
    metrics =
        w.metrics
        ++ provider_run result.provider (mode_text daily_sync) (status_of result.status)
            result.fetched result.inserted result.skipped (unix_of result.last_synced_after)
          ∷ [];
  }

  -- `emitRunMetric`
  unfoldable pub emit_run_metric : RunSummary → Bool → Text → World F → World F
  emit_run_metric s daily_sync status w = record w {
    metrics =
        w.metrics
        ++ job_run (mode_text daily_sync) status s.total_providers s.succeeded_providers
            s.failed_providers s.unavailable_providers s.up_to_date_providers s.inserted_count
            s.skipped_count
          ∷ [];
  }

  -- The returns after the provider's audit row: the context, a failed provider, success.
  after_provider : Options → Text → RunSummary → Option Error → World F → Option Error × World F
  unfolding emit_run_metric
  after_provider opts key s (some e) w =
      (some e, emit_run_metric s opts.daily_sync (codes "interrupted") w)
  after_provider opts key s none w =
      if ltb 0 s.failed_providers
      then (
        some (other (codes "backfill failed for provider " ++ key)),
        emit_run_metric s opts.daily_sync (codes "failed") w,
      )
      else (none, emit_run_metric s opts.daily_sync (codes "success") w)

module _ {F : Type 0} (o : Oracles F) where
  -- From the result of `BackfillProvider` to the end of `backfillEntry`.
  unfoldable pub after_backfill :
      Options → Text → Time → BackfillResult × World F → Option Error × World F
  unfolding summarize emit_provider_metric record_sync_run after_provider
  after_backfill opts key started (result, w) =
      let s = summarize key result in
      let ended = emit_provider_metric result opts.daily_sync (record w { running = none }) in
      let audited = record_sync_run o result opts.daily_sync started (o.now w.tick) ended in
      after_provider opts key s (o.ctx_err audited.tick) audited

  module _ ⦃fl : Float64 F⦄ where
    run_provider :
        Options
        → Entry
        → List ProviderInfo
        → List (Text × Option Time)
        → World F
        → Option Error × World F
    unfolding after_backfill
    run_provider opts entry providers last_synced w =
        let started = o.now w.tick in
        after_backfill opts entry.key started (
          backfill_provider o entry.key (backfill_range_of entry.adapter)
            (coverage_start_of entry.key providers) (last_synced_of entry.key last_synced)
            opts.daily_sync opts.daily_sync_lookback
            (record (next_tick w) {
              running = some (record zero_running {
                started_at = started;
                stage = codes "starting";
                last_activity = started;
              });
            }))

    with_last_synced :
        Options
        → Entry
        → List ProviderInfo
        → Result (List (Text × Option Time)) × World F
        → Option Error × World F
    unfolding run_provider
    with_last_synced opts entry providers (err e, w) =
        (some (wrapped (codes "loading last synced dates: ") e), w)
    with_last_synced opts entry providers (ok last_synced, w) =
        run_provider opts entry providers last_synced w

    with_providers : Options → Entry → Result (List ProviderInfo) × World F → Option Error × World F
    unfolding with_last_synced
    with_providers opts entry (err e, w) = (some (wrapped (codes "loading providers: ") e), w)
    with_providers opts entry (ok providers, w) =
        with_last_synced opts entry providers (get_all_last_synced o w)

    -- `backfillEntry`
    unfoldable pub backfill_entry : Options → Entry → World F → Option Error × World F
    unfolding with_providers
    backfill_entry opts entry w = elim (o.ctx_err w.tick) [
      | some e ↦
          let now = o.now w.tick in
          (
            some e,
            record_sync_run o
                (record (initial_result entry.key none) { status = some Status.interrupted })
                opts.daily_sync now now
                (emit_run_metric start_summary opts.daily_sync (codes "interrupted") w),
          )
      | none ↦ with_providers opts entry (load_all o w)
    ]

    backfill_entries : Options → List Entry → World F → Option Error × World F
    backfill_entries opts (entry ∷ []) w = backfill_entry opts entry w
    backfill_entries opts entries w = (
      some (
          other (codes "expected exactly 1 registered provider, got " ++ decimal (length entries))),
      w,
    )

    -- `BackfillAll`
    unfoldable pub backfill_all : Options → World F → Option Error × World F
    unfolding backfill_entries
    backfill_all opts = backfill_entries opts all
