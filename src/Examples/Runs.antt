-- ===== src/Examples/Runs.antt =====
-- Runs of the job and of the provider, and batches, on the sample data.
use fx_rates.Scheduler.Batch.Again.{process_batch_again}
use fx_rates.World.{Oracles, World, start_world}
use fx_rates.Provider.{Record, Adapter, FetchEvent}
use fx_rates.Errors.{http_status, Error, Result, ok, err}
use fx_rates.Float64.{Sample, samples}
use fx_rates.Prelude.{
  List, some, none, ℕ, ◌+◌, ◌*◌, ◌≡◌, ◌≤◌, refl, Bool, true, false, Text, codes, [], ◌∷◌, suc,
  Option, ◌==◌, if◌then◌else◌, arith, ◌↔◌, ◌≢◌, length, ◌++◌, ◌||◌, All, ◌<◌,
}
use fx_rates.Clock.{day, zero_time}
use fx_rates.Number.{pos}
use fx_rates.Provider.Fetch.{fetch_each_observed}
use fx_rates.Provider.Fetch.Answers.{Covers, records_of}
use fx_rates.Database.{Rate, Provider, empty_db}
use fx_rates.Database.Rates.{insert_staged}
use fx_rates.Database.Rates.Upsert.{KeysUnique, insert_staged_twice, insert_staged-KeysUnique}
use fx_rates.Repo.{upsert_currency_summary}
use fx_rates.Scheduler.{Options, BackfillResult, Status}
use fx_rates.Scheduler.Start.{
  max_time_ptr, LePtr, max_time_ptr-is_lub, adjust_start_for_mode, adjust_start_floor,
}
use fx_rates.Scheduler.Batch.{
  filter_valid_records, unique_currencies, bulk_upsert_rates, process_batch,
}
use fx_rates.Scheduler.Batch.Store.{IsAtomic, bulk_upsert_rates-IsAtomic}
use fx_rates.Scheduler.Batch.Sound.{IsSound, process_batch-IsSound}
use fx_rates.Scheduler.Backfill.{
  backfill_provider, initial_result, world_surroundings, world_adapter, world_observer,
}
use fx_rates.Scheduler.Backfill.Sound.{IsFaithful, backfill_provider-IsFaithful}
use fx_rates.Scheduler.Backfill.Coverage.{backfill_provider-Covers, full_run_misses_coverage_start}
use fx_rates.Scheduler.Entry.{summarize, after_backfill, backfill_entry}
use fx_rates.Scheduler.Entry.Accounts.{Accounts, backfill_entry-Accounts}
use fx_rates.Examples.{
  today, first_day, usd, xdr, usd_row, oracles, context, world, options, entry, unique,
  first_day_is_dated, first_day_is_past, world-IsSound,
}

-- The run fetches after one retry, stores one new row, drops the excluded one and returns nil.
run_stores_one :
    let (e, w) = backfill_entry oracles options entry world in
    (e ≡ none) × (length w.db.rates ≡ 2) × (length w.db.runs ≡ 1) × (length w.metrics ≡ 2)
unfolding backfill_entry fx_rates.Repo.load_all fx_rates.World.query
    fx_rates.Repo.get_all_last_synced backfill_provider fx_rates.Scheduler.Start.is_up_to_date
    fx_rates.Scheduler.Start.get_start_date fx_rates.Database.Rates.get_all_last_synced
    fx_rates.Prelude.text_eq fx_rates.Scheduler.Backfill.fetch_and_store fetch_each_observed
    adjust_start_for_mode fx_rates.Scheduler.Start.start_from zero_time process_batch
    filter_valid_records bulk_upsert_rates insert_staged
    fx_rates.Database.Currencies.upsert_currency
    fx_rates.Database.Currencies.upsert_currency_coverage fx_rates.Database.Providers.list_providers
    fx_rates.Database.Rates.get_currency_date_range
    fx_rates.Database.Rates.get_last_synced_for_provider fx_rates.Database.Rates.has_key
    fx_rates.Database.Rates.same_key fx_rates.Database.Runs.record_sync_run upsert_currency_summary
    fx_rates.Scheduler.Backfill.classify_fetch_error fx_rates.Scheduler.Backfill.finalize_success
    fx_rates.Scheduler.Batch.is_valid_record unique_currencies after_backfill
    fx_rates.Scheduler.Entry.emit_provider_metric fx_rates.Scheduler.Entry.emit_run_metric
    fx_rates.Scheduler.Entry.record_sync_run summarize max_time_ptr fx_rates.Scheduler.is_excluded
    fx_rates.Sorting.insert_by fx_rates.Sorting.sort_by fx_rates.Sorting.text_lt
    fx_rates.World.statement fx_rates.Provider.is_transient fx_rates.Errors.root
run_stores_one = (refl, refl, refl, refl)

backfill_entry-Accounts_example :
    Accounts entry.key world (backfill_entry oracles options entry world)
backfill_entry-Accounts_example = backfill_entry-Accounts oracles options entry world unique

backfill_provider-IsFaithful_example :
    let (result, w) =
      backfill_provider oracles
        (codes "ECB")
        (pos 365)
        (some first_day)
        (some first_day)
        true
        (pos 3)
        world in
    IsFaithful (codes "ECB") (some first_day) world.db.rates w.db.rates result
backfill_provider-IsFaithful_example =
    backfill_provider-IsFaithful oracles (codes "ECB") (some first_day) (pos 365) (some first_day)
      true (pos 3) world unique

-- With windows of four days the ten days take three rounds.
abbrev full_run : BackfillResult × World Sample
full_run = backfill_provider oracles (codes "ECB") (pos 4) (some first_day) none false (pos 0) world

run_ends_in_success : full_run.0.status ≡ some Status.success
unfolding backfill_provider fx_rates.Scheduler.Start.is_up_to_date
    fx_rates.Scheduler.Start.get_start_date fx_rates.Scheduler.Backfill.fetch_and_store
    fetch_each_observed adjust_start_for_mode fx_rates.Scheduler.Start.start_from zero_time
    fx_rates.Provider.is_transient process_batch filter_valid_records fx_rates.Prelude.text_eq
    bulk_upsert_rates insert_staged upsert_currency_summary
    fx_rates.Database.Rates.get_currency_date_range fx_rates.Scheduler.Backfill.finalize_success
run_ends_in_success = refl

backfill_provider-Covers_example :
    Covers (pos 4) today first_day full_run.1.requests
    × (full_run.0.fetched ≡ records_of full_run.1.requests)
unfolding adjust_start_for_mode fx_rates.Scheduler.Start.start_from
    fx_rates.Scheduler.Start.get_start_date zero_time
backfill_provider-Covers_example =
    backfill_provider-Covers oracles (codes "ECB") (pos 4) (some first_day) none false (pos 0) world
      context refl refl run_ends_in_success

full_run_misses_coverage_start_example :
    All (λ request. first_day + day ≤ request.0) full_run.1.requests
full_run_misses_coverage_start_example =
    full_run_misses_coverage_start oracles (codes "ECB") (pos 4) first_day (pos 0) world context
      refl first_day_is_dated first_day_is_past

process_batch-IsSound_example :
    IsSound
      (codes "ECB")
      world.db.rates
      (process_batch oracles (codes "ECB") (usd ∷ xdr ∷ []) world).1
process_batch-IsSound_example =
    process_batch-IsSound oracles (codes "ECB") world.db.rates (usd ∷ xdr ∷ []) world world-IsSound

bulk_upsert_rates-IsAtomic_example :
    IsAtomic (usd ∷ usd ∷ []) world (bulk_upsert_rates oracles (usd ∷ usd ∷ []) world)
bulk_upsert_rates-IsAtomic_example = bulk_upsert_rates-IsAtomic oracles (usd ∷ usd ∷ []) world

insert_staged_twice_example :
    let after = (insert_staged (usd_row ∷ usd_row ∷ []) []).1 in
    insert_staged (usd_row ∷ usd_row ∷ []) after ≡ (0, after)
insert_staged_twice_example = insert_staged_twice (usd_row ∷ usd_row ∷ []) []

insert_staged-KeysUnique_example :
    let (n, after) = insert_staged (usd_row ∷ usd_row ∷ []) world.db.rates in
    KeysUnique after
    × (added : List (Rate Sample)) × (after ≡ world.db.rates ++ added)
    × (length added ≡ n)
insert_staged-KeysUnique_example =
    insert_staged-KeysUnique (usd_row ∷ usd_row ∷ []) world.db.rates unique

-- A batch that was stored, and every statement failing afterwards.
abbrev failing : Oracles Sample
failing = record oracles { fault = λ n. some (http_status 503 []) }

abbrev batch : List (Record Sample)
batch = usd ∷ xdr ∷ []

stores_batch : (process_batch oracles (codes "ECB") batch world).0 ≡ none
unfolding process_batch filter_valid_records fx_rates.Prelude.text_eq bulk_upsert_rates
    insert_staged
stores_batch = refl

process_batch_again_example :
    let stored = (process_batch oracles (codes "ECB") batch world).1 in
    let again = (process_batch failing (codes "ECB") batch stored).1 in
    (again.db.rates ≡ stored.db.rates) × (again.progress.inserted ≡ stored.progress.inserted)
process_batch_again_example =
    process_batch_again oracles failing (codes "ECB") batch world stores_batch
