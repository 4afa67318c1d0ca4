-- ===== src/Scheduler/Entry/Live.antt =====
-- A whole run of the job in a healthy environment.
use fx_rates.Prelude.{
  codes, ◌+◌, ◌≤◌, ◌≡◌, ◌≢◌, List, Option, none, some, length, arith, Text, Bool, Bool-cases, inl,
  inr,
}
use fx_rates.Clock.{Time, truncate_day}
use fx_rates.Number.{ℤ}
use fx_rates.Float64.{Float64}
use fx_rates.Errors.{Result, ok, err}
use fx_rates.Provider.Fetch.{Outcome, returned, out_of_fuel}
use fx_rates.Provider.Fetch.Live.{fetch_each-returns_nil}
use fx_rates.World.{next_tick, query, World, Oracles}
use fx_rates.Repo.{ProviderInfo, load_all, get_all_last_synced}
use fx_rates.Registry.{Entry, all}
use fx_rates.Scheduler.{Options, BackfillResult, Status}
use fx_rates.Scheduler.Start.{get_start_date, is_up_to_date, start_from, adjust_start_for_mode}
use fx_rates.Scheduler.Batch.{process_batch}
use fx_rates.Scheduler.Backfill.{
  zero_running, backfill_provider, fetch_and_store, finish, finalize_success, initial_result,
  world_surroundings, world_adapter, world_observer,
}
use fx_rates.Scheduler.Entry.{
  backfill_range_of, coverage_start_of, last_synced_of, after_backfill, backfill_entry,
  backfill_all, run_provider, with_last_synced, with_providers, backfill_entries,
}
use fx_rates.Scheduler.Entry.Exit.{after_backfill-exit}
use fx_rates.Scheduler.Backfill.Sound.{IsTerminal}
use fx_rates.Scheduler.Live.{IsHealthy, world-IsLive}

-- The provider ended with rates, with none, or had nothing to fetch.
abbrev pub IsFine : Option Status → Type 0
IsFine (some Status.success) = Unit
IsFine (some Status.empty) = Unit
IsFine (some Status.up_to_date) = Unit
IsFine _ = ⊥

IsFine-IsTerminal : (s : Option Status) → IsFine s → IsTerminal s
IsFine-IsTerminal s h = ground arith

IsFine-no_error : (s : Option Status) → IsFine s → s ≢ some Status.error
IsFine-no_error s h = ground arith

abbrev IsOk : {A : Type 0} → Result A → Type 0
IsOk (ok a) = Unit
IsOk (err e) = ⊥

module _ {F : Type 0} where
  finish-IsFine :
      (result : BackfillResult) (r : Outcome × World F)
      → r.0 ≡ returned none
      → IsFine (finish result r).0.status
  unfolding finalize_success
  finish-IsFine result (returned none, w) h = ground arith
  finish-IsFine result (returned (some e), w) h = cc
  finish-IsFine result (out_of_fuel, w) h = cc

module _ {F : Type 0} ⦃fl : Float64 F⦄ (o : Oracles F) (h : IsHealthy o) where
  fetch_and_store-returns_nil :
      (range : ℤ) (key : Text) (start : Time) (w : World F)
      → length key ≤ 10
      → (fetch_and_store o range key start w).0 ≡ returned none
  unfolding fetch_and_store
  fetch_and_store-returns_nil range key start w k =
      fetch_each-returns_nil (world_surroundings o) (world_adapter o range) (world_observer o)
        (process_batch o key) (world-IsLive o h range key k) start w

  backfill_provider-IsFine :
      (key : Text) (range : ℤ) (coverage_start last_synced : Option Time) (daily_sync : Bool)
      (lookback : ℤ) (w : World F)
      → length key ≤ 10
      → IsFine
          (backfill_provider o key range coverage_start last_synced daily_sync lookback w).0.status
  unfolding backfill_provider
  backfill_provider-IsFine key range coverage_start last_synced daily_sync lookback w k =
      let after = get_start_date coverage_start last_synced in
      let today = truncate_day (o.now w.tick) in
      let start = (adjust_start_for_mode (start_from after) today daily_sync lookback).0 in
      elim (Bool-cases (is_up_to_date after today)) [
        | inl current ↦ rw current tt
        | inr behind ↦ rw behind (
            finish-IsFine (initial_result key last_synced) _
              (fetch_and_store-returns_nil range key start _ k))
      ]

  after_backfill-nil :
      (opts : Options) (key : Text) (started : Time) (r : BackfillResult × World F)
      → IsFine r.0.status
      → (after_backfill o opts key started r).0 ≡ none
  after_backfill-nil opts key started (result, w) fine =
      (after_backfill-exit o opts key started result w (IsFine-IsTerminal result.status fine)).0.1
        (h.alive (w.tick + 1), IsFine-no_error result.status fine)

  run_provider-nil :
      (opts : Options) (entry : Entry) (providers : List ProviderInfo)
      (last_synced : List (Text × Option Time)) (w : World F)
      → length entry.key ≤ 10
      → (run_provider o opts entry providers last_synced w).0 ≡ none
  unfolding run_provider
  run_provider-nil opts entry providers last_synced w k =
      let begun = record (next_tick w) {
        running = some (record zero_running {
          started_at = o.now w.tick;
          stage = codes "starting";
          last_activity = o.now w.tick;
        });
      } in
      let range = backfill_range_of entry.adapter in
      let first = coverage_start_of entry.key providers in
      let last = last_synced_of entry.key last_synced in
      after_backfill-nil opts entry.key (o.now w.tick)
        (backfill_provider o entry.key range first last opts.daily_sync opts.daily_sync_lookback
          begun)
        (backfill_provider-IsFine entry.key range first last opts.daily_sync
          opts.daily_sync_lookback begun k)

  with_last_synced-nil :
      (opts : Options) (entry : Entry) (providers : List ProviderInfo)
      (r : Result (List (Text × Option Time)) × World F)
      → length entry.key ≤ 10
      → IsOk r.0
      → (with_last_synced o opts entry providers r).0 ≡ none
  unfolding with_last_synced
  with_last_synced-nil opts entry providers (err e, w) k h = absurd h
  with_last_synced-nil opts entry providers (ok m, w) k h =
      run_provider-nil opts entry providers m w k

  with_providers-nil :
      (opts : Options) (entry : Entry) (r : Result (List ProviderInfo) × World F)
      → length entry.key ≤ 10
      → IsOk r.0
      → (with_providers o opts entry r).0 ≡ none
  unfolding with_providers get_all_last_synced query
  with_providers-nil opts entry (err e, w) k ready = absurd ready
  with_providers-nil opts entry (ok providers, w) k ready =
      with_last_synced-nil opts entry providers _ k (ground (arith, h.served w.tick))

  backfill_entry-nil :
      (opts : Options) (entry : Entry) (w : World F)
      → length entry.key ≤ 10
      → (backfill_entry o opts entry w).0 ≡ none
  unfolding backfill_entry load_all query
  backfill_entry-nil opts entry w k =
      rw (h.alive w.tick, backfill_entry)
        (with_providers-nil opts entry _ k (ground (arith, h.served w.tick)))

  -- Where the context is never done, no statement fails, the errors of the upstream are transient and
  -- end within the retries, and its records fit the columns, a run of the job returns nil.
  pub backfill_all-returns_nil : (opts : Options) (w : World F) → (backfill_all o opts w).0 ≡ none
  unfolding backfill_all backfill_entries all
  backfill_all-returns_nil opts w = backfill_entry-nil opts _ w (omega arith)
