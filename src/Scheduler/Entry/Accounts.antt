-- ===== src/Scheduler/Entry/Accounts.antt =====
-- A whole run of `backfillEntry`: the rates it adds and the metric of the job.
use fx_rates.Prelude.{
  ◌≢◌, ℕ, ◌≡◌, refl, sym, ap, ◌∙◌, ◌⊎◌, inl, inr, Bool, Text, codes, List, [], ◌∷◌, ◌++◌, Option,
  none, some, arith, length, append-nil, All, Bool-cases, Option-cases, ltb,
}
use mathlib.Core.Path.{subst}
use fx_rates.Clock.{Time}
use fx_rates.Float64.{Float64}
use fx_rates.Errors.{Error, Result, ok, err}
use fx_rates.Database.{Rate}
use fx_rates.Database.Rates.Upsert.{KeysUnique}
use fx_rates.World.{World, Oracles, Metric, job_run, next_tick}
use fx_rates.World.Frame.{Keeps, Keeps-bind, Keeps-statement, Keeps-query}
use fx_rates.Repo.{ProviderInfo, load_all, get_all_last_synced}
use fx_rates.Registry.{Entry}
use fx_rates.Scheduler.{Options, BackfillResult, Status}
use fx_rates.Scheduler.Batch.Sound.{IsStorable}
use fx_rates.Scheduler.Backfill.{backfill_provider, zero_running, initial_result}
use fx_rates.Scheduler.Backfill.Sound.{IsFaithful, backfill_provider-IsFaithful}
use fx_rates.Scheduler.Entry.{
  RunSummary, start_summary, summarize, record_sync_run, emit_provider_metric, emit_run_metric,
  after_provider, after_backfill, run_provider, with_last_synced, with_providers, backfill_entry,
  coverage_start_of, last_synced_of, backfill_range_of,
}

-- The last metric is that of the job, and it reports `n` inserted rows.
abbrev pub ReportsInserted : ℕ → List Metric → Type 0
ReportsInserted n metrics =
    (before : List Metric) × (mode status : Text) × (total succeeded failed unavailable up_to_date
      skipped : ℕ)
    × (metrics
        ≡ before
          ++ job_run mode status total succeeded failed unavailable up_to_date n skipped ∷ [])

module _ {F : Type 0} where
  -- The rates and the metrics.
  abbrev outcome_view : World F → List (Rate F) × List Metric
  outcome_view w = (w.db.rates, w.metrics)

inserted-summarize :
    (key : Text) (r : BackfillResult) → (summarize key r).inserted_count ≡ r.inserted
unfolding summarize
inserted-summarize key r = ground arith

-- What a step keeps of the rates and adds to the metrics.
module _ {F : Type 0} where
  after_provider-Reports :
      (opts : Options) (key : Text) (s : RunSummary) (e : Option Error) (w : World F)
      → let (r, w') = after_provider opts key s e w in
        (w'.db ≡ w.db) × ReportsInserted s.inserted_count w'.metrics
  unfolding after_provider emit_run_metric
  after_provider-Reports opts key s (some e) w =
      (refl, (w.metrics, _, codes "interrupted", _, _, _, _, _, _, refl))
  after_provider-Reports opts key s none w = elim (Bool-cases (ltb 0 s.failed_providers)) [
    | inl failing ↦ rw failing (refl, (w.metrics, _, codes "failed", _, _, _, _, _, _, refl))
    | inr fine ↦ rw fine (refl, (w.metrics, _, codes "success", _, _, _, _, _, _, refl))
  ]

  record_sync_run-keeps :
      (o : Oracles F) (r : BackfillResult) (daily_sync : Bool) (started finished : Time)
      (w : World F)
      → outcome_view (record_sync_run o r daily_sync started finished w) ≡ outcome_view w
  unfolding record_sync_run
  record_sync_run-keeps o r daily_sync started finished =
      Keeps-statement outcome_view o _ (λ w. refl) (λ w. refl)

  load_all-Keeps : (o : Oracles F) → Keeps outcome_view (load_all o)
  unfolding load_all
  load_all-Keeps o =
      Keeps-bind outcome_view _ _ (Keeps-query outcome_view o _ (λ w. refl)) (λ a w. refl)

  get_all_last_synced-Keeps : (o : Oracles F) → Keeps outcome_view (get_all_last_synced o)
  unfolding get_all_last_synced
  get_all_last_synced-Keeps o =
      Keeps-bind outcome_view _ _ (Keeps-query outcome_view o _ (λ w. refl)) (λ a w. refl)

module _ {F : Type 0} ⦃fl : Float64 F⦄ where
  -- The rates keep their key and have grown by fit rows; the job metric reports how many, or there
  -- is no metric and no growth, and the run failed.
  abbrev pub Accounts : Text → World F → Option Error × World F → Type 0
  Accounts key w (e, w') =
      (added : List (Rate F)) × (w'.db.rates ≡ w.db.rates ++ added)
      × KeysUnique w'.db.rates
      × All (IsStorable key) added
      × (ReportsInserted (length added) w'.metrics
          ⊎ ((added ≡ []) × (w'.metrics ≡ w.metrics) × (e ≢ none)))

  module _ (o : Oracles F) (opts : Options) where
    after_backfill-Accounts :
        (key : Text) (last_synced : Option Time) (started : Time) (w : World F)
        (r : BackfillResult × World F)
        → IsFaithful key last_synced w.db.rates r.1.db.rates r.0
        → Accounts key w (after_backfill o opts key started r)
    unfolding after_backfill
    after_backfill-Accounts key last_synced started w (result, v) f =
        let s = summarize key result in
        let ended = emit_provider_metric result opts.daily_sync (record v { running = none }) in
        let audited = record_sync_run o result opts.daily_sync started (o.now v.tick) ended in
        let ended_all = (after_provider opts key s (o.ctx_err audited.tick) audited).1 in
        let (same, reports) = after_provider-Reports opts key s (o.ctx_err audited.tick) audited in
        let (unique, added, grown, count, fit) = f.grown in
        let rates =
          ap (λ d. d.rates) same
          ∙ ap (λ (x : List (Rate F) × List Metric). x.0)
              (record_sync_run-keeps o result opts.daily_sync started (o.now v.tick) ended) in
        (
          added,
          rates ∙ grown,
          rw rates unique,
          fit,
          inl (
              subst (λ n. ReportsInserted n ended_all.metrics)
                (inserted-summarize key result ∙ sym count) reports),
        )

    -- A run that has failed before its provider: nothing has changed but the clock.
    failed-Accounts :
        (key : Text) (w w' : World F) (e : Error)
        → KeysUnique w.db.rates
        → outcome_view w' ≡ outcome_view w
        → Accounts key w (some e, w')
    failed-Accounts key w w' e unique same =
        let rates = ap (λ (x : List (Rate F) × List Metric). x.0) same in
        (
          [],
          rates ∙ sym (append-nil w.db.rates),
          rw rates unique,
          tt,
          inr (refl, ap (λ (x : List (Rate F) × List Metric). x.1) same, λ q. cc),
        )

    -- What a run does from a world with the same rates and metrics is also done from this one.
    Accounts-from :
        (key : Text) (w w' : World F) (r : Option Error × World F)
        → outcome_view w' ≡ outcome_view w
        → Accounts key w' r
        → Accounts key w r
    Accounts-from key w w' r same (added, grown, unique, fit, reports) =
        let rates = ap (λ (x : List (Rate F) × List Metric). x.0) same in
        let metrics = ap (λ (x : List (Rate F) × List Metric). x.1) same in
        (added, grown ∙ ap (λ l. l ++ added) rates, unique, fit, rw metrics at reports)

    module _ (entry : Entry) where
      run_provider-Accounts :
          (providers : List ProviderInfo) (last_synced : List (Text × Option Time)) (w : World F)
          → KeysUnique w.db.rates
          → Accounts entry.key w (run_provider o opts entry providers last_synced w)
      unfolding run_provider
      run_provider-Accounts providers last_synced w unique =
          let started = o.now w.tick in
          let v = record (next_tick w) {
            running = some (record zero_running {
              started_at = started;
              stage = codes "starting";
              last_activity = started;
            });
          } in
          let synced = last_synced_of entry.key last_synced in
          let result =
            backfill_provider o entry.key (backfill_range_of entry.adapter)
              (coverage_start_of entry.key providers) synced opts.daily_sync
              opts.daily_sync_lookback v in
          after_backfill-Accounts entry.key synced started w result (
            backfill_provider-IsFaithful o entry.key synced (backfill_range_of entry.adapter)
              (coverage_start_of entry.key providers) opts.daily_sync opts.daily_sync_lookback v
              unique)

      with_last_synced-Accounts :
          (providers : List ProviderInfo) (w : World F)
          (r : Result (List (Text × Option Time)) × World F)
          → KeysUnique w.db.rates
          → outcome_view r.1 ≡ outcome_view w
          → Accounts entry.key w (with_last_synced o opts entry providers r)
      unfolding with_last_synced
      with_last_synced-Accounts providers w (err e, w') unique same =
          failed-Accounts entry.key w w' _ unique same
      with_last_synced-Accounts providers w (ok last_synced, w') unique same =
          Accounts-from entry.key w w' (run_provider o opts entry providers last_synced w') same (
            run_provider-Accounts providers last_synced w'
              (rw (ap (λ (x : List (Rate F) × List Metric). x.0) same) unique))

      with_providers-Accounts :
          (w : World F) (r : Result (List ProviderInfo) × World F)
          → KeysUnique w.db.rates
          → outcome_view r.1 ≡ outcome_view w
          → Accounts entry.key w (with_providers o opts entry r)
      unfolding with_providers
      with_providers-Accounts w (err e, w') unique same =
          failed-Accounts entry.key w w' _ unique same
      with_providers-Accounts w (ok providers, w') unique same =
          with_last_synced-Accounts providers w (get_all_last_synced o w') unique
            (get_all_last_synced-Keeps o w' ∙ same)

      -- From rates that keep the primary key, whatever fails and whenever the context ends: the rates
      -- keep the key and have only grown, by rows fit to be stored, and the run's metric reports as
      -- inserted exactly the number of rows added; or the run returns an error, emits no metric and
      -- adds nothing.
      pub backfill_entry-Accounts :
          (w : World F)
          → KeysUnique w.db.rates
          → Accounts entry.key w (backfill_entry o opts entry w)
      unfolding backfill_entry emit_run_metric
      backfill_entry-Accounts w unique = elim (Option-cases (o.ctx_err w.tick)) [
        | inl alive ↦
            rw (alive, backfill_entry)
              (with_providers-Accounts w (load_all o w) unique (load_all-Keeps o w))
        | inr (e, done) ↦
            rw (done, backfill_entry)
              (let now = o.now w.tick in
                let row = record (initial_result entry.key none) {
                  status = some Status.interrupted;
                } in
                let reported =
                  emit_run_metric start_summary opts.daily_sync (codes "interrupted") w in
                let same = record_sync_run-keeps o row opts.daily_sync now now reported in
                let rates = ap (λ (x : List (Rate F) × List Metric). x.0) same in
                (
                  [],
                  rates ∙ sym (append-nil w.db.rates),
                  rw rates unique,
                  tt,
                  inl (
                    w.metrics,
                    _,
                    codes "interrupted",
                    _,
                    _,
                    _,
                    _,
                    _,
                    _,
                    ap (λ (x : List (Rate F) × List Metric). x.1) same,
                  ),
                ))
      ]
