-- ===== src/Scheduler/Entry/Exit.antt =====
-- The end of `backfillEntry`: the error, the summary and the audit row.
use fx_rates.Prelude.{
  ◌∙◌, sym, ap, ◌≢◌, ◌≡◌, ◌+◌, Text, [], ◌∷◌, ◌++◌, Option, none, some, ◌↔◌, arith, Bool,
  Option-cases, inl, inr, refl,
}
use fx_rates.Clock.{Time}
use fx_rates.Errors.{Error}
use fx_rates.Database.{SyncRun}
use fx_rates.Database.Runs
use fx_rates.World.{World, Oracles, statement}
use fx_rates.Scheduler.{Options, BackfillResult, Status}
use fx_rates.Scheduler.Backfill.Sound.{IsTerminal}
use fx_rates.Scheduler.Entry.{
  emit_provider_metric, after_backfill, record_sync_run, emit_run_metric, RunSummary, summarize,
  after_provider, status_of,
}

-- A terminal status is counted in exactly one of the five counters.
pub summarize-counts_once :
    (key : Text) (r : BackfillResult)
    → IsTerminal r.status
    → let s = summarize key r in
      s.succeeded_providers + s.empty_providers + s.failed_providers + s.unavailable_providers
        + s.up_to_date_providers
      ≡ s.completed_providers
unfolding summarize
summarize-counts_once key r h = ground arith

failed_is_one :
    (key : Text) (r : BackfillResult)
    → r.status ≡ some Status.error
    → (summarize key r).failed_providers ≢ 0
unfolding summarize
failed_is_one key r h = ground arith

none_failed :
    (key : Text) (r : BackfillResult)
    → IsTerminal r.status
    → r.status ≢ some Status.error
    → (summarize key r).failed_providers ≡ 0
unfolding summarize
none_failed key r h f = ground arith

module _ {F : Type 0} where
  after_provider-returns :
      (opts : Options) (key : Text) (s : RunSummary) (e : Option Error) (w : World F)
      → ((after_provider opts key s e w).0 ≡ none) ↔ ((e ≡ none) × (s.failed_providers ≡ 0))
  unfolding after_provider
  after_provider-returns opts key s e w = ground arith

  after_provider-keeps_db :
      (opts : Options) (key : Text) (s : RunSummary) (e : Option Error) (w : World F)
      → (after_provider opts key s e w).1.db ≡ w.db
  unfolding after_provider emit_run_metric
  after_provider-keeps_db opts key s e w = ground arith

  -- The audit row that a run leaves when its statement does not fail.
  abbrev pub IsAudited : BackfillResult → Time → World F → World F → Type 0
  IsAudited result started w w' =
      (row : SyncRun) × (w'.db ≡ record (w.db) { runs = w.db.runs ++ row ∷ [] })
      × (row.provider ≡ result.provider)
      × (row.status ≡ status_of result.status)
      × (row.started_at ≡ started)
      × ((row.error_message ≡ none) ↔ (result.error ≡ []))

  record_sync_run-IsAudited :
      (o : Oracles F) (result : BackfillResult) (daily_sync : Bool) (started finished : Time)
      (w : World F)
      → let w' = record_sync_run o result daily_sync started finished w in
        (w'.tick ≡ w.tick + 1)
        × (o.fault w.tick ≡ none → IsAudited result started w w')
        × (o.fault w.tick ≢ none → w'.db ≡ w.db)
  unfolding record_sync_run Runs.record_sync_run statement
  record_sync_run-IsAudited o result daily_sync started finished w =
      elim (Option-cases (o.fault w.tick)) [
        | inl fine ↦
            rw (fine, record_sync_run, statement)
              (refl, λ _. (_, refl, refl, refl, refl, ground arith), λ f. absurd (f refl))
        | inr (e, faulty) ↦ rw (faulty, record_sync_run, statement) (refl, λ q. cc, λ _. refl)
      ]

  -- A run whose provider has ended returns nil exactly where the context is alive after the audit
  -- row and the provider did not end in `error`; an `unavailable` provider is no failure. Unless its
  -- statement fails, which changes no table, one audit row with the provider's status is appended.
  pub after_backfill-exit :
      (o : Oracles F) (opts : Options) (key : Text) (started : Time) (result : BackfillResult)
      (w : World F)
      → IsTerminal result.status
      → let (e, w') = after_backfill o opts key started (result, w) in
        ((e ≡ none) ↔ ((o.ctx_err (w.tick + 1) ≡ none) × (result.status ≢ some Status.error)))
        × (o.fault w.tick ≡ none → IsAudited result started w w')
        × (o.fault w.tick ≢ none → w'.db ≡ w.db)
  unfolding after_backfill emit_provider_metric
  after_backfill-exit o opts key started result w h =
      let s = summarize key result in
      let ended = emit_provider_metric result opts.daily_sync (record w { running = none }) in
      let audited = record_sync_run o result opts.daily_sync started (o.now w.tick) ended in
      let (ticked, rows, nothing) =
        record_sync_run-IsAudited o result opts.daily_sync started (o.now w.tick) ended in
      let same = after_provider-keeps_db opts key s (o.ctx_err audited.tick) audited in
      let (only, enough) = after_provider-returns opts key s (o.ctx_err audited.tick) audited in
      let alive = ap o.ctx_err ticked in
      (
        (
          λ q. (sym alive ∙ (only q).0, λ bad. failed_is_one key result bad (only q).1),
          λ (c, fine). enough (alive ∙ c, none_failed key result h fine),
        ),
        λ f. rw same (rows f),
        λ f. same ∙ nothing f,
      )
