-- ===== src/Repo/Frame.antt =====
-- `UpsertCurrencySummary` and the parts of the world beside its two tables.
use fx_rates.Prelude.{
  ℕ, ◌≡◌, refl, ◌∙◌, Text, List, [], ◌∷◌, Bool-cases, inl, inr, exists, text_eq, Option,
}
use fx_rates.Clock.{Time}
use fx_rates.Provider.{FetchEvent}
use fx_rates.Errors.{Result, ok, err}
use fx_rates.Database.{Rate, Provider, SyncRun, CurrencyCoverage}
use fx_rates.Database.Dates.{Date}
use fx_rates.Database.Rates
use fx_rates.World.{World, Oracles, Action, Progress, RunningProvider, Metric}
use fx_rates.World.Frame.{Keeps, Keeps-bind, Keeps-statement, Keeps-query}
use fx_rates.Repo.{insert_coverage, upsert_summary, after_range, upsert_currency_summary}

-- All of the world but its clock, the coverages and the currencies.
abbrev pub Kept : Type 0 → Type 0
Kept F =
    List (Rate F)
    × List Provider
    × List SyncRun
    × Progress
    × Option RunningProvider
    × List Metric
    × List FetchEvent
    × List (Time × Time × ℕ)

module _ {F : Type 0} where
  abbrev pub kept_view : World F → Kept F
  kept_view w = (
    w.db.rates, w.db.providers, w.db.runs, w.progress, w.running, w.metrics, w.events, w.requests,
  )

  insert_coverage-kept :
      (c : CurrencyCoverage) (w : World F)
      → kept_view (record w { db = (insert_coverage c w.db).1 }) ≡ kept_view w
  insert_coverage-kept c w =
      elim (Bool-cases (exists (λ p. text_eq p.key c.provider_key) w.db.providers)) [
        | inl known ↦ rw known
        | inr missing ↦ rw missing
      ]

  module _ (o : Oracles F) where
    upsert_summary-kept :
        (key code : Text) (range : Date × Date) → Keeps kept_view (upsert_summary o key code range)
    unfolding upsert_summary
    upsert_summary-kept key code (first, last) =
        Keeps-bind kept_view _ _
          (Keeps-statement kept_view o _ (λ w. refl) (insert_coverage-kept _))
          (λ _. Keeps-statement kept_view o _ (λ w. refl) (λ w. refl))

    after_range-kept :
        (key code : Text) (rest : Action F (Unit {0})) (range : Result (Date × Date))
        → Keeps kept_view rest
        → Keeps kept_view (after_range o key code rest range)
    unfolding after_range
    after_range-kept key code rest (err e) h w = h w
    after_range-kept key code rest (ok (first, last)) h w = elim (Bool-cases first.valid) [
      | inl dated ↦ simp dated (
          Keeps-bind kept_view (upsert_summary o key code (first, last)) (λ _. rest)
            (upsert_summary-kept key code (first, last)) (λ _. h) w)
      | inr undated ↦ simp undated (h w)
    ]

    -- Whatever statement fails, the summary changes no rate, provider or audit row, and none of the
    -- rest of the world.
    pub upsert_currency_summary-kept :
        (key : Text) (iso_codes : List Text)
        → Keeps kept_view (upsert_currency_summary o key iso_codes)
    unfolding upsert_currency_summary
    upsert_currency_summary-kept key [] w = refl
    upsert_currency_summary-kept key (code ∷ iso_codes) w =
        after_range-kept key code _ _ (upsert_currency_summary-kept key iso_codes) _
        ∙ Keeps-query kept_view o (λ d. Rates.get_currency_date_range key code d.rates) (λ w. refl)
            w
