-- ===== src/Database/Rates.antt =====
-- The statements on `rates`: the insertion of `bulkUpsertRates` (internal/scheduler/backfill.go),
-- and the queries GetAllLastSynced, GetLastSyncedForProvider and GetCurrencyDateRange.
pub mod Mapping
pub mod Upsert
pub mod Validation
use fx_rates.Prelude.{
  ℕ, ◌+◌, Bool, ◌&&◌, ◌||◌, Text, List, [], ◌∷◌, ◌++◌, exists, ◌==◌, text_eq, if◌then◌else◌, map,
}
use fx_rates.Clock.{Time}
use fx_rates.Database.{Rate}
use fx_rates.Database.Dates.{Date, maximum, minimum}

module _ {F : Type 0} where
  -- The rows have the same (provider, date, base, quote).
  unfoldable pub same_key : Rate F → Rate F → Bool
  same_key r q =
      text_eq r.provider q.provider
      && (r.date == q.date)
      && text_eq r.base q.base
      && text_eq r.quote q.quote

  unfoldable pub has_key : Rate F → List (Rate F) → Bool
  has_key r = exists (same_key r)

  -- `INSERT INTO rates … SELECT … FROM rates_stage ON CONFLICT DO NOTHING RETURNING 1`, counted.
  -- SQL leaves the order of the staged rows open; here it is that of the COPY.
  unfoldable pub insert_staged : List (Rate F) → List (Rate F) → ℕ × List (Rate F)
  unfolding has_key same_key
  insert_staged [] rates = (0, rates)
  insert_staged (r ∷ staged) rates =
      let taken = has_key r rates in
      let (n, rates') = insert_staged staged (if taken then rates else rates ++ r ∷ []) in
      (if taken then n else n + 1, rates')

  abbrev pub dates_where : (Rate F → Bool) → List (Rate F) → List Time
  dates_where p [] = []
  dates_where p (r ∷ rates) = let rest = dates_where p rates in if p r then r.date ∷ rest else rest

  -- `SELECT MAX(date) FROM rates WHERE provider = $1`
  unfoldable pub get_last_synced_for_provider : Text → List (Rate F) → Date
  get_last_synced_for_provider key rates = maximum (dates_where (λ r. text_eq r.provider key) rates)

  -- The groups of `GROUP BY provider`, each once.
  abbrev pub distinct_providers : List (Rate F) → List Text
  distinct_providers [] = []
  distinct_providers (r ∷ rates) =
      let rest = distinct_providers rates in
      if exists (text_eq r.provider) rest then rest else r.provider ∷ rest

  -- `SELECT provider, MAX(date) FROM rates GROUP BY provider`
  unfoldable pub get_all_last_synced : List (Rate F) → List (Text × Date)
  unfolding get_last_synced_for_provider
  get_all_last_synced rates =
      map (λ key. (key, get_last_synced_for_provider key rates)) (distinct_providers rates)

  -- `SELECT MIN(date), MAX(date) FROM rates WHERE provider = $1 AND (quote = $2 OR base = $2)`
  abbrev pub observes : Text → Text → Rate F → Bool
  observes key code r = text_eq r.provider key && (text_eq r.quote code || text_eq r.base code)

  unfoldable pub get_currency_date_range : Text → Text → List (Rate F) → Date × Date
  get_currency_date_range key code rates =
      let dates = dates_where (observes key code) rates in (minimum dates, maximum dates)
