-- ===== src/Scheduler/Batch.antt =====
-- One batch of records: `filterValidRecords`, `uniqueCurrencies`, `bulkUpsertRates` and
-- `processBatch`.
pub mod Filter
pub mod Unique
pub mod Store
pub mod Refine
pub mod Again
pub mod Served
pub mod Sound
pub mod Events
use fx_rates.Prelude.{
  ℕ, ◌+◌, ◌-◌, Bool, not, ◌&&◌, ◌||◌, Text, codes, List, [], ◌∷◌, ◌++◌, Option, none, some, length,
  exists, leb, ltb, text_eq, map, if◌then◌else◌,
}
use fx_rates.Clock.{Time, truncate_day}
use fx_rates.Float64.{Float64}
use fx_rates.Errors.{Error, Result, ok, err, other}
use fx_rates.Provider.{Record}
use fx_rates.Database.{Db, Rate}
use fx_rates.Database.Rates.{insert_staged}
use fx_rates.World.{World, Oracles, Action, ◌>>=◌, ◌>>◌, pure, statement, query}
use fx_rates.Repo.{upsert_currency_summary}
use fx_rates.Scheduler.{is_excluded}
use fx_rates.Scheduler.Start.{max_time_ptr}

module _ {F : Type 0} ⦃fl : Float64 F⦄ where
  -- The two tests of the loop of `filterValidRecords`.
  unfoldable pub is_valid_record : Record F → Bool
  unfolding is_excluded
  is_valid_record r =
      not (is_excluded r.quote || is_excluded r.base)
      && not (fl.le r.rate fl.nought || fl.is_nan r.rate || fl.is_inf r.rate)

  filter_from : Text → List (Record F) → Option Time → List (Record F) × Option Time
  unfolding is_valid_record max_time_ptr
  filter_from key [] seen = ([], seen)
  filter_from key (r ∷ records) seen =
      let kept = is_valid_record r in
      let (valid, seen') =
        filter_from key records (if kept then max_time_ptr seen (some r.date) else seen) in
      (if kept then record r { provider = key } ∷ valid else valid, seen')

  -- `filterValidRecords`
  unfoldable pub filter_valid_records : List (Record F) → Text → List (Record F) × Option Time
  unfolding filter_from
  filter_valid_records records key = filter_from key records none

-- `add` of `uniqueCurrencies`; what was seen is what is in the output.
abbrev pub add_currency : List Text → Text → List Text
add_currency out c = if exists (text_eq c) out then out else out ++ c ∷ []

module _ {F : Type 0} where
  unique_from : List Text → List (Record F) → List Text
  unique_from out [] = out
  unique_from out (r ∷ records) =
      unique_from (add_currency (add_currency out r.base) r.quote) records

  -- `uniqueCurrencies`
  unfoldable pub unique_currencies : List (Record F) → List Text
  unfolding unique_from
  unique_currencies = unique_from []

  -- A row of the COPY; the column is a DATE.
  abbrev pub rate_row : Record F → Rate F
  rate_row r = record {
    date = truncate_day r.date;
    base = r.base;
    quote = r.quote;
    rate = r.rate;
    provider = r.provider;
  }

  -- The row fits the columns VARCHAR(10), VARCHAR(3) and VARCHAR(3) of `rates_stage`.
  abbrev pub row_fits : Rate F → Bool
  row_fits r = leb (length r.provider) 10 && leb (length r.base) 3 && leb (length r.quote) 3

  abbrev pub copy_rows : List (Rate F) → Db F → Result (Unit {0}) × Db F
  copy_rows rows d = (
    if exists (λ r. not (row_fits r)) rows
        then err (other (codes "value too long for type character varying"))
        else ok tt,
    d,
  )

  module _ (o : Oracles F) where
    -- `bulkUpsertRates`: begin, create the stage, copy into it, insert from it, commit. What the
    -- transaction has written is in the tables only after the commit; a statement that fails ends
    -- in the deferred rollback.
    unfoldable pub bulk_upsert_rates : List (Record F) → Action F ℕ
    unfolding statement query
    bulk_upsert_rates [] = pure 0
    bulk_upsert_rates (r ∷ records) = do
      let rows = map rate_row (r ∷ records)
      statement o (λ d. (ok tt, d))
      statement o (λ d. (ok tt, d))
      statement o (copy_rows rows)
      (inserted, rates) ← query o (λ d. insert_staged rows d.rates)
      statement o (λ d. (ok tt, record d { rates = rates }))
      pure inserted

    -- From the end of the insertion on.
    after_upsert : Text → List (Record F) → Result ℕ × World F → Option Error × World F
    unfolding unique_currencies
    after_upsert key valid (err e, w) = (some e, w)
    after_upsert key valid (ok inserted, w) =
        let w' = record w {
          progress = record (w.progress) {
            inserted = w.progress.inserted + inserted;
            skipped = w.progress.skipped + (length valid - inserted);
          };
        } in
        if ltb 0 inserted
        then (none, (upsert_currency_summary o key (unique_currencies valid) w').1)
        else (none, w')

    -- From the end of the filter on.
    store_valid : Text → List (Record F) → World F → Option Error × World F
    unfolding after_upsert
    store_valid key [] w = (none, w)
    store_valid key (r ∷ valid) w = after_upsert key (r ∷ valid) (bulk_upsert_rates (r ∷ valid) w)

    -- `processBatch`
    unfoldable pub process_batch :
        ⦃fl : Float64 F⦄ → Text → List (Record F) → World F → Option Error × World F
    unfolding store_valid
    process_batch key [] w = (none, w)
    process_batch key (r ∷ records) w =
        let (valid, max_seen) = filter_valid_records (r ∷ records) key in
        store_valid key valid (record w {
          progress = record (w.progress) {
            fetched = w.progress.fetched + length (r ∷ records);
            max_seen_date = max_time_ptr w.progress.max_seen_date max_seen;
          };
        })
