-- ===== src/Repo.antt =====
-- internal/repo: providers, last-synced dates and currency coverage over the statements.
pub mod Coverage
pub mod Frame
use fx_rates.Prelude.{
  Text, List, [], ◌∷◌, map, Option, none, some, exists, text_eq, if◌then◌else◌, codes,
}
use fx_rates.Clock.{Time}
use fx_rates.Errors.{Result, ok, err, other}
use fx_rates.Database.{Db, Provider, CurrencyCoverage}
use fx_rates.Database.Dates.{Date, date_to_time_ptr}
use fx_rates.Database.Rates
use fx_rates.Database.Providers
use fx_rates.Database.Currencies
use fx_rates.World.{Oracles, Action, ◌>>=◌, ◌>>◌, pure, statement, query}
use fx_rates.Number.{ℤ}

-- `repo.Provider`
pub record ProviderInfo : Type 0 where
  pub key : Text
  pub name : Text
  pub country_code : Option Text
  pub rate_type : Option Text
  pub pivot_currency : Option Text
  pub data_url : Option Text
  pub terms_url : Option Text
  pub publish_time : Option ℤ
  pub publish_days : Option Text
  pub coverage_start : Option Time

-- `int32PtrToIntPtr`
abbrev pub int32_ptr_to_int_ptr : Option ℤ → Option ℤ
int32_ptr_to_int_ptr none = none
int32_ptr_to_int_ptr (some i) = some i

-- One round of the loop of `LoadAll`.
abbrev pub provider_info : Provider → ProviderInfo
provider_info p = record {
  key = p.key;
  name = p.name;
  country_code = p.country_code;
  rate_type = p.rate_type;
  pivot_currency = p.pivot_currency;
  data_url = p.data_url;
  terms_url = p.terms_url;
  publish_time = int32_ptr_to_int_ptr p.publish_time;
  publish_days = p.publish_days;
  coverage_start = date_to_time_ptr p.coverage_start;
}

-- The foreign key of `currency_coverages` refuses a provider that is not there.
abbrev pub insert_coverage : {F : Type 0} → CurrencyCoverage → Db F → Result (Unit {0}) × Db F
insert_coverage c d =
    if exists (λ p. text_eq p.key c.provider_key) d.providers
    then (ok tt, record d { coverages = Currencies.upsert_currency_coverage c d.coverages })
    else (err (other (codes "violates foreign key constraint")), d)

module _ {F : Type 0} (o : Oracles F) where
  -- `LoadAll`
  unfoldable pub load_all : Action F (List ProviderInfo)
  load_all = do
    rows ← query o (λ d. Providers.list_providers d.providers)
    pure (map provider_info rows)

  -- `GetAllLastSynced`: the map as an association list; the keys of the rows are distinct.
  unfoldable pub get_all_last_synced : Action F (List (Text × Option Time))
  get_all_last_synced = do
    rows ← query o (λ d. Rates.get_all_last_synced d.rates)
    pure (map (λ r. (r.0, date_to_time_ptr r.1)) rows)

  -- The two upserts of one round of `UpsertCurrencySummary`.
  upsert_summary : Text → Text → Date × Date → Action F (Unit {0})
  upsert_summary key code (first, last) = do
    statement o (
        insert_coverage
          (record { provider_key = key; iso_code = code; start_date = first; end_date = last }))
    statement o (λ d. (
      ok tt,
      record d {
        currencies =
            Currencies.upsert_currency
              (record { iso_code = code; start_date = first; end_date = last }) d.currencies;
      },
    ))

  -- A code whose range cannot be read, or that has no rates, is skipped.
  after_range : Text → Text → Action F (Unit {0}) → Result (Date × Date) → Action F (Unit {0})
  unfolding upsert_summary
  after_range key code rest (err e) w = rest w
  after_range key code rest (ok (first, last)) w =
      if first.valid then (upsert_summary key code (first, last) >> rest) w else rest w

  -- `UpsertCurrencySummary`
  unfoldable pub upsert_currency_summary : Text → List Text → Action F (Unit {0})
  unfolding after_range
  upsert_currency_summary key [] w = (ok tt, w)
  upsert_currency_summary key (code ∷ iso_codes) w =
      let (range, w') = query o (λ d. Rates.get_currency_date_range key code d.rates) w in
      after_range key code (upsert_currency_summary key iso_codes) range w'
